-- ===== src/Sock/Data/Closing.antt =====
-- A packet of the message that goes into the gap.
use user_message_protocol.Base.{
  ℕ, suc, ◌+◌, ◌<◌, ◌≤◌, ◌≡◌, refl, sym, ap, ◌∙◌, subst, List, [], ◌∷◌, ◌++◌, Option, some, Bool,
  arith, length, ◌==◌, if◌then◌else◌, All, if_cases,
}
use mathlib.Core.List.{append_assoc, append-nil}
use user_message_protocol.Packet.{UmpPacket}
use user_message_protocol.Sock.{UmpSocket, Node, LockState, locked, unlocked}
use user_message_protocol.Sock.Receive.{message_complete, until, behind}
use user_message_protocol.Sock.Data.{store_packet}
use user_message_protocol.Sock.Data.View.{View, view}
use user_message_protocol.Sock.Data.Place.{IsElsewhere, until-middle, behind-middle}
use user_message_protocol.Sock.Data.Sent.{Sent, IsSent, IsPart, number}
use user_message_protocol.Sock.Data.Held.{
  Run, Ascends, last_of, front_of, Run-append, join_data-Run, Run-le, front-last, last_of-IsPart,
}
use user_message_protocol.Sock.Data.Extend.{at_last}
use user_message_protocol.Sock.Data.Advance.{advanced, extend_at-goes, check-advanced, regroup}
use user_message_protocol.Sock.Data.Complete.{taken, view-message_complete}
use user_message_protocol.Sock.Data.Apart.{Distinct, IsOld, Distinct-front}
use user_message_protocol.Sock.Data.Gather.{
  Waits, Gathered, IsSeen, also, noded, listed, dangling-listed, store_packet-placed,
  insert_packet-placed,
}
use user_message_protocol.Sock.Data.Store.{grown-Distinct, grown-IsOld, closed-IsSeen}
use user_message_protocol.Sock.Data.Receiving.{
  Receiving, gathering, complete, Ended, answered, kept, Through,
}

Ascends-none : (m : Sent) (b e : ℕ) (ns : List Node) → e ≤ b → Ascends m b ns e → ns ≡ []
Ascends-none m b e [] h a = refl
Ascends-none m b e (n ∷ ns) h (j, l, u, p, a) = absurd (omega arith)

-- What is seen of a socket that has taken the packets `ns` of the message.
module _ (m : Sent) (msg : Option (List ℕ)) (ns : List Node) (w : View)
    (base : w.their_data_seq_base ≡ number m m.count) (run : Run m 0 ns m.count) where
  taken-Through : (l : LockState) → Waits l msg w → Through m (taken l ns w)
  taken-Through locked h = record {
    state = h.state;
    base = base;
    list = refl;
    so_far = refl;
    none_complete = refl;
    first_end = refl;
    rec_locked = refl;
  }
  taken-Through unlocked h = record {
    state = h.state;
    base = base;
    list = refl;
    so_far = refl;
    none_complete = refl;
    first_end = refl;
    rec_locked = h.rec_locked;
  }

  taken-Ended : (l : LockState) → Waits l msg w → Ended m msg (taken l ns w) l
  taken-Ended locked h =
      let joined = join_data-Run m 0 ns m.count m.count (omega arith) run in
      answered (ap some joined) (ap (length {0}) joined) refl refl refl
  taken-Ended unlocked h = kept h.rec_msg run

module _ (m : Sent) (v : IsSent m) (l : LockState) (msg : Option (List ℕ)) {D : Type 0}
    (s : UmpSocket D) (p : UmpPacket) (k : ℕ) (before : List Node) (seen : ℕ → Bool)
    (part : IsPart m k p) (w : Waits l msg (view s)) where
  module _ (kk : ℕ) (more rest : List Node) (g : Gathered m k before (more ++ rest) (view s))
      (e : IsSeen m k (more ++ rest) seen) (r : Run m (suc k) more (suc kk))
      (a : Ascends m (suc (suc kk)) rest m.count) where
    abbrev n : Node
    n = noded s p

    abbrev nodes : List Node
    nodes = before ++ n ∷ (more ++ rest)

    inside : k < m.count
    inside = part.inside

    apart : Distinct nodes
    apart = grown-Distinct s p before [] (more ++ rest) g.distinct g.old

    others : All (IsElsewhere (last_of n more).addr) (before ++ front_of n more)
    others =
        Distinct-front (before ++ front_of n more) rest (last_of n more)
          (subst Distinct (regroup before more rest n) apart)

    abbrev moved : UmpSocket D
    moved = advanced m v k kk before more rest n part r a others (listed nodes s)

    store_packet-closes :
        store_packet s p
        ≡ (if suc kk == m.count then message_complete (last_of n more).addr moved else moved)
    store_packet-closes =
        store_packet-placed s p nodes w.linked (
          insert_packet-placed m v s p k k before part inside (omega arith) [] (more ++ rest) g tt
            g.ascends)
        ∙ extend_at-goes m v k kk before more rest n part r a others (listed nodes s)
            s.rcv_data_so_far g.base g.reached g.run
        ∙ check-advanced m v k kk before more rest n part r a others (listed nodes s) refl

    up_to : suc kk ≤ m.count
    up_to = (last_of-IsPart m k n more kk part r).inside

    seen_now : IsSeen m (suc kk) rest (also k seen)
    seen_now =
        closed-IsSeen m v k (suc kk) more rest seen inside r a
          (omega (arith, Run-le m (suc k) more (suc kk) r)) e

    still-Waits : Waits l msg (view moved)
    still-Waits = record {
      state = w.state;
      none_complete = w.none_complete;
      none_taken = w.none_taken;
      rec_locked = w.rec_locked;
      rec_msg = w.rec_msg;
      linked = dangling-listed nodes s w.linked;
    }

    now-Run : Run m 0 (before ++ n ∷ more) (suc kk)
    now-Run = Run-append m 0 before (n ∷ more) k (suc kk) g.run (part, r)

    goes_on : suc kk < m.count → Receiving m l msg (also k seen) (view moved)
    goes_on h =
        let parted : before ++ n ∷ (more ++ rest) ≡ (before ++ n ∷ more) ++ rest =
          sym (append_assoc before (n ∷ more) rest) in
        gathering (suc kk) (before ++ n ∷ more) rest h still-Waits
          (record {
            base = refl;
            list = parted;
            run = now-Run;
            ascends = a;
            reached =
                at_last (before ++ front_of n more) (last_of n more)
                  (ap (λ (xs : List Node). before ++ xs) (sym (front-last n more))
                    ∙ sym (append_assoc before (front_of n more) (last_of n more ∷ [])))
                  others;
            distinct = subst Distinct parted apart;
            old =
                subst (All (IsOld (s.next_addr + 1))) parted
                  (grown-IsOld s p before [] (more ++ rest) g.old);
          })
          seen_now

    ends :
        suc kk ≡ m.count
        → Receiving m l msg (also k seen) (view (message_complete (last_of n more).addr moved))
    ends h =
        let none_behind = Ascends-none m (suc (suc kk)) m.count rest (omega arith) a in
        let last = last_of n more in
        let front = before ++ front_of n more in
        let cut = regroup before more rest n in
        let all =
          ap (until last.addr) cut
          ∙ until-middle last.addr last rest refl front others
          ∙ ap (λ (xs : List Node). front ++ last ∷ xs) (sym none_behind)
          ∙ sym cut in
        let nothing =
          ap (behind last.addr) cut
          ∙ behind-middle last.addr last rest refl front others
          ∙ none_behind in
        let whole : Run m 0 nodes m.count = subst (Run m 0 nodes) h (
          subst (λ (xs : List Node). Run m 0 (before ++ n ∷ xs) (suc kk))
            (sym (append-nil more) ∙ ap (λ (xs : List Node). more ++ xs) (sym none_behind))
            now-Run) in
        let base : number m (suc kk) ≡ number m m.count = ap (number m) h in
        subst (Receiving m l msg (also k seen))
          (sym (
            view-message_complete l last.addr moved w.none_taken w.none_complete all nothing refl
              w.rec_locked))
          (complete (taken-Through m msg nodes (view moved) base whole l still-Waits)
            (taken-Ended m msg nodes (view moved) base whole l still-Waits)
            (λ i hi. seen_now.exact i hi ∙ ground arith))

    pub store_packet-Receiving_closes : Receiving m l msg (also k seen) (view (store_packet s p))
    store_packet-Receiving_closes =
        subst (λ (t : UmpSocket D). Receiving m l msg (also k seen) (view t))
          (sym store_packet-closes)
          (if_cases (λ (t : UmpSocket D). Receiving m l msg (also k seen) (view t))
            (suc kk == m.count) (λ h. ends (ground arith)) (λ h. goes_on (ground (arith, up_to))))
