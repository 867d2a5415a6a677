-- ===== src/Sock/Data/Advance.antt =====
-- The gap is closed: `rcv_data_so_far` goes on, and a message may be complete.
use user_message_protocol.Base.{
  ℕ, suc, ◌+◌, ◌-◌, ◌≡◌, refl, sym, ap, ◌∙◌, subst, List, [], ◌∷◌, ◌++◌, Option, none, some, Bool,
  true, false, arith, ◌==◌, ◌||◌, not, u16, if◌then◌else◌, All, ==_refl,
}
use mathlib.Core.List.{append_assoc}
use user_message_protocol.Packet.{UmpPacket}
use user_message_protocol.Sock.{UmpSocket, Node}
use user_message_protocol.Sock.Receive.{
  check_rcv_data_so_far, check_packet, packet_at, message_complete,
}
use user_message_protocol.Sock.Data.{run_on, extend_from, extend_at}
use user_message_protocol.Sock.Data.Place.{IsElsewhere, packet_at-middle}
use user_message_protocol.Sock.Data.Sent.{Sent, IsSent, IsPart, number, number-suc}
use user_message_protocol.Sock.Data.Held.{
  Run, Ascends, last_of, front_of, front-last, last_of-IsPart,
}
use user_message_protocol.Sock.Data.Extend.{
  Reached, at_start, at_last, run_on-Run, Run-last, locate-last,
}

-- The nodes with the one that closes the gap, cut behind the last one in front of the next gap.
pub regroup :
    (before more rest : List Node) (n : Node)
    → before ++ n ∷ (more ++ rest) ≡ (before ++ front_of n more) ++ last_of n more ∷ rest
regroup before more rest n =
    ap (λ (xs : List Node). before ++ (xs ++ rest)) (sym (front-last n more))
    ∙ ap (λ (xs : List Node). before ++ xs)
        (append_assoc (front_of n more) (last_of n more ∷ []) rest)
    ∙ sym (append_assoc before (front_of n more) (last_of n more ∷ rest))

last_elsewhere :
    (a : ℕ) (before front : List Node) (xs : List Node) (t : Node)
    → before ≡ front ++ t ∷ []
    → All (IsElsewhere a) (before ++ xs)
    → (a == t.addr) ≡ false
last_elsewhere a before front xs t e h =
    picked front (subst (λ (ys : List Node). All (IsElsewhere a) (ys ++ xs)) e h)
  where
    picked : (ys : List Node) → All (IsElsewhere a) ((ys ++ t ∷ []) ++ xs) → (a == t.addr) ≡ false
    picked [] g = ground arith
    picked (y ∷ ys) g = picked ys g.1

extend_from-goes :
    {D : Type 0} (s : UmpSocket D) (fresh : Bool) (t last : Node) (ns : List Node) (q : ℕ)
    → run_on t ns ≡ last
    → u16 (last.packet.seq_num + 1) ≡ q
    → (fresh || not (last.addr == t.addr)) ≡ true
    → extend_from fresh t ns s
      ≡ check_rcv_data_so_far
          (record s { rcv_data_so_far = some last.addr; their_data_seq_base = q })
unfolding extend_from
extend_from-goes s fresh t last ns q e h c = rw (e, h, c) refl

module _ (m : Sent) (v : IsSent m) (k kk : ℕ) (before more rest : List Node) (n : Node)
    (p : IsPart m k n.packet) (r : Run m (suc k) more (suc kk))
    (a : Ascends m (suc (suc kk)) rest m.count)
    (others : All (IsElsewhere (last_of n more).addr) (before ++ front_of n more)) where
  module _ {D : Type 0} (s : UmpSocket D) where
    -- The socket when the pointer shows the last packet in front of the next gap.
    abbrev pub advanced : UmpSocket D
    advanced = record s {
      rcv_data_so_far = some (last_of n more).addr;
      their_data_seq_base = number m (suc kk);
    }

    next : u16 ((last_of n more).packet.seq_num + 1) ≡ number m (suc kk)
    next = rw ((last_of-IsPart m k n more kk p r).numbered) (number-suc m v kk)

    same_number :
        s.their_data_seq_base ≡ number m k → (n.packet.seq_num == s.their_data_seq_base) ≡ true
    same_number b = rw (p.numbered, b) (==_refl (number m k))

    pub extend_at-goes :
        (so_far : Option ℕ)
        → s.their_data_seq_base ≡ number m k
        → Reached before so_far
        → Run m 0 before k
        → extend_at so_far (before ++ n ∷ (more ++ rest)) s ≡ check_rcv_data_so_far advanced
    unfolding extend_at
    extend_at-goes none b (at_start nothing) br =
        ap (λ (xs : List Node). extend_at none (xs ++ n ∷ (more ++ rest)) s) nothing
        ∙ ap (λ (c : Bool). if c then extend_from true n (more ++ rest) s else s) (same_number b)
        ∙ extend_from-goes s true n (last_of n more) (more ++ rest) _
            (run_on-Run m v k (suc kk) n more rest p r a) next refl
    extend_at-goes (some x) b (at_last front t parted elsewhere) br =
        let q = Run-last m v 0 k front t (subst (λ (xs : List Node). Run m 0 xs k) parted br) in
        rw (locate-last m v before front (n ∷ (more ++ rest)) t parted elsewhere, extend_at)
          (extend_from-goes s false t (last_of n more) (n ∷ (more ++ rest)) _
            (run_on-Run m v (k - 1) (suc kk) t (n ∷ more) rest q.1
              (subst (λ (x : ℕ). Run m x (n ∷ more) (suc kk)) (omega (arith, q.0)) (p, r)) a)
            next (ap not (last_elsewhere _ before front (front_of n more) t parted others)))

    -- A message is complete exactly when the pointer shows its last packet.
    pub check-advanced :
        s.rcv_data_packets ≡ before ++ n ∷ (more ++ rest)
        → check_rcv_data_so_far advanced ≡ (
            if suc kk == m.count then message_complete (last_of n more).addr advanced else advanced)
    unfolding check_rcv_data_so_far check_packet
    check-advanced e =
        let last = last_of n more in
        ap (λ (o : Option UmpPacket). check_packet last.addr o advanced)
          (ap (packet_at last.addr) (e ∙ regroup before more rest n)
            ∙ packet_at-middle last.addr last rest refl (before ++ front_of n more) others)
        ∙ ap (λ (c : Bool). if c then message_complete last.addr advanced else advanced)
            ((last_of-IsPart m k n more kk p r).ending)
