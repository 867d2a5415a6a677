-- ===== src/Sock/Data/Store.antt =====
-- A packet of the message is stored: behind the gap, again, or into the gap.
use user_message_protocol.Base.{
  ℕ, suc, ◌+◌, ◌<◌, refl, sym, subst, List, ◌∷◌, ◌++◌, Bool, arith, All,
}
use mathlib.Core.List.{append_assoc}
use user_message_protocol.Packet.{UmpPacket}
use user_message_protocol.Sock.{UmpSocket, Node}
use user_message_protocol.Sock.Data.View.{view}
use user_message_protocol.Sock.Data.Sent.{Sent, IsSent, IsPart, number, number-same}
use user_message_protocol.Sock.Data.Held.{Run, Ascends, Ascends-append}
use user_message_protocol.Sock.Data.Apart.{
  Distinct, IsOld, All-insert, Distinct-insert, old-IsElsewhere, old-IsOld, holds-append,
  holds-insert, holds-Run,
}
use user_message_protocol.Sock.Data.Gather.{Gathered, IsSeen, also, noded, listed}

-- The list with a node put into it is a list of nodes that are apart, and older than the next one.
module _ {D : Type 0} (s : UmpSocket D) (p : UmpPacket) (before lo hi : List Node) where
  pub grown-Distinct :
      Distinct (before ++ (lo ++ hi))
      → All (IsOld s.next_addr) (before ++ (lo ++ hi))
      → Distinct (before ++ (lo ++ noded s p ∷ hi))
  grown-Distinct d o = subst Distinct (append_assoc before lo (noded s p ∷ hi)) (
      Distinct-insert (noded s p) (before ++ lo) hi
        (old-IsElsewhere s.next_addr ((before ++ lo) ++ hi)
          (subst (All (IsOld s.next_addr)) (sym (append_assoc before lo hi)) o))
        (subst Distinct (sym (append_assoc before lo hi)) d))

  pub grown-IsOld :
      All (IsOld s.next_addr) (before ++ (lo ++ hi))
      → All (IsOld (s.next_addr + 1)) (before ++ (lo ++ noded s p ∷ hi))
  grown-IsOld o = subst (All (IsOld (s.next_addr + 1))) (append_assoc before lo (noded s p ∷ hi)) (
      All-insert (IsOld (s.next_addr + 1)) (noded s p) (before ++ lo) hi (omega arith) (
        old-IsOld s.next_addr ((before ++ lo) ++ hi)
          (subst (All (IsOld s.next_addr)) (sym (append_assoc before lo hi)) o)))

module _ (m : Sent) (v : IsSent m) where
  -- What is gathered with a packet behind the gap, at its place.
  pub grown-Gathered :
      {D : Type 0} (s : UmpSocket D) (p : UmpPacket) (k j : ℕ) (before lo hi : List Node)
      → IsPart m j p
      → k < j
      → Gathered m k before (lo ++ hi) (view s)
      → Ascends m (suc k) lo j
      → Ascends m (suc j) hi m.count
      → Gathered m k before
          (lo ++ noded s p ∷ hi)
          (view (listed (before ++ (lo ++ noded s p ∷ hi)) s))
  grown-Gathered s p k j before lo hi part hk g a b =
      let h = part.inside in
      record {
        base = g.base;
        list = refl;
        run = g.run;
        ascends =
            Ascends-append m (suc k) lo (noded s p ∷ hi) j m.count (omega arith) (omega arith) a
              (j, omega arith, h, part, b);
        reached = g.reached;
        distinct = grown-Distinct s p before lo hi g.distinct g.old;
        old = grown-IsOld s p before lo hi g.old;
      }

  pub grown-IsSeen :
      (k j : ℕ) (n : Node) (lo hi : List Node) (seen : ℕ → Bool)
      → IsPart m j n.packet
      → IsSeen m k (lo ++ hi) seen
      → IsSeen m k (lo ++ n ∷ hi) (also j seen)
  grown-IsSeen k j n lo hi seen part e = record {
    exact = λ i h.
        let g = part.inside in
        rw
          (
            holds-insert (number m i) n lo hi,
            part.numbered,
            number-same m v i j (omega arith) (omega arith),
            e.exact i h,
          )
          (ground arith);
  }

  -- A packet that is there already adds nothing.
  pub known-IsSeen :
      (k j : ℕ) (t : Node) (lo hi : List Node) (seen : ℕ → Bool)
      → IsPart m j t.packet
      → IsSeen m k (lo ++ t ∷ hi) seen
      → IsSeen m k (lo ++ t ∷ hi) (also j seen)
  known-IsSeen k j t lo hi seen part e = record {
    exact = λ i h.
        let g = part.inside in
        rw
          (
            e.exact i h,
            holds-insert (number m i) t lo hi,
            part.numbered,
            number-same m v i j (omega arith) (omega arith),
          )
          (ground arith);
  }

  -- A packet that closes the gap, with those that go on behind it.
  pub closed-IsSeen :
      (k kk : ℕ) (more rest : List Node) (seen : ℕ → Bool)
      → k < m.count
      → Run m (suc k) more kk
      → Ascends m (suc kk) rest m.count
      → k < kk
      → IsSeen m k (more ++ rest) seen
      → IsSeen m kk rest (also k seen)
  closed-IsSeen k kk more rest seen hk r a u e = record {
    exact = λ i h.
        rw (e.exact i h, holds-append (number m i) more rest, holds-Run m v i h (suc k) more kk r)
          (ground arith);
  }
