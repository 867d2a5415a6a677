-- ===== src/Sock/Data/Extend.antt =====
-- What `rcv_data_so_far` does at a list of received packets: it stays where the gap is, or goes on to
-- the last packet in front of the next gap.
use user_message_protocol.Base.{
  ℕ, suc, ◌+◌, ◌-◌, ◌<◌, ◌≤◌, ◌≡◌, refl, sym, ap, ◌∙◌, subst, List, [], ◌∷◌, ◌++◌, Option, none,
  some, false, arith, u16, All,
}
use mathlib.Core.List.{append_assoc}
use user_message_protocol.Sock.{UmpSocket, Node}
use user_message_protocol.Sock.Data.{run_on, extend_from, extend_at, locate}
use user_message_protocol.Sock.Data.View.{view}
use user_message_protocol.Sock.Data.Insert.{IsAhead}
use user_message_protocol.Sock.Data.Place.{IsBefore, IsSame, IsElsewhere, locate-middle}
use user_message_protocol.Sock.Data.Sent.{
  Sent, IsSent, IsPart, number, ltb-number, number-same, number-suc,
}
use user_message_protocol.Sock.Data.Held.{Run, Ascends, last_of, Run-le}

-- The pointer shows the last node of a list, or is null where there is none.
pub data Reached : List Node → Option ℕ → Type 0 where
  at_start : {ns : List Node} → ns ≡ [] → Reached ns none
  at_last :
      {ns : List Node} (front : List Node) (t : Node)
      → ns ≡ front ++ t ∷ []
      → All (IsElsewhere t.addr) front
      → Reached ns (some t.addr)

module _ (m : Sent) (v : IsSent m) where
  part-IsAhead :
      (k i j : ℕ) (n t : Node)
      → k ≤ m.count
      → j < i
      → IsPart m j n.packet
      → IsPart m i t.packet
      → IsAhead (number m k) n t
  part-IsAhead k i j n t hk h p q =
      rw (p.numbered, q.numbered) (ltb-number m v k i j hk q.inside p.inside ∙ ground arith)

  part-IsBefore :
      (k i j : ℕ) (n t : Node)
      → k ≤ m.count
      → i < j
      → IsPart m j n.packet
      → IsPart m i t.packet
      → IsBefore (number m k) n t
  part-IsBefore k i j n t hk h p q =
      let h1 = p.inside in
      let h2 = q.inside in
      rw (p.numbered, q.numbered)
        (
          ltb-number m v k i j hk h2 h1 ∙ ground arith,
          number-same m v i j (omega arith) (omega arith) ∙ ground arith,
        )

  pub part-IsSame :
      (k j : ℕ) (n t : Node)
      → k ≤ m.count
      → IsPart m j n.packet
      → IsPart m j t.packet
      → IsSame (number m k) n t
  part-IsSame k j n t hk p q =
      let h1 = p.inside in
      rw (p.numbered, q.numbered)
        (
          ltb-number m v k j j hk h1 h1 ∙ ground arith,
          number-same m v j j (omega arith) (omega arith) ∙ ground arith,
        )

  pub Ascends-IsAhead :
      (k j b : ℕ) (n : Node) (ns : List Node)
      → k ≤ m.count
      → j < b
      → IsPart m j n.packet
      → Ascends m b ns m.count
      → All (IsAhead (number m k) n) ns
  Ascends-IsAhead k j b n [] hk h p a = tt
  Ascends-IsAhead k j b n (t ∷ ts) hk h p (i, l, u, q, a) = (
    part-IsAhead k i j n t hk (omega arith) p q,
    Ascends-IsAhead k j (suc i) n ts hk (omega arith) p a,
  )

  pub Ascends-IsBefore :
      (k j b : ℕ) (n : Node) (ns : List Node)
      → k ≤ m.count
      → IsPart m j n.packet
      → Ascends m b ns j
      → All (IsBefore (number m k) n) ns
  Ascends-IsBefore k j b n [] hk p a = tt
  Ascends-IsBefore k j b n (t ∷ ts) hk p (i, l, u, q, a) =
      (part-IsBefore k i j n t hk u p q, Ascends-IsBefore k j (suc i) n ts hk p a)

  pub Run-IsBefore :
      (k j i e : ℕ) (n : Node) (ns : List Node)
      → k ≤ m.count
      → e ≤ j
      → IsPart m j n.packet
      → Run m i ns e
      → All (IsBefore (number m k) n) ns
  Run-IsBefore k j i e n [] hk h p r = tt
  Run-IsBefore k j i e n (t ∷ ts) hk h p (q, r) =
      let l = Run-le m (suc i) ts e r in
      (part-IsBefore k i j n t hk (omega arith) p q, Run-IsBefore k j (suc i) e n ts hk h p r)

  -- The walk stops at the gap.
  pub run_on-Run :
      (i k : ℕ) (n : Node) (more rest : List Node)
      → IsPart m i n.packet
      → Run m (suc i) more k
      → Ascends m (suc k) rest m.count
      → run_on n (more ++ rest) ≡ last_of n more
  unfolding run_on
  run_on-Run i k n [] [] p r a = refl
  run_on-Run i k n [] (t ∷ rest) p r (j, l, u, q, a) =
      let h = p.inside in
      rw
        (
          p.numbered,
          q.numbered,
          number-suc m v i,
          number-same m v j (suc i) (omega arith) (omega arith),
        )
        (ground arith)
  run_on-Run i k n (t ∷ more) rest p (q, r) a =
      let h = q.inside in
      rw
        (
          p.numbered,
          number-suc m v i,
          q.numbered,
          number-same m v (suc i) (suc i) (omega arith) (omega arith),
        )
        (ground (arith, run_on-Run (suc i) k t more rest q r a))

  pub Run-last :
      (i k : ℕ) (front : List Node) (t : Node)
      → Run m i (front ++ t ∷ []) k
      → (0 < k) × IsPart m (k - 1) t.packet
  Run-last i k [] t (p, e) = (omega arith, subst (λ (x : ℕ). IsPart m x t.packet) (omega arith) p)
  Run-last i k (n ∷ front) t (p, r) = Run-last (suc i) k front t r

  pub locate-last :
      (before front rest : List Node) (t : Node)
      → before ≡ front ++ t ∷ []
      → All (IsElsewhere t.addr) front
      → locate t.addr (before ++ rest) ≡ some (t, rest)
  locate-last before front rest t e others =
      ap (λ (xs : List Node). locate t.addr (xs ++ rest)) e
      ∙ ap (locate t.addr) (append_assoc front (t ∷ []) rest)
      ∙ locate-middle t.addr t rest refl front others

  module _ {D : Type 0} (s : UmpSocket D) (k : ℕ) (at_k : s.their_data_seq_base ≡ number m k) where
    stays_from :
        (t : Node) (rest : List Node)
        → (hk : 0 < k) → s.rcv_data_so_far ≡ some t.addr
        → IsPart m (k - 1) t.packet
        → Ascends m (suc k) rest m.count
        → view (extend_from false t rest s) ≡ view s
    unfolding extend_from
    stays_from t rest hk e p a =
        let last = run_on-Run (k - 1) k t [] rest p (omega arith) a in
        let next : u16 (t.packet.seq_num + 1) ≡ number m k =
          rw (p.numbered, number-suc m v (k - 1)) (ap (number m) (omega arith)) in
        rw last (ground (arith, next))

    stays_first :
        (rest : List Node)
        → k ≤ m.count
        → Ascends m (suc k) rest m.count
        → view (extend_at none rest s) ≡ view s
    unfolding extend_at
    stays_first [] hk a = refl
    stays_first (n ∷ ns) hk (j, l, u, p, a) =
        rw (p.numbered, at_k, number-same m v k j hk (omega arith)) (ground arith)

    -- Packets behind the gap only: nothing changes.
    pub extend_at-stays :
        (so_far : Option ℕ) (before rest : List Node)
        → s.rcv_data_so_far ≡ so_far
        → Reached before so_far
        → Run m 0 before k
        → Ascends m (suc k) rest m.count
        → k ≤ m.count
        → view (extend_at so_far (before ++ rest) s) ≡ view s
    unfolding extend_at
    extend_at-stays none before rest e (at_start nothing) r a hk =
        subst (λ (xs : List Node). view (extend_at none (xs ++ rest) s) ≡ view s) (sym nothing)
          (stays_first rest hk a)
    extend_at-stays (some x) before rest e (at_last front t parted others) r a hk =
        let q = Run-last 0 k front t (subst (λ (xs : List Node). Run m 0 xs k) parted r) in
        rw (locate-last before front rest t parted others, extend_at)
          (stays_from t rest q.0 e q.1 a)
