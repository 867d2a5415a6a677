-- ===== src/Sock/Data/Held.antt =====
-- The received packets of a message in the socket's list: a run of packets without a gap, and further
-- ones behind the first gap.
use user_message_protocol.Base.{
  ℕ, zero, suc, ◌+◌, ◌<◌, ◌≤◌, ◌≡◌, refl, sym, ap, subst, List, [], ◌∷◌, ◌++◌, arith, inl, inr, ◌⊎◌,
}
use user_message_protocol.Sock.{Node}
use user_message_protocol.Sock.Receive.{join_data}
use user_message_protocol.Sock.Data.Sent.{Sent, IsPart, loads}

-- The packets from place `i` up to place `k`, every one.
abbrev pub Run : Sent → ℕ → List Node → ℕ → Type 0
Run m i [] k = i ≡ k
Run m i (n ∷ ns) k = IsPart m i n.packet × Run m (suc i) ns k

-- Packets at places from `b` on and in front of `e`, in their order.
abbrev pub Ascends : Sent → ℕ → List Node → ℕ → Type 0
Ascends m b [] e = Unit
Ascends m b (n ∷ ns) e = (j : ℕ) × (b ≤ j) × (j < e) × IsPart m j n.packet × Ascends m (suc j) ns e

abbrev pub last_of : Node → List Node → Node
last_of n [] = n
last_of n (t ∷ ts) = last_of t ts

abbrev pub front_of : Node → List Node → List Node
front_of n [] = []
front_of n (t ∷ ts) = n ∷ front_of t ts

pub front-last : (n : Node) (ns : List Node) → front_of n ns ++ last_of n ns ∷ [] ≡ n ∷ ns
front-last n [] = refl
front-last n (t ∷ ts) = ap (λ (xs : List Node). n ∷ xs) (front-last t ts)

module _ (m : Sent) where
  Ascends-lower : (a b : ℕ) (ns : List Node) (e : ℕ) → a ≤ b → Ascends m b ns e → Ascends m a ns e
  Ascends-lower a b [] e h v = tt
  Ascends-lower a b (n ∷ ns) e h (j, l, u, p, v) = (j, omega arith, u, p, v)

  pub Ascends-append :
      (b : ℕ) (lo hi : List Node) (j e : ℕ)
      → b ≤ j
      → j ≤ e
      → Ascends m b lo j
      → Ascends m j hi e
      → Ascends m b (lo ++ hi) e
  Ascends-append b [] hi j e h u v w = Ascends-lower b j hi e h w
  Ascends-append b (n ∷ lo) hi j e h u (i, l, r, p, v) w =
      (i, l, omega arith, p, Ascends-append (suc i) lo hi j e (omega arith) u v w)

  -- Where a packet at place `j` belongs among them, if it is not there.
  pub data Cut (b j : ℕ) (ns : List Node) : Type 0 where
    between :
        (lo hi : List Node)
        → ns ≡ lo ++ hi
        → Ascends m b lo j
        → Ascends m (suc j) hi m.count
        → Cut b j ns
    found :
        (lo hi : List Node) (t : Node)
        → ns ≡ lo ++ t ∷ hi
        → Ascends m b lo j
        → IsPart m j t.packet
        → Ascends m (suc j) hi m.count
        → Cut b j ns

  shifted :
      (b j i : ℕ) (n : Node) (ns : List Node)
      → b ≤ i
      → i < j
      → IsPart m i n.packet
      → Cut (suc i) j ns
      → Cut b j (n ∷ ns)
  shifted b j i n ns l h p (between lo hi e v w) =
      between (n ∷ lo) hi (ap (λ (xs : List Node). n ∷ xs) e) (i, l, h, p, v) w
  shifted b j i n ns l h p (found lo hi t e v q w) =
      found (n ∷ lo) hi t (ap (λ (xs : List Node). n ∷ xs) e) (i, l, h, p, v) q w

  pub order : (i j : ℕ) → (i < j) ⊎ ((i ≡ j) ⊎ (j < i))
  order i j = ground arith

  pub cut : (b j : ℕ) (ns : List Node) → b ≤ j → Ascends m b ns m.count → Cut b j ns
  cut b j [] h v = between [] [] refl tt tt
  cut b j (n ∷ ns) h (i, l, u, p, v) = elim (order i j) [
    | inl less ↦ shifted b j i n ns l less p (cut (suc i) j ns less v)
    | inr (inl same) ↦
        found [] ns n refl tt (subst (λ (x : ℕ). IsPart m x n.packet) same p)
          (subst (λ (x : ℕ). Ascends m (suc x) ns m.count) same v)
    | inr (inr more) ↦ between [] (n ∷ ns) refl tt (i, more, u, p, v)
  ]

  -- How far the packets go on without a gap from place `b` on.
  pub record Absorbed (b : ℕ) (ns : List Node) : Type 0 where
    pub more : List Node
    pub rest : List Node
    pub upto : ℕ
    pub parted : ns ≡ more ++ rest
    pub run : Run m b more upto
    pub ascends : Ascends m (suc upto) rest m.count
    pub grows : b ≤ upto

  pub absorb : (b : ℕ) (ns : List Node) → Ascends m b ns m.count → Absorbed b ns
  absorb b [] v = record {
    more = [];
    rest = [];
    upto = b;
    parted = refl;
    run = refl;
    ascends = tt;
    grows = omega arith;
  }
  absorb b (n ∷ ns) (i, l, u, p, v) = elim (order i b) [
    | inl less ↦ absurd (omega arith)
    | inr (inl same) ↦
        let a = absorb (suc i) ns v in
        record {
          more = n ∷ a.more;
          rest = a.rest;
          upto = a.upto;
          parted = ap (λ (xs : List Node). n ∷ xs) a.parted;
          run = (
            subst (λ (x : ℕ). IsPart m x n.packet) same p,
            subst (λ (x : ℕ). Run m (suc x) a.more a.upto) same a.run,
          );
          ascends = a.ascends;
          grows = let g = a.grows in omega arith;
        }
    | inr (inr more) ↦ record {
      more = [];
      rest = n ∷ ns;
      upto = b;
      parted = refl;
      run = refl;
      ascends = (i, more, u, p, v);
      grows = omega arith;
    }
  ]

  pub Run-append :
      (i : ℕ) (xs ys : List Node) (j k : ℕ) → Run m i xs j → Run m j ys k → Run m i (xs ++ ys) k
  Run-append i [] ys j k e r = subst (λ (x : ℕ). Run m x ys k) (sym e) r
  Run-append i (n ∷ xs) ys j k (p, q) r = (p, Run-append (suc i) xs ys j k q r)

  -- The last packet of a run from place `i` on.
  pub last_of-IsPart :
      (i : ℕ) (n : Node) (ns : List Node) (k : ℕ)
      → IsPart m i n.packet
      → Run m (suc i) ns (suc k)
      → IsPart m k (last_of n ns).packet
  last_of-IsPart i n [] k p e = subst (λ (x : ℕ). IsPart m x n.packet) (omega arith) p
  last_of-IsPart i n (t ∷ ts) k p (q, r) = last_of-IsPart (suc i) t ts k q r

  pub Run-le : (i : ℕ) (ns : List Node) (k : ℕ) → Run m i ns k → i ≤ k
  Run-le i [] k e = omega arith
  Run-le i (n ∷ ns) k (p, r) = let h = Run-le (suc i) ns k r in omega arith

  -- The payloads of a run.
  pub join_data-Run :
      (i : ℕ) (ns : List Node) (c k : ℕ) → i + c ≡ k → Run m i ns k → join_data ns ≡ loads m i c
  unfolding join_data loads
  join_data-Run i [] zero k e r = refl
  join_data-Run i [] (suc c) k e r = absurd (omega arith)
  join_data-Run i (n ∷ ns) zero k e (p, r) = let h = Run-le (suc i) ns k r in absurd (omega arith)
  join_data-Run i (n ∷ ns) (suc c) k e (p, r) =
      rw (p.bytes)
        (ap (λ (xs : List ℕ). m.load i ++ xs) (join_data-Run (suc i) ns c k (omega arith) r))
