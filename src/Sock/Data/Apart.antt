-- ===== src/Sock/Data/Apart.antt =====
-- The nodes of a list are apart: the addresses of a `GList`'s nodes.
use user_message_protocol.Base.{
  ℕ, suc, ◌+◌, ◌<◌, ◌≡◌, refl, List, [], ◌∷◌, ◌++◌, Bool, false, arith, ◌==◌, ◌||◌, ltb, leb, ◌&&◌,
  All,
}
use user_message_protocol.Sock.{Node}
use user_message_protocol.Sock.Data.Place.{IsElsewhere}
use user_message_protocol.Sock.Data.Sent.{Sent, IsSent, number, number-same}
use user_message_protocol.Sock.Data.Held.{Run, Ascends, Run-le}

abbrev pub Distinct : List Node → Type 0
Distinct [] = Unit
Distinct (n ∷ ns) = All (IsElsewhere n.addr) ns × Distinct ns

-- The node was made before the address `a` was given out.
abbrev pub IsOld : ℕ → Node → Type 0
IsOld a n = n.addr < a

module _ {ℓ κ} {A : Type ℓ} (P : A → Type κ) where
  pub All-insert : (x : A) (xs ys : List A) → P x → All P (xs ++ ys) → All P (xs ++ x ∷ ys)
  All-insert x [] ys p h = (p, h)
  All-insert x (y ∷ xs) ys p (q, h) = (q, All-insert x xs ys p h)

  All-middle : (x : A) (xs ys : List A) → All P (xs ++ x ∷ ys) → P x
  All-middle x [] ys h = h.0
  All-middle x (y ∷ xs) ys h = All-middle x xs ys h.1

pub Distinct-front :
    (xs ys : List Node) (t : Node) → Distinct (xs ++ t ∷ ys) → All (IsElsewhere t.addr) xs
Distinct-front [] ys t d = tt
Distinct-front (n ∷ xs) ys t (h, d) =
    let other = All-middle (IsElsewhere n.addr) t xs ys h in
    (ground arith, Distinct-front xs ys t d)

pub Distinct-insert :
    (n : Node) (xs ys : List Node)
    → All (IsElsewhere n.addr) (xs ++ ys)
    → Distinct (xs ++ ys)
    → Distinct (xs ++ n ∷ ys)
Distinct-insert n [] ys h d = (h, d)
Distinct-insert n (t ∷ xs) ys (e, h) (g, d) =
    (All-insert (IsElsewhere t.addr) n xs ys (ground arith) g, Distinct-insert n xs ys h d)

pub old-IsElsewhere : (a : ℕ) (ns : List Node) → All (IsOld a) ns → All (IsElsewhere a) ns
old-IsElsewhere a [] h = tt
old-IsElsewhere a (n ∷ ns) (e, h) = (ground arith, old-IsElsewhere a ns h)

pub old-IsOld : (a : ℕ) (ns : List Node) → All (IsOld a) ns → All (IsOld (a + 1)) ns
old-IsOld a [] h = tt
old-IsOld a (n ∷ ns) (e, h) = (omega arith, old-IsOld a ns h)

-- Whether a node's packet has the number.
unfoldable pub holds : ℕ → List Node → Bool
holds q [] = false
holds q (n ∷ ns) = (n.packet.seq_num == q) || holds q ns

pub holds-append : (q : ℕ) (xs ys : List Node) → holds q (xs ++ ys) ≡ (holds q xs || holds q ys)
unfolding holds
holds-append q [] ys = refl
holds-append q (n ∷ xs) ys = ground (arith, holds-append q xs ys)

pub holds-insert :
    (q : ℕ) (n : Node) (xs ys : List Node)
    → holds q (xs ++ n ∷ ys) ≡ ((n.packet.seq_num == q) || holds q (xs ++ ys))
unfolding holds
holds-insert q n [] ys = refl
holds-insert q n (t ∷ xs) ys = ground (arith, holds-insert q n xs ys)

module _ (m : Sent) (v : IsSent m) (i : ℕ) (hi : i < m.count) where
  pub holds-Run :
      (b : ℕ) (ns : List Node) (k : ℕ) → Run m b ns k → holds (number m i) ns ≡ (leb b i && ltb i k)
  unfolding holds
  holds-Run b [] k e = ground arith
  holds-Run b (n ∷ ns) k (p, r) =
      let h = p.inside in
      let l = Run-le m (suc b) ns k r in
      rw (p.numbered, number-same m v i b (omega arith) (omega arith), holds-Run (suc b) ns k r)
        (ground arith)

  pub holds-Ascends :
      (b : ℕ) (ns : List Node) (e : ℕ) → i < b → Ascends m b ns e → holds (number m i) ns ≡ false
  unfolding holds
  holds-Ascends b [] e h a = refl
  holds-Ascends b (n ∷ ns) e h (j, l, u, p, a) =
      let g = p.inside in
      rw
        (
          p.numbered,
          number-same m v i j (omega arith) (omega arith),
          holds-Ascends (suc j) ns e (omega arith) a,
        )
        (ground arith)
