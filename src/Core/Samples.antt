-- ===== src/Core/Samples.antt =====
-- Hash tables that do what glib documents: lists of entries, where an entry hides the later ones of
-- its key.
use user_message_protocol.Base.{
  ℕ, ◌≤◌, ◌≡◌, refl, sym, ◌∙◌, subst, List, [], ◌∷◌, Option, none, some, Bool, true, false, ◌==◌,
  length, arith, if_both, Bool-cases, inl, inr, if◌then◌else◌,
}
use user_message_protocol.Core.Table.{
  SockAddr, inaddr_eq, inaddr_eq→eq, inaddr_eq_refl, GHashTable, IsTable, has, contains, spare,
}

abbrev Entries : Type 0
Entries = List (SockAddr × ℕ)

abbrev find : Entries → SockAddr → Option ℕ
find [] q = none
find ((k, i) ∷ t) q = if inaddr_eq (some k) (some q) then some i else find t q

abbrev without : Entries → SockAddr → Entries
without [] q = []
without ((k, i) ∷ t) q =
    let rest = without t q in if inaddr_eq (some k) (some q) then rest else (k, i) ∷ rest

abbrev same_value : ℕ → Option ℕ → Bool
same_value i none = false
same_value i (some j) = i == j

abbrev visible : Entries → Entries → List ℕ
visible full [] = []
visible full ((k, i) ∷ t) =
    let rest = visible full t in if same_value i (find full k) then i ∷ rest else rest

abbrev sweep : (ℕ → Bool) → Entries → Entries → Entries
sweep gone full [] = []
sweep gone full ((k, i) ∷ t) =
    let rest = sweep gone full t in if has (spare gone (find full k)) then (k, i) ∷ rest else rest

abbrev pub entry_lists : GHashTable
entry_lists = record {
  Table = Entries;
  new = [];
  lookup = find;
  insert = λ t k i. (k, i) ∷ without t k;
  remove = without;
  size = length;
  values = λ t. visible t t;
  foreach_remove = λ gone t. sweep gone t t;
}

find-without :
    (t : Entries) (k q : SockAddr)
    → find (without t k) q ≡ (if inaddr_eq (some k) (some q) then none else find t q)
unfolding inaddr_eq
find-without [] k q = if_both (λ (o : Option ℕ). none ≡ o) (inaddr_eq (some k) (some q)) refl refl
find-without ((j, i) ∷ t) k q = ground (arith, find-without t k q)

find-sweep :
    (gone : ℕ → Bool) (full t : Entries) (q : SockAddr)
    → find (sweep gone full t) q ≡ (if has (spare gone (find full q)) then find t q else none)
find-sweep gone full [] q =
    if_both (λ (o : Option ℕ). none ≡ o) (has (spare gone (find full q))) refl refl
find-sweep gone full ((k, i) ∷ t) q = elim (Bool-cases (inaddr_eq (some k) (some q))) [
  | inl e ↦
      subst
        (λ (x : SockAddr).
          find (sweep gone full ((k, i) ∷ t)) x
          ≡ (if has (spare gone (find full x)) then find ((k, i) ∷ t) x else none))
        (inaddr_eq→eq k q e) (ground (arith, find-sweep gone full t k, inaddr_eq_refl k))
  | inr e ↦ ground (arith, find-sweep gone full t q, e)
]

spare_lem :
    (gone : ℕ → Bool) (o : Option ℕ) → (if has (spare gone o) then o else none) ≡ spare gone o
spare_lem gone none = refl
spare_lem gone (some i) = ground arith

visible-find :
    (full t : Entries) (i : ℕ)
    → contains i (visible full t) ≡ true
    → (k : SockAddr) × (find full k ≡ some i)
visible-find full [] i e = absurd (ground (arith, e))
visible-find full ((k, j) ∷ t) i e = elim (Bool-cases (same_value i (find full k))) [
  | inl s ↦ (k, ground (arith, s))
  | inr s ↦ visible-find full t i (ground (arith, e, s))
]

find-visible :
    (full t : Entries) (k : SockAddr) (i : ℕ)
    → find t k ≡ some i
    → find full k ≡ some i
    → contains i (visible full t) ≡ true
find-visible full [] k i e f = absurd (ground (arith, e))
find-visible full ((j, n) ∷ t) k i e f = elim (Bool-cases (inaddr_eq (some j) (some k))) [
  | inl s ↦
      ground (
        arith,
        e,
        f,
        s,
        subst (λ (x : SockAddr). find full x ≡ some i) (sym (inaddr_eq→eq j k s)) f,
      )
  | inr s ↦ ground (arith, find-visible full t k i (ground (arith, e, s)) f)
]

length-without : (t : Entries) (k : SockAddr) → length (without t k) ≤ length t
length-without [] k = omega arith
length-without ((j, i) ∷ t) k = ground (arith, length-without t k)

length-sweep : (gone : ℕ → Bool) (full t : Entries) → length (sweep gone full t) ≤ length t
length-sweep gone full [] = omega arith
length-sweep gone full ((k, i) ∷ t) = ground (arith, length-sweep gone full t)

pub entry_lists-IsTable : IsTable entry_lists
entry_lists-IsTable = record {
  lookup-new = λ k. refl;
  lookup-insert = λ t k q i. ground (arith, find-without t k q);
  lookup-remove = find-without;
  lookup-foreach_remove = λ t gone q. find-sweep gone t t q ∙ spare_lem gone (find t q);
  value→key = λ t i e. visible-find t t i e;
  key→value = λ t k i e. find-visible t t k i e e;
  size-new = refl;
  size-insert = λ t k i. omega (arith, length-without t k);
  size-remove = length-without;
  size-foreach_remove = λ t gone. length-sweep gone t t;
}
