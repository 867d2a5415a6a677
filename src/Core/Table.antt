-- ===== src/Core/Table.antt =====
-- What the core uses of glib's `GHashTable`, whose keys are addresses compared by `inaddr_eq` and
-- whose values are pointers to sockets, as an interface: its operations, and what glib documents of
-- them. A key is the address itself; the code keeps it inside the socket that is the value.
use user_message_protocol.Base.{
  ℕ, ◌+◌, ◌%◌, ◌^◌, ◌≤◌, ◌≡◌, ◌↔◌, ap, ◌∙◌, List, [], ◌∷◌, Option, none, some, Bool, true, false,
  ◌==◌, ◌&&◌, ◌||◌, arith, if◌then◌else◌,
}

-- The fields of `struct sockaddr_in` that are read.
pub record SockAddr : Type 0 where
  pub sin_port : ℕ
  pub sin_addr : ℕ

-- `ump_inaddr_hash`; `none` is the null pointer.
unfoldable pub inaddr_hash : Option SockAddr → ℕ
inaddr_hash none = 0
inaddr_hash (some a) = (a.sin_port + a.sin_addr) % 2 ^ 32

-- `ump_inaddr_eq`.
unfoldable pub inaddr_eq : Option SockAddr → Option SockAddr → Bool
inaddr_eq none none = true
inaddr_eq none (some b) = false
inaddr_eq (some a) none = false
inaddr_eq (some a) (some b) = a.sin_port == b.sin_port && a.sin_addr == b.sin_addr

pub inaddr_eq→eq : (a b : SockAddr) → inaddr_eq (some a) (some b) ≡ true → a ≡ b
unfolding inaddr_eq
inaddr_eq→eq a b h = ground arith

pub inaddr_eq_refl : (a : SockAddr) → inaddr_eq (some a) (some a) ≡ true
unfolding inaddr_eq
inaddr_eq_refl a = ground arith

-- The two functions suit a hash table: `inaddr_eq` tells whether two addresses, or null pointers, are
-- the same, and the same addresses have the same hash.
pub inaddr_eq_iff :
    (a b : Option SockAddr)
    → ((inaddr_eq a b ≡ true) ↔ (a ≡ b)) × (inaddr_eq a b ≡ true → inaddr_hash a ≡ inaddr_hash b)
unfolding inaddr_eq inaddr_hash
inaddr_eq_iff a b = ground arith

-- The operations. `values` lists the values in the order in which an iteration meets them, and
-- `foreach_remove` removes the entries for whose value the callback returns true.
pub record GHashTable : Type 1 where
  pub Table : Type 0
  pub new : Table
  pub lookup : Table → SockAddr → Option ℕ
  pub insert : Table → SockAddr → ℕ → Table
  pub remove : Table → SockAddr → Table
  pub size : Table → ℕ
  pub values : Table → List ℕ
  pub foreach_remove : (ℕ → Bool) → Table → Table

abbrev pub has : Option ℕ → Bool
has none = false
has (some i) = true

abbrev pub contains : ℕ → List ℕ → Bool
contains i [] = false
contains i (j ∷ js) = i == j || contains i js

-- An entry that the callback lets be.
abbrev pub spare : (ℕ → Bool) → Option ℕ → Option ℕ
spare gone none = none
spare gone (some i) = if gone i then none else some i

pub record IsTable (h : GHashTable) : Type 0 where
  pub lookup-new : (k : SockAddr) → h.lookup h.new k ≡ none
  pub lookup-insert :
      (t : h.Table) (k q : SockAddr) (i : ℕ)
      → h.lookup (h.insert t k i) q ≡ (if inaddr_eq (some k) (some q) then some i else h.lookup t q)
  pub lookup-remove :
      (t : h.Table) (k q : SockAddr)
      → h.lookup (h.remove t k) q ≡ (if inaddr_eq (some k) (some q) then none else h.lookup t q)
  pub lookup-foreach_remove :
      (t : h.Table) (gone : ℕ → Bool) (q : SockAddr)
      → h.lookup (h.foreach_remove gone t) q ≡ spare gone (h.lookup t q)
  pub value→key :
      (t : h.Table) (i : ℕ)
      → contains i (h.values t) ≡ true
      → (k : SockAddr) × (h.lookup t k ≡ some i)
  pub key→value :
      (t : h.Table) (k : SockAddr) (i : ℕ) → h.lookup t k ≡ some i → contains i (h.values t) ≡ true
  pub size-new : h.size h.new ≡ 0
  pub size-insert : (t : h.Table) (k : SockAddr) (i : ℕ) → h.size (h.insert t k i) ≤ h.size t + 1
  pub size-remove : (t : h.Table) (k : SockAddr) → h.size (h.remove t k) ≤ h.size t
  pub size-foreach_remove :
      (t : h.Table) (gone : ℕ → Bool) → h.size (h.foreach_remove gone t) ≤ h.size t

-- The laws at the address itself and at another.
module _ {h : GHashTable} (laws : IsTable h) where
  pub insert_here : (t : h.Table) (k : SockAddr) (i : ℕ) → h.lookup (h.insert t k i) k ≡ some i
  insert_here t k i =
      laws.lookup-insert t k k i
      ∙ ap (λ (b : Bool). if b then some i else h.lookup t k) (inaddr_eq_refl k)

  pub insert_there :
      (t : h.Table) (k q : SockAddr) (i : ℕ)
      → inaddr_eq (some k) (some q) ≡ false
      → h.lookup (h.insert t k i) q ≡ h.lookup t q
  insert_there t k q i e =
      laws.lookup-insert t k q i ∙ ap (λ (b : Bool). if b then some i else h.lookup t q) e

  pub remove_here : (t : h.Table) (k : SockAddr) → h.lookup (h.remove t k) k ≡ none
  remove_here t k =
      laws.lookup-remove t k k
      ∙ ap (λ (b : Bool). if b then none else h.lookup t k) (inaddr_eq_refl k)

  pub remove_there :
      (t : h.Table) (k q : SockAddr)
      → inaddr_eq (some k) (some q) ≡ false
      → h.lookup (h.remove t k) q ≡ h.lookup t q
  remove_there t k q e =
      laws.lookup-remove t k q ∙ ap (λ (b : Bool). if b then none else h.lookup t q) e
