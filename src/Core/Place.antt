-- ===== src/Core/Place.antt =====
-- The abstract view of the core: an address is in one place at a time, with the socket that is there.
-- It forgets the tables, the order of their entries, and the heap.
use user_message_protocol.Base.{
  ℕ, ◌≡◌, ◌≢◌, ◌≤◌, refl, sym, ◌∙◌, ap, subst, Option, none, some, false, ◌==◌, arith, if_cases,
  Bool-cases, inl, inr,
}
use user_message_protocol.Sock.{UmpSocket}
use user_message_protocol.Core.{Peer, UmpCore, store, their_addr_of, change_sock}
use user_message_protocol.Core.Table.{SockAddr, GHashTable, inaddr_eq, inaddr_eq→eq, inaddr_eq_refl}

pub data Place : Type 0 where
  nowhere : Place
  in_backlog calling in_use at_rest : ℕ → Place

abbrev pub occupant : Place → Option ℕ
occupant nowhere = none
occupant (in_backlog i) = some i
occupant (calling i) = some i
occupant (in_use i) = some i
occupant (at_rest i) = some i

-- What each table has at the address.
abbrev pub used : Place → Option ℕ
used (in_use i) = some i
used _ = none

abbrev pub waiting : Place → Option ℕ
waiting (in_backlog i) = some i
waiting _ = none

abbrev pub called : Place → Option ℕ
called (calling i) = some i
called _ = none

abbrev pub resting : Place → Option ℕ
resting (at_rest i) = some i
resting _ = none

-- An entry of a table tells the place.
pub used_place : (p : Place) (i : ℕ) → used p ≡ some i → p ≡ in_use i
used_place p i e = ground (arith, e)

pub waiting_place : (p : Place) (i : ℕ) → waiting p ≡ some i → p ≡ in_backlog i
waiting_place p i e = ground (arith, e)

pub called_place : (p : Place) (i : ℕ) → called p ≡ some i → p ≡ calling i
called_place p i e = ground (arith, e)

pub resting_place : (p : Place) (i : ℕ) → resting p ≡ some i → p ≡ at_rest i
resting_place p i e = ground (arith, e)

pub place_unique :
    (p q : Place)
    → used p ≡ used q
    → waiting p ≡ waiting q
    → called p ≡ called q
    → resting p ≡ resting q
    → p ≡ q
place_unique p q e f g k = ground (arith, e, f, g, k)

-- How the place of an address changes: the life of a socket.
pub data Moves : Place → Place → Type 0 where
  stays : {p : Place} → Moves p p
  asked : {i : ℕ} → Moves nowhere (in_backlog i)
  called_up : {i : ℕ} → Moves nowhere (calling i)
  picked_up : {i : ℕ} → Moves (in_backlog i) (calling i)
  dropped : {i : ℕ} → Moves (in_backlog i) nowhere
  reached : {i : ℕ} → Moves (calling i) (in_use i)
  unreachable : {i : ℕ} → Moves (calling i) nowhere
  accepted : {i : ℕ} → Moves (in_backlog i) (in_use i)
  hung_up : {i : ℕ} → Moves (in_use i) (at_rest i)
  cleaned : {i : ℕ} → Moves (at_rest i) nowhere

module _ {D : Type 0} {h : GHashTable} where
  -- The tables of the core agree with a place of the address, and its socket is there, at this
  -- address.
  pub record At (c : UmpCore D h) (a : SockAddr) (p : Place) : Type 0 where
    pub umps_at : h.lookup c.umps a ≡ used p
    pub backlog_at : h.lookup c.backlog_umps a ≡ waiting p
    pub act_at : h.lookup c.act_connect a ≡ called p
    pub closed_at : h.lookup c.closed_umps a ≡ resting p
    pub live : (i : ℕ) → occupant p ≡ some i → their_addr_of (c.socks i) ≡ some a

  -- What `ump_sock_new` has not returned yet points at nothing.
  pub record IsUnborn (c : UmpCore D h) : Type 0 where
    pub unborn : (i : ℕ) → c.next ≤ i → c.socks i ≡ none

  -- Every address has a place.
  pub record IsTidy (c : UmpCore D h) : Type 0 where
    pub placed : (a : SockAddr) → (p : Place) × At c a p
    pub unborn : IsUnborn c

  -- A step refines the abstract view at an address.
  pub record Follows (d : UmpCore D h) (a : SockAddr) (p : Place) : Type 0 where
    pub place : Place
    pub there : At d a place
    pub move : Moves p place

  -- A step that leaves the address alone.
  pub record Elsewhere (c d : UmpCore D h) (a : SockAddr) : Type 0 where
    pub same_umps : h.lookup d.umps a ≡ h.lookup c.umps a
    pub same_backlog : h.lookup d.backlog_umps a ≡ h.lookup c.backlog_umps a
    pub same_act : h.lookup d.act_connect a ≡ h.lookup c.act_connect a
    pub same_closed : h.lookup d.closed_umps a ≡ h.lookup c.closed_umps a
    pub kept_socks :
        (i : ℕ) → their_addr_of (c.socks i) ≡ some a → their_addr_of (d.socks i) ≡ some a

  At-Elsewhere :
      {c d : UmpCore D h} {a : SockAddr} {p : Place} → At c a p → Elsewhere c d a → At d a p
  At-Elsewhere w e = record {
    umps_at = e.same_umps ∙ w.umps_at;
    backlog_at = e.same_backlog ∙ w.backlog_at;
    act_at = e.same_act ∙ w.act_at;
    closed_at = e.same_closed ∙ w.closed_at;
    live = λ i o. e.kept_socks i (w.live i o);
  }

  pub Elsewhere-Follows :
      {c d : UmpCore D h} {a : SockAddr} {p : Place} → At c a p → Elsewhere c d a → Follows d a p
  Elsewhere-Follows {p} w e = record { place = p; there = At-Elsewhere w e; move = stays }

  pub Follows-Elsewhere :
      {c d : UmpCore D h} {a : SockAddr} {p : Place}
      → Follows c a p
      → Elsewhere c d a
      → Follows d a p
  Follows-Elsewhere f e = record { place = f.place; there = At-Elsewhere f.there e; move = f.move }

  -- A pointer that `ump_sock_new` has not returned yet is at no address.
  pub next-Elsewhere :
      {c : UmpCore D h} (w : IsTidy c) (i : ℕ) (a : SockAddr)
      → their_addr_of (c.socks i) ≡ some a
      → c.next ≢ i
  next-Elsewhere {c} w i a e q = absurd (
      ground (
        arith,
        ap their_addr_of (w.unborn.unborn c.next (omega arith)),
        subst (λ (j : ℕ). their_addr_of (c.socks j) ≡ some a) (sym q) e,
      ))

-- A store leaves the addresses of other sockets alone.
pub store-their_addr_of :
    {D : Type 0} (socks : ℕ → Option (Peer D)) (i : ℕ) (o : Option (Peer D)) (j : ℕ) (a : SockAddr)
    → (i ≡ j → their_addr_of o ≡ some a)
    → their_addr_of (socks j) ≡ some a
    → their_addr_of (store socks i o j) ≡ some a
store-their_addr_of socks i o j a same e =
    if_cases (λ (o : Option _). their_addr_of o ≡ some a) (i == j) (λ t. same (ground (arith, t)))
      (λ _. e)

pub change_sock-their_addr_of :
    {D : Type 0} (f : UmpSocket D → UmpSocket D) (o : Option (Peer D))
    → their_addr_of (change_sock f o) ≡ their_addr_of o
change_sock-their_addr_of f none = refl
change_sock-their_addr_of f (some s) = refl

-- A new socket leaves the others alone.
pub alloc-their_addr_of :
    {D : Type 0} {h : GHashTable} (c : UmpCore D h) (o : Option (Peer D)) (j : ℕ) (a : SockAddr)
    → IsTidy c
    → their_addr_of (c.socks j) ≡ some a
    → their_addr_of (store c.socks c.next o j) ≡ some a
alloc-their_addr_of c o j a w e =
    store-their_addr_of c.socks c.next o j a (λ q. absurd (next-Elsewhere w j a e q)) e

pub stored :
    {D : Type 0} (socks : ℕ → Option (Peer D)) (i : ℕ) (o : Option (Peer D)) → store socks i o i ≡ o
stored socks i o = if_cases (λ x. x ≡ o) (i == i) (λ _. refl) (λ e. absurd (ground (arith, e)))

-- What points at nothing after a store.
pub store-none :
    {D : Type 0} (socks : ℕ → Option (Peer D)) (i : ℕ) (o : Option (Peer D)) (j : ℕ)
    → socks j ≡ none
    → (i ≡ j → o ≡ none)
    → store socks i o j ≡ none
store-none socks i o j e same =
    if_cases (λ x. x ≡ none) (i == j) (λ t. same (ground (arith, t))) (λ _. e)

-- Freeing the socket of an address leaves the sockets of other addresses alone.
pub freed-their_addr_of :
    {D : Type 0} (socks : ℕ → Option (Peer D)) (i j : ℕ) (b a : SockAddr)
    → their_addr_of (socks i) ≡ some b
    → inaddr_eq (some b) (some a) ≡ false
    → their_addr_of (socks j) ≡ some a
    → their_addr_of (store socks i none j) ≡ some a
freed-their_addr_of socks i j b a l f e =
    store-their_addr_of socks i none j a
      (λ q. absurd (
        differ
          (ground (arith, sym l ∙ subst (λ (k : ℕ). their_addr_of (socks k) ≡ some a) (sym q) e))
          f))
      e
  where
    differ : b ≡ a → inaddr_eq (some b) (some a) ≢ false
    differ q f = ground (
      arith,
      sym (inaddr_eq_refl a) ∙ subst (λ (x : SockAddr). inaddr_eq (some x) (some a) ≡ false) q f,
    )

-- Splitting on whether a step is at this address.
pub at_or_elsewhere :
    (P : SockAddr → Type 0) (b a : SockAddr)
    → P b
    → (inaddr_eq (some b) (some a) ≡ false → P a)
    → P a
at_or_elsewhere P b a here there = elim (Bool-cases (inaddr_eq (some b) (some a))) [
  | inl e ↦ subst P (inaddr_eq→eq b a e) here
  | inr e ↦ there e
]

-- A step that moves the socket of one address, and leaves the other addresses alone.
pub one_address :
    {D : Type 0} {h : GHashTable} {c d : UmpCore D h} (b a : SockAddr) {p0 q0 p : Place}
    → At c b p0
    → At c a p
    → At d b q0
    → Moves p0 q0
    → (inaddr_eq (some b) (some a) ≡ false → Elsewhere c d a)
    → Follows d a p
one_address {c} {d} b a {p0} {q0} {p} w0 w v m others =
    at_or_elsewhere (λ x. At c x p → Follows d x p) b a
      (λ w1.
        subst (Follows d b)
          (place_unique p0 p (sym w0.umps_at ∙ w1.umps_at) (sym w0.backlog_at ∙ w1.backlog_at)
            (sym w0.act_at ∙ w1.act_at) (sym w0.closed_at ∙ w1.closed_at))
          (record { place = q0; there = v; move = m }))
      (λ f w1. Elsewhere-Follows w1 (others f)) w
