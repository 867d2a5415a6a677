-- ===== src/Core/Clean/Exact.antt =====
-- Which sockets a round of the cleaner frees.
use user_message_protocol.Base.{
  ℕ, ◌≡◌, refl, sym, ◌∙◌, ap, subst, Option, none, some, Bool, true, false, ◌&&◌, arith, if_both,
  if◌then◌else◌, List,
}
use user_message_protocol.Clock.{Clock, TimeVal}
use user_message_protocol.Core.{Peer, UmpCore, free_where, test_sock, due}
use user_message_protocol.Core.Clean.{sweep_closed, goes, clean}
use user_message_protocol.Core.Clean.Sweeps.{free_where-kept, stray, closed_owns, backlog_owns}
use user_message_protocol.Core.Clean.Places.{clean-Follows}
use user_message_protocol.Core.Place.{
  Place, nowhere, in_backlog, calling, in_use, at_rest, occupant, used, waiting, called, resting,
  place_unique, At, IsTidy,
}
use user_message_protocol.Core.Table.{SockAddr, GHashTable, IsTable, contains, spare}

-- The places where the cleaner looks.
abbrev pub is_looked_at : Place → Bool
is_looked_at (in_backlog i) = true
is_looked_at (at_rest i) = true
is_looked_at _ = false

spare-cases :
    (gone : ℕ → Bool) (o : Option ℕ) (b : Bool)
    → ((i : ℕ) → o ≡ some i → gone i ≡ b)
    → spare gone o ≡ (if b then none else o)
spare-cases gone none b same = if_both (λ (o : Option ℕ). none ≡ o) b refl refl
spare-cases gone (some i) b same = ap (λ (x : Bool). if x then none else some i) (same i refl)

-- The place that the tables tell of afterwards.
settled :
    (p q : Place) (b : Bool)
    → (b ≡ true → is_looked_at p ≡ true)
    → used q ≡ used p
    → called q ≡ called p
    → waiting q ≡ (if b then none else waiting p)
    → resting q ≡ (if b then none else resting p)
    → q ≡ (if b then nowhere else p)
settled p q true looked u c w r =
    place_unique q nowhere (u ∙ ground (arith, looked refl)) w (c ∙ ground (arith, looked refl)) r
settled p q false looked u c w r = place_unique q p u w c r

freed_as :
    {D : Type 0} (gone : ℕ → Bool) (is : List ℕ) (socks : ℕ → Option (Peer D)) (i : ℕ)
    → contains i is ≡ true
    → free_where gone is socks i ≡ (if gone i then none else socks i)
freed_as gone is socks i e = ap (λ (b : Bool). if b && gone i then none else socks i) e

not_looked_at : (a b : Bool) → a ≡ false → (a && b) ≡ false
not_looked_at a b e = ground (arith, e)

module _ {D : Type 0} {h : GHashTable} (laws : IsTable h) (clock : Clock) (cur : ℕ → TimeVal) where
  -- A socket that is not at rest is still there after the first sweep.
  first_sweep :
      (c : UmpCore D h) (a : SockAddr) (p : Place) (i : ℕ)
      → IsTidy c
      → At c a p
      → occupant p ≡ some i
      → resting p ≡ none
      → free_where (goes clock cur c) (h.values c.closed_umps) c.socks i ≡ c.socks i
  first_sweep c a p i w at o r =
      free_where-kept (goes clock cur c) (h.values c.closed_umps) c.socks i (
        not_looked_at _ _ (
          stray laws c.closed_umps c.socks a i (closed_owns laws c w) (at.closed_at ∙ r)
            (at.live i o)))

  -- A socket that is not in the backlog is left alone by the second sweep.
  second_sweep :
      (c : UmpCore D h) (a : SockAddr) (p : Place) (i : ℕ)
      → IsTidy c
      → At c a p
      → occupant p ≡ some i
      → waiting p ≡ none
      → (clean clock cur c).socks i
        ≡ free_where (goes clock cur c) (h.values c.closed_umps) c.socks i
  unfolding clean
  second_sweep c a p i w at o r =
      free_where-kept (goes clock cur (sweep_closed (goes clock cur c) c)) (h.values c.backlog_umps)
        (free_where (goes clock cur c) (h.values c.closed_umps) c.socks) i
        (not_looked_at _ _ (
          stray laws c.backlog_umps c.socks a i (backlog_owns laws c w) (at.backlog_at ∙ r)
            (at.live i o)))

  clean-socks :
      (c : UmpCore D h) (a : SockAddr) (p : Place) (i : ℕ)
      → IsTidy c
      → At c a p
      → occupant p ≡ some i
      → (clean clock cur c).socks i
        ≡ (if is_looked_at p && goes clock cur c i then none else c.socks i)
  unfolding clean
  clean-socks c a nowhere i w at o = absurd (ground (arith, o))
  clean-socks c a (in_backlog k) i w at o =
      freed_as (goes clock cur (sweep_closed (goes clock cur c) c)) (h.values c.backlog_umps)
        (free_where (goes clock cur c) (h.values c.closed_umps) c.socks) i
        (laws.key→value c.backlog_umps a i (at.backlog_at ∙ o))
      ∙ ap (λ (s : Option (Peer D)). if test_sock (due clock (cur i)) s then none else s)
          (first_sweep c a (in_backlog k) i w at o refl)
  clean-socks c a (at_rest k) i w at o =
      second_sweep c a (at_rest k) i w at o refl
      ∙ freed_as (goes clock cur c) (h.values c.closed_umps) c.socks i
          (laws.key→value c.closed_umps a i (at.closed_at ∙ o))
  clean-socks c a (calling k) i w at o =
      second_sweep c a (calling k) i w at o refl ∙ first_sweep c a (calling k) i w at o refl
  clean-socks c a (in_use k) i w at o =
      second_sweep c a (in_use k) i w at o refl ∙ first_sweep c a (in_use k) i w at o refl

  -- What the sweeps ask of the socket at the address.
  goes_backlog :
      (c : UmpCore D h) (a : SockAddr) (p : Place) (i : ℕ)
      → IsTidy c
      → At c a p
      → occupant p ≡ some i
      → (j : ℕ) → waiting p ≡ some j
      → goes clock cur (sweep_closed (goes clock cur c) c) j
        ≡ (is_looked_at p && goes clock cur c i)
  goes_backlog c a (in_backlog k) i w at o j e =
      subst (λ (x : ℕ). goes clock cur (sweep_closed (goes clock cur c) c) x ≡ goes clock cur c i)
        (ground (arith, e, o))
        (ap (test_sock (due clock (cur i))) (first_sweep c a (in_backlog k) i w at o refl))
  goes_backlog c a nowhere i w at o j e = absurd (ground (arith, e))
  goes_backlog c a (calling k) i w at o j e = absurd (ground (arith, e))
  goes_backlog c a (in_use k) i w at o j e = absurd (ground (arith, e))
  goes_backlog c a (at_rest k) i w at o j e = absurd (ground (arith, e))

  goes_closed :
      (c : UmpCore D h) (p : Place) (i : ℕ)
      → occupant p ≡ some i
      → (j : ℕ) → resting p ≡ some j
      → goes clock cur c j ≡ (is_looked_at p && goes clock cur c i)
  goes_closed c (at_rest k) i o j e = ap (goes clock cur c) (ground (arith, e, o))
  goes_closed c nowhere i o j e = absurd (ground (arith, e))
  goes_closed c (in_backlog k) i o j e = absurd (ground (arith, e))
  goes_closed c (calling k) i o j e = absurd (ground (arith, e))
  goes_closed c (in_use k) i o j e = absurd (ground (arith, e))

  -- A round of the cleaner frees a socket exactly when it is in the backlog or at rest and `due`
  -- says that it was closed 20 seconds before; its address is nowhere then. Every other socket of a
  -- table stays as it is, where it is.
  pub clean-exact :
      (c : UmpCore D h) (a : SockAddr) (p : Place) (i : ℕ)
      → IsTidy c
      → At c a p
      → occupant p ≡ some i
      → let b = is_looked_at p && goes clock cur c i in
        At (clean clock cur c) a (if b then nowhere else p)
        × ((clean clock cur c).socks i ≡ (if b then none else c.socks i))
  unfolding clean
  clean-exact c a p i w at o =
      let f = clean-Follows laws clock cur c a p w at in
      let g1 = goes clock cur (sweep_closed (goes clock cur c) c) in
      let b = is_looked_at p && goes clock cur c i in
      (
        subst (At (clean clock cur c) a)
            (settled p f.place b (λ e. ground (arith, e)) (sym f.there.umps_at ∙ at.umps_at)
              (sym f.there.act_at ∙ at.act_at)
              (sym f.there.backlog_at
                ∙ laws.lookup-foreach_remove c.backlog_umps g1 a
                ∙ ap (spare g1) at.backlog_at
                ∙ spare-cases g1 (waiting p) b (goes_backlog c a p i w at o))
              (sym f.there.closed_at
                ∙ laws.lookup-foreach_remove c.closed_umps (goes clock cur c) a
                ∙ ap (spare (goes clock cur c)) at.closed_at
                ∙ spare-cases (goes clock cur c) (resting p) b (goes_closed c p i o)))
            f.there,
        clean-socks c a p i w at o,
      )
