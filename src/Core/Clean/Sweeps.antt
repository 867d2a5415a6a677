-- ===== src/Core/Clean/Sweeps.antt =====
-- What one sweep of a table does to the places of the addresses.
use user_message_protocol.Base.{
  ℕ, ◌≡◌, ◌≤◌, refl, sym, ◌∙◌, ap, subst, Option, none, some, Bool, true, false, ◌&&◌, arith,
  if_both, if◌then◌else◌, List, Option-cases, Bool-cases, ◌⊎◌, inl, inr,
}
use user_message_protocol.Core.{Peer, UmpCore, their_addr_of, free_where}
use user_message_protocol.Core.Clean.{sweep_closed, sweep_backlog}
use user_message_protocol.Core.Place.{
  Place, nowhere, in_backlog, at_rest, occupant, At, IsTidy, waiting_place, resting_place, waiting,
  resting,
}
use user_message_protocol.Core.Table.{SockAddr, GHashTable, IsTable, contains, spare}

-- What freeing leaves.
pub free_where-kept :
    {D : Type 0} (gone : ℕ → Bool) (is : List ℕ) (socks : ℕ → Option (Peer D)) (j : ℕ)
    → (contains j is && gone j) ≡ false
    → free_where gone is socks j ≡ socks j
free_where-kept gone is socks j e = ap (λ (b : Bool). if b then none else socks j) e

pub free_where-none :
    {D : Type 0} (gone : ℕ → Bool) (is : List ℕ) (socks : ℕ → Option (Peer D)) (j : ℕ)
    → socks j ≡ none
    → free_where gone is socks j ≡ none
free_where-none gone is socks j e = if_both (λ o. o ≡ none) (contains j is && gone j) refl e

pub swept-IsUnborn :
    {D : Type 0} (gone : ℕ → Bool) (is : List ℕ) (socks : ℕ → Option (Peer D)) (n : ℕ)
    → ((i : ℕ) → n ≤ i → socks i ≡ none)
    → (i : ℕ) → n ≤ i
    → free_where gone is socks i ≡ none
swept-IsUnborn gone is socks n u i le = free_where-none gone is socks i (u i le)

module _ {D : Type 0} {h : GHashTable} (laws : IsTable h) where
  -- A socket whose address has no entry in a table is no value of the table.
  pub stray :
      (t : h.Table) (socks : ℕ → Option (Peer D)) (a : SockAddr) (j : ℕ)
      → ((k : SockAddr) (i : ℕ) → h.lookup t k ≡ some i → their_addr_of (socks i) ≡ some k)
      → h.lookup t a ≡ none
      → their_addr_of (socks j) ≡ some a
      → contains j (h.values t) ≡ false
  stray t socks a j owns e l = elim (Bool-cases (contains j (h.values t))) [
    | inl v ↦
        let (k, f) = laws.value→key t j v in
        let same : k ≡ a = ground (arith, sym (owns k j f) ∙ l) in
        absurd (ground (arith, sym e ∙ subst (λ (x : SockAddr). h.lookup t x ≡ some j) same f))
    | inr v ↦ v
  ]

  pub closed_owns :
      (c : UmpCore D h)
      → IsTidy c
      → (k : SockAddr) (i : ℕ) → h.lookup c.closed_umps k ≡ some i
      → their_addr_of (c.socks i) ≡ some k
  closed_owns c w k i e =
      let (q, u) = w.placed k in u.live i (ap occupant (resting_place q i (sym u.closed_at ∙ e)))

  pub backlog_owns :
      (c : UmpCore D h)
      → IsTidy c
      → (k : SockAddr) (i : ℕ) → h.lookup c.backlog_umps k ≡ some i
      → their_addr_of (c.socks i) ≡ some k
  backlog_owns c w k i e =
      let (q, u) = w.placed k in u.live i (ap occupant (waiting_place q i (sym u.backlog_at ∙ e)))

  -- What a sweep leaves of a socket that it does not free.
  spared :
      (gone : ℕ → Bool) (is : List ℕ) (socks : ℕ → Option (Peer D)) (j : ℕ) (a : SockAddr)
      → (contains j is && gone j) ≡ false
      → their_addr_of (socks j) ≡ some a
      → their_addr_of (free_where gone is socks j) ≡ some a
  spared gone is socks j a e l = ap their_addr_of (free_where-kept gone is socks j e) ∙ l

  pub sweep_closed-At :
      (gone : ℕ → Bool) (c : UmpCore D h) (a : SockAddr) (p : Place)
      → IsTidy c
      → At c a p
      → (q : Place) × At (sweep_closed gone c) a q
        × ((q ≡ p) ⊎ ((i : ℕ) × (p ≡ at_rest i) × (gone i ≡ true) × (q ≡ nowhere)))
  sweep_closed-At gone c a p w at = elim (Option-cases (resting p)) [
    | inl e ↦ (
      p,
      record {
        umps_at = at.umps_at;
        backlog_at = at.backlog_at;
        act_at = at.act_at;
        closed_at =
            laws.lookup-foreach_remove c.closed_umps gone a
            ∙ ap (spare gone) (at.closed_at ∙ e)
            ∙ sym e;
        live = λ j o.
            spared gone _ c.socks j a
              (ground (
                arith,
                stray c.closed_umps c.socks a j (closed_owns c w) (at.closed_at ∙ e) (at.live j o),
              ))
              (at.live j o);
      },
      inl refl,
    )
    | inr (i, e) ↦ rests i (resting_place p i e)
  ]
    where
      rests :
          (i : ℕ)
          → p ≡ at_rest i
          → (q : Place) × At (sweep_closed gone c) a q
            × ((q ≡ p) ⊎ ((i : ℕ) × (p ≡ at_rest i) × (gone i ≡ true) × (q ≡ nowhere)))
      rests i e =
          let v = subst (At c a) e at in
          let found =
            laws.lookup-foreach_remove c.closed_umps gone a ∙ ap (spare gone) v.closed_at in
          elim (Bool-cases (gone i)) [
            | inl g ↦ (
              nowhere,
              record {
                umps_at = v.umps_at;
                backlog_at = v.backlog_at;
                act_at = v.act_at;
                closed_at = found ∙ ap (λ (b : Bool). if b then none else some i) g;
                live = λ j o. absurd (ground (arith, o));
              },
              inr (i, e, g, refl),
            )
            | inr g ↦ (
              at_rest i,
              record {
                umps_at = v.umps_at;
                backlog_at = v.backlog_at;
                act_at = v.act_at;
                closed_at = found ∙ ap (λ (b : Bool). if b then none else some i) g;
                live = λ j o.
                    subst
                      (λ (k : ℕ).
                        their_addr_of (free_where gone (h.values c.closed_umps) c.socks k) ≡ some a)
                      (ground (arith, o))
                      (spared gone _ c.socks i a (ground (arith, g)) (v.live i refl));
              },
              inl (sym e),
            )
          ]

  pub sweep_backlog-At :
      (gone : ℕ → Bool) (c : UmpCore D h) (a : SockAddr) (p : Place)
      → IsTidy c
      → At c a p
      → (q : Place) × At (sweep_backlog gone c) a q
        × ((q ≡ p) ⊎ ((i : ℕ) × (p ≡ in_backlog i) × (gone i ≡ true) × (q ≡ nowhere)))
  sweep_backlog-At gone c a p w at = elim (Option-cases (waiting p)) [
    | inl e ↦ (
      p,
      record {
        umps_at = at.umps_at;
        closed_at = at.closed_at;
        act_at = at.act_at;
        backlog_at =
            laws.lookup-foreach_remove c.backlog_umps gone a
            ∙ ap (spare gone) (at.backlog_at ∙ e)
            ∙ sym e;
        live = λ j o.
            spared gone _ c.socks j a
              (ground (
                arith,
                stray c.backlog_umps c.socks a j (backlog_owns c w) (at.backlog_at ∙ e)
                    (at.live j o),
              ))
              (at.live j o);
      },
      inl refl,
    )
    | inr (i, e) ↦ waits i (waiting_place p i e)
  ]
    where
      waits :
          (i : ℕ)
          → p ≡ in_backlog i
          → (q : Place) × At (sweep_backlog gone c) a q
            × ((q ≡ p) ⊎ ((i : ℕ) × (p ≡ in_backlog i) × (gone i ≡ true) × (q ≡ nowhere)))
      waits i e =
          let v = subst (At c a) e at in
          let found =
            laws.lookup-foreach_remove c.backlog_umps gone a ∙ ap (spare gone) v.backlog_at in
          elim (Bool-cases (gone i)) [
            | inl g ↦ (
              nowhere,
              record {
                umps_at = v.umps_at;
                closed_at = v.closed_at;
                act_at = v.act_at;
                backlog_at = found ∙ ap (λ (b : Bool). if b then none else some i) g;
                live = λ j o. absurd (ground (arith, o));
              },
              inr (i, e, g, refl),
            )
            | inr g ↦ (
              in_backlog i,
              record {
                umps_at = v.umps_at;
                closed_at = v.closed_at;
                act_at = v.act_at;
                backlog_at = found ∙ ap (λ (b : Bool). if b then none else some i) g;
                live = λ j o.
                    subst
                      (λ (k : ℕ).
                        their_addr_of (free_where gone (h.values c.backlog_umps) c.socks k)
                        ≡ some a)
                      (ground (arith, o))
                      (spared gone _ c.socks i a (ground (arith, g)) (v.live i refl));
              },
              inl (sym e),
            )
          ]

  pub sweep_closed-IsTidy :
      (gone : ℕ → Bool) (c : UmpCore D h) → IsTidy c → IsTidy (sweep_closed gone c)
  sweep_closed-IsTidy gone c w = record {
    placed =
        λ a. let (p, at) = w.placed a in let (q, v, _) = sweep_closed-At gone c a p w at in (q, v);
    unborn = record {
      unborn = swept-IsUnborn gone (h.values c.closed_umps) c.socks c.next w.unborn.unborn;
    };
  }
