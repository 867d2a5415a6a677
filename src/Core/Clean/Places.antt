-- ===== src/Core/Clean/Places.antt =====
-- What a round of the cleaner does to the places of the addresses.
use user_message_protocol.Base.{ℕ, ◌≡◌, sym, ◌∙◌, subst, Bool, true, arith, ◌⊎◌, inl, inr}
use user_message_protocol.Clock.{Clock, TimeVal}
use user_message_protocol.Core.{UmpCore}
use user_message_protocol.Core.Clean.{sweep_closed, goes, clean}
use user_message_protocol.Core.Place.{
  Place, nowhere, in_backlog, at_rest, dropped, cleaned, stays, Moves, At, IsTidy, IsUnborn,
  Follows,
}
use user_message_protocol.Core.Table.{SockAddr, GHashTable, IsTable}
use user_message_protocol.Core.Clean.Sweeps.{
  swept-IsUnborn, sweep_closed-At, sweep_backlog-At, sweep_closed-IsTidy,
}

pub clean-IsUnborn :
    {D : Type 0} {h : GHashTable} (clock : Clock) (cur : ℕ → TimeVal) (c : UmpCore D h)
    → IsUnborn c
    → IsUnborn (clean clock cur c)
unfolding clean
clean-IsUnborn {h = h} clock cur c u = record {
  unborn =
      swept-IsUnborn _ (h.values c.backlog_umps) _ c.next
        (swept-IsUnborn (goes clock cur c) (h.values c.closed_umps) c.socks c.next u.unborn);
}

module _ {D : Type 0} {h : GHashTable} (laws : IsTable h) where
  -- A round of the cleaner lets every address follow its life.
  pub clean-Follows :
      (clock : Clock) (cur : ℕ → TimeVal) (c : UmpCore D h) (a : SockAddr) (p : Place)
      → IsTidy c
      → At c a p
      → Follows (clean clock cur c) a p
  unfolding clean
  clean-Follows clock cur c a p w at =
      let c1 = sweep_closed (goes clock cur c) c in
      let (q, v, m) = sweep_closed-At laws (goes clock cur c) c a p w at in
      let (r, u, n) =
        sweep_backlog-At laws (goes clock cur c1) c1 a q
          (sweep_closed-IsTidy laws (goes clock cur c) c w) v in
      record { place = r; there = u; move = both p q r m n }
    where
      both :
          {f g : ℕ → Bool} (p q r : Place)
          → (q ≡ p) ⊎ ((i : ℕ) × (p ≡ at_rest i) × (f i ≡ true) × (q ≡ nowhere))
          → (r ≡ q) ⊎ ((i : ℕ) × (q ≡ in_backlog i) × (g i ≡ true) × (r ≡ nowhere))
          → Moves p r
      both p q r (inl e) (inl k) = subst (Moves p) (sym (k ∙ e)) stays
      both p q r (inl e) (inr (i, k, _, l)) =
          subst (Moves p) (sym l) (subst (λ x. Moves x nowhere) (sym k ∙ e) dropped)
      both p q r (inr (i, e, _, l)) (inl k) =
          subst (Moves p) (sym (k ∙ l)) (subst (λ x. Moves x nowhere) (sym e) cleaned)
      both p q r (inr (i, e, _, l)) (inr (j, k, _, _)) = absurd (ground (arith, sym l ∙ k))
