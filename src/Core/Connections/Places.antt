-- ===== src/Core/Connections/Places.antt =====
-- What connecting, accepting and closing do to the places of the addresses.
use user_message_protocol.Base.{
  ℕ, ◌≡◌, refl, sym, ◌∙◌, ap, subst, Option, none, some, false, arith, if_cases, if_both,
}
use user_message_protocol.Sock.{UmpSocket}
use user_message_protocol.Core.{
  Peer, UmpCore, store, their_addr_of, insert_at, drop_at, test_sock, is_over,
}
use user_message_protocol.Core.Connections.{begin_as, connect_begin}
use user_message_protocol.Core.Place.{
  Place, nowhere, in_backlog, called_up, picked_up, dropped, At, IsTidy, Follows, Elsewhere-Follows,
  one_address, waiting_place, alloc-their_addr_of, stored, used, waiting, called, resting,
}
use user_message_protocol.Core.Table.{
  SockAddr, GHashTable, IsTable, inaddr_eq, has, insert_here, insert_there, remove_here,
  remove_there,
}

pub not_has : (o : Option ℕ) → has o ≡ false → o ≡ none
not_has o e = ground (arith, e)

module _ {D : Type 0} (h : GHashTable) where
  -- Insertion at the address of a socket whose address is known.
  insert_at_lem :
      (t : h.Table) (o : Option (Peer D)) (i : ℕ) (a : SockAddr)
      → their_addr_of o ≡ some a
      → insert_at h t o i ≡ h.insert t a i
  insert_at_lem t none i a e = absurd (ground (arith, e))
  insert_at_lem t (some s) i a e = ap (λ (b : SockAddr). h.insert t b i) (ground (arith, e))

module _ {h : GHashTable} (laws : IsTable h) where
  -- Taking an entry out of a table where there is one.
  pub drop_at_here : (t : h.Table) (a : SockAddr) → h.lookup (drop_at h t a) a ≡ none
  drop_at_here t a =
      if_cases (λ (u : h.Table). h.lookup u a ≡ none) (has (h.lookup t a))
        (λ _. remove_here laws t a) (λ e. not_has _ e)

  pub drop_at_there :
      (t : h.Table) (b a : SockAddr)
      → inaddr_eq (some b) (some a) ≡ false
      → h.lookup (drop_at h t b) a ≡ h.lookup t a
  drop_at_there t b a f =
      if_both (λ (u : h.Table). h.lookup u a ≡ h.lookup t a) (has (h.lookup t b))
        (remove_there laws t b a f) refl

module _ {D : Type 0} {h : GHashTable} (laws : IsTable h) where
  -- Lookups after `insert_at`.
  pub insert_at_here :
      (t : h.Table) (o : Option (Peer D)) (i : ℕ) (a : SockAddr)
      → their_addr_of o ≡ some a
      → h.lookup (insert_at h t o i) a ≡ some i
  insert_at_here t o i a e =
      ap (λ (u : h.Table). h.lookup u a) (insert_at_lem h t o i a e) ∙ insert_here laws t a i

  pub insert_at_there :
      (t : h.Table) (o : Option (Peer D)) (i : ℕ) (a b : SockAddr)
      → their_addr_of o ≡ some a
      → inaddr_eq (some a) (some b) ≡ false
      → h.lookup (insert_at h t o i) b ≡ h.lookup t b
  insert_at_there t o i a b e f =
      ap (λ (u : h.Table). h.lookup u b) (insert_at_lem h t o i a e) ∙ insert_there laws t a b i f

  -- A socket of the backlog that is called, or not used.
  picked-Follows :
      (fresh : UmpSocket D) (c : UmpCore D h) (i : ℕ) (addr a : SockAddr) (p : Place)
      → At c addr (in_backlog i)
      → At c a p
      → Follows (begin_as (some i) fresh c addr).1 a p
  picked-Follows fresh c i addr a p at0 at =
      if_both (λ (r : Option ℕ × UmpCore D h). Follows r.1 a p)
        (test_sock (λ s. is_over s.public_state) (c.socks i))
        (one_address addr a at0 at
          (record {
            umps_at = at0.umps_at;
            backlog_at = remove_here laws c.backlog_umps addr;
            act_at = at0.act_at;
            closed_at = at0.closed_at;
            live = λ j o. absurd (ground (arith, o));
          })
          dropped
          (λ f. record {
            same_umps = refl;
            same_backlog = remove_there laws c.backlog_umps addr a f;
            same_act = refl;
            same_closed = refl;
            kept_socks = λ j e. e;
          }))
        (one_address addr a at0 at
          (record {
            umps_at = at0.umps_at;
            backlog_at = remove_here laws c.backlog_umps addr;
            act_at = insert_at_here c.act_connect (c.socks i) i addr (at0.live i refl);
            closed_at = at0.closed_at;
            live = at0.live;
          })
          picked_up
          (λ f. record {
            same_umps = refl;
            same_backlog = remove_there laws c.backlog_umps addr a f;
            same_act = insert_at_there c.act_connect (c.socks i) i addr a (at0.live i refl) f;
            same_closed = refl;
            kept_socks = λ j e. e;
          }))

  -- A new socket is called.
  called-Follows :
      (fresh : UmpSocket D) (c : UmpCore D h) (addr a : SockAddr) (p : Place)
      → IsTidy c
      → At c addr nowhere
      → At c a p
      → Follows (begin_as none fresh c addr).1 a p
  called-Follows fresh c addr a p w at0 at =
      let o : Option (Peer D) = some (record { their_addr = addr; sock = fresh }) in
      one_address addr a at0 at
        (record {
          umps_at = at0.umps_at;
          backlog_at = at0.backlog_at;
          act_at = insert_here laws c.act_connect addr c.next;
          closed_at = at0.closed_at;
          live = λ i e.
              subst (λ (j : ℕ). their_addr_of (store c.socks c.next o j) ≡ some addr)
                (ground (arith, e)) (ap their_addr_of (stored c.socks c.next o));
        })
        called_up
        (λ f. record {
          same_umps = refl;
          same_backlog = refl;
          same_act = insert_there laws c.act_connect addr a c.next f;
          same_closed = refl;
          kept_socks = λ j. alloc-their_addr_of c o j a w;
        })

  begin_as-Follows :
      (o : Option ℕ) (fresh : UmpSocket D) (c : UmpCore D h) (addr a : SockAddr) (p q : Place)
      → IsTidy c
      → At c addr q
      → used q ≡ none
      → called q ≡ none
      → resting q ≡ none
      → waiting q ≡ o
      → At c a p
      → Follows (begin_as o fresh c addr).1 a p
  begin_as-Follows (some i) fresh c addr a p q w at0 u v x e at =
      picked-Follows fresh c i addr a p (subst (At c addr) (waiting_place q i e) at0) at
  begin_as-Follows none fresh c addr a p q w at0 u v x e at =
      called-Follows fresh c addr a p w (subst (At c addr) (ground (arith, u, v, x, e)) at0) at

  -- The first half of `ump_connect` lets every address follow its life.
  pub connect_begin-Follows :
      (fresh : UmpSocket D) (c : UmpCore D h) (addr a : SockAddr) (p : Place)
      → IsTidy c
      → At c a p
      → Follows (connect_begin fresh c addr).1 a p
  unfolding connect_begin
  connect_begin-Follows fresh c addr a p w at =
      let P : Option ℕ × UmpCore D h → Type 0 = λ r. Follows r.1 a p in
      let (q, at0) = w.placed addr in
      let same : Follows c a p = Elsewhere-Follows at (record {
        same_umps = refl;
        same_backlog = refl;
        same_act = refl;
        same_closed = refl;
        kept_socks = λ j e. e;
      }) in
      if_cases P (has (h.lookup c.act_connect addr)) (λ _. same)
        (λ ea.
          if_cases P (has (h.lookup c.umps addr)) (λ _. same)
            (λ eu.
              if_cases P (has (h.lookup c.closed_umps addr)) (λ _. same)
                (λ ec.
                  begin_as-Follows (h.lookup c.backlog_umps addr) fresh c addr a p q w at0
                    (sym at0.umps_at ∙ not_has _ eu) (sym at0.act_at ∙ not_has _ ea)
                    (sym at0.closed_at ∙ not_has _ ec) (sym at0.backlog_at) at)))
