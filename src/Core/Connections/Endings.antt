-- ===== src/Core/Connections/Endings.antt =====
-- How a connect ends, how a connection is accepted, and how it is closed, in terms of the places of
-- the addresses.
use user_message_protocol.Base.{
  ℕ, ◌≡◌, refl, sym, ◌∙◌, subst, Option, some, Bool, arith, if_both, ◌⊎◌, inl, inr,
}
use user_message_protocol.Core.{UmpCore, their_addr_of}
use user_message_protocol.Core.Connections.{
  connect_end, take_off, settle_closed, close_at, close_end,
}
use user_message_protocol.Core.Connections.Places.{
  insert_at_here, insert_at_there, drop_at_here, drop_at_there,
}
use user_message_protocol.Core.Place.{
  freed-their_addr_of, Place, at_rest, occupant, reached, unreachable, hung_up, stays, Moves, At,
  IsTidy, Follows, one_address, used_place, called_place, resting_place,
}
use user_message_protocol.Core.Table.{SockAddr, GHashTable, IsTable, remove_here, remove_there}

module _ {D : Type 0} {h : GHashTable} (laws : IsTable h) where
  -- The second half of `ump_connect` lets every address follow its life, for the socket that is
  -- called.
  pub connect_end-Follows :
      (c : UmpCore D h) (addr : SockAddr) (i : ℕ) (ok : Bool) (a : SockAddr) (p : Place)
      → IsTidy c
      → h.lookup c.act_connect addr ≡ some i
      → At c a p
      → Follows (connect_end c addr i ok).1 a p
  unfolding connect_end
  connect_end-Follows c addr i ok a p w e at =
      let (q, v) = w.placed addr in
      let at0 = subst (At c addr) (called_place q i (sym v.act_at ∙ e)) v in
      if_both (λ (r : Option ℕ × UmpCore D h). Follows r.1 a p) ok
        (one_address addr a at0 at
          (record {
            umps_at = insert_at_here laws c.umps (c.socks i) i addr (at0.live i refl);
            backlog_at = at0.backlog_at;
            act_at = remove_here laws c.act_connect addr;
            closed_at = at0.closed_at;
            live = at0.live;
          })
          reached
          (λ f. record {
            same_umps = insert_at_there laws c.umps (c.socks i) i addr a (at0.live i refl) f;
            same_backlog = refl;
            same_act = remove_there laws c.act_connect addr a f;
            same_closed = refl;
            kept_socks = λ j x. x;
          }))
        (one_address addr a at0 at
          (record {
            umps_at = at0.umps_at;
            backlog_at = at0.backlog_at;
            act_at = remove_here laws c.act_connect addr;
            closed_at = at0.closed_at;
            live = λ j o. absurd (ground (arith, o));
          })
          unreachable
          (λ f. record {
            same_umps = refl;
            same_backlog = refl;
            same_act = remove_there laws c.act_connect addr a f;
            same_closed = refl;
            kept_socks = λ j. freed-their_addr_of c.socks i j addr a (at0.live i refl) f;
          }))

  hung_up-Follows :
      (c : UmpCore D h) (b : SockAddr) (i : ℕ) (a : SockAddr) (p0 p : Place)
      → At c b p0
      → occupant p0 ≡ some i
      → Moves p0 (at_rest i)
      → At c a p
      → Follows (close_at (some b) c i) a p
  hung_up-Follows c b i a p0 p at0 e m at =
      let l = at0.live i e in
      let c1 = take_off c b in
      subst (λ (o : Option ℕ). Follows (settle_closed o c1 i) a p)
        (sym (drop_at_here laws c.umps b))
        (one_address b a at0 at
          (record {
            umps_at = drop_at_here laws c.umps b;
            backlog_at = drop_at_here laws c.backlog_umps b;
            act_at = drop_at_here laws c.act_connect b;
            closed_at = insert_at_here laws c.closed_umps (c.socks i) i b l;
            live =
                λ j o. subst (λ (k : ℕ). their_addr_of (c.socks k) ≡ some b) (ground (arith, o)) l;
          })
          m
          (λ f. record {
            same_umps = drop_at_there laws c.umps b a f;
            same_backlog = drop_at_there laws c.backlog_umps b a f;
            same_act = drop_at_there laws c.act_connect b a f;
            same_closed = insert_at_there laws c.closed_umps (c.socks i) i b a l f;
            kept_socks = λ j x. x;
          }))

  -- The second half of `ump_close` lets every address follow its life, for a socket in use or closed
  -- already.
  pub close_end-Follows :
      (c : UmpCore D h) (b : SockAddr) (i : ℕ) (a : SockAddr) (p : Place)
      → IsTidy c
      → (h.lookup c.umps b ≡ some i) ⊎ (h.lookup c.closed_umps b ≡ some i)
      → At c a p
      → Follows (close_end c i) a p
  unfolding close_end
  close_end-Follows c b i a p w (inl e) at =
      let (q, u) = w.placed b in
      let at0 = subst (At c b) (used_place q i (sym u.umps_at ∙ e)) u in
      subst (λ (o : Option SockAddr). Follows (close_at o c i) a p) (sym (at0.live i refl))
        (hung_up-Follows c b i a _ p at0 refl hung_up at)
  close_end-Follows c b i a p w (inr e) at =
      let (q, u) = w.placed b in
      let at0 = subst (At c b) (resting_place q i (sym u.closed_at ∙ e)) u in
      subst (λ (o : Option SockAddr). Follows (close_at o c i) a p) (sym (at0.live i refl))
        (hung_up-Follows c b i a _ p at0 refl stays at)
