-- ===== src/Core/Connections/Accepting.antt =====
-- How `ump_accept` takes a connection, in terms of the places of the addresses.
use user_message_protocol.Base.{
  ℕ, ◌≡◌, refl, sym, ◌∙◌, ap, subst, Option, none, some, true, false, arith, List, if◌then◌else◌,
  Bool-cases, inl, inr,
}
use user_message_protocol.Sock.Calls.{is_established}
use user_message_protocol.Core.{Peer, UmpCore, test_sock, their_addr_of, insert_at, remove_at}
use user_message_protocol.Core.Connections.{
  scan, is_ready, take_out, accept, accept_turn, accept_woken, accept_passed, accepts, sleeps,
}
use user_message_protocol.Event.{MEvent, set, try_wait}
use user_message_protocol.Core.Connections.Choice.{IsChosen, scan-IsChosen, scan_finds}
use user_message_protocol.Core.Connections.Places.{insert_at_here, insert_at_there}
use user_message_protocol.Core.Place.{
  Place, in_backlog, accepted, At, IsTidy, Follows, Elsewhere-Follows, one_address, waiting_place,
}
use user_message_protocol.Core.Table.{
  SockAddr, inaddr_eq, inaddr_eq→eq, GHashTable, IsTable, has, remove_here, remove_there,
}

module _ {D : Type 0} {h : GHashTable} where
  -- What a pass takes: an established socket that was in the backlog, and that is in use afterwards
  -- and not in the backlog any more.
  pub record Handover (c d : UmpCore D h) (j : ℕ) (k : SockAddr) : Type 0 where
    pub ready : is_ready c j ≡ true
    pub was_there : h.lookup c.backlog_umps k ≡ some j
    pub in_use : h.lookup d.umps k ≡ some j
    pub gone : h.lookup d.backlog_umps k ≡ none
    pub others :
        (a : SockAddr)
        → inaddr_eq (some k) (some a) ≡ false
        → h.lookup d.backlog_umps a ≡ h.lookup c.backlog_umps a
    pub same_socks : d.socks ≡ c.socks

module _ {D : Type 0} {h : GHashTable} (laws : IsTable h) where
  taken-Follows :
      (c : UmpCore D h) (addr : SockAddr) (i : ℕ) (a : SockAddr) (p : Place) (o : Option SockAddr)
      → At c addr (in_backlog i)
      → some addr ≡ o
      → At c a p
      → Follows
          (record c {
            backlog_umps = remove_at h c.backlog_umps o;
            umps = insert_at h c.umps (c.socks i) i;
          })
          a
          p
  taken-Follows c addr i a p o at0 e at =
      subst
        (λ (o : Option SockAddr).
          Follows
            (record c {
              backlog_umps = remove_at h c.backlog_umps o;
              umps = insert_at h c.umps (c.socks i) i;
            })
            a p)
        e
        (one_address addr a at0 at
          (record {
            umps_at = insert_at_here laws c.umps (c.socks i) i addr (at0.live i refl);
            backlog_at = remove_here laws c.backlog_umps addr;
            act_at = at0.act_at;
            closed_at = at0.closed_at;
            live = at0.live;
          })
          accepted
          (λ f. record {
            same_umps = insert_at_there laws c.umps (c.socks i) i addr a (at0.live i refl) f;
            same_backlog = remove_there laws c.backlog_umps addr a f;
            same_act = refl;
            same_closed = refl;
            kept_socks = λ j x. x;
          }))

  -- One pass of `ump_accept` lets every address follow its life.
  pub accept-Follows :
      (c : UmpCore D h) (a : SockAddr) (p : Place) → IsTidy c → At c a p → Follows (accept c).1 a p
  unfolding accept
  accept-Follows c a p w at =
      taken_out (scan c none (h.values c.backlog_umps))
        (scan-IsChosen c (h.values c.backlog_umps) none (h.values c.backlog_umps) (λ i e. e) tt)
    where
      taken_out :
          (o : Option ℕ) → IsChosen c (h.values c.backlog_umps) o → Follows (take_out c o) a p
      taken_out none v = Elsewhere-Follows at (record {
        same_umps = refl;
        same_backlog = refl;
        same_act = refl;
        same_closed = refl;
        kept_socks = λ j x. x;
      })
      taken_out (some i) v =
          let (k, e) = laws.value→key c.backlog_umps i v.0 in
          let (q, u) = w.placed k in
          let at0 = subst (At c k) (waiting_place q i (sym u.backlog_at ∙ e)) u in
          taken-Follows c k i a p _ at0 (sym (at0.live i refl)) at

  taken_lem :
      (c : UmpCore D h) (k : SockAddr) (j : ℕ) (o : Option SockAddr)
      → their_addr_of (c.socks j) ≡ some k
      → o ≡ some k
      → (h.lookup (insert_at h c.umps (c.socks j) j) k ≡ some j)
        × (h.lookup (remove_at h c.backlog_umps o) k ≡ none)
  taken_lem c k j o l e = (
    insert_at_here laws c.umps (c.socks j) j k l,
    ap (λ (x : Option SockAddr). h.lookup (remove_at h c.backlog_umps x) k) e
        ∙ remove_here laws c.backlog_umps k,
  )

  accept_finds :
      (c : UmpCore D h) (a : SockAddr) (i : ℕ)
      → IsTidy c
      → h.lookup c.backlog_umps a ≡ some i
      → is_ready c i ≡ true
      → (j : ℕ) × (k : SockAddr) × ((accept c).0 ≡ some j) × Handover c (accept c).1 j k
  unfolding accept
  accept_finds c a i w e t =
      pick (scan c none is) (scan-IsChosen c is none is (λ j x. x) tt)
        (scan_finds c none is i (laws.key→value c.backlog_umps a i e) t)
    where
      is : List ℕ
      is = h.values c.backlog_umps

      pick :
          (o : Option ℕ)
          → IsChosen c is o
          → has o ≡ true
          → (j : ℕ) × (k : SockAddr) × (o ≡ some j) × Handover c (take_out c o) j k
      pick none v x = absurd (ground (arith, x))
      pick (some j) v x =
          let (k, f) = laws.value→key c.backlog_umps j v.0 in
          let (q, u) = w.placed k in
          let at0 = subst (At c k) (waiting_place q j (sym u.backlog_at ∙ f)) u in
          let l = at0.live j refl in
          let (used_now, gone) = taken_lem c k j (their_addr_of (c.socks j)) l l in
          (
            j,
            k,
            refl,
            record {
              ready = v.1;
              was_there = f;
              in_use = used_now;
              gone = gone;
              others = λ b n.
                  ap (λ (x : Option SockAddr). h.lookup (remove_at h c.backlog_umps x) b) l
                  ∙ remove_there laws c.backlog_umps k b n;
              same_socks = refl;
            },
          )

  accept_woken-accepts :
      (c : UmpCore D h) (o : Option MEvent) (e : MEvent) (j : ℕ)
      → o ≡ some e
      → (accept c).0 ≡ some j
      → accept_woken c o ≡ accepts e j (accept c).1
  accept_woken-accepts c o e j f g =
      ap (accept_woken c) f ∙ ap (λ (x : Option ℕ). accept_passed e x (accept c).1) g

  -- When `accept_ok` is set and a socket of the backlog is established, a call of `ump_accept`
  -- returns: it gets an established socket that was in the backlog, and that is in use afterwards
  -- and not in the backlog any more.
  pub accept_takes :
      (ok : MEvent) (c : UmpCore D h) (a : SockAddr) (i : ℕ)
      → ok.isset ≡ true
      → IsTidy c
      → h.lookup c.backlog_umps a ≡ some i
      → is_ready c i ≡ true
      → (e : MEvent) × (d : UmpCore D h) × (j : ℕ) × (k : SockAddr) × (accept_turn ok c
          ≡ accepts e j d)
        × Handover c d j k
  unfolding accept_turn try_wait
  accept_takes ok c a i on w l t =
      let (j, k, found, taken) = accept_finds c a i w l t in
      let e = if ok.auto_reset then record ok { isset = false } else ok in
      (e, (accept c).1, j, k, accept_woken-accepts c (try_wait ok) e j (rw on refl) found, taken)

  still_ready :
      (c d : UmpCore D h) (i : ℕ) → d.socks ≡ c.socks → is_ready c i ≡ true → is_ready d i ≡ true
  still_ready c d i e t =
      subst
        (λ (f : ℕ → Option (Peer D)). test_sock (λ s. is_established s.public_state) (f i) ≡ true)
        (sym e) t

  -- A connection is missed: where two sockets of the backlog are established and `accept_ok` was
  -- set for each of them before `ump_accept` waits, the first call returns one of them, and the
  -- next call sleeps although the other one is established and in the backlog.
  pub accept_misses :
      (ok : MEvent) (c : UmpCore D h) (a b : SockAddr) (i l : ℕ)
      → ok.auto_reset ≡ true
      → IsTidy c
      → inaddr_eq (some a) (some b) ≡ false
      → h.lookup c.backlog_umps a ≡ some i
      → is_ready c i ≡ true
      → h.lookup c.backlog_umps b ≡ some l
      → is_ready c l ≡ true
      → (e : MEvent) × (d : UmpCore D h) × (j : ℕ) × (k : SockAddr) × (accept_turn
            (set (set ok).0).0
            c
          ≡ accepts e j d)
        × Handover c d j k
        × (accept_turn e d ≡ sleeps)
        × ((q : SockAddr) × (m : ℕ) × (h.lookup d.backlog_umps q ≡ some m) × (is_ready d m ≡ true))
  unfolding accept_turn try_wait set
  accept_misses ok c a b i l auto w ne la ta lb tb =
      let (j, k, found, taken) = accept_finds c a i w la ta in
      let d = (accept c).1 in
      let e = record ok { isset = false } in
      (
        e,
        d,
        j,
        k,
        accept_woken-accepts c (try_wait (set (set ok).0).0) e j (rw auto refl) found,
        taken,
        refl,
        elim (Bool-cases (inaddr_eq (some k) (some a))) [
          | inl same ↦
              let apart =
                subst (λ (x : SockAddr). inaddr_eq (some x) (some b) ≡ false)
                  (sym (inaddr_eq→eq k a same)) ne in
              (b, l, taken.others b apart ∙ lb, still_ready c d l taken.same_socks tb)
          | inr other ↦ (a, i, taken.others a other ∙ la, still_ready c d i taken.same_socks ta)
        ],
      )
