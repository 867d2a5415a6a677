-- ===== src/Core/Connections/Asking.antt =====
-- What `ump_connect` makes of an address, place by place.
use user_message_protocol.Base.{
  ℕ, ◌≡◌, refl, sym, ◌∙◌, ap, subst, Option, none, some, Bool, arith, if_cases, if◌then◌else◌,
}
use user_message_protocol.Sock.{UmpSocket}
use user_message_protocol.Core.{UmpCore, test_sock, is_over}
use user_message_protocol.Core.Connections.{begin_as, connect_begin}
use user_message_protocol.Core.Connections.Places.{insert_at_here}
use user_message_protocol.Core.Place.{
  Place, nowhere, in_backlog, calling, in_use, at_rest, At, used, waiting, called, resting,
}
use user_message_protocol.Core.Table.{SockAddr, GHashTable, IsTable, has, insert_here}

module _ {D : Type 0} {h : GHashTable} (fresh : UmpSocket D) (c : UmpCore D h)
    (addr : SockAddr) where
  -- `connect_begin` where the tables hold these entries of the address.
  begin_with : Option ℕ → Option ℕ → Option ℕ → Option ℕ → Option ℕ × UmpCore D h
  begin_with a u r back =
      if has a
      then (none, c)
      else if has u
      then (none, c)
      else if has r
      then (none, c)
      else begin_as back fresh c addr

  begins :
      (p : Place)
      → At c addr p
      → connect_begin fresh c addr ≡ begin_with (called p) (used p) (resting p) (waiting p)
  unfolding connect_begin begin_with
  begins p w =
      ap
        (λ (o : Option ℕ).
          begin_with o (h.lookup c.umps addr) (h.lookup c.closed_umps addr)
            (h.lookup c.backlog_umps addr))
        w.act_at
      ∙ ap
          (λ (o : Option ℕ).
            begin_with (called p) o (h.lookup c.closed_umps addr) (h.lookup c.backlog_umps addr))
          w.umps_at
      ∙ ap (λ (o : Option ℕ). begin_with (called p) (used p) o (h.lookup c.backlog_umps addr))
          w.closed_at
      ∙ ap (λ (o : Option ℕ). begin_with (called p) (used p) (resting p) o) w.backlog_at

  -- The socket to connect: a new one, or that of the backlog unless it is over.
  abbrev pub to_connect : Place → Option ℕ
  to_connect nowhere = some c.next
  to_connect (in_backlog i) =
      if test_sock (λ s. is_over s.public_state) (c.socks i) then none else some i
  to_connect _ = none

  -- An answer, and that the core calls the socket that is answered.
  abbrev Calls : Place → Option ℕ × UmpCore D h → Type 0
  Calls p r =
      (r.0 ≡ to_connect p) × ((j : ℕ) → r.0 ≡ some j → h.lookup r.1.act_connect addr ≡ some j)

  refused : (t : h.Table) (j : ℕ) → none ≡ some j → h.lookup t addr ≡ some j
  refused t j e = absurd (ground (arith, e))

  begin_with-Calls :
      (laws : IsTable h) (p : Place)
      → At c addr p
      → Calls p (begin_with (called p) (used p) (resting p) (waiting p))
  unfolding begin_with
  begin_with-Calls laws nowhere w = (refl, λ j e. insert_here laws c.act_connect addr c.next ∙ e)
  begin_with-Calls laws (in_backlog i) w =
      let over = test_sock (λ s. is_over s.public_state) (c.socks i) in
      if_cases
        (λ (r : Option ℕ × UmpCore D h).
          (r.0 ≡ to_connect (in_backlog i))
          × ((j : ℕ) → r.0 ≡ some j → h.lookup r.1.act_connect addr ≡ some j))
        over (λ e. (ap (λ (b : Bool). if b then none else some i) (sym e), refused c.act_connect))
        (λ e. (
          ap (λ (b : Bool). if b then none else some i) (sym e),
          λ j k. insert_at_here laws c.act_connect (c.socks i) i addr (w.live i refl) ∙ k,
        ))
  begin_with-Calls laws (calling i) w = (refl, refused c.act_connect)
  begin_with-Calls laws (in_use i) w = (refl, refused c.act_connect)
  begin_with-Calls laws (at_rest i) w = (refl, refused c.act_connect)

  -- `ump_connect` takes a new socket for an address that is nowhere, the socket of the backlog
  -- where the address is there and the socket is not over, and refuses every other address; and the
  -- socket that it takes is then the one that the core calls at this address.
  pub connect_begin_lem :
      (laws : IsTable h) (p : Place)
      → At c addr p
      → ((connect_begin fresh c addr).0 ≡ to_connect p)
        × ((j : ℕ)
            → (connect_begin fresh c addr).0 ≡ some j
            → h.lookup (connect_begin fresh c addr).1.act_connect addr ≡ some j)
  connect_begin_lem laws p w = subst (Calls p) (sym (begins p w)) (begin_with-Calls laws p w)
