-- ===== src/Core/Dispatch/Delivery.antt =====
-- Which socket a packet reaches.
use user_message_protocol.Base.{
  ℕ, ◌≡◌, ◌≢◌, refl, sym, ◌∙◌, ap, subst, Option, some, ◌==◌, arith, if_cases,
}
use user_message_protocol.Packet.{UmpPacket}
use user_message_protocol.Sock.{UmpSocket}
use user_message_protocol.Sock.Thread.{deliver}
use user_message_protocol.Core.{Peer, UmpCore, change_sock}
use user_message_protocol.Core.Dispatch.{find_receiver, receive, receive_as}
use user_message_protocol.Core.Place.{
  Place, nowhere, in_backlog, calling, in_use, at_rest, occupant, At, stored,
}
use user_message_protocol.Core.Table.{SockAddr, GHashTable}

module _ {D : Type 0} {h : GHashTable} where
  find_receiver-occupant :
      (c : UmpCore D h) (a : SockAddr) (p : Place) → At c a p → find_receiver c a ≡ occupant p
  unfolding find_receiver
  find_receiver-occupant c a nowhere w =
      ground (arith, w.umps_at, w.backlog_at, w.act_at, w.closed_at)
  find_receiver-occupant c a (in_backlog i) w =
      ground (arith, w.umps_at, w.backlog_at, w.act_at, w.closed_at)
  find_receiver-occupant c a (calling i) w =
      ground (arith, w.umps_at, w.backlog_at, w.act_at, w.closed_at)
  find_receiver-occupant c a (in_use i) w =
      ground (arith, w.umps_at, w.backlog_at, w.act_at, w.closed_at)
  find_receiver-occupant c a (at_rest i) w =
      ground (arith, w.umps_at, w.backlog_at, w.act_at, w.closed_at)

  -- When a socket is at the address that a packet comes from, whichever table it is in, the packet
  -- is put into the queue of this socket, if that has space; no other socket and no table changes,
  -- and no reset is sent.
  pub receive_reaches :
      (fresh : UmpSocket D) (c : UmpCore D h) (from : SockAddr) (p : UmpPacket) (place : Place)
      (i : ℕ) (s : Peer D)
      → At c from place
      → occupant place ≡ some i
      → c.socks i ≡ some s
      → let d = receive fresh c from p in
        (d.socks i ≡ some (record s { sock = deliver p.p_type s.sock p }))
        × ((j : ℕ) → j ≢ i → d.socks j ≡ c.socks j)
        × (d.umps ≡ c.umps)
        × (d.backlog_umps ≡ c.backlog_umps)
        × (d.act_connect ≡ c.act_connect)
        × (d.closed_umps ≡ c.closed_umps)
        × (d.sent ≡ c.sent)
  unfolding receive
  receive_reaches fresh c from p place i s w e l =
      subst (λ (o : Option ℕ). Reaches (receive_as o fresh c from p))
        (sym (find_receiver-occupant c from place w ∙ e))
        (
          stored c.socks i _ ∙ ap (change_sock (λ t. deliver p.p_type t p)) l,
          λ j n.
              if_cases (λ x. x ≡ c.socks j) (i == j) (λ q. absurd (n (ground (arith, q))))
                (λ _. refl),
          refl,
          refl,
          refl,
          refl,
          refl,
        )
    where
      Reaches : UmpCore D h → Type 0
      Reaches d =
          (d.socks i ≡ some (record s { sock = deliver p.p_type s.sock p }))
          × ((j : ℕ) → j ≢ i → d.socks j ≡ c.socks j)
          × (d.umps ≡ c.umps)
          × (d.backlog_umps ≡ c.backlog_umps)
          × (d.act_connect ≡ c.act_connect)
          × (d.closed_umps ≡ c.closed_umps)
          × (d.sent ≡ c.sent)
