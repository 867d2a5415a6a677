-- ===== src/Core/Dispatch.antt =====
-- `receive_thread_func` of user_message_protocol/core_thread.c: which socket a packet goes to, what
-- happens to a packet that finds none, and how a socket comes into the backlog.
pub mod Places
pub mod Delivery
use user_message_protocol.Base.{
  ℕ, suc, ◌+◌, List, [], ◌∷◌, ◌++◌, Option, none, some, Bool, true, false, ltb, leb, ◌==◌, ◌&&◌,
  ◌||◌, if◌then◌else◌,
}
use user_message_protocol.Base.Int.{ℤ, pos, negsuc, ltb_ℤ, leb_ℤ}
use user_message_protocol.Clock.{TimeVal, Clock, time_sub}
use user_message_protocol.Packet.{
  UmpPacket, PacketType, control, user, outgoing, new, set_flag, get_flag, ctrl_syn, ctrl_rst,
}
use user_message_protocol.Packet.Codec.{to_binary}
use user_message_protocol.Sock.{UmpSocket, Env, SockState, closed, connecting, established, closing}
use user_message_protocol.Sock.Calls.{is_established}
use user_message_protocol.Sock.Life.{sock_new}
use user_message_protocol.Sock.Thread.{deliver}
use user_message_protocol.Core.Table.{SockAddr, inaddr_eq, GHashTable, has, contains}
use user_message_protocol.Core.{
  Peer, UmpCore, store, or_else, is_closed, is_over, is_control, calm_micros, later, always,
  test_sock, change_sock, connect_time_of, their_addr_of, due, free_where, insert_at, remove_at,
  drop_at, alloc, free,
}

module _ {D : Type 0} {h : GHashTable} where
  -- core_thread.c, lines 71 to 90.
  unfoldable pub find_receiver : UmpCore D h → SockAddr → Option ℕ
  find_receiver c from = or_else (h.lookup c.umps from) (
      or_else (h.lookup c.backlog_umps from)
        (or_else (h.lookup c.act_connect from) (h.lookup c.closed_umps from)))

  -- Lines 91 to 104; `fresh` is the socket that `ump_sock_new` makes.
  unfoldable pub admit : UmpSocket D → UmpCore D h → SockAddr → UmpPacket → Option ℕ × UmpCore D h
  admit fresh c from p =
      if is_control p.p_type && get_flag p ctrl_syn
      then (let c1 = alloc c from fresh in
          if leb (h.size c.backlog_umps) c.backlog_limit
          then (some c.next, record c1 { backlog_umps = h.insert c.backlog_umps from c.next })
          else (none, free c1 c.next))
      else (none, c)

  -- Lines 115 to 143: the packet goes to the socket. Waking its thread is left out.
  abbrev pub hand_over : UmpCore D h → ℕ → UmpPacket → UmpCore D h
  hand_over c i p = record c {
    socks = store c.socks i (change_sock (λ s. deliver p.p_type s p) (c.socks i));
  }

  -- `ump_send_reset_packet_to`.
  abbrev pub send_reset_to : UmpCore D h → SockAddr → UmpCore D h
  send_reset_to c addr = record c {
    sent = c.sent ++ (addr, (to_binary (set_flag (new control outgoing) ctrl_rst)).1) ∷ [];
  }

  abbrev pub conclude : SockAddr → UmpPacket → Option ℕ × UmpCore D h → UmpCore D h
  conclude from p (none, c) = send_reset_to c from
  conclude from p (some i, c) = hand_over c i p

  abbrev pub receive_as : Option ℕ → UmpSocket D → UmpCore D h → SockAddr → UmpPacket → UmpCore D h
  receive_as (some i) fresh c from p = hand_over c i p
  receive_as none fresh c from p = conclude from p (admit fresh c from p)

  -- `receive_thread_func` for one datagram that is a packet.
  unfoldable pub receive : UmpSocket D → UmpCore D h → SockAddr → UmpPacket → UmpCore D h
  unfolding find_receiver admit
  receive fresh c from p = receive_as (find_receiver c from) fresh c from p
