-- ===== src/Core/Connections.antt =====
-- `ump_connect`, `ump_accept` and `ump_close` of user_message_protocol/ump.c: what they do to the
-- tables before and after the calls that block.
pub mod Choice
pub mod Places
pub mod Asking
pub mod Endings
pub mod Unborn
pub mod Accepting
use user_message_protocol.Base.{
  ℕ, suc, ◌+◌, List, [], ◌∷◌, ◌++◌, Option, none, some, Bool, true, false, ltb, leb, ◌==◌, ◌&&◌,
  ◌||◌, if◌then◌else◌,
}
use user_message_protocol.Base.Int.{ℤ, pos, negsuc, ltb_ℤ, leb_ℤ}
use user_message_protocol.Clock.{TimeVal, Clock, time_sub}
use user_message_protocol.Packet.{
  UmpPacket, PacketType, control, user, outgoing, new, set_flag, get_flag, ctrl_syn, ctrl_rst,
}
use user_message_protocol.Packet.Codec.{to_binary}
use user_message_protocol.Event.{MEvent, try_wait}
use user_message_protocol.Sock.{UmpSocket, Env, SockState, closed, connecting, established, closing}
use user_message_protocol.Sock.Calls.{is_established}
use user_message_protocol.Sock.Life.{sock_new}
use user_message_protocol.Sock.Thread.{deliver}
use user_message_protocol.Core.Table.{SockAddr, inaddr_eq, GHashTable, has, contains}
use user_message_protocol.Core.{
  Peer, UmpCore, store, or_else, is_closed, is_over, is_control, calm_micros, later, always,
  test_sock, change_sock, connect_time_of, their_addr_of, due, free_where, insert_at, remove_at,
  drop_at, alloc, free,
}

-- Where `ump_accept` is at the end of a round: it sleeps at `accept_ok`, it waits again, or it
-- returns a socket.
pub data AcceptTurn (D : Type 0) (h : GHashTable) : Type 0 where
  sleeps : AcceptTurn D h
  goes_round : MEvent → UmpCore D h → AcceptTurn D h
  accepts : MEvent → ℕ → UmpCore D h → AcceptTurn D h

module _ {D : Type 0} {h : GHashTable} where
  -- `ump_connect`, lines 176 to 189: a socket in the backlog is taken out of it, and not used when it
  -- is over; else there is a new one.
  abbrev pub begin_as : Option ℕ → UmpSocket D → UmpCore D h → SockAddr → Option ℕ × UmpCore D h
  begin_as (some i) fresh c addr =
      let c1 = record c { backlog_umps = h.remove c.backlog_umps addr } in
      if test_sock (λ s. is_over s.public_state) (c.socks i)
      then (none, c1)
      else (some i, record c1 { act_connect = insert_at h c.act_connect (c.socks i) i })
  begin_as none fresh c addr = (
    some c.next,
    record (alloc c addr fresh) { act_connect = h.insert c.act_connect addr c.next },
  )

  -- `ump_connect` up to its call of `ump_sock_connect`, lines 161 to 189: the socket to connect.
  unfoldable pub connect_begin : UmpSocket D → UmpCore D h → SockAddr → Option ℕ × UmpCore D h
  connect_begin fresh c addr =
      if has (h.lookup c.act_connect addr)
      then (none, c)
      else if has (h.lookup c.umps addr)
      then (none, c)
      else if has (h.lookup c.closed_umps addr)
      then (none, c)
      else begin_as (h.lookup c.backlog_umps addr) fresh c addr

  -- The rest, lines 195 to 204; `ok` is the result of `ump_sock_connect`.
  unfoldable pub connect_end : UmpCore D h → SockAddr → ℕ → Bool → Option ℕ × UmpCore D h
  connect_end c addr i ok =
      let c1 = record c { act_connect = h.remove c.act_connect addr } in
      if ok
      then (some i, record c1 { umps = insert_at h c.umps (c.socks i) i })
      else (none, free c1 i)

  -- `ump_accept`, lines 222 to 231: of the sockets of the backlog that are established, the one that
  -- was first; `best` is `u_s`.
  abbrev pub choose : UmpCore D h → Option ℕ → ℕ → Option ℕ
  choose c none i = some i
  choose c (some b) i =
      if later (connect_time_of (c.socks b)) (connect_time_of (c.socks i)) then some i else some b

  abbrev pub is_ready : UmpCore D h → ℕ → Bool
  is_ready c i = test_sock (λ s. is_established s.public_state) (c.socks i)

  abbrev pub weigh : UmpCore D h → Option ℕ → ℕ → Option ℕ
  weigh c best i = if is_ready c i then choose c best i else best

  unfoldable pub scan : UmpCore D h → Option ℕ → List ℕ → Option ℕ
  scan c best [] = best
  scan c best (i ∷ is) = scan c (weigh c best i) is

  abbrev pub take_out : UmpCore D h → Option ℕ → UmpCore D h
  take_out c none = c
  take_out c (some i) = record c {
    backlog_umps = remove_at h c.backlog_umps (their_addr_of (c.socks i));
    umps = insert_at h c.umps (c.socks i) i;
  }

  -- One pass of the loop in `ump_accept`, after its wait.
  unfoldable pub accept : UmpCore D h → Option ℕ × UmpCore D h
  unfolding scan
  accept c = let best = scan c none (h.values c.backlog_umps) in (best, take_out c best)

  abbrev pub accept_passed : MEvent → Option ℕ → UmpCore D h → AcceptTurn D h
  accept_passed e none c = goes_round e c
  accept_passed e (some i) c = accepts e i c

  abbrev pub accept_woken : UmpCore D h → Option MEvent → AcceptTurn D h
  accept_woken c none = sleeps
  accept_woken c (some e) = accept_passed e (accept c).0 (accept c).1

  -- One round of the loop in `ump_accept`, lines 213 to 239: the wait at `accept_ok`, and the pass.
  unfoldable pub accept_turn : MEvent → UmpCore D h → AcceptTurn D h
  unfolding accept
  accept_turn accept_ok c = accept_woken c (try_wait accept_ok)

  abbrev pub take_off : UmpCore D h → SockAddr → UmpCore D h
  take_off c a = record c {
    act_connect = drop_at h c.act_connect a;
    backlog_umps = drop_at h c.backlog_umps a;
    umps = drop_at h c.umps a;
  }

  abbrev pub settle_closed : Option ℕ → UmpCore D h → ℕ → UmpCore D h
  settle_closed none c i = record c { closed_umps = insert_at h c.closed_umps (c.socks i) i }
  settle_closed (some j) c i = if j == i then c else free c i

  -- `ump_close` after its call of `ump_sock_close`, lines 253 to 272, for the address of the socket.
  abbrev pub close_at : Option SockAddr → UmpCore D h → ℕ → UmpCore D h
  close_at none c i = c
  close_at (some a) c i = let c1 = take_off c a in settle_closed (h.lookup c1.umps a) c1 i

  unfoldable pub close_end : UmpCore D h → ℕ → UmpCore D h
  close_end c i = close_at (their_addr_of (c.socks i)) c i
