-- ===== src/Core/Clean.antt =====
-- `cleaner_thread_func` of user_message_protocol/core_thread.c and `ump_core_close` of
-- user_message_protocol/ump.c: how sockets go.
pub mod Sweeps
pub mod Places
pub mod Exact
use user_message_protocol.Base.{
  ℕ, suc, ◌+◌, List, [], ◌∷◌, ◌++◌, Option, none, some, Bool, true, false, ltb, leb, ◌==◌, ◌&&◌,
  ◌||◌, if◌then◌else◌,
}
use user_message_protocol.Base.Int.{ℤ, pos, negsuc, ltb_ℤ, leb_ℤ}
use user_message_protocol.Clock.{TimeVal, Clock, time_sub}
use user_message_protocol.Packet.{
  UmpPacket, PacketType, control, user, outgoing, new, set_flag, get_flag, ctrl_syn, ctrl_rst,
}
use user_message_protocol.Packet.Codec.{to_binary}
use user_message_protocol.Sock.{UmpSocket, Env, SockState, closed, connecting, established, closing}
use user_message_protocol.Sock.Calls.{is_established}
use user_message_protocol.Sock.Life.{sock_new}
use user_message_protocol.Sock.Thread.{deliver}
use user_message_protocol.Core.Table.{SockAddr, inaddr_eq, GHashTable, has, contains}
use user_message_protocol.Core.{
  Peer, UmpCore, store, or_else, is_closed, is_over, is_control, calm_micros, later, always,
  test_sock, change_sock, connect_time_of, their_addr_of, due, free_where, insert_at, remove_at,
  drop_at, alloc, free,
}

module _ {D : Type 0} {h : GHashTable} where
  -- `g_hash_table_foreach_remove` with a callback that frees the sockets for which it returns true.
  abbrev pub sweep_closed : (ℕ → Bool) → UmpCore D h → UmpCore D h
  sweep_closed gone c = record c {
    closed_umps = h.foreach_remove gone c.closed_umps;
    socks = free_where gone (h.values c.closed_umps) c.socks;
  }

  abbrev pub sweep_backlog : (ℕ → Bool) → UmpCore D h → UmpCore D h
  sweep_backlog gone c = record c {
    backlog_umps = h.foreach_remove gone c.backlog_umps;
    socks = free_where gone (h.values c.backlog_umps) c.socks;
  }

  -- The sockets that go; `cur` gives the reading of the clock at each socket.
  abbrev pub goes : Clock → (ℕ → TimeVal) → UmpCore D h → ℕ → Bool
  goes clock cur c i = test_sock (due clock (cur i)) (c.socks i)

  -- A round of `cleaner_thread_func`, lines 169 to 171.
  unfoldable pub clean : Clock → (ℕ → TimeVal) → UmpCore D h → UmpCore D h
  clean clock cur c =
      let c1 = sweep_closed (goes clock cur c) c in sweep_backlog (goes clock cur c1) c1

  -- `ump_core_close`, lines 125 to 128: `ump_free_ump_sock` frees every socket of a table.
  unfoldable pub core_close : UmpCore D h → UmpCore D h
  core_close c = record c {
    umps = h.foreach_remove always c.umps;
    closed_umps = h.foreach_remove always c.closed_umps;
    act_connect = h.foreach_remove always c.act_connect;
    backlog_umps = h.foreach_remove always c.backlog_umps;
    socks = free_where always (h.values c.backlog_umps) (
        free_where always (h.values c.act_connect) (
          free_where always (h.values c.closed_umps)
            (free_where always (h.values c.umps) c.socks)));
  }
