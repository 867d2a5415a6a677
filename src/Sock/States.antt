-- ===== src/Sock/States.antt =====
-- The states of a connection, of user_message_protocol/ump_sock.c: `ump_change_state` with the enter
-- and leave functions, the packets that open and close a connection, and the end of a connection by
-- an error. The leave functions, and the enter functions of the other two states, do nothing.
pub mod Release
use user_message_protocol.Base.{
  ℕ, ◌+◌, ◌*◌, Option, none, some, Bool, true, false, ltb, u16, if◌then◌else◌,
}
use user_message_protocol.Base.Int.{ℤ, pos, ◌*ℤ◌}
use user_message_protocol.Packet.{
  UmpPacket, PacketType, control, outgoing, new, set_flag, ctrl_syn, ctrl_seq, ctrl_mss, ctrl_wnd,
  ctrl_fin,
}
use user_message_protocol.Sock.{
  UmpSocket, Env, now, tick, SockState, closed, connecting, established, closing, method_connect,
  method_close, method_all_call, rec_queue_limit, ump_ctrl_timeout,
}
use user_message_protocol.Sock.Receive.{end_receive}
use user_message_protocol.Sock.Calls.{end_ctrl, end_send}

module _ {D : Type 0} where
  -- `ump_closed_enter_state`.
  unfoldable pub enter_closed : Env D → UmpSocket D → UmpSocket D
  enter_closed env s =
      let s1 = record (tick s) { close_time = now env s } in
      let s2 = if ltb s1.rcv_packets_msg_num 1 then end_receive s1 false else s1 in
      end_ctrl s2 method_close true

  -- `ump_established_enter_state`.
  unfoldable pub enter_established : Env D → UmpSocket D → UmpSocket D
  enter_established env s =
      end_ctrl (record (tick s) { connect_time = now env s }) method_connect true

  unfoldable pub enter_state : Env D → SockState → UmpSocket D → UmpSocket D
  unfolding enter_closed enter_established
  enter_state env closed s = enter_closed env s
  enter_state env connecting s = s
  enter_state env established s = enter_established env s
  enter_state env closing s = s

  -- `ump_change_state`.
  unfoldable pub change_state : Env D → UmpSocket D → SockState → UmpSocket D
  unfolding enter_state
  change_state env s st = enter_state env st (record s { state = st; public_state = st })

  -- `ump_init_ctrl_rto` and `ump_timeout_refresh_ctrl_rto`.
  unfoldable pub init_ctrl_rto : UmpSocket D → UmpSocket D
  init_ctrl_rto s = record s { ctrl_rto = pos ump_ctrl_timeout }

  unfoldable pub timeout_refresh_ctrl_rto : UmpSocket D → UmpSocket D
  timeout_refresh_ctrl_rto s = record s { ctrl_rto = pos 2 *ℤ s.ctrl_rto }

  -- Lines 1105 to 1112 and 1412 to 1419: a control packet waits to be sent, and takes a number.
  unfoldable pub queue_ctrl_packet : UmpSocket D → UmpPacket → UmpSocket D
  unfolding init_ctrl_rto
  queue_ctrl_packet s p =
      record (init_ctrl_rto (record s { ctrl_packet_to_send = some p; ctrl_packet_sent = false })) {
        our_ctrl_seq = u16 (s.our_ctrl_seq + 1);
      }

  -- `ump_closed_connect`: our SYN.
  unfoldable pub closed_connect : UmpSocket D → UmpSocket D
  unfolding queue_ctrl_packet
  closed_connect s =
      let flagged =
        set_flag (set_flag (set_flag (set_flag (new control outgoing) ctrl_syn) ctrl_seq) ctrl_mss)
          ctrl_wnd in
      queue_ctrl_packet s (record flagged {
        seq_num = s.our_ctrl_seq;
        mss_num = s.our_mss;
        wnd_num = rec_queue_limit;
      })

  -- `ump_established_close`: our FIN.
  unfoldable pub established_close : UmpSocket D → UmpSocket D
  unfolding queue_ctrl_packet
  established_close s =
      queue_ctrl_packet s (record (set_flag (set_flag (new control outgoing) ctrl_fin) ctrl_seq) {
        seq_num = s.our_ctrl_seq;
      })

  -- `ump_connection_error_occured`.
  unfoldable pub connection_error_occured : Env D → UmpSocket D → UmpSocket D
  connection_error_occured env s =
      let s1 = change_state env (record s { error_occured = true }) closed in
      end_receive (end_send (end_ctrl s1 method_all_call false) false) false
