-- ===== src/Sock/Control.antt =====
-- Control packets and control calls in each state, of user_message_protocol/ump_sock.c: opening and
-- closing a connection, resets, and the resending of control packets.
pub mod Edges
pub mod Handshake
mod Tests
use user_message_protocol.Base.{
  ℕ, ◌+◌, List, [], ◌∷◌, Option, none, some, Bool, true, false, ◌==◌, ◌&&◌, not, u16, min,
  if◌then◌else◌,
}
use user_message_protocol.Base.Int.{ℤ, pos, ltb_ℤ, leb_ℤ, min_ℤ, ◌*ℤ◌}
use user_message_protocol.Clock.{time_sub}
use user_message_protocol.Packet.{
  UmpPacket, PacketType, control, outgoing, new, get_flag, set_flag, clear_flag, ctrl_syn, ctrl_seq,
  ctrl_mss, ctrl_wnd, ctrl_fin, ctrl_ack, ctrl_rst,
}
use user_message_protocol.Sock.{
  UmpSocket, Env, now, tick, send_out, SockState, closed, connecting, established, closing,
  CallMethod, method_connect, method_close, method_all_call, LockState, locked, unlocked,
  timeout_limit,
}
use user_message_protocol.Sock.Calls.{end_ctrl, end_send, same_method}
use user_message_protocol.Sock.Receive.{end_receive}
use user_message_protocol.Sock.States.{
  change_state, init_ctrl_rto, timeout_refresh_ctrl_rto, closed_connect, established_close,
  connection_error_occured,
}

module _ {D : Type 0} where
  -- The acknowledgement of a control packet is due.
  abbrev pub ack_ctrl : UmpSocket D → UmpSocket D
  ack_ctrl s = record s {
    ack_info = record (s.ack_info) { ctrl_ack_set = true; ctrl_ack_data = s.their_ctrl_seq };
  }

  -- Lines 1053 to 1064 and 1199 to 1210: what the peer's SYN tells of its numbers, its maximum
  -- segment size and its window.
  unfoldable pub read_syn : UmpSocket D → UmpPacket → UmpSocket D
  read_syn s p = record s {
    their_ctrl_seq = u16 (p.seq_num + 1);
    their_data_seq_base = p.seq_num;
    our_mss = if get_flag p ctrl_mss then min s.our_mss p.mss_num else s.our_mss;
    their_wnd = if get_flag p ctrl_wnd then p.wnd_num else s.their_wnd;
  }

  abbrev pub next_ctrl : UmpSocket D → UmpPacket → UmpSocket D
  next_ctrl s p =
      if p.seq_num == s.their_ctrl_seq
      then record s { their_ctrl_seq = u16 (s.their_ctrl_seq + 1) }
      else s

  -- Lines 1073 to 1079 and 1216 to 1222: the next control packet is counted, and any is acknowledged.
  unfoldable pub count_ctrl : UmpSocket D → UmpPacket → UmpSocket D
  count_ctrl s p = if get_flag p ctrl_seq then ack_ctrl (next_ctrl s p) else s

  -- Lines 1181 to 1189, 1306 to 1313 and 1477 to 1485: our control packet is acknowledged.
  unfoldable pub settle_ctrl : UmpSocket D → UmpSocket D
  unfolding init_ctrl_rto
  settle_ctrl s = init_ctrl_rto (record s { ctrl_packet_to_send = none; ctrl_packet_sent = true })

  abbrev pub acks_ours : UmpSocket D → UmpPacket → Bool
  acks_ours s p = s.our_ctrl_seq == p.ack_num

  -- `ump_closed_handle_ctrl_packet`.
  unfoldable pub closed_handle_ctrl_packet : Env D → UmpSocket D → UmpPacket → UmpSocket D
  closed_handle_ctrl_packet env s p =
      if not s.syn_reced && get_flag p ctrl_syn
      then (if get_flag p ctrl_seq
          then change_state env
              (record (ack_ctrl (closed_connect (read_syn s p))) { syn_reced = true }) connecting
          else s)
      else count_ctrl s p

  -- Lines 1180 to 1191.
  unfoldable pub read_syn_ack : UmpSocket D → UmpPacket → UmpSocket D
  read_syn_ack s p =
      if get_flag p ctrl_ack
      then record (if acks_ours s p then settle_ctrl s else s) { syn_ack_reced = true }
      else s

  -- Lines 1224 to 1227.
  unfoldable pub try_establish : Env D → UmpSocket D → UmpSocket D
  try_establish env s = if s.syn_reced && s.syn_ack_reced then change_state env s established else s

  -- Lines 1192 to 1227.
  unfoldable pub connecting_syn : Env D → UmpSocket D → UmpPacket → UmpSocket D
  connecting_syn env s p =
      if get_flag p ctrl_syn
      then (if s.syn_reced
          then ack_ctrl s
          else if get_flag p ctrl_seq
          then try_establish env (record (ack_ctrl (read_syn s p)) { syn_reced = true })
          else s)
      else try_establish env (count_ctrl s p)

  -- `ump_connecting_handle_ctrl_packet`.
  unfoldable pub connecting_handle_ctrl_packet : Env D → UmpSocket D → UmpPacket → UmpSocket D
  connecting_handle_ctrl_packet env s p = connecting_syn env (read_syn_ack s p) p

  -- Lines 1305 to 1317.
  unfoldable pub read_ack : UmpSocket D → UmpPacket → UmpSocket D
  read_ack s p =
      if get_flag p ctrl_ack && acks_ours s p
      then end_ctrl (settle_ctrl s) method_all_call true
      else s

  -- Lines 1319 to 1326: the next control packet, which may be the peer's FIN.
  unfoldable pub established_next : Env D → UmpSocket D → UmpPacket → UmpSocket D
  established_next env s p =
      if p.seq_num == s.their_ctrl_seq
      then (let s1 = record s { their_ctrl_seq = u16 (s.their_ctrl_seq + 1) } in
          if get_flag p ctrl_fin
          then change_state env (established_close (record s1 { fin_reced = true })) closing
          else s1)
      else s

  -- `ump_established_handle_ctrl_packet`.
  unfoldable pub established_handle_ctrl_packet : Env D → UmpSocket D → UmpPacket → UmpSocket D
  unfolding established_next
  established_handle_ctrl_packet env s p =
      let s1 = read_ack s p in
      if get_flag p ctrl_seq then ack_ctrl (established_next env s1 p) else s1

  -- Lines 1476 to 1487.
  unfoldable pub read_fin_ack : UmpSocket D → UmpPacket → UmpSocket D
  read_fin_ack s p =
      if get_flag p ctrl_ack
      then record (if acks_ours s p then settle_ctrl s else s) { fin_ack_reced = true }
      else s

  -- Lines 1489 to 1494.
  unfoldable pub closing_next : UmpSocket D → UmpPacket → UmpSocket D
  closing_next s p =
      if p.seq_num == s.their_ctrl_seq
      then record s {
        their_ctrl_seq = u16 (s.their_ctrl_seq + 1);
        fin_reced = if get_flag p ctrl_fin then true else s.fin_reced;
      }
      else s

  -- `ump_closing_handle_ctrl_packet`.
  unfoldable pub closing_handle_ctrl_packet : Env D → UmpSocket D → UmpPacket → UmpSocket D
  unfolding closing_next
  closing_handle_ctrl_packet env s p =
      let s1 = read_fin_ack s p in
      let s2 = if get_flag p ctrl_seq then ack_ctrl (closing_next s1 p) else s1 in
      if s2.fin_reced && s2.fin_ack_reced then change_state env s2 closed else s2

  -- The column `sm_handle_ctrl_packet` of `u_sm_funcs`.
  unfoldable pub sm_handle_ctrl_packet : SockState → Env D → UmpSocket D → UmpPacket → UmpSocket D
  sm_handle_ctrl_packet closed env s p = closed_handle_ctrl_packet env s p
  sm_handle_ctrl_packet connecting env s p = connecting_handle_ctrl_packet env s p
  sm_handle_ctrl_packet established env s p = established_handle_ctrl_packet env s p
  sm_handle_ctrl_packet closing env s p = closing_handle_ctrl_packet env s p

  -- The loop of `ump_handle_ctrl_packet`; the packets that are left are in `local_ctrl_packets`.
  unfoldable pub handle_ctrl_packets : Env D → UmpSocket D → List UmpPacket → UmpSocket D
  handle_ctrl_packets env s [] = record s { local_ctrl_packets = [] }
  handle_ctrl_packets env s (p ∷ ps) =
      let s1 = record s { local_ctrl_packets = ps } in
      let rest = handle_ctrl_packets env (sm_handle_ctrl_packet s1.state env s1 p) ps in
      if get_flag p ctrl_rst then connection_error_occured env s1 else rest

  -- `ump_handle_ctrl_packet`.
  unfoldable pub handle_ctrl_packet : Env D → UmpSocket D → UmpSocket D
  handle_ctrl_packet env s = handle_ctrl_packets env s s.local_ctrl_packets

  -- `ump_closed_handle_ctrl` and its siblings, for the call `m`.
  unfoldable pub closed_handle_ctrl : Env D → UmpSocket D → CallMethod → UmpSocket D
  closed_handle_ctrl env s method_connect = change_state env (closed_connect s) connecting
  closed_handle_ctrl env s method_close = end_ctrl s method_close true
  closed_handle_ctrl env s _ = end_ctrl s method_all_call false

  unfoldable pub connecting_handle_ctrl : UmpSocket D → CallMethod → UmpSocket D
  connecting_handle_ctrl s method_connect = s
  connecting_handle_ctrl s _ = end_ctrl s method_all_call false

  unfoldable pub established_handle_ctrl : Env D → UmpSocket D → CallMethod → UmpSocket D
  established_handle_ctrl env s method_close =
      end_receive (end_send (change_state env (established_close s) closing) false) false
  established_handle_ctrl env s method_connect = end_ctrl s method_connect true
  established_handle_ctrl env s _ = end_ctrl s method_all_call false

  unfoldable pub closing_handle_ctrl : UmpSocket D → CallMethod → UmpSocket D
  closing_handle_ctrl s method_close = s
  closing_handle_ctrl s _ = end_ctrl s method_all_call false

  -- The column `sm_handle_ctrl` of `u_sm_funcs`.
  unfoldable pub sm_handle_ctrl : SockState → Env D → UmpSocket D → CallMethod → UmpSocket D
  unfolding closed_handle_ctrl connecting_handle_ctrl established_handle_ctrl closing_handle_ctrl
  sm_handle_ctrl closed env s m = closed_handle_ctrl env s m
  sm_handle_ctrl connecting env s m = connecting_handle_ctrl s m
  sm_handle_ctrl established env s m = established_handle_ctrl env s m
  sm_handle_ctrl closing env s m = closing_handle_ctrl s m

  unfoldable pub handle_ctrl_as :
      LockState → Bool → Option CallMethod → Env D → UmpSocket D → UmpSocket D
  handle_ctrl_as locked free para env s = s
  handle_ctrl_as unlocked false para env s = s
  handle_ctrl_as unlocked true none env s = s
  handle_ctrl_as unlocked true (some m) env s =
      let s1 = record s { ctrl_held = true; ctrl_locked = locked } in
      if s1.error_occured
      then end_ctrl s1 method_all_call false
      else sm_handle_ctrl s1.state env s1 m

  -- `ump_handle_ctrl`: `ump_ctrlunlocked_handle_ctrl` and `ump_ctrlocked_handle_ctrl`. `free` is what
  -- `g_mutex_trylock` returns.
  unfoldable pub handle_ctrl : Env D → UmpSocket D → Bool → UmpSocket D
  unfolding handle_ctrl_as
  handle_ctrl env s free = handle_ctrl_as s.ctrl_locked free s.ctrl_para env s

  -- Lines 618 to 647, where a control packet waits.
  unfoldable pub ctrl_timeout : Env D → UmpSocket D → UmpSocket D
  ctrl_timeout env s =
      let s1 = record s { sleep_ms = min_ℤ s.sleep_ms s.ctrl_rto } in
      if not s1.ctrl_packet_sent
      then s1
      else (let s2 = tick s1 in
          if ltb_ℤ (time_sub (now env s1) s1.ctrl_resend_time) (pos 0)
          then s2
          else if ltb_ℤ s2.ctrl_rto (pos timeout_limit)
          then record (timeout_refresh_ctrl_rto (record s2 { ctrl_packet_sent = false })) {
            sleep_ms = pos 0;
          }
          else connection_error_occured env (end_ctrl (settle_ctrl s2) method_all_call false))

  -- `ump_handle_ctrl_timeout`.
  unfoldable pub handle_ctrl_timeout : Env D → UmpSocket D → UmpSocket D
  unfolding ctrl_timeout
  handle_ctrl_timeout env s = elim s.ctrl_packet_to_send [ none ↦ s | some p ↦ ctrl_timeout env s ]

  -- Lines 145 to 156: the control packet goes out, and carries an acknowledgement if one is due.
  unfoldable pub send_ctrl : Env D → UmpSocket D → UmpPacket → UmpSocket D
  send_ctrl env s p0 =
      let p1 =
        if s.ack_info.ctrl_ack_set
        then record (set_flag p0 ctrl_ack) { ack_num = s.ack_info.ctrl_ack_data }
        else clear_flag p0 ctrl_ack in
      let s1 = record s { ack_info = record (s.ack_info) { ctrl_ack_set = false } } in
      let (p, s2) = send_out s1 p1 in
      record (tick s2) {
        ctrl_packet_to_send = some p;
        ctrl_resend_time = env.clock.time_val_add (now env s) (s.ctrl_rto *ℤ pos 1000);
        ctrl_packet_sent = true;
      }

  -- Lines 159 to 167.
  unfoldable pub send_ctrl_ack : UmpSocket D → UmpSocket D
  send_ctrl_ack s =
      if s.ack_info.ctrl_ack_set
      then (send_out (record s { ack_info = record (s.ack_info) { ctrl_ack_set = false } })
          (record (set_flag (new control outgoing) ctrl_ack) {
            ack_num = s.ack_info.ctrl_ack_data;
          })).1
      else s

  -- `ump_handle_send_ctrl_packet`.
  unfoldable pub handle_send_ctrl_packet : Env D → UmpSocket D → UmpSocket D
  unfolding send_ctrl send_ctrl_ack
  handle_send_ctrl_packet env s = elim s.ctrl_packet_to_send [
    | none ↦ send_ctrl_ack s
    | some p ↦ if s.ctrl_packet_sent then send_ctrl_ack s else send_ctrl env s p
  ]
