-- ===== src/Sock/Ack.antt =====
-- Acknowledgements of data, of user_message_protocol/ump_sock.c: when one is due, and how it goes
-- into a packet.
pub mod Delay
use user_message_protocol.Base.{ℕ, Bool, true, false, if◌then◌else◌}
use user_message_protocol.Base.Int.{ℤ, pos, ◌-ℤ◌, ltb_ℤ, min_ℤ}
use user_message_protocol.Clock.{TimeVal, time_sub}
use user_message_protocol.Packet.{UmpPacket, set_flag, clear_flag, data_ack, data_wnd}
use user_message_protocol.Sock.{UmpSocket, AckInfo, Env, now, tick, ack_delay}

-- Two requests to schedule make one to push.
abbrev pub request_ack : Bool → AckInfo → AckInfo
request_ack true a = record a { push_ack = true }
request_ack false a =
    if a.schedule_ack then record a { push_ack = true } else record a { schedule_ack = true }

module _ {D : Type 0} where
  -- `ump_set_our_ack_info`.
  unfoldable pub set_our_ack_info : UmpSocket D → Bool → UmpSocket D
  set_our_ack_info s push = record s { ack_info = request_ack push s.ack_info }

  -- Lines 945 to 951 and 963 to 969.
  abbrev pub issue_ack : UmpSocket D → TimeVal → AckInfo
  issue_ack s t = record (s.ack_info) {
    data_ack_set = true;
    data_ack_seq = s.their_data_seq_base;
    data_ack_wnd = s.our_rwnd;
    push_ack = false;
    schedule_ack = false;
    last_ack_t = t;
  }

  -- `ump_refresh_our_ack_info`.
  unfoldable pub refresh_our_ack_info : Env D → UmpSocket D → UmpSocket D
  refresh_our_ack_info env s =
      if s.ack_info.push_ack
      then record (tick s) { ack_info = issue_ack s (now env s); sleep_ms = pos 0 }
      else if s.ack_info.schedule_ack
      then (let delay = time_sub (now env s) s.ack_info.last_ack_t in
          if ltb_ℤ delay (pos ack_delay)
          then record (tick s) { sleep_ms = min_ℤ (pos ack_delay -ℤ delay) s.sleep_ms }
          else record (tick (tick s)) {
            ack_info = issue_ack s (now env (tick s));
            sleep_ms = pos 0;
          })
      else s

  -- `ump_set_packet_ack_info`.
  unfoldable pub set_packet_ack_info : UmpSocket D → UmpPacket → UmpPacket × UmpSocket D
  set_packet_ack_info s p =
      let p1 = record (set_flag p data_ack) { ack_num = s.ack_info.data_ack_seq } in
      let p2 = record (set_flag p1 data_wnd) { wnd_num = s.ack_info.data_ack_wnd } in
      (p2, record s { ack_info = record (s.ack_info) { data_ack_set = false } })

-- `ump_clear_packet_ack_info`.
unfoldable pub clear_packet_ack_info : UmpPacket → UmpPacket
clear_packet_ack_info p = clear_flag (clear_flag p data_ack) data_wnd
