-- ===== src/Sock/Thread.antt =====
-- The socket's thread, of user_message_protocol/ump_sock.c: one round of `ump_sock_thread_func`, and
-- the queues through which the receiving thread of core_thread.c hands packets over. A `GQueue` is
-- the list of its packets, the oldest first. `local_data_packets_count` is the length of its list.
pub mod Queue
pub mod Loop
pub mod Waking
mod Tests
use user_message_protocol.Base.{
  ℕ, List, [], ◌∷◌, ◌++◌, Option, none, some, Bool, true, false, ltb, leb, ◌==◌, ◌&&◌, length,
  if◌then◌else◌,
}
use user_message_protocol.Base.Int.{ℤ, pos, leb_ℤ, min_ℤ, ◌-ℤ◌}
use user_message_protocol.Clock.{time_sub}
use user_message_protocol.Packet.{UmpPacket, PacketType, control, user}
use user_message_protocol.Timer.{get_next_event, ump_max_sleep_ms}
use user_message_protocol.Sock.{UmpSocket, Env, now, tick, rec_queue_limit, local_data_packet_limit}
use user_message_protocol.Sock.Ack.{refresh_our_ack_info}
use user_message_protocol.Sock.Calls.{handle_receive}
use user_message_protocol.Sock.Window.{refresh_our_rwnd_pos}
use user_message_protocol.Sock.Sending.{handle_send, handle_send_data}
use user_message_protocol.Sock.Control.{
  handle_ctrl, handle_ctrl_packet, handle_ctrl_timeout, handle_send_ctrl_packet,
}
use user_message_protocol.Sock.Data.{
  handle_data_packet, handle_data_timeout, act_req_wnd, handle_send_heartbeat,
  handle_send_reset_packet,
}

abbrev pub is_empty : List UmpPacket → Bool
is_empty [] = true
is_empty (p ∷ ps) = false

-- Lines 113 to 115: the local list of control packets holds one at most.
unfoldable pub fetch_ctrl : List UmpPacket → List UmpPacket → List UmpPacket × List UmpPacket
fetch_ctrl (p ∷ ps) queue = (p ∷ ps, queue)
fetch_ctrl [] [] = ([], [])
fetch_ctrl [] (q ∷ qs) = (q ∷ [], qs)

-- Lines 116 to 119.
unfoldable pub fetch_data : List UmpPacket → List UmpPacket → List UmpPacket × List UmpPacket
fetch_data local [] = (local, [])
fetch_data local (q ∷ qs) =
    let more = fetch_data (local ++ q ∷ []) qs in
    if leb (length local) local_data_packet_limit then more else (local, q ∷ qs)

module _ {D : Type 0} where
  -- `ump_sock_rec_packets_space_available`, `ump_sock_rec_packets_append`,
  -- `ump_sock_rec_ctrl_packets_space_available` and `ump_sock_rec_ctrl_packets_append`.
  abbrev pub rec_packets_space_available : UmpSocket D → Bool
  rec_packets_space_available s = ltb (length s.rec_data_packets) rec_queue_limit

  abbrev pub rec_packets_append : UmpSocket D → UmpPacket → UmpSocket D
  rec_packets_append s p = record s { rec_data_packets = s.rec_data_packets ++ p ∷ [] }

  abbrev pub rec_ctrl_packets_space_available : UmpSocket D → Bool
  rec_ctrl_packets_space_available s = is_empty s.rec_control_packets

  abbrev pub rec_ctrl_packets_append : UmpSocket D → UmpPacket → UmpSocket D
  rec_ctrl_packets_append s p = record s { rec_control_packets = s.rec_control_packets ++ p ∷ [] }

  -- Lines 115 to 143 of core_thread.c: a packet that finds no space is dropped.
  unfoldable pub deliver : PacketType → UmpSocket D → UmpPacket → UmpSocket D
  deliver control s p =
      if rec_ctrl_packets_space_available s then rec_ctrl_packets_append s p else s
  deliver user s p = if rec_packets_space_available s then rec_packets_append s p else s

  -- `ump_sock_fetch_received_packets`, and the store of its result.
  unfoldable pub fetch_received_packets : UmpSocket D → UmpSocket D
  unfolding fetch_ctrl fetch_data
  fetch_received_packets s =
      let (ctrl, ctrl_left) = fetch_ctrl s.local_ctrl_packets s.rec_control_packets in
      let (data_local, data_left) = fetch_data s.local_data_packets s.rec_data_packets in
      record s {
        local_ctrl_packets = ctrl;
        rec_control_packets = ctrl_left;
        local_data_packets = data_local;
        rec_data_packets = data_left;
        buffer_load = length data_left;
        sleep_ms =
            if is_empty s.rec_control_packets && is_empty s.rec_data_packets
            then s.sleep_ms
            else pos 0;
      }

  -- Lines 69 to 73.
  unfoldable pub receive_phase : Env D → UmpSocket D → UmpSocket D
  receive_phase env s =
      if s.error_occured then s else handle_ctrl_packet env (fetch_received_packets s)

  -- Lines 74 to 86; `none` is a read outside the array of packets to send.
  unfoldable pub work_phase : Env D → UmpSocket D → Option (UmpSocket D)
  work_phase env s =
      if s.error_occured
      then some s
      else (let s1 = handle_data_timeout env (handle_data_packet env s) in
          let s2 = act_req_wnd env (refresh_our_ack_info env (refresh_our_rwnd_pos s1)) in
          let s3 = handle_send_ctrl_packet env (handle_ctrl_timeout env s2) in
          elim (handle_send_data env (handle_send_heartbeat env s3)) [
            | none ↦ none
            | some s4 ↦ some (handle_send_reset_packet s4)
          ])

  -- Lines 87 to 90: how long the thread may sleep.
  unfoldable pub settle_sleep : Env D → UmpSocket D → UmpSocket D → UmpSocket D
  settle_sleep env start s =
      let wait = min_ℤ s.sleep_ms (get_next_event (now env s) s.tm_list) in
      let spent = time_sub (now env (tick s)) (now env start) in
      record (tick (tick s)) { sleep_ms = if leb_ℤ wait spent then pos 0 else wait -ℤ spent }

  -- One round of `ump_sock_thread_func`, up to the wait; the arguments are what `g_mutex_trylock`
  -- returns for the three locks.
  unfoldable pub round : Env D → UmpSocket D → Bool → Bool → Bool → Option (UmpSocket D)
  unfolding receive_phase work_phase settle_sleep
  round env s free_ctrl free_snd free_rec =
      let s1 = handle_ctrl env (record (tick s) { sleep_ms = ump_max_sleep_ms }) free_ctrl in
      let s2 = handle_receive (handle_send s1 free_snd) free_rec in
      elim (work_phase env (receive_phase env s2)) [
        | none ↦ none
        | some s3 ↦ some (settle_sleep env s s3)
      ]
