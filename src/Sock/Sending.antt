-- ===== src/Sock/Sending.antt =====
-- The send lock machine of user_message_protocol/ump_sock.c: a message is taken from the application
-- and numbered, and its packets go out inside the window.
pub mod Number
pub mod Transmit
mod Tests
use user_message_protocol.Base.{
  ℕ, zero, suc, ◌+◌, ◌-◌, List, [], ◌∷◌, Option, none, some, Bool, true, false, ltb, ◌||◌, not, u16,
  get_elem?, if◌then◌else◌,
}
use user_message_protocol.Base.Int.{ℤ, pos, negsuc, ◌+ℤ◌, ◌*ℤ◌, ltb_ℤ, max_ℤ}
use user_message_protocol.Packet.{
  UmpPacket, PacketType, user, outgoing, new, set_flag, data_seq, data_bdr,
}
use user_message_protocol.Timer.{register_packet}
use user_message_protocol.Rto.{get_rto}
use user_message_protocol.Sock.{UmpSocket, Env, now, tick, send_out, LockState, locked, unlocked}
use user_message_protocol.Sock.Ack.{set_packet_ack_info, clear_packet_ack_info}
use user_message_protocol.Sock.Calls.{is_established, end_send}
use user_message_protocol.Sock.Window.{
  cmp_in_sndbase, seq_of, refresh_snd_wnd_pos, refresh_data_sent,
}

-- Lines 349 to 353: the packets get successive numbers.
unfoldable pub number_packets : ℕ → List UmpPacket → List UmpPacket
number_packets seq [] = []
number_packets seq (p ∷ ps) =
    record (set_flag p data_seq) { seq_num = seq } ∷ number_packets (u16 (seq + 1)) ps

-- Line 356: the last packet is marked as the end of the message.
unfoldable pub mark_last : List UmpPacket → List UmpPacket
mark_last [] = []
mark_last (p ∷ []) = set_flag p data_bdr ∷ []
mark_last (p ∷ q ∷ ps) = p ∷ mark_last (q ∷ ps)

-- A store into the array.
abbrev pub put : ℕ → UmpPacket → List UmpPacket → List UmpPacket
put i v [] = []
put zero v (p ∷ ps) = v ∷ ps
put (suc i) v (p ∷ ps) = p ∷ put i v ps

-- A `gint` as an index.
abbrev pub packet_index : List UmpPacket → ℤ → Option UmpPacket
packet_index ps (pos i) = get_elem? ps i
packet_index ps (negsuc i) = none

abbrev pub put_at : ℤ → UmpPacket → List UmpPacket → List UmpPacket
put_at (pos i) p ps = put i p ps
put_at (negsuc i) p ps = ps

module _ {D : Type 0} where
  -- Lines 341 to 363, once the lock is taken and a message is there. `count` is `snd_packets_count`.
  unfoldable pub accept_message : List UmpPacket → UmpSocket D → UmpSocket D
  unfolding number_packets mark_last
  accept_message packets s =
      let s1 = record s { snd_locked = locked } in
      if ltb s.snd_packets_count 1 || (not (is_established s.state) || s.error_occured)
      then end_send s1 false
      else refresh_snd_wnd_pos (record s1 {
        snd_packets = some (mark_last (number_packets s.our_data_start_seq packets));
        our_msg_last_seq = u16 (s.our_data_start_seq + s.snd_packets_count + 65535);
        our_data_pos = pos 0;
      })

  unfoldable pub handle_send_as :
      LockState → Bool → Option (List UmpPacket) → UmpSocket D → UmpSocket D
  unfolding accept_message
  handle_send_as locked free packets s = s
  handle_send_as unlocked false packets s = s
  handle_send_as unlocked true none s = s
  handle_send_as unlocked true (some packets) s =
      accept_message packets (record s { snd_held = true })

  -- `ump_handle_send`: `ump_sndunlocked_handle_snd` and `ump_sndlocked_handle_snd`. `free` is what
  -- `g_mutex_trylock` returns.
  unfoldable pub handle_send : UmpSocket D → Bool → UmpSocket D
  unfolding handle_send_as
  handle_send s free = handle_send_as s.snd_locked free s.snd_packets s

  -- Lines 386 to 395 and 463 to 472: an acknowledgement in a packet of its own.
  unfoldable pub send_ack_alone : UmpSocket D → UmpSocket D
  send_ack_alone s =
      if s.ack_info.data_ack_set
      then (let (p, s1) = set_packet_ack_info s (new user outgoing) in (send_out s1 p).1)
      else s

  -- Lines 439 to 450: the acknowledgement rides on the packet, or none does.
  unfoldable pub attach_ack : UmpSocket D → UmpPacket → UmpPacket × UmpSocket D
  attach_ack s p =
      if s.ack_info.data_ack_set then set_packet_ack_info s p else (clear_packet_ack_info p, s)

  -- Line 452.
  abbrev pub window_left : UmpSocket D → ℤ
  window_left s =
      max_ℤ (pos 1) (cmp_in_sndbase s (seq_of s s.our_wnd_pos) s.our_data_seq_base +ℤ pos 1)

  -- Lines 439 to 457 for the packet at `our_data_pos`.
  unfoldable pub transmit : Env D → UmpSocket D → List UmpPacket → UmpPacket → UmpSocket D
  unfolding attach_ack
  transmit env s packets p0 =
      let (p1, s1) = attach_ack s p0 in
      let (p, s2) = send_out s1 p1 in
      let s3 = record (tick s2) {
        snd_packets = some (put_at s.our_data_pos p packets);
        tm_list =
            register_packet env.clock (now env s) s.tm_list p.seq_num
              (get_rto env.double s.rto_cpt *ℤ window_left s);
      } in
      record (refresh_data_sent s3 p.seq_num) {
        our_data_pos = s.our_data_pos +ℤ pos 1;
        sleep_ms = pos 0;
      }

  -- The array is read at `our_data_pos`; `none` is a read outside it.
  unfoldable pub transmit_at : Env D → UmpSocket D → Option (List UmpPacket) → Option (UmpSocket D)
  unfolding transmit
  transmit_at env s none = none
  transmit_at env s (some packets) = elim (packet_index packets s.our_data_pos) [
    | none ↦ none
    | some p ↦ some (transmit env s packets p)
  ]

  unfoldable pub handle_send_data_as : LockState → Env D → UmpSocket D → Option (UmpSocket D)
  unfolding transmit_at send_ack_alone
  handle_send_data_as unlocked env s = some (send_ack_alone s)
  handle_send_data_as locked env s =
      if ltb_ℤ s.our_data_pos s.our_wnd_pos
      then transmit_at env s s.snd_packets
      else some (send_ack_alone s)

  -- `ump_handle_send_data`: `ump_sndunlocked_handle_send_data` and `ump_sndlocked_handle_send_data`.
  -- `none` is a read outside the array of packets.
  unfoldable pub handle_send_data : Env D → UmpSocket D → Option (UmpSocket D)
  unfolding handle_send_data_as
  handle_send_data env s = handle_send_data_as s.snd_locked env s
