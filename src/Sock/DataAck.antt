-- ===== src/Sock/DataAck.antt =====
-- Acknowledgements and window notices from the peer, of user_message_protocol/ump_sock.c:
-- `ump_handle_wnd_notify` and `ump_handle_data_ack`, with congestion control.
pub mod Accept
pub mod Congestion
pub mod Repeat
mod Tests
use user_message_protocol.Base.{
  ℕ, ◌+◌, ◌/◌, Option, none, some, Bool, true, false, ltb, leb, ◌==◌, ◌&&◌, ◌||◌, u16, max,
  if◌then◌else◌,
}
use user_message_protocol.Base.Int.{ℤ, pos, ltb_ℤ, leb_ℤ, eqb_ℤ, min_ℤ, max_ℤ}
use user_message_protocol.Clock.{time_sub}
use user_message_protocol.Packet.{UmpPacket, get_flag, data_ack, data_wnd}
use user_message_protocol.Timer.{ack_packet, clear_list}
use user_message_protocol.Rto.{timeout_occur, refresh_rtt, get_estimated_rtt}
use user_message_protocol.Sock.{UmpSocket, Env, now, tick, req_wnd_delay, rtt_min_ms}
use user_message_protocol.Sock.Calls.{end_send}
use user_message_protocol.Sock.Window.{
  cmp_in_sndbase, relative_of, seq_of, refresh_snd_wnd_pos, refresh_back_point,
}

module _ {D : Type 0} (env : Env D) where
  -- Lines 718 to 726: a closed window is probed, an open one is not.
  unfoldable pub probe : UmpSocket D → UmpSocket D
  probe s =
      if s.their_wnd == 0
      then record (tick s) {
        act_req_wnd = true;
        last_req_wnd_time = now env s;
        sleep_ms = min_ℤ s.sleep_ms (pos req_wnd_delay);
      }
      else record s { act_req_wnd = false }

  -- `ump_handle_wnd_notify`.
  unfoldable pub handle_wnd_notify : UmpSocket D → UmpPacket → UmpSocket D
  unfolding probe
  handle_wnd_notify s p =
      if get_flag p data_wnd
      then (let s1 = refresh_snd_wnd_pos (record s { their_wnd = p.wnd_num }) in
          probe (record s1 {
            sleep_ms = if ltb_ℤ s.our_wnd_pos s1.our_wnd_pos then pos 0 else s1.sleep_ms;
          }))
      else s

  -- Lines 748 to 755: the same acknowledgement again, while the base is ahead of what was sent.
  unfoldable pub count_repeat : UmpSocket D → ℕ → UmpSocket D
  count_repeat s ack =
      if (ack == s.our_data_seq_base)
        && ltb_ℤ (pos 0) (cmp_in_sndbase s s.our_data_seq_base s.our_data_sent)
      then record s { ack_rep_count = s.ack_rep_count + 1 }
      else s

  -- Lines 756 to 766.
  unfoldable pub fast_retransmit : UmpSocket D → UmpSocket D
  fast_retransmit s =
      if ltb 1 s.ack_rep_count
      then (let s1 = refresh_back_point s (seq_of s s.our_data_pos) in
          record s1 {
            our_data_pos = relative_of s1 s1.our_data_seq_base;
            our_cwnd = u16 (max (s1.our_ssthresh + 3) 1);
            ack_rep_count = 0;
            fast_retran = true;
            tm_list = clear_list s1.tm_list;
            rto_cpt = timeout_occur env.double s1.rto_cpt;
            sleep_ms = pos 0;
          })
      else s

  -- Lines 768 to 771: the acknowledgement is behind the base, or beyond what was sent.
  abbrev pub ack_out_of_range : UmpSocket D → ℕ → Bool
  ack_out_of_range s ack =
      ltb_ℤ (cmp_in_sndbase s ack s.our_data_seq_base) (pos 0)
      || ltb_ℤ (pos 1) (cmp_in_sndbase s ack s.our_data_sent)

  abbrev pub ack_is_new : UmpSocket D → ℕ → Bool
  ack_is_new s ack = ltb_ℤ (pos 0) (cmp_in_sndbase s ack s.our_data_seq_base)

  -- Lines 772 to 778.
  unfoldable pub advance_base : UmpSocket D → ℕ → UmpSocket D
  advance_base s ack =
      let s1 = record s { our_data_seq_base = ack; ack_rep_count = 0 } in
      refresh_back_point s1 s1.our_data_seq_base

  -- `MAX(our_cwnd+1,our_cwnd)` is an `int`, and is stored in 16 bits.
  abbrev pub grown : ℕ → ℕ
  grown cwnd = u16 (max (cwnd + 1) cwnd)

  -- Lines 787 to 805.
  unfoldable pub grow_cwnd : UmpSocket D → UmpSocket D
  grow_cwnd s =
      if s.fast_retran
      then record s { fast_retran = false; our_cwnd = max s.our_ssthresh 1 }
      else if ltb s.our_cwnd s.our_ssthresh
      then record (tick s) { our_cwnd = grown s.our_cwnd; last_refresh_cwnd = now env s }
      else if leb_ℤ (get_estimated_rtt env.double s.rto_cpt)
          (time_sub (now env s) s.last_refresh_cwnd)
      then record (tick (tick s)) {
        our_cwnd = grown s.our_cwnd;
        last_refresh_cwnd = now env (tick s);
      }
      else tick s

  -- Lines 807 to 809.
  unfoldable pub catch_up : UmpSocket D → UmpSocket D
  catch_up s =
      let base = relative_of s s.our_data_seq_base in
      if ltb_ℤ s.our_data_pos base then record s { our_data_pos = base } else s

  -- Lines 811 to 817: the timers, and a round-trip time for a packet that was not sent again.
  unfoldable pub settle_timers : UmpSocket D → ℕ → UmpSocket D
  settle_timers s ack =
      let (rtt, left) = ack_packet (now env s) s.tm_list ack s.our_data_sent in
      let s1 = record (tick s) { tm_list = left } in
      if leb_ℤ (pos 0) rtt && leb s.our_back_point ack
      then record s1 {
        rto_cpt =
            refresh_rtt env.double s.rto_cpt (if eqb_ℤ rtt (pos 0) then pos rtt_min_ms else rtt);
      }
      else s1

  -- Lines 818 to 820: the whole message is acknowledged.
  unfoldable pub finish_message : UmpSocket D → ℕ → UmpSocket D
  finish_message s ack =
      if ltb_ℤ (pos 0) (cmp_in_sndbase s ack s.our_msg_last_seq) then end_send s true else s

  -- Lines 747 to 821 for an acknowledgement.
  unfoldable pub handle_ack : UmpSocket D → UmpPacket → ℕ → UmpSocket D
  handle_ack s p ack =
      let s1 = fast_retransmit (count_repeat s ack) in
      if ack_out_of_range s1 ack
      then s1
      else if ack_is_new s1 ack
      then (let s2 = handle_wnd_notify (advance_base s1 ack) p in
          finish_message (settle_timers (catch_up (grow_cwnd s2)) ack) ack)
      else handle_wnd_notify s1 p

  -- `ump_handle_data_ack`.
  unfoldable pub handle_data_ack : UmpSocket D → UmpPacket → UmpSocket D
  handle_data_ack s p =
      if get_flag p data_ack then handle_ack s p p.ack_num else handle_wnd_notify s p
