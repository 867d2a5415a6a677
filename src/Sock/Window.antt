-- ===== src/Sock/Window.antt =====
-- The positions of the sliding windows, of user_message_protocol/ump_sock.c.
use user_message_protocol.Base.{ℕ, ◌+◌, ◌-◌, ◌/◌, ltb, ◌||◌, u16, min, if◌then◌else◌}
use user_message_protocol.Base.Int.{ℤ, pos, ◌+ℤ◌, ltb_ℤ, min_ℤ, u16_of}
use user_message_protocol.Seq.{cmp_in_base, seq_to_relative, relative_to_seq, u32_of}
use user_message_protocol.Sock.{UmpSocket, rec_queue_limit}

module _ {D : Type 0} (s : UmpSocket D) where
  -- `ump_cmp_in_sndbase` and `ump_cmp_in_rcvbase`.
  abbrev pub cmp_in_sndbase : ℕ → ℕ → ℤ
  cmp_in_sndbase x y = cmp_in_base s.our_data_seq_base x y

  abbrev pub cmp_in_rcvbase : ℕ → ℕ → ℤ
  cmp_in_rcvbase x y = cmp_in_base s.their_data_seq_base x y

  -- `ump_seq_to_relative_via_sndstartseq` and its inverse, at a `gint`.
  abbrev pub relative_of : ℕ → ℤ
  relative_of seq = seq_to_relative s.our_data_start_seq seq

  abbrev pub seq_of : ℤ → ℕ
  seq_of l = relative_to_seq s.our_data_start_seq (u32_of l)

  -- `ump_refresh_snd_wnd_pos`.
  unfoldable pub refresh_snd_wnd_pos : UmpSocket D
  refresh_snd_wnd_pos = record s {
    our_wnd_pos =
        min_ℤ (pos s.snd_packets_count)
          (relative_of (u16 (s.our_data_seq_base + min s.their_wnd s.our_cwnd)));
  }

  -- `ump_refresh_data_sent`.
  unfoldable pub refresh_data_sent : ℕ → UmpSocket D
  refresh_data_sent sent_seq =
      if ltb_ℤ (cmp_in_sndbase s.our_data_sent sent_seq) (pos 0)
      then record s { our_data_sent = sent_seq }
      else s

  -- `ump_refresh_back_point`.
  unfoldable pub refresh_back_point : ℕ → UmpSocket D
  refresh_back_point back_point =
      if ltb_ℤ (cmp_in_sndbase s.our_back_point back_point) (pos 0)
      then record s { our_back_point = back_point }
      else s

  -- `ump_refresh_our_rwnd_pos`.
  unfoldable pub refresh_our_rwnd_pos : UmpSocket D
  refresh_our_rwnd_pos =
      if ltb 0 s.rcv_packets_msg_num || ltb (rec_queue_limit / 2) s.buffer_load
      then record s {
        our_rwnd = u16_of (
            min_ℤ (pos s.our_rwnd) (cmp_in_rcvbase s.our_rwnd_pos_seq s.their_data_seq_base)
            +ℤ pos 1);
      }
      else record s {
        our_rwnd = rec_queue_limit / 2;
        our_rwnd_pos_seq = relative_to_seq s.their_data_seq_base (rec_queue_limit / 2 - 1);
      }
