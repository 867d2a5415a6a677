-- ===== src/Sock/DataAck/Repeat.antt =====
-- Which repeated acknowledgements count.
use user_message_protocol.Base.{ℕ, ◌≤◌, ◌≡◌, true, arith, []}
use user_message_protocol.Base.Int.{pos, ◌≤ℤ◌, ◌<ℤ◌}
use user_message_protocol.Timer.{clear_list}
use user_message_protocol.Sock.{UmpSocket, Env}
use user_message_protocol.Sock.Window.{cmp_in_sndbase, refresh_back_point}
use user_message_protocol.Sock.DataAck.{count_repeat, fast_retransmit}

module _ {D : Type 0} (env : Env D) (s : UmpSocket D) where
  -- Where a packet may be in flight, that is where the base is not ahead of the last packet sent,
  -- no acknowledgement counts as repeated; and none starts a fast retransmission if one was counted
  -- at most.
  pub fast_retransmit-in_flight :
      (ack : ℕ)
      → cmp_in_sndbase s s.our_data_seq_base s.our_data_sent ≤ℤ pos 0
      → s.ack_rep_count ≤ 1
      → fast_retransmit env (count_repeat env s ack) ≡ s
  unfolding fast_retransmit count_repeat
  fast_retransmit-in_flight ack h k = ground arith

  -- Where everything sent is acknowledged, that is where the base is ahead of the last packet sent,
  -- an acknowledgement of the base that follows another one starts a fast retransmission.
  pub fast_retransmit-all_acked :
      pos 0 <ℤ cmp_in_sndbase s s.our_data_seq_base s.our_data_sent
      → s.ack_rep_count ≡ 1
      → let t = fast_retransmit env (count_repeat env s s.our_data_seq_base) in
        (t.fast_retran ≡ true) × (t.tm_list ≡ []) × (t.ack_rep_count ≡ 0)
  unfolding fast_retransmit count_repeat refresh_back_point clear_list
  fast_retransmit-all_acked h one = ground arith
