-- ===== src/Sock/DataAck/Congestion.antt =====
-- The congestion window.
use user_message_protocol.Base.{◌+◌, ◌≤◌, ◌<◌, ◌≡◌, true, false, arith}
use user_message_protocol.Base.Int.{leb_ℤ}
use user_message_protocol.Clock.{time_sub}
use user_message_protocol.Rto.{get_estimated_rtt}
use user_message_protocol.Sock.{UmpSocket, Env, now}
use user_message_protocol.Sock.DataAck.{grow_cwnd}

module _ {D : Type 0} (env : Env D) (s : UmpSocket D) where
  -- While the window is below 65535 and no fast retransmission is under way, an acknowledgement of
  -- new data lets it grow by one packet at most, and never shrink.
  pub grow_cwnd_lem :
      s.our_cwnd < 65535
      → s.fast_retran ≡ false
      → (s.our_cwnd ≤ (grow_cwnd env s).our_cwnd) × ((grow_cwnd env s).our_cwnd ≤ s.our_cwnd + 1)
  unfolding grow_cwnd
  grow_cwnd_lem h k = ground arith

  -- Past the slow start, once a round-trip time is over, the window of 65535 turns to 0, because the
  -- larger of the two `int`s is stored in 16 bits.
  pub grow_cwnd_wraps :
      s.fast_retran ≡ false
      → s.our_cwnd ≡ 65535
      → s.our_ssthresh ≤ 65535
      → leb_ℤ (get_estimated_rtt env.double s.rto_cpt) (time_sub (now env s) s.last_refresh_cwnd)
        ≡ true
      → (grow_cwnd env s).our_cwnd ≡ 0
  unfolding grow_cwnd
  grow_cwnd_wraps f e h g = ground arith
