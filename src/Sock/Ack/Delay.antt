-- ===== src/Sock/Ack/Delay.antt =====
-- When the peer's data is acknowledged.
use user_message_protocol.Base.{◌≡◌, true, false, arith}
use user_message_protocol.Base.Int.{pos, ◌≤ℤ◌, ltb_ℤ}
use user_message_protocol.Clock.{time_sub}
use user_message_protocol.Sock.{UmpSocket, Env, now, ack_delay}
use user_message_protocol.Sock.Ack.{set_our_ack_info, refresh_our_ack_info}

-- An acknowledgement stands ready: it names the next number awaited and the window, nothing is left
-- to schedule, and the thread does not sleep.
pub record IsIssued {D : Type 0} (s t : UmpSocket D) : Type 0 where
  pub ready : t.ack_info.data_ack_set ≡ true
  pub seq : t.ack_info.data_ack_seq ≡ s.their_data_seq_base
  pub wnd : t.ack_info.data_ack_wnd ≡ s.our_rwnd
  pub pushed : t.ack_info.push_ack ≡ false
  pub scheduled : t.ack_info.schedule_ack ≡ false
  pub awake : t.sleep_ms ≡ pos 0

module _ {D : Type 0} (env : Env D) (s : UmpSocket D) where
  -- Every second request for an acknowledgement is answered at once, whatever the clock shows.
  pub refresh_our_ack_info-twice :
      IsIssued s (refresh_our_ack_info env (set_our_ack_info (set_our_ack_info s false) false))
  unfolding refresh_our_ack_info set_our_ack_info
  refresh_our_ack_info-twice = ground arith

  -- A single request, with none pending, is answered once 100 ms have passed since the last answer.
  pub refresh_our_ack_info-due :
      s.ack_info.push_ack ≡ false
      → s.ack_info.schedule_ack ≡ false
      → ltb_ℤ (time_sub (now env s) s.ack_info.last_ack_t) (pos ack_delay) ≡ false
      → IsIssued s (refresh_our_ack_info env (set_our_ack_info s false))
  unfolding refresh_our_ack_info set_our_ack_info
  refresh_our_ack_info-due p q h = ground arith

  -- A single request within 100 ms of the last answer stays scheduled, no acknowledgement is made
  -- ready, and the thread sleeps no longer than it would have.
  pub refresh_our_ack_info-waits :
      s.ack_info.push_ack ≡ false
      → s.ack_info.schedule_ack ≡ false
      → ltb_ℤ (time_sub (now env s) s.ack_info.last_ack_t) (pos ack_delay) ≡ true
      → let t = refresh_our_ack_info env (set_our_ack_info s false) in
        (t.ack_info.schedule_ack ≡ true)
        × (t.ack_info.data_ack_set ≡ s.ack_info.data_ack_set)
        × (t.sleep_ms ≤ℤ s.sleep_ms)
  unfolding refresh_our_ack_info set_our_ack_info
  refresh_our_ack_info-waits p q h = ground arith
