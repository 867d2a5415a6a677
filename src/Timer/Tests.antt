-- ===== src/Timer/Tests.antt =====
-- Three packets in flight, numbered around 0, and their timers.
use user_message_protocol.Base.{ℕ, ◌≡◌, [], ◌∷◌, ◌++◌, none, some, arith}
use user_message_protocol.Base.Int.{pos, ◌+ℤ◌, ◌*ℤ◌, ◌-ℤ◌}
use user_message_protocol.Clock.{TimeVal, time_sub}
use user_message_protocol.Clock.Difference.{micros}
use user_message_protocol.Timer.{TmEntry, register_packet, ack_packet, get_next_timeout}
use user_message_protocol.Timer.Ack.{ack_packet_cumulative}
use user_message_protocol.Timer.Timeout.{get_next_timeout-register_packet, get_next_timeout-late}
use user_message_protocol.Samples.{sample_clock, sample_clock-AddsMicros}

abbrev at_second : ℕ → TimeVal
at_second n = record { tv_sec = pos n; tv_usec = pos 0 }

abbrev entry : ℕ → TmEntry
entry n = record { seq = n; fire_time = at_second 9; reg_time = at_second 1 }

ack_packet_cumulative_example :
    ack_packet (at_second 2) ((entry 65534 ∷ []) ++ entry 65535 ∷ entry 0 ∷ []) 0 0
    ≡ (time_sub (at_second 2) (at_second 1), entry 0 ∷ [])
ack_packet_cumulative_example =
    ack_packet_cumulative (at_second 2) (entry 65534 ∷ []) (entry 0 ∷ []) (entry 65535) 0
      ((λ e. absurd (omega arith)), tt) (omega arith)

get_next_timeout-register_packet_example :
    (get_next_timeout (at_second 3) (register_packet sample_clock (at_second 1) [] 5 (pos 3000))).0
    ≡ none
unfolding micros ◌*ℤ◌ ◌-ℤ◌ ◌+ℤ◌
get_next_timeout-register_packet_example =
    get_next_timeout-register_packet sample_clock (at_second 1) (at_second 3) 5 (pos 3000)
      sample_clock-AddsMicros (omega arith)

get_next_timeout-late_example :
    get_next_timeout (at_second 4) (register_packet sample_clock (at_second 1) [] 5 (pos 3000))
    ≡ (some 5, [])
unfolding micros ◌*ℤ◌ ◌-ℤ◌ ◌+ℤ◌
get_next_timeout-late_example =
    get_next_timeout-late sample_clock (at_second 1) (at_second 4) 5 (pos 3000)
      sample_clock-AddsMicros (omega arith)
