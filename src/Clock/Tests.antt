-- ===== src/Clock/Tests.antt =====
-- Time differences at concrete inputs.
use user_message_protocol.Base.{◌≡◌, refl}
use user_message_protocol.Base.Int.{pos, ◌+ℤ◌, ◌-ℤ◌, ◌*ℤ◌, div_ℤ}
use user_message_protocol.Clock.{TimeVal, time_sub}

abbrev early : TimeVal
early = record { tv_sec = pos 9; tv_usec = pos 999500 }

abbrev late : TimeVal
late = record { tv_sec = pos 11; tv_usec = pos 200 }

late_minus_early : time_sub late early ≡ pos 1001
unfolding time_sub ◌+ℤ◌ ◌-ℤ◌ ◌*ℤ◌ div_ℤ
late_minus_early = refl
