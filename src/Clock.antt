-- ===== src/Clock.antt =====
-- Time: glib's `GTimeVal`, its two functions that the sources call, and `ump_time_sub` of
-- user_message_protocol/ump_misc.c.
pub mod Difference
mod Tests
use user_message_protocol.Base.{ℕ, ◌≡◌}
use user_message_protocol.Base.Int.{ℤ, pos, ◌+ℤ◌, ◌-ℤ◌, ◌*ℤ◌, div_ℤ}

pub record TimeVal : Type 0 where
  pub tv_sec : ℤ
  pub tv_usec : ℤ

-- What glib provides: `g_get_current_time`, as what its n-th call returns, and `g_time_val_add`.
pub record Clock : Type 0 where
  pub current_time : ℕ → TimeVal
  pub time_val_add : TimeVal → ℤ → TimeVal

-- `ump_time_sub`, in milliseconds.
unfoldable pub time_sub : TimeVal → TimeVal → ℤ
time_sub t1 t2 = (t1.tv_sec -ℤ t2.tv_sec) *ℤ pos 1000 +ℤ div_ℤ (t1.tv_usec -ℤ t2.tv_usec) 1000
