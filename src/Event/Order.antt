-- ===== src/Event/Order.antt =====
-- The order of two times.
use user_message_protocol.Base.{◌≡◌, ◌↔◌, arith}
use user_message_protocol.Base.Int.{pos, negsuc, ◌<ℤ◌, ◌≤ℤ◌, ◌*ℤ◌, +ℤ_parts}
use user_message_protocol.Clock.{TimeVal}
use user_message_protocol.Clock.Difference.{micros, *ℤ-pos_parts}
use user_message_protocol.Event.{time_val_cmp}

-- `m_time_val_cmp` compares the microseconds since the epoch, where the microseconds of both times
-- are between 0 and a second.
pub time_val_cmp_iff :
    (t1 t2 : TimeVal)
    → pos 0 ≤ℤ t1.tv_usec
    → t1.tv_usec <ℤ pos 1000000
    → pos 0 ≤ℤ t2.tv_usec
    → t2.tv_usec <ℤ pos 1000000
    → ((time_val_cmp t1 t2 ≡ pos 1) ↔ (micros t2 <ℤ micros t1))
      × ((time_val_cmp t1 t2 ≡ negsuc 0) ↔ (micros t1 <ℤ micros t2))
unfolding time_val_cmp micros
time_val_cmp_iff t1 t2 a b c d = ground (
  arith,
  +ℤ_parts (t1.tv_sec *ℤ pos 1000000) t1.tv_usec,
  +ℤ_parts (t2.tv_sec *ℤ pos 1000000) t2.tv_usec,
  *ℤ-pos_parts t1.tv_sec 1000000,
  *ℤ-pos_parts t2.tv_sec 1000000,
)
