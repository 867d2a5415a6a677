-- ===== src/Clock/Difference.antt =====
-- `ump_time_sub` against the exact difference in microseconds.
use user_message_protocol.Base.{ℕ, ◌+◌, ◌*◌, ◌≤◌, ◌≡◌, arith}
use user_message_protocol.Base.Int.{
  ℤ, pos, pos_part, neg_part, ◌+ℤ◌, ◌-ℤ◌, ◌*ℤ◌, ◌<ℤ◌, div_ℤ, +ℤ_parts, -ℤ_parts, eq_of_parts,
}
use user_message_protocol.Clock.{TimeVal, time_sub}

-- Microseconds since the epoch.
unfoldable pub micros : TimeVal → ℤ
micros t = t.tv_sec *ℤ pos 1000000 +ℤ t.tv_usec

pub *ℤ-pos_parts :
    (a : ℤ) (k : ℕ)
    → pos_part (a *ℤ pos k) + neg_part a * k ≡ neg_part (a *ℤ pos k) + pos_part a * k
unfolding ◌*ℤ◌
*ℤ-pos_parts a k = ground arith

pub pos-*ℤ_parts :
    (k : ℕ) (a : ℤ)
    → pos_part (pos k *ℤ a) + k * neg_part a ≡ neg_part (pos k *ℤ a) + k * pos_part a
unfolding ◌*ℤ◌
pos-*ℤ_parts k a = ground arith

-- A quotient is less than one unit off.
div_ℤ_bounds :
    (a : ℤ)
    → (pos_part (div_ℤ a 1000) * 1000 + neg_part a
        ≤ pos_part a + neg_part (div_ℤ a 1000) * 1000 + 999)
      × (pos_part a + neg_part (div_ℤ a 1000) * 1000
          ≤ pos_part (div_ℤ a 1000) * 1000 + neg_part a + 999)
unfolding div_ℤ
div_ℤ_bounds a = ground arith

-- `ump_time_sub` is less than a millisecond away from the exact difference of the two times.
pub time_sub-exact :
    (t1 t2 : TimeVal)
    → (time_sub t1 t2 *ℤ pos 1000 <ℤ micros t1 -ℤ micros t2 +ℤ pos 1000)
      × (micros t1 -ℤ micros t2 <ℤ time_sub t1 t2 *ℤ pos 1000 +ℤ pos 1000)
unfolding time_sub micros
time_sub-exact t1 t2 =
    omega (arith, +ℤ_parts, -ℤ_parts, *ℤ-pos_parts, div_ℤ_bounds (t1.tv_usec -ℤ t2.tv_usec))

-- The division by 1000 rounds alike on both sides of 0.
div_ℤ-neg :
    (d e : ℤ)
    → pos_part d + pos_part e ≡ neg_part d + neg_part e
    → pos_part (div_ℤ d 1000) + pos_part (div_ℤ e 1000)
      ≡ neg_part (div_ℤ d 1000) + neg_part (div_ℤ e 1000)
unfolding div_ℤ
div_ℤ-neg d e h = ground arith

-- Exchanging the times changes the sign and nothing else.
pub time_sub-neg : (t1 t2 : TimeVal) → time_sub t1 t2 +ℤ time_sub t2 t1 ≡ pos 0
unfolding time_sub
time_sub-neg t1 t2 = eq_of_parts _ _ (
    omega (
      arith,
      +ℤ_parts,
      -ℤ_parts,
      *ℤ-pos_parts,
      div_ℤ-neg (t1.tv_usec -ℤ t2.tv_usec) (t2.tv_usec -ℤ t1.tv_usec),
    ))
