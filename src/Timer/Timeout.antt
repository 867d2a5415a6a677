-- ===== src/Timer/Timeout.antt =====
-- When a timer fires.
use user_message_protocol.Base.{ℕ, ◌≡◌, [], none, some, arith, lt→ltb, ap}
use user_message_protocol.Base.Int.{
  ℤ, pos, pos_part, neg_part, ◌+ℤ◌, ◌-ℤ◌, ◌*ℤ◌, ◌≤ℤ◌, ◌<ℤ◌, +ℤ_parts, -ℤ_parts, eq_of_parts,
}
use user_message_protocol.Clock.{TimeVal, Clock, time_sub}
use user_message_protocol.Clock.Difference.{micros, time_sub-exact, *ℤ-pos_parts, pos-*ℤ_parts}
use user_message_protocol.Timer.{register_packet, get_next_timeout}

-- What `g_time_val_add` is documented to do.
abbrev pub AddsMicros : Clock → Type 0
AddsMicros clock = (t : TimeVal) (us : ℤ) → micros (clock.time_val_add t us) ≡ micros t +ℤ us

-- How much time is left, in microseconds, when `rto` milliseconds were given at `reg`.
micros_left :
    (clock : Clock) (reg now : TimeVal) (rto : ℤ)
    → AddsMicros clock
    → micros (clock.time_val_add reg (pos 1000 *ℤ rto)) -ℤ micros now
      ≡ rto *ℤ pos 1000 -ℤ (micros now -ℤ micros reg)
micros_left clock reg now rto adds =
    rw (adds reg (pos 1000 *ℤ rto))
      (eq_of_parts _ _ (omega (arith, +ℤ_parts, -ℤ_parts, *ℤ-pos_parts, pos-*ℤ_parts 1000 rto)))

-- A packet that is registered when no other is in flight does not time out before `rto` milliseconds
-- are over, up to the millisecond that `ump_time_sub` rounds off, where the clock adds microseconds.
pub get_next_timeout-register_packet :
    (clock : Clock) (reg now : TimeVal) (seq : ℕ) (rto : ℤ)
    → AddsMicros clock
    → micros now -ℤ micros reg ≤ℤ (rto -ℤ pos 1) *ℤ pos 1000
    → (get_next_timeout now (register_packet clock reg [] seq rto)).0 ≡ none
unfolding get_next_timeout register_packet
get_next_timeout-register_packet clock reg now seq rto adds h = rw (lt→ltb _ _ running)
  where
    fire : TimeVal
    fire = clock.time_val_add reg (pos 1000 *ℤ rto)

    running : pos 0 <ℤ time_sub fire now
    running = omega (
      arith,
      time_sub-exact fire now,
      ap pos_part (micros_left clock reg now rto adds),
      ap neg_part (micros_left clock reg now rto adds),
      +ℤ_parts,
      -ℤ_parts,
      *ℤ-pos_parts,
    )

-- A packet that is registered when no other is in flight times out once `rto` milliseconds are over,
-- and then no timer is left running, where the clock adds microseconds.
pub get_next_timeout-late :
    (clock : Clock) (reg now : TimeVal) (seq : ℕ) (rto : ℤ)
    → AddsMicros clock
    → rto *ℤ pos 1000 ≤ℤ micros now -ℤ micros reg
    → get_next_timeout now (register_packet clock reg [] seq rto) ≡ (some seq, [])
unfolding get_next_timeout register_packet
get_next_timeout-late clock reg now seq rto adds h = ground (arith, over)
  where
    fire : TimeVal
    fire = clock.time_val_add reg (pos 1000 *ℤ rto)

    over : time_sub fire now ≤ℤ pos 0
    over = omega (
      arith,
      time_sub-exact fire now,
      ap pos_part (micros_left clock reg now rto adds),
      ap neg_part (micros_left clock reg now rto adds),
      +ℤ_parts,
      -ℤ_parts,
      *ℤ-pos_parts,
    )
