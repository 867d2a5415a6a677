-- ===== src/Timer.antt =====
-- user_message_protocol/timer_list.c: the list of the packets in flight, the oldest first, with the
-- time at which each is to be resent. Entries are freed when they leave the list.
-- A clock reading is the argument `now`; `g_time_val_add` is the clock's.
pub mod Ack
mod Tests
pub mod Timeout
use user_message_protocol.Base.{
  ℕ, ◌+◌, List, [], ◌∷◌, ◌++◌, Option, none, some, Bool, true, false, ltb, ◌==◌, ◌&&◌, ◌||◌, u16,
  if◌then◌else◌,
}
use user_message_protocol.Base.Int.{ℤ, pos, negsuc, ◌*ℤ◌, ltb_ℤ, max_ℤ}
use user_message_protocol.Clock.{TimeVal, Clock, time_sub}

pub record TmEntry : Type 0 where
  pub seq : ℕ
  pub fire_time : TimeVal
  pub reg_time : TimeVal

abbrev pub ump_max_sleep_ms : ℤ
ump_max_sleep_ms = pos 200

-- `tm_register_packet`.
unfoldable pub register_packet : Clock → TimeVal → List TmEntry → ℕ → ℤ → List TmEntry
register_packet clock now tl seq rto =
    tl
    ++ record { seq = seq; fire_time = clock.time_val_add now (pos 1000 *ℤ rto); reg_time = now }
      ∷ []

-- The test of lines 41 to 52: whether the acknowledgement is refused.
unfoldable pub ack_refused : ℕ → ℕ → ℕ → Bool
ack_refused seq seq1 seq2 =
    if ltb seq2 seq1 then ltb seq seq1 && ltb seq2 seq else ltb seq seq1 || ltb seq2 seq

-- The loop of lines 54 to 92: entries leave the list up to the one that is acknowledged.
pub take_acked : TimeVal → List TmEntry → ℕ → ℤ × List TmEntry
take_acked now [] seq = (negsuc 0, [])
take_acked now (e ∷ tl) seq =
    if seq == u16 (e.seq + 1) then (time_sub now e.reg_time, tl) else take_acked now tl seq

-- `tm_ack_packet`: the round-trip time, or -1, and the list that is left.
unfoldable pub ack_packet : TimeVal → List TmEntry → ℕ → ℕ → ℤ × List TmEntry
unfolding take_acked
ack_packet now [] seq upper = (negsuc 0, [])
ack_packet now (e ∷ tl) seq upper =
    if ack_refused seq (u16 (e.seq + 1)) (u16 (upper + 1))
    then (negsuc 0, e ∷ tl)
    else take_acked now (e ∷ tl) seq

-- `tm_get_next_event`.
unfoldable pub get_next_event : TimeVal → List TmEntry → ℤ
get_next_event now [] = ump_max_sleep_ms
get_next_event now (e ∷ tl) = max_ℤ (time_sub e.fire_time now) (pos 0)

-- `get_next_timeout`: the packet whose timer ran out, if any, and the list that is left.
unfoldable pub get_next_timeout : TimeVal → List TmEntry → Option ℕ × List TmEntry
get_next_timeout now [] = (none, [])
get_next_timeout now (e ∷ tl) =
    if ltb_ℤ (pos 0) (time_sub e.fire_time now) then (none, e ∷ tl) else (some e.seq, [])

-- `tm_clear_list`.
unfoldable pub clear_list : List TmEntry → List TmEntry
clear_list tl = []
