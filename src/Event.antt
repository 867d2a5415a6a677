-- ===== src/Event.antt =====
-- user_message_protocol/mevent.c: events that threads wait for. What a thread does while it holds
-- `mutex_isset` is one function here; the condition variable is glib's, so that which threads a
-- signal wakes is left to Event/Threads. Allocation in `m_event_new` is taken to succeed, and
-- `m_event_free` only gives memory back.
mod Tests
pub mod Threads
pub mod Wakeup
pub mod Order
use user_message_protocol.Base.{ℕ, Option, none, some, Bool, true, false, ◌&&◌, not, if◌then◌else◌}
use user_message_protocol.Base.Int.{ℤ, pos, negsuc, ◌*ℤ◌, ltb_ℤ}
use user_message_protocol.Clock.{TimeVal, Clock}

pub record MEvent : Type 0 where
  pub auto_reset : Bool
  pub isset : Bool

-- Whom a call wakes: `g_cond_signal` one thread at least, `g_cond_broadcast` all, or nobody.
pub data Wakes : Type 0 where
  signal : Wakes
  broadcast : Wakes

-- `m_event_new`.
unfoldable pub new : Bool → Bool → MEvent
new isset auto_reset = record { auto_reset = auto_reset; isset = isset }

-- `m_event_set`, and the call on the condition variable in it.
unfoldable pub set : MEvent → MEvent × Wakes
set e = (record e { isset = true }, if e.auto_reset then signal else broadcast)

-- `m_event_broadcast`.
unfoldable pub set_all : MEvent → MEvent × Wakes
set_all e = (record e { isset = true }, broadcast)

-- `m_event_reset`.
unfoldable pub reset : MEvent → MEvent
reset e = record e { isset = false }

-- Lines 95 to 100: a thread in `m_event_wait` tests the event. It leaves with what it makes of the
-- event, or waits (again) for the condition.
unfoldable pub try_wait : MEvent → Option MEvent
try_wait e = if e.isset then some (if e.auto_reset then record e { isset = false } else e) else none

-- Lines 126 to 131: the same in `_m_event_timed_wait`, where `r` tells that the time is not over.
-- The result is that of the call, with the event.
unfoldable pub try_timed_wait : Bool → MEvent → Option (Bool × MEvent)
try_timed_wait r e =
    if not e.isset && r
    then none
    else some (r, if r && e.auto_reset then record e { isset = false } else e)

-- `m_event_timed_wait` up to its first test: until when it waits, or forever.
unfoldable pub deadline : Clock → TimeVal → ℤ → Option TimeVal
deadline clock now milliseconds =
    if ltb_ℤ milliseconds (pos 0)
    then none
    else some (clock.time_val_add now (milliseconds *ℤ pos 1000))

-- `m_time_val_cmp`.
unfoldable pub time_val_cmp : TimeVal → TimeVal → ℤ
time_val_cmp t1 t2 =
    if ltb_ℤ t2.tv_sec t1.tv_sec
    then pos 1
    else if ltb_ℤ t1.tv_sec t2.tv_sec
    then negsuc 0
    else if ltb_ℤ t2.tv_usec t1.tv_usec
    then pos 1
    else if ltb_ℤ t1.tv_usec t2.tv_usec
    then negsuc 0
    else pos 0
