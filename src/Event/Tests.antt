-- ===== src/Event/Tests.antt =====
-- An event at concrete inputs: a thread waits, the event is set, and the thread is woken.
use user_message_protocol.Base.{◌+◌, ◌≤◌, ◌≡◌, ◌⊎◌, refl, true, false, arith}
use user_message_protocol.Event.{new, set, set_all, try_wait, try_timed_wait}
use user_message_protocol.Event.Threads.{
  Threads, enters, sets, Reach, here, next, alone, asleep, after_wait, after_timed_wait, wake,
}
use user_message_protocol.Event.Wakeup.{LetsPass, set_attended, passed-le-sets, one_if}

abbrev one_sleeps : Threads
one_sleeps = after_wait (try_wait (new false true)) (alone (new false true))

abbrev one_woken : Threads
one_woken = wake 1 0 (set one_sleeps.event).0 one_sleeps

woken : Reach (alone (new false true)) one_woken
unfolding new set try_wait
woken = next (next here enters) (sets 1 0 (omega arith) (omega arith) (omega arith))

set_attended_example : (asleep one_woken ≡ 0) ⊎ ((u : Threads) × LetsPass one_woken u)
unfolding new set try_wait
set_attended_example = set_attended false true woken refl

-- Two threads sleep at an event without automatic reset, one of them with a timeout.
abbrev two_sleep : Threads
two_sleep =
    let t = after_wait (try_wait (new false false)) (alone (new false false)) in
    after_timed_wait (try_timed_wait true t.event) t

abbrev both_woken : Threads
both_woken = wake 1 1 (set_all two_sleep.event).0 two_sleep

passed-le-sets_example :
    one_woken.passed + one_if one_woken.event.isset ≤ one_woken.sets + one_if false
passed-le-sets_example = passed-le-sets false woken
