-- ===== src/Event/Threads.antt =====
-- Threads at an event. A thread that calls `g_cond_wait` sleeps until it is woken, by a call on the
-- condition variable or for no reason, and is ready until it holds the mutex again. What glib
-- documents: a signal wakes one sleeping thread at least, a broadcast all of them.
use user_message_protocol.Base.{
  ℕ, zero, suc, ◌+◌, ◌-◌, ◌≤◌, ◌≡◌, Option, none, some, Bool, true, false,
}
use user_message_protocol.Event.{
  MEvent, Wakes, signal, broadcast, set, set_all, reset, try_wait, try_timed_wait,
}

-- How many threads sleep or are ready, in `m_event_wait` and in `_m_event_timed_wait`; how often the
-- event was set, and how many calls returned because of it.
pub record Threads : Type 0 where
  pub event : MEvent
  pub sleeping : ℕ
  pub ready : ℕ
  pub timed_sleeping : ℕ
  pub timed_ready : ℕ
  pub sets : ℕ
  pub passed : ℕ

abbrev pub asleep : Threads → ℕ
asleep t = t.sleeping + t.timed_sleeping

-- `k` threads of `n` that sleep are woken.
abbrev pub Woken : Wakes → ℕ → ℕ → Type 0
Woken signal n zero = n ≡ 0
Woken signal n (suc k) = suc k ≤ n
Woken broadcast n k = k ≡ n

abbrev pub wake : ℕ → ℕ → MEvent → Threads → Threads
wake k j e t = record t {
  event = e;
  sleeping = t.sleeping - k;
  ready = t.ready + k;
  timed_sleeping = t.timed_sleeping - j;
  timed_ready = t.timed_ready + j;
  sets = t.sets + 1;
}

-- What becomes of a thread that tests the event, which `t` no longer counts.
abbrev pub after_wait : Option MEvent → Threads → Threads
after_wait none t = record t { sleeping = t.sleeping + 1 }
after_wait (some e) t = record t { event = e; passed = t.passed + 1 }

abbrev pub after_timed_wait : Option (Bool × MEvent) → Threads → Threads
after_timed_wait none t = record t { timed_sleeping = t.timed_sleeping + 1 }
after_timed_wait (some (true, e)) t = record t { event = e; passed = t.passed + 1 }
after_timed_wait (some (false, e)) t = record t { event = e }

pub data Step (t : Threads) : Threads → Type 0 where
  sets :
      (k j : ℕ)
      → k ≤ t.sleeping
      → j ≤ t.timed_sleeping
      → Woken (set t.event).1 (asleep t) (k + j)
      → Step t (wake k j (set t.event).0 t)
  sets_all :
      (k j : ℕ)
      → k ≤ t.sleeping
      → j ≤ t.timed_sleeping
      → Woken (set_all t.event).1 (asleep t) (k + j)
      → Step t (wake k j (set_all t.event).0 t)
  resets : Step t (record t { event = reset t.event })
  enters : Step t (after_wait (try_wait t.event) t)
  resumes : 1 ≤ t.ready → Step t (after_wait (try_wait t.event) (record t { ready = t.ready - 1 }))
  enters_timed : Step t (after_timed_wait (try_timed_wait true t.event) t)
  resumes_timed :
      1 ≤ t.timed_ready
      → Step t (
          after_timed_wait
            (try_timed_wait true t.event)
            (record t { timed_ready = t.timed_ready - 1 }))
  expires :
      1 ≤ t.timed_sleeping
      → Step t (
          after_timed_wait
            (try_timed_wait false t.event)
            (record t { timed_sleeping = t.timed_sleeping - 1 }))
  wakes_up : 1 ≤ t.sleeping → Step t (record t { sleeping = t.sleeping - 1; ready = t.ready + 1 })
  wakes_up_timed :
      1 ≤ t.timed_sleeping
      → Step t (record t { timed_sleeping = t.timed_sleeping - 1; timed_ready = t.timed_ready + 1 })

-- No thread has called yet.
abbrev pub alone : MEvent → Threads
alone e = record {
  event = e;
  sleeping = 0;
  ready = 0;
  timed_sleeping = 0;
  timed_ready = 0;
  sets = 0;
  passed = 0;
}

pub data Reach (s : Threads) : Threads → Type 0 where
  here : Reach s s
  next : {t u : Threads} → Reach s t → Step t u → Reach s u
