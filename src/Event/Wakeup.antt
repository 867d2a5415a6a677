-- ===== src/Event/Wakeup.antt =====
-- Which threads a set of an event wakes and lets pass.
use user_message_protocol.Base.{
  ℕ, suc, ◌+◌, ◌-◌, ◌≤◌, ◌≡◌, ◌⊎◌, inl, inr, refl, Bool, true, false, arith, Bool-cases, leb,
  leb→le,
}
use user_message_protocol.Event.{new, set, set_all, reset, try_wait, try_timed_wait}
use user_message_protocol.Event.Threads.{
  Threads, Step, Reach, here, next, alone, asleep, sets, sets_all, resets, enters, resumes,
  enters_timed, resumes_timed, expires, wakes_up, wakes_up_timed, after_wait, after_timed_wait,
}

-- While the event is set, a thread sleeps only if another one is on its way to the event, and at an
-- event without automatic reset none sleeps.
pub record NoneLost (t : Threads) : Type 0 where
  pub attended : t.event.isset ≡ true → (asleep t ≡ 0) ⊎ (1 ≤ t.ready + t.timed_ready)
  pub no_sleeper : t.event.isset ≡ true → t.event.auto_reset ≡ false → asleep t ≡ 0

Step-NoneLost : {t u : Threads} → Step t u → NoneLost t → NoneLost u
unfolding set set_all reset try_wait try_timed_wait
Step-NoneLost (sets k j hk hj w) v = ground arith
Step-NoneLost (sets_all k j hk hj w) v = ground arith
Step-NoneLost resets v = ground arith
Step-NoneLost enters v = ground arith
Step-NoneLost (resumes h) v = ground arith
Step-NoneLost enters_timed v = ground arith
Step-NoneLost (resumes_timed h) v = ground arith
Step-NoneLost (expires h) v = ground arith
Step-NoneLost (wakes_up h) v = ground arith
Step-NoneLost (wakes_up_timed h) v = ground arith

Reach-NoneLost : {s t : Threads} → NoneLost s → Reach s t → NoneLost t
Reach-NoneLost v here = v
Reach-NoneLost v (next r st) = Step-NoneLost st (Reach-NoneLost v r)

-- A thread that was waiting passes in the step: nobody else enters or leaves.
pub record LetsPass (t u : Threads) : Type 0 where
  pub taken : Step t u
  pub passed : u.passed ≡ t.passed + 1
  pub fewer_ready : suc (u.ready + u.timed_ready) ≡ t.ready + t.timed_ready
  pub same_asleep : asleep u ≡ asleep t

-- A thread on its way to an event that is set passes.
ready_passes :
    (t : Threads)
    → t.event.isset ≡ true
    → 1 ≤ t.ready + t.timed_ready
    → (u : Threads) × LetsPass t u
unfolding try_wait try_timed_wait
ready_passes t e h = elim (Bool-cases (leb 1 t.ready)) [
  | inl some_ready ↦
      let k : 1 ≤ t.ready = leb→le 1 t.ready some_ready in
      (
        after_wait (try_wait t.event) (record t { ready = t.ready - 1 }),
        record {
          taken = resumes k;
          passed = ground arith;
          fewer_ready = ground arith;
          same_asleep = ground arith;
        },
      )
  | inr none_ready ↦
      let k : 1 ≤ t.timed_ready = ground arith in
      (
        after_timed_wait (try_timed_wait true t.event)
            (record t { timed_ready = t.timed_ready - 1 }),
        record {
          taken = resumes_timed k;
          passed = ground arith;
          fewer_ready = ground arith;
          same_asleep = ground arith;
        },
      )
]

attended_passes :
    (t : Threads)
    → t.event.isset ≡ true
    → (asleep t ≡ 0) ⊎ (1 ≤ t.ready + t.timed_ready)
    → (asleep t ≡ 0) ⊎ ((u : Threads) × LetsPass t u)
attended_passes t e (inl none_asleep) = inl none_asleep
attended_passes t e (inr ready) = inr (ready_passes t e ready)

new-NoneLost : (isset auto_reset : Bool) → NoneLost (alone (new isset auto_reset))
unfolding new
new-NoneLost isset auto_reset = record { attended = λ _. inl refl; no_sleeper = λ _ _. refl }

-- No wakeup is lost: however threads wait, time out, wake up for no reason, and set, broadcast and
-- reset an event, whenever it is set either no thread sleeps at it, or a thread that has been waiting
-- was woken, and it passes as soon as it gets the mutex.
pub set_attended :
    (isset auto_reset : Bool) {t : Threads}
    → Reach (alone (new isset auto_reset)) t
    → t.event.isset ≡ true
    → (asleep t ≡ 0) ⊎ ((u : Threads) × LetsPass t u)
set_attended isset auto_reset {t} r e =
    attended_passes t e ((Reach-NoneLost (new-NoneLost isset auto_reset) r).attended e)

record KeepsMode (auto_reset : Bool) (t : Threads) : Type 0 where
  mode : t.event.auto_reset ≡ auto_reset

abbrev pub one_if : Bool → ℕ
one_if true = 1
one_if false = 0

record Counted (start : ℕ) (t : Threads) : Type 0 where
  auto : t.event.auto_reset ≡ true
  few : t.passed + one_if t.event.isset ≤ t.sets + start

Step-Counted : {start : ℕ} {t u : Threads} → Step t u → Counted start t → Counted start u
unfolding set set_all reset try_wait try_timed_wait
Step-Counted (sets k j hk hj w) v = ground arith
Step-Counted (sets_all k j hk hj w) v = ground arith
Step-Counted resets v = ground arith
Step-Counted enters v = ground arith
Step-Counted (resumes h) v = ground arith
Step-Counted enters_timed v = ground arith
Step-Counted (resumes_timed h) v = ground arith
Step-Counted (expires h) v = ground arith
Step-Counted (wakes_up h) v = ground arith
Step-Counted (wakes_up_timed h) v = ground arith

Reach-Counted : {start : ℕ} {s t : Threads} → Counted start s → Reach s t → Counted start t
Reach-Counted v here = v
Reach-Counted v (next r st) = Step-Counted st (Reach-Counted v r)

-- At an event with automatic reset a set lets one waiting call pass, and never two: the calls that
-- returned because of the event, with the one for which it is set now, are at most as many as the
-- sets, one more if it was made set.
pub passed-le-sets :
    (isset : Bool) {t : Threads}
    → Reach (alone (new isset true)) t
    → t.passed + one_if t.event.isset ≤ t.sets + one_if isset
unfolding new
passed-le-sets isset r =
    (Reach-Counted {start = one_if isset} {s = alone (new isset true)}
      (record { auto = refl; few = omega arith }) r).few
