-- ===== src/Sock/States/Release.antt =====
-- An error ends a connection and every call that waits for it.
use user_message_protocol.Base.{
  ◌≡◌, ◌∙◌, ◌⊎◌, inl, inr, Bool, true, false, arith, if_both, refl, ap,
}
use user_message_protocol.Sock.{
  UmpSocket, Env, LockState, locked, unlocked, closed, CallMethod, method_all_call, method_close,
  tick, now,
}
use user_message_protocol.Sock.Receive.{end_receive}
use user_message_protocol.Sock.Calls.{end_ctrl, end_send}
use user_message_protocol.Sock.States.{connection_error_occured, change_state}
use user_message_protocol.Sock.Locks.{
  LocksAgree, LockState-cases, is_locked, connection_error_occured-LocksAgree,
}

module _ {D : Type 0} (s : UmpSocket D) where
  pub end_ctrl_all :
      let t = end_ctrl s method_all_call false in
      (t.ctrl_locked ≡ unlocked) × (t.state ≡ s.state) × (t.error_occured ≡ s.error_occured)
  unfolding end_ctrl
  end_ctrl_all = ground (arith, LockState-cases s.ctrl_locked)

  pub end_send_all :
      let t = end_send s false in
      (t.snd_locked ≡ unlocked)
      × (t.ctrl_locked ≡ s.ctrl_locked)
      × (t.state ≡ s.state)
      × (t.error_occured ≡ s.error_occured)
  unfolding end_send
  end_send_all = ground (arith, LockState-cases s.snd_locked)

  pub end_receive_all :
      let t = end_receive s false in
      (t.rec_locked ≡ unlocked)
      × (t.snd_locked ≡ s.snd_locked)
      × (t.ctrl_locked ≡ s.ctrl_locked)
      × (t.state ≡ s.state)
      × (t.error_occured ≡ s.error_occured)
  unfolding end_receive
  end_receive_all = ground (arith, LockState-cases s.rec_locked)

  end_close :
      let t = end_ctrl s method_close true in
      (t.state ≡ s.state) × (t.error_occured ≡ s.error_occured)
  unfolding end_ctrl
  end_close = ground (arith, LockState-cases s.ctrl_locked)

module _ {D : Type 0} (s : UmpSocket D) where
  pub enters_closed :
      (env : Env D)
      → let t = change_state env s closed in
        (t.state ≡ closed) × (t.error_occured ≡ s.error_occured)
  unfolding change_state
  enters_closed env = (
    (end_close _).0 ∙ if_both (λ (t : UmpSocket D). t.state ≡ closed) _ (end_receive_all s1).3 refl,
    (end_close _).1
        ∙ if_both (λ (t : UmpSocket D). t.error_occured ≡ s.error_occured) _ (end_receive_all s1).4
            refl,
  )
    where
      s0 : UmpSocket D
      s0 = record s { state = closed; public_state = closed }

      s1 : UmpSocket D
      s1 = record (tick s0) { close_time = now env s0 }

-- The same without the mutexes.
pub answers_all :
    {D : Type 0} (env : Env D) (s : UmpSocket D)
    → let t = connection_error_occured env s in
      (t.state ≡ closed)
      × (t.error_occured ≡ true)
      × (t.ctrl_locked ≡ unlocked)
      × (t.snd_locked ≡ unlocked)
      × (t.rec_locked ≡ unlocked)
unfolding connection_error_occured
answers_all {D} env s =
    let s1 = change_state env (record s { error_occured = true }) closed in
    let s2 = end_ctrl s1 method_all_call false in
    let s3 = end_send s2 false in
    let o = enters_closed (record s { error_occured = true }) env in
    let p = end_ctrl_all s1 in
    let q = end_send_all s2 in
    let r = end_receive_all s3 in
    (r.3 ∙ q.2 ∙ p.1 ∙ o.0, r.4 ∙ q.3 ∙ p.2 ∙ o.1, r.2 ∙ q.1 ∙ p.0, r.1 ∙ q.0, r.0)

-- Where the lock machine of a call was locked in `s`, in `t` it is so still or the event at which the
-- call waits is set.
record Answers {D : Type 0} (s t : UmpSocket D) : Type 0 where
  ctrl : s.ctrl_locked ≡ locked → (t.ctrl_locked ≡ locked) ⊎ (t.ctrl_done ≡ true)
  snd : s.snd_locked ≡ locked → (t.snd_locked ≡ locked) ⊎ (t.snd_done ≡ true)
  rec : s.rec_locked ≡ locked → (t.rec_locked ≡ locked) ⊎ (t.rec_done ≡ true)

module _ {D : Type 0} (s t : UmpSocket D) (v : Answers s t) where
  end_ctrl-Answers : (m : CallMethod) (r : Bool) → Answers s (end_ctrl t m r)
  unfolding end_ctrl
  end_ctrl-Answers m r = record {
    ctrl = λ e. ground (arith, LockState-cases t.ctrl_locked, v.ctrl e);
    snd = λ e. ground (arith, LockState-cases t.ctrl_locked, v.snd e);
    rec = λ e. ground (arith, LockState-cases t.ctrl_locked, v.rec e);
  }

  end_send-Answers : Answers s (end_send t false)
  unfolding end_send
  end_send-Answers = record {
    ctrl = λ e. ground (arith, LockState-cases t.snd_locked, v.ctrl e);
    snd = λ e. ground (arith, LockState-cases t.snd_locked, v.snd e);
    rec = λ e. ground (arith, LockState-cases t.snd_locked, v.rec e);
  }

  end_receive-Answers : Answers s (end_receive t false)
  unfolding end_receive
  end_receive-Answers = record {
    ctrl = λ e. ground (arith, LockState-cases t.rec_locked, v.ctrl e);
    snd = λ e. ground (arith, LockState-cases t.rec_locked, v.snd e);
    rec = λ e. ground (arith, LockState-cases t.rec_locked, v.rec e);
  }

module _ {D : Type 0} (env : Env D) (s : UmpSocket D) where
  change_state-Answers : (t : UmpSocket D) → Answers s t → Answers s (change_state env t closed)
  unfolding change_state
  change_state-Answers t v =
      end_ctrl-Answers s _ (if_both (Answers s) _ (end_receive-Answers s t1 v1) v1) method_close
        true
    where
      t0 : UmpSocket D
      t0 = record t { state = closed; public_state = closed }

      t1 : UmpSocket D
      t1 = record (tick t0) { close_time = now env t0 }

      v1 : Answers s t1
      v1 = record { ctrl = v.ctrl; snd = v.snd; rec = v.rec }

  connection_error_occured-Answers : Answers s (connection_error_occured env s)
  unfolding connection_error_occured
  connection_error_occured-Answers = end_receive-Answers s _ (
      end_send-Answers s _ (
        end_ctrl-Answers s _
          (change_state-Answers (record s { error_occured = true })
            (record { ctrl = λ e. inl e; snd = λ e. inl e; rec = λ e. inl e }))
          method_all_call false))

is_unlocked : (l : LockState) {d : Bool} → l ≡ unlocked → (l ≡ locked) ⊎ (d ≡ true) → d ≡ true
is_unlocked l e (inl h) = absurd (ground arith)
is_unlocked l e (inr h) = h

-- An error closes the connection and leaves no call waiting: from any socket whose lock machines and
-- mutexes agree, afterwards it is closed, the error is noted, none of the three lock machines is
-- locked, the thread holds none of the three mutexes, and the event at which a call waits is set for
-- each of the machines that was locked before.
pub connection_error_occured_releases :
    {D : Type 0} (env : Env D) (s : UmpSocket D)
    → LocksAgree s
    → let t = connection_error_occured env s in
      (t.state ≡ closed)
      × (t.public_state ≡ closed)
      × (t.error_occured ≡ true)
      × (t.ctrl_locked ≡ unlocked)
      × (t.snd_locked ≡ unlocked)
      × (t.rec_locked ≡ unlocked)
      × (t.ctrl_held ≡ false)
      × (t.snd_held ≡ false)
      × (t.rec_held ≡ false)
      × (s.ctrl_locked ≡ locked → t.ctrl_done ≡ true)
      × (s.snd_locked ≡ locked → t.snd_done ≡ true)
      × (s.rec_locked ≡ locked → t.rec_done ≡ true)
connection_error_occured_releases env s v =
    let a = answers_all env s in
    let w = (connection_error_occured-LocksAgree env s v).agreement in
    let d = connection_error_occured-Answers env s in
    let t = connection_error_occured env s in
    (
      a.0,
      w.visible ∙ a.0,
      a.1,
      a.2,
      a.3,
      a.4,
      w.ctrl ∙ ap is_locked a.2,
      w.snd ∙ ap is_locked a.3,
      w.rec ∙ ap is_locked a.4,
      λ e. is_unlocked t.ctrl_locked a.2 (d.ctrl e),
      λ e. is_unlocked t.snd_locked a.3 (d.snd e),
      λ e. is_unlocked t.rec_locked a.4 (d.rec e),
    )
