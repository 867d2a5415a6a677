-- ===== src/Sock/DataAck/Accept.antt =====
-- Which acknowledgements move the window.
use user_message_protocol.Base.{
  ℕ, ◌≡◌, refl, ◌∙◌, subst, Bool, true, false, arith, if_both, if_cases, ◌||◌,
}
use user_message_protocol.Base.Int.{ℤ, pos, ◌<ℤ◌, ◌≤ℤ◌, ltb_ℤ}
use user_message_protocol.Seq.{cmp_in_base}
use user_message_protocol.Packet.{UmpPacket, get_flag, data_ack}
use user_message_protocol.Sock.{UmpSocket, Env}
use user_message_protocol.Sock.Calls.{end_send}
use user_message_protocol.Sock.Window.{refresh_snd_wnd_pos, refresh_back_point, cmp_in_sndbase}
use user_message_protocol.Sock.Locks.{LockState-cases}
use user_message_protocol.Sock.DataAck.{
  probe, handle_wnd_notify, count_repeat, fast_retransmit, ack_out_of_range, ack_is_new,
  advance_base, grow_cwnd, catch_up, settle_timers, finish_message, handle_ack, handle_data_ack,
}

-- A step that leaves the base and the last packet sent alone.
record KeepsBase {D : Type 0} (s t : UmpSocket D) : Type 0 where
  base : t.our_data_seq_base ≡ s.our_data_seq_base
  sent : t.our_data_sent ≡ s.our_data_sent

refl_base : {D : Type 0} (s : UmpSocket D) → KeepsBase s s
refl_base s = record { base = refl; sent = refl }

trans_base : {D : Type 0} {r s t : UmpSocket D} → KeepsBase r s → KeepsBase s t → KeepsBase r t
trans_base h k = record { base = k.base ∙ h.base; sent = k.sent ∙ h.sent }

-- What an acknowledgement may do to the base.
pub data MovesBase {D : Type 0} (s : UmpSocket D) (ack : ℕ) (t : UmpSocket D) : Type 0 where
  keeps : t.our_data_seq_base ≡ s.our_data_seq_base → MovesBase s ack t
  moves :
      t.our_data_seq_base ≡ ack
      → pos 0 <ℤ cmp_in_sndbase s ack s.our_data_seq_base
      → cmp_in_sndbase s ack s.our_data_sent ≤ℤ pos 1
      → MovesBase s ack t

positive : (a : ℤ) → ltb_ℤ (pos 0) a ≡ true → pos 0 <ℤ a
positive a h = ground arith

at_most_one : (b : Bool) (a : ℤ) → (b || ltb_ℤ (pos 1) a) ≡ false → a ≤ℤ pos 1
at_most_one b a h = ground arith

module _ {D : Type 0} (env : Env D) where
  end_send-KeepsBase : (s : UmpSocket D) (r : Bool) → KeepsBase s (end_send s r)
  unfolding end_send
  end_send-KeepsBase s r = ground (arith, LockState-cases s.snd_locked)

  handle_wnd_notify-KeepsBase :
      (s : UmpSocket D) (p : UmpPacket) → KeepsBase s (handle_wnd_notify env s p)
  unfolding handle_wnd_notify probe refresh_snd_wnd_pos
  handle_wnd_notify-KeepsBase s p = ground arith

  fast_retransmit-KeepsBase :
      (s : UmpSocket D) (ack : ℕ) → KeepsBase s (fast_retransmit env (count_repeat env s ack))
  unfolding fast_retransmit count_repeat refresh_back_point
  fast_retransmit-KeepsBase s ack = ground arith

  grow_cwnd-KeepsBase : (s : UmpSocket D) → KeepsBase s (grow_cwnd env s)
  unfolding grow_cwnd
  grow_cwnd-KeepsBase s = ground arith

  catch_up-KeepsBase : (s : UmpSocket D) → KeepsBase s (catch_up env s)
  unfolding catch_up
  catch_up-KeepsBase s = ground arith

  settle_timers-KeepsBase : (s : UmpSocket D) (ack : ℕ) → KeepsBase s (settle_timers env s ack)
  unfolding settle_timers
  settle_timers-KeepsBase s ack = ground arith

  finish_message-KeepsBase : (s : UmpSocket D) (ack : ℕ) → KeepsBase s (finish_message env s ack)
  unfolding finish_message
  finish_message-KeepsBase s ack = if_both (KeepsBase s) _ (end_send-KeepsBase s true) (refl_base s)

  advance_base_lem : (s : UmpSocket D) (ack : ℕ) → (advance_base env s ack).our_data_seq_base ≡ ack
  unfolding advance_base refresh_back_point
  advance_base_lem s ack = ground arith

  is_ahead :
      (s t : UmpSocket D) (ack : ℕ)
      → KeepsBase s t
      → ack_is_new env t ack ≡ true
      → pos 0 <ℤ cmp_in_sndbase s ack s.our_data_seq_base
  is_ahead s t ack k h = subst (λ (b : ℕ). pos 0 <ℤ cmp_in_base b ack b) k.base (positive _ h)

  is_sent :
      (s t : UmpSocket D) (ack : ℕ)
      → KeepsBase s t
      → ack_out_of_range env t ack ≡ false
      → cmp_in_sndbase s ack s.our_data_sent ≤ℤ pos 1
  is_sent s t ack k h =
      subst (λ (b : ℕ). cmp_in_base b ack s.our_data_sent ≤ℤ pos 1) k.base
        (subst (λ (d : ℕ). cmp_in_base t.our_data_seq_base ack d ≤ℤ pos 1) k.sent
          (at_most_one _ _ h))

  handle_ack-MovesBase :
      (s : UmpSocket D) (p : UmpPacket) (ack : ℕ) → MovesBase s ack (handle_ack env s p ack)
  unfolding handle_ack
  handle_ack-MovesBase s p ack =
      if_cases (MovesBase s ack) (ack_out_of_range env s1 ack) (λ _. keeps k.base)
        (λ out.
          if_cases (MovesBase s ack) (ack_is_new env s1 ack)
            (λ new.
              moves (after.base ∙ advance_base_lem s1 ack) (is_ahead s s1 ack k new)
                (is_sent s s1 ack k out))
            (λ _. keeps ((handle_wnd_notify-KeepsBase s1 p).base ∙ k.base)))
    where
      s1 : UmpSocket D
      s1 = fast_retransmit env (count_repeat env s ack)

      k : KeepsBase s s1
      k = fast_retransmit-KeepsBase s ack

      s2 : UmpSocket D
      s2 = handle_wnd_notify env (advance_base env s1 ack) p

      s3 : UmpSocket D
      s3 = catch_up env (grow_cwnd env s2)

      after :
          KeepsBase (advance_base env s1 ack) (finish_message env (settle_timers env s3 ack) ack)
      after = trans_base (handle_wnd_notify-KeepsBase (advance_base env s1 ack) p) (
          trans_base (grow_cwnd-KeepsBase s2) (
            trans_base (catch_up-KeepsBase (grow_cwnd env s2)) (
              trans_base (settle_timers-KeepsBase s3 ack)
                (finish_message-KeepsBase (settle_timers env s3 ack) ack))))

  notify_moves :
      (s : UmpSocket D) (p : UmpPacket) → MovesBase s p.ack_num (handle_wnd_notify env s p)
  notify_moves s p = keeps (handle_wnd_notify-KeepsBase s p).base

  -- The base of the window for sending moves only forward and never beyond what was sent: after
  -- `ump_handle_data_ack` it is what it was, or it is the number acknowledged, which is ahead of the
  -- old base and at most one beyond the last packet sent.
  pub handle_data_ack-MovesBase :
      (s : UmpSocket D) (p : UmpPacket) → MovesBase s p.ack_num (handle_data_ack env s p)
  unfolding handle_data_ack
  handle_data_ack-MovesBase s p =
      if_both (MovesBase s p.ack_num) (get_flag p data_ack) (handle_ack-MovesBase s p p.ack_num)
        (notify_moves s p)
