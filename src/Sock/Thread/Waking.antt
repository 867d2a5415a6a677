-- ===== src/Sock/Thread/Waking.antt =====
-- A thread of a socket does not sleep over what comes to it.
use user_message_protocol.Base.{◌≡◌, refl, List, [], ◌∷◌, Option, none, some, Bool, true, if_both}
use user_message_protocol.Event.{set, try_timed_wait}
use user_message_protocol.Sock.{UmpSocket, Env}
use user_message_protocol.Sock.Thread.Loop.{
  Worker, Pass, goes_on, returned, asleep, reads_outside, pass, rounded, Wake, by_control, by_send,
  by_receive, by_packet, by_stop, wake_up, IsAwake, notify_do_work, call_control, call_send,
  call_receive, hand_packet, stop_thread,
}

module _ {D : Type 0} where
  -- Other threads, one behind the other.
  abbrev pub wake_all : List (Wake D) → Worker D → Worker D
  wake_all [] w = w
  wake_all (x ∷ xs) w = wake_all xs (wake_up x w)

  wake_up_sets : (x : Wake D) (w : Worker D) → (wake_up x w).do_work_event.isset ≡ true
  unfolding call_control call_send call_receive hand_packet stop_thread notify_do_work set
  wake_up_sets (by_control m) w = refl
  wake_up_sets (by_send ps) w = refl
  wake_up_sets by_receive w = refl
  wake_up_sets (by_packet p) w = refl
  wake_up_sets by_stop w = refl

  wake_all_keeps :
      (xs : List (Wake D)) (w : Worker D)
      → w.do_work_event.isset ≡ true
      → (wake_all xs w).do_work_event.isset ≡ true
  wake_all_keeps [] w e = e
  wake_all_keeps (x ∷ xs) w e = wake_all_keeps xs (wake_up x w) (wake_up_sets x w)

  wake_up_stopped :
      (x : Wake D) (w : Worker D)
      → w.thread_stop_work ≡ true
      → (wake_up x w).thread_stop_work ≡ true
  unfolding call_control call_send call_receive hand_packet stop_thread notify_do_work
  wake_up_stopped (by_control m) w e = e
  wake_up_stopped (by_send ps) w e = e
  wake_up_stopped by_receive w e = e
  wake_up_stopped (by_packet p) w e = e
  wake_up_stopped by_stop w e = refl

  wake_all_stopped :
      (xs : List (Wake D)) (w : Worker D)
      → w.thread_stop_work ≡ true
      → (wake_all xs w).thread_stop_work ≡ true
  wake_all_stopped [] w e = e
  wake_all_stopped (x ∷ xs) w e = wake_all_stopped xs (wake_up x w) (wake_up_stopped x w e)

  stop_thread_stops : (w : Worker D) → (stop_thread w).thread_stop_work ≡ true
  unfolding stop_thread notify_do_work
  stop_thread_stops w = refl

  -- The pass is over, and the thread with it.
  abbrev pub IsOver : Pass D → Type 0
  IsOver (goes_on w) = ⊥
  IsOver (returned w) = Unit
  IsOver (asleep w) = ⊥
  IsOver reads_outside = Unit

  rounded-IsAwake :
      (o : Option (UmpSocket D)) (w : Worker D)
      → w.do_work_event.isset ≡ true
      → IsAwake (rounded true o w)
  unfolding try_timed_wait
  rounded-IsAwake none w e = tt
  rounded-IsAwake (some s) w e = rw e (if_both IsAwake w.thread_stop_work tt tt)

  rounded-IsOver :
      (o : Option (UmpSocket D)) (w : Worker D)
      → w.do_work_event.isset ≡ true
      → w.thread_stop_work ≡ true
      → IsOver (rounded true o w)
  unfolding try_timed_wait
  rounded-IsOver none w e f = tt
  rounded-IsOver (some s) w e f = rw (e, f) tt

  -- After a call of the application, a packet, or the order to stop, whatever else follows: the
  -- thread does not sleep at the end of its round.
  pub pass-IsAwake :
      (env : Env D) (free_ctrl free_snd free_rec : Bool) (w : Worker D) (x : Wake D)
      (xs : List (Wake D))
      → IsAwake (pass env free_ctrl free_snd free_rec true (wake_all (x ∷ xs) w))
  unfolding pass
  pass-IsAwake env free_ctrl free_snd free_rec w x xs =
      rounded-IsAwake _ (wake_all (x ∷ xs) w) (wake_all_keeps xs (wake_up x w) (wake_up_sets x w))

  -- After the order to stop, whatever else follows, the thread returns at the end of its round, if it
  -- does not read outside the array of packets in this round.
  pub stop_thread-IsOver :
      (env : Env D) (free_ctrl free_snd free_rec : Bool) (w : Worker D) (xs : List (Wake D))
      → IsOver (pass env free_ctrl free_snd free_rec true (wake_all (by_stop ∷ xs) w))
  unfolding pass
  stop_thread-IsOver env free_ctrl free_snd free_rec w xs =
      rounded-IsOver _ (wake_all (by_stop ∷ xs) w)
        (wake_all_keeps xs (stop_thread w) (wake_up_sets by_stop w))
        (wake_all_stopped xs (stop_thread w) (stop_thread_stops w))
