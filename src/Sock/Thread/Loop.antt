-- ===== src/Sock/Thread/Loop.antt =====
-- The loop of `ump_sock_thread_func` of user_message_protocol/ump_sock.c around its rounds: the wait
-- at `do_work_event` and the flag that stops the thread; and those who wake it. A pass of the loop is
-- one function; `in_time` is what `g_cond_timed_wait` returned to the thread.
use user_message_protocol.Base.{List, Option, none, some, Bool, true, false, if◌then◌else◌}
use user_message_protocol.Packet.{UmpPacket}
use user_message_protocol.Event
use user_message_protocol.Event.{MEvent, set, try_timed_wait}
use user_message_protocol.Sock.{UmpSocket, Env, CallMethod}
use user_message_protocol.Sock.Calls.{control_call, sock_send, sock_receive}
use user_message_protocol.Sock.Thread.{round, deliver}

-- A socket with the fields through which its thread is woken and stopped.
pub record Worker (D : Type 0) : Type 0 where
  pub sock : UmpSocket D
  pub do_work_event : MEvent
  pub thread_stop_work : Bool

-- Where the thread is at the end of a pass: it goes on, it has returned, or it sleeps at
-- `do_work_event`; or it has read outside the array of packets to send.
pub data Pass (D : Type 0) : Type 0 where
  goes_on : Worker D → Pass D
  returned : Worker D → Pass D
  asleep : Worker D → Pass D
  reads_outside : Pass D

module _ {D : Type 0} where
  -- `ump_sock_new`, lines 1646 to 1660.
  abbrev pub new_worker : UmpSocket D → Worker D
  new_worker s = record { sock = s; do_work_event = Event.new false true; thread_stop_work = false }

  -- Lines 95 to 100.
  abbrev pub check_stop : Worker D → Pass D
  check_stop w = if w.thread_stop_work then returned w else goes_on w

  abbrev pub woken : Option (Bool × MEvent) → Worker D → Pass D
  woken none w = asleep w
  woken (some (b, e)) w = check_stop (record w { do_work_event = e })

  abbrev pub rounded : Bool → Option (UmpSocket D) → Worker D → Pass D
  rounded in_time none w = reads_outside
  rounded in_time (some s) w =
      woken (try_timed_wait in_time w.do_work_event) (record w { sock = s })

  -- A pass of the loop: a round, the wait of line 94, and the test of the flag.
  unfoldable pub pass : Env D → Bool → Bool → Bool → Bool → Worker D → Pass D
  pass env free_ctrl free_snd free_rec in_time w =
      rounded in_time (round env w.sock free_ctrl free_snd free_rec) w

  -- `ump_sock_notify_do_work`.
  unfoldable pub notify_do_work : Worker D → Worker D
  notify_do_work w = record w { do_work_event = (set w.do_work_event).0 }

  -- `ump_sock_control_call`, `ump_sock_send` and `ump_sock_receive` up to their waits.
  unfoldable pub call_control : Worker D → CallMethod → Worker D
  call_control w m = notify_do_work (record w { sock = control_call w.sock m })

  unfoldable pub call_send : Worker D → List UmpPacket → Worker D
  call_send w ps = notify_do_work (record w { sock = sock_send w.sock ps })

  unfoldable pub call_receive : Worker D → Worker D
  call_receive w = notify_do_work (record w { sock = sock_receive w.sock })

  -- The receiving thread of the core, lines 115 to 147 of core_thread.c.
  unfoldable pub hand_packet : Worker D → UmpPacket → Worker D
  hand_packet w p = notify_do_work (record w { sock = deliver p.p_type w.sock p })

  -- `ump_sock_free`, lines 1699 to 1702.
  unfoldable pub stop_thread : Worker D → Worker D
  stop_thread w = notify_do_work (record w { thread_stop_work = true })

-- What comes to a worker from other threads.
pub data Wake (D : Type 0) : Type 0 where
  by_control : CallMethod → Wake D
  by_send : List UmpPacket → Wake D
  by_receive : Wake D
  by_packet : UmpPacket → Wake D
  by_stop : Wake D

module _ {D : Type 0} where
  abbrev pub wake_up : Wake D → Worker D → Worker D
  wake_up (by_control m) w = call_control w m
  wake_up (by_send ps) w = call_send w ps
  wake_up by_receive w = call_receive w
  wake_up (by_packet p) w = hand_packet w p
  wake_up by_stop w = stop_thread w

  -- The thread is not asleep.
  abbrev pub IsAwake : Pass D → Type 0
  IsAwake (goes_on w) = Unit
  IsAwake (returned w) = Unit
  IsAwake (asleep w) = ⊥
  IsAwake reads_outside = Unit
