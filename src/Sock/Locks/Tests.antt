-- ===== src/Sock/Locks/Tests.antt =====
-- A socket that is asked to connect, and whose thread then does a round.
use user_message_protocol.Base.{◌≡◌, refl, some, none, true, false, Option}
use user_message_protocol.Base.Int.{ℤ, pos}
use user_message_protocol.Sock.{UmpSocket, method_connect}
use user_message_protocol.Sock.Calls.{control_call}
use user_message_protocol.Sock.Thread.{round}
use user_message_protocol.Sock.Life.{sock_new}
use user_message_protocol.Sock.Locks.{LocksAgree}
use user_message_protocol.Sock.Locks.Always.{
  Reach, here, step, by_control, by_thread, sock_new-always-LocksAgree,
}
use user_message_protocol.Samples.{sample_env, sample_double}

abbrev begun : UmpSocket ℤ
begun = sock_new sample_double (pos 0) (pos 0) 5

abbrev called : UmpSocket ℤ
called = control_call begun method_connect

-- The socket after a round, where that returns.
abbrev after : Option (UmpSocket ℤ) → UmpSocket ℤ
after none = called
after (some s) = s

is_free : begun.ctrl_held ≡ false
unfolding sock_new
is_free = refl

reached :
    (o : Option (UmpSocket ℤ))
    → round sample_env called true true true ≡ o
    → Reach sample_env begun (after o)
reached none e = step here (by_control method_connect is_free)
reached (some s) e =
    step (step here (by_control method_connect is_free)) (by_thread true true true e)

sock_new-always-LocksAgree_example : LocksAgree (after (round sample_env called true true true))
sock_new-always-LocksAgree_example =
    sock_new-always-LocksAgree sample_env (pos 0) (pos 0) 5
      (reached (round sample_env called true true true) refl)
