-- ===== src/Sock/Thread/Tests.antt =====
-- A thread of a socket that sleeps, and a call of the application.
use user_message_protocol.Base.{[], ◌∷◌, true}
use user_message_protocol.Sock.Thread.Loop.{IsAwake, pass, by_receive, new_worker}
use user_message_protocol.Sock.Thread.Waking.{wake_all, pass-IsAwake}
use user_message_protocol.Samples.{sample_sock, sample_env}

pass-IsAwake_example :
    IsAwake
      (pass sample_env true true true true (wake_all (by_receive ∷ []) (new_worker sample_sock)))
pass-IsAwake_example = pass-IsAwake sample_env true true true (new_worker sample_sock) by_receive []
