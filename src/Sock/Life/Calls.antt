-- ===== src/Sock/Life/Calls.antt =====
-- The calls at the beginning and the end of a socket.
use user_message_protocol.Base.{ℕ, ◌≡◌, arith, false, ◌∙◌, ap}
use user_message_protocol.Rto.{Double}
use user_message_protocol.Sock.{UmpSocket, unlocked, method_all_call}
use user_message_protocol.Sock.Calls.{end_ctrl, end_send}
use user_message_protocol.Sock.Receive.{end_receive}
use user_message_protocol.Sock.Locks.{
  LocksAgree, end_ctrl-LocksAgree, end_send-LocksAgree, end_receive-LocksAgree, is_locked,
}
use user_message_protocol.Sock.States.Release.{end_send_all, end_receive_all, end_ctrl_all}
use user_message_protocol.Sock.Life.{sock_new, sock_free}

-- A new socket is closed, its lock machines are unlocked and agree with its mutexes.
pub sock_new-LocksAgree :
    {D : Type 0} (double : Double D) (e0 m0 : D) (seq : ℕ) → LocksAgree (sock_new double e0 m0 seq)
unfolding sock_new
sock_new-LocksAgree double e0 m0 seq = ground arith

freed-LocksAgree :
    {D : Type 0} (s : UmpSocket D)
    → LocksAgree s
    → LocksAgree (end_receive (end_send (end_ctrl s method_all_call false) false) false)
freed-LocksAgree s v =
    end_receive-LocksAgree _ false
      (end_send-LocksAgree _ false (end_ctrl-LocksAgree s method_all_call false v))

-- When a socket whose lock machines and mutexes agree is freed, no call is left waiting and none of
-- the three mutexes is held, so that they can be freed.
pub sock_free_releases :
    {D : Type 0} (s : UmpSocket D)
    → LocksAgree s
    → let t = sock_free s in
      (t.ctrl_locked ≡ unlocked)
      × (t.snd_locked ≡ unlocked)
      × (t.rec_locked ≡ unlocked)
      × (t.ctrl_held ≡ false)
      × (t.snd_held ≡ false)
      × (t.rec_held ≡ false)
unfolding sock_free
sock_free_releases s v =
    let s1 = end_ctrl s method_all_call false in
    let s2 = end_send s1 false in
    let w = (freed-LocksAgree s v).agreement in
    let r = end_receive_all s2 in
    let q = end_send_all s1 in
    let c = r.2 ∙ q.1 ∙ (end_ctrl_all s).0 in
    let d = r.1 ∙ q.0 in
    (c, d, r.0, w.ctrl ∙ ap is_locked c, w.snd ∙ ap is_locked d, w.rec ∙ ap is_locked r.0)
