-- ===== src/Sock/Locks/Always.antt =====
-- A socket over its life: it is made, and then rounds of its thread, calls of the application and
-- packets of the receiving thread come in any order. A call finds its mutex free.
use user_message_protocol.Base.{◌≡◌, refl, List, some, Bool, false, arith, ℕ, if_both}
use user_message_protocol.Packet.{UmpPacket, PacketType, control, user}
use user_message_protocol.Sock.{UmpSocket, Env, CallMethod}
use user_message_protocol.Sock.Calls.{control_call, sock_send, sock_receive}
use user_message_protocol.Sock.Thread.{deliver, round, is_empty}
use user_message_protocol.Sock.Life.{sock_new}
use user_message_protocol.Sock.Life.Calls.{sock_new-LocksAgree}
use user_message_protocol.Sock.Locks.{LocksAgree, LockState-cases}
use user_message_protocol.Sock.Locks.Packets.{kept}
use user_message_protocol.Sock.Locks.Round.{round-LocksAgree}

module _ {D : Type 0} (env : Env D) where
  pub data Step : UmpSocket D → UmpSocket D → Type 0 where
    by_thread :
        {s t : UmpSocket D} (free_ctrl free_snd free_rec : Bool)
        → round env s free_ctrl free_snd free_rec ≡ some t
        → Step s t
    by_control :
        {s : UmpSocket D} (m : CallMethod) → s.ctrl_held ≡ false → Step s (control_call s m)
    by_send : {s : UmpSocket D} (ps : List UmpPacket) → s.snd_held ≡ false → Step s (sock_send s ps)
    by_receive : {s : UmpSocket D} → s.rec_held ≡ false → Step s (sock_receive s)
    by_packet : {s : UmpSocket D} (p : UmpPacket) → Step s (deliver p.p_type s p)

  pub data Reach : UmpSocket D → UmpSocket D → Type 0 where
    here : {s : UmpSocket D} → Reach s s
    step : {s t u : UmpSocket D} → Reach s t → Step t u → Reach s u

  control_call-LocksAgree :
      (s : UmpSocket D) (m : CallMethod)
      → s.ctrl_held ≡ false
      → LocksAgree s
      → LocksAgree (control_call s m)
  unfolding control_call
  control_call-LocksAgree s m free v = ground (arith, LockState-cases s.ctrl_locked)

  sock_send-LocksAgree :
      (s : UmpSocket D) (ps : List UmpPacket)
      → s.snd_held ≡ false
      → LocksAgree s
      → LocksAgree (sock_send s ps)
  unfolding sock_send
  sock_send-LocksAgree s ps free v = ground (arith, LockState-cases s.snd_locked)

  sock_receive-LocksAgree : (s : UmpSocket D) → LocksAgree s → LocksAgree (sock_receive s)
  unfolding sock_receive
  sock_receive-LocksAgree s v = record {
    agreement = record {
      ctrl = v.agreement.ctrl;
      snd = v.agreement.snd;
      rec = v.agreement.rec;
      ctrl_call = v.agreement.ctrl_call;
      snd_call = v.agreement.snd_call;
      rec_call = λ _. refl;
      visible = v.agreement.visible;
    };
  }

  deliver-LocksAgree :
      (t : PacketType) (s : UmpSocket D) (p : UmpPacket) → LocksAgree s → LocksAgree (deliver t s p)
  unfolding deliver
  deliver-LocksAgree control s p v =
      if_both LocksAgree (is_empty s.rec_control_packets) (kept s v refl) v
  deliver-LocksAgree user s p v = if_both LocksAgree _ (kept s v refl) v

  Step-LocksAgree : {s t : UmpSocket D} → Step s t → LocksAgree s → LocksAgree t
  Step-LocksAgree {s} (by_thread a b c e) v = round-LocksAgree env s a b c e v
  Step-LocksAgree {s} (by_control m free) v = control_call-LocksAgree s m free v
  Step-LocksAgree {s} (by_send ps free) v = sock_send-LocksAgree s ps free v
  Step-LocksAgree {s} (by_receive free) v = sock_receive-LocksAgree s v
  Step-LocksAgree {s} (by_packet p) v = deliver-LocksAgree p.p_type s p v

  Reach-LocksAgree : {s t : UmpSocket D} → Reach s t → LocksAgree s → LocksAgree t
  Reach-LocksAgree here v = v
  Reach-LocksAgree (step r k) v = Step-LocksAgree k (Reach-LocksAgree r v)

  -- Whatever rounds, calls and packets a new socket has been through, in any order, the thread
  -- holds each of the three mutexes exactly while the lock machine of that mutex is locked, a
  -- locked machine has its call, and the application sees the state that the socket is in.
  pub sock_new-always-LocksAgree :
      (e0 m0 : D) (seq : ℕ) {s : UmpSocket D}
      → Reach (sock_new env.double e0 m0 seq) s
      → LocksAgree s
  sock_new-always-LocksAgree e0 m0 seq r =
      Reach-LocksAgree r (sock_new-LocksAgree env.double e0 m0 seq)
