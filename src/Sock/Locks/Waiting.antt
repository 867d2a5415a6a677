-- ===== src/Sock/Locks/Waiting.antt =====
-- The invariant of the lock machines across the send and receive calls that the thread takes.
use user_message_protocol.Base.{
  ◌≡◌, refl, List, [], ◌∷◌, Option, none, some, Bool, true, false, arith, if_both, if_cases, ap,
  not, ◌||◌,
}
use user_message_protocol.Packet.{UmpPacket}
use user_message_protocol.Sock.{UmpSocket, Node, LockState, locked, unlocked}
use user_message_protocol.Sock.Calls.{
  receive_call, handle_receive_as, handle_receive, is_established,
}
use user_message_protocol.Sock.Window.{refresh_snd_wnd_pos}
use user_message_protocol.Sock.Sending.{accept_message, handle_send_as, handle_send}
use user_message_protocol.Sock.Locks.{
  LocksAgree, CallView, end_send-LocksAgree, end_receive_internal-Keeps,
}
use user_message_protocol.Sock.Locks.Packets.{kept}

module _ {D : Type 0} where
  sending-LocksAgree :
      (s : UmpSocket D) (packets : List UmpPacket)
      → s.snd_locked ≡ unlocked
      → s.snd_packets ≡ some packets
      → LocksAgree s
      → LocksAgree (record s { snd_held = true; snd_locked = locked })
  sending-LocksAgree s packets u e v = ground arith

  pub numbered-LocksAgree :
      (s : UmpSocket D) (packets : List UmpPacket)
      → LocksAgree s
      → LocksAgree (record s { snd_packets = some packets })
  numbered-LocksAgree s packets v = ground arith

  accept_message-LocksAgree :
      (packets : List UmpPacket) (s : UmpSocket D)
      → s.snd_locked ≡ unlocked
      → s.snd_packets ≡ some packets
      → LocksAgree s
      → LocksAgree (accept_message packets (record s { snd_held = true }))
  unfolding accept_message refresh_snd_wnd_pos
  accept_message-LocksAgree packets s u e v =
      let v1 = sending-LocksAgree s packets u e v in
      if_both LocksAgree _ (end_send-LocksAgree _ false v1) (
        kept (record s { snd_held = true; snd_locked = locked; snd_packets = some _ })
          (numbered-LocksAgree _ _ v1) refl)

  handle_send_as-LocksAgree :
      (l : LockState) (free : Bool) (o : Option (List UmpPacket)) (s : UmpSocket D)
      → s.snd_locked ≡ l
      → s.snd_packets ≡ o
      → LocksAgree s
      → LocksAgree (handle_send_as l free o s)
  unfolding handle_send_as
  handle_send_as-LocksAgree locked free o s a b v = v
  handle_send_as-LocksAgree unlocked false o s a b v = v
  handle_send_as-LocksAgree unlocked true none s a b v = v
  handle_send_as-LocksAgree unlocked true (some packets) s a b v =
      accept_message-LocksAgree packets s a b v

  pub handle_send-LocksAgree :
      (s : UmpSocket D) (free : Bool) → LocksAgree s → LocksAgree (handle_send s free)
  unfolding handle_send
  handle_send-LocksAgree s free v =
      handle_send_as-LocksAgree s.snd_locked free s.snd_packets s refl refl v

  receiving-LocksAgree :
      (s : UmpSocket D)
      → s.rec_locked ≡ unlocked
      → s.receive_called ≡ true
      → LocksAgree s
      → LocksAgree (record s { rec_held = true; rec_locked = locked })
  receiving-LocksAgree s u called v = ground arith

  released-LocksAgree :
      (s : UmpSocket D)
      → s.rec_locked ≡ unlocked
      → LocksAgree s
      → LocksAgree (record s { rec_held = false; receive_called = false })
  released-LocksAgree s u v = ground arith

  receive_call-LocksAgree :
      (ns : List Node) (s : UmpSocket D)
      → s.rec_locked ≡ unlocked
      → s.receive_called ≡ true
      → LocksAgree s
      → LocksAgree (receive_call ns (record s { rec_held = true }))
  unfolding receive_call
  receive_call-LocksAgree [] s u called v =
      if_both LocksAgree (not (is_established s.state) || s.error_occured)
        (kept (record s { rec_held = false; receive_called = false }) (released-LocksAgree s u v)
          refl)
        (kept (record s { rec_held = true; rec_locked = locked })
          (receiving-LocksAgree s u called v) refl)
  receive_call-LocksAgree (n ∷ ns) s u called v =
      kept (record s { rec_held = false; receive_called = false }) (released-LocksAgree s u v)
        (ap (λ (c : CallView). record c { rec_held = false; receive_called = false })
          (end_receive_internal-Keeps (record s { rec_held = true; rec_ok = true })).same)

  handle_receive_as-LocksAgree :
      (l : LockState) (free : Bool) (s : UmpSocket D)
      → s.rec_locked ≡ l
      → LocksAgree s
      → LocksAgree (handle_receive_as l free s)
  unfolding handle_receive_as
  handle_receive_as-LocksAgree locked free s a v = v
  handle_receive_as-LocksAgree unlocked false s a v = v
  handle_receive_as-LocksAgree unlocked true s a v =
      if_cases LocksAgree s.receive_called
        (λ called. receive_call-LocksAgree s.rec_msg_packets s a called v) (λ _. v)

  pub handle_receive-LocksAgree :
      (s : UmpSocket D) (free : Bool) → LocksAgree s → LocksAgree (handle_receive s free)
  unfolding handle_receive
  handle_receive-LocksAgree s free v = handle_receive_as-LocksAgree s.rec_locked free s refl v
