-- ===== src/Sock/Locks/Sends.antt =====
-- The invariant of the lock machines across what the thread sends.
use user_message_protocol.Base.{ℕ, refl, ◌∙◌, List, Option, none, some, arith, if_both, ap}
use user_message_protocol.Base.Int.{◌*ℤ◌, ltb_ℤ}
use user_message_protocol.Rto.{get_rto}
use user_message_protocol.Timer.{register_packet}
use user_message_protocol.Packet.{UmpPacket}
use user_message_protocol.Sock.{UmpSocket, Env, LockState, locked, unlocked, send_out, now, tick}
use user_message_protocol.Sock.Ack.{set_our_ack_info, refresh_our_ack_info, set_packet_ack_info}
use user_message_protocol.Sock.Window.{refresh_data_sent, refresh_our_rwnd_pos}
use user_message_protocol.Sock.Sending.{
  send_ack_alone, attach_ack, transmit, transmit_at, handle_send_data_as, packet_index, put_at,
  window_left,
}
use user_message_protocol.Sock.Data.{act_req_wnd, handle_send_heartbeat, handle_send_reset_packet}
use user_message_protocol.Sock.Locks.{LocksAgree, CallView, Keeps, Keeps-LocksAgree}
use user_message_protocol.Sock.Locks.Packets.{kept}
use user_message_protocol.Sock.Locks.Waiting.{numbered-LocksAgree}

-- The result of a step that can fail, where there is one.
abbrev pub Agreeing : {D : Type 0} → Option (UmpSocket D) → Type 0
Agreeing none = Unit
Agreeing (some t) = LocksAgree t

module _ {D : Type 0} (env : Env D) where
  pub refresh_our_rwnd_pos-LocksAgree :
      (s : UmpSocket D) → LocksAgree s → LocksAgree (refresh_our_rwnd_pos s)
  unfolding refresh_our_rwnd_pos
  refresh_our_rwnd_pos-LocksAgree s v = if_both LocksAgree _ (kept s v refl) (kept s v refl)

  pub refresh_our_ack_info-Keeps : (s : UmpSocket D) → Keeps s (refresh_our_ack_info env s)
  unfolding refresh_our_ack_info
  refresh_our_ack_info-Keeps s = ground arith

  pub act_req_wnd-Keeps : (s : UmpSocket D) → Keeps s (act_req_wnd env s)
  unfolding act_req_wnd send_out
  act_req_wnd-Keeps s = ground arith

  pub handle_send_heartbeat-Keeps : (s : UmpSocket D) → Keeps s (handle_send_heartbeat env s)
  unfolding handle_send_heartbeat set_our_ack_info
  handle_send_heartbeat-Keeps s = ground arith

  handle_send_reset_packet-LocksAgree :
      (s : UmpSocket D) → LocksAgree s → LocksAgree (handle_send_reset_packet s)
  unfolding handle_send_reset_packet send_out
  handle_send_reset_packet-LocksAgree s v = if_both LocksAgree _ (kept s v refl) v

  send_ack_alone-LocksAgree : (s : UmpSocket D) → LocksAgree s → LocksAgree (send_ack_alone s)
  unfolding send_ack_alone set_packet_ack_info send_out
  send_ack_alone-LocksAgree s v = if_both LocksAgree _ (kept s v refl) v

  attach_ack-Keeps : (s : UmpSocket D) (p : UmpPacket) → Keeps s (attach_ack s p).1
  unfolding attach_ack set_packet_ack_info
  attach_ack-Keeps s p = ground arith

  refresh_data_sent-Keeps : (s : UmpSocket D) (seq : ℕ) → Keeps s (refresh_data_sent s seq)
  unfolding refresh_data_sent
  refresh_data_sent-Keeps s seq = ground arith

  transmitted-Keeps :
      (s : UmpSocket D) (packets : List UmpPacket) (p0 : UmpPacket)
      → Keeps
          (record s {
            snd_packets = some (
                put_at s.our_data_pos (send_out (attach_ack s p0).1 (attach_ack s p0).0).0 packets);
          })
          (transmit env s packets p0)
  unfolding transmit send_out
  transmitted-Keeps s packets p0 =
      let (p1, s1) = attach_ack s p0 in
      let (p, s2) = send_out s1 p1 in
      let s3 : UmpSocket D = record (tick s2) {
        snd_packets = some (put_at s.our_data_pos p packets);
        tm_list =
            register_packet env.clock (now env s) s.tm_list p.seq_num
              (get_rto env.double s.rto_cpt *ℤ window_left s);
      } in
      record {
        same =
            (refresh_data_sent-Keeps s3 p.seq_num).same
            ∙ ap
                (λ (c : CallView). record c {
                  snd_packets = some (put_at s.our_data_pos p packets);
                })
                (attach_ack-Keeps s p0).same;
      }

  transmit-LocksAgree :
      (s : UmpSocket D) (packets : List UmpPacket) (p0 : UmpPacket)
      → LocksAgree s
      → LocksAgree (transmit env s packets p0)
  transmit-LocksAgree s packets p0 v =
      Keeps-LocksAgree (transmitted-Keeps s packets p0) (numbered-LocksAgree s _ v)

  transmit_at-LocksAgree :
      (s : UmpSocket D) (o : Option (List UmpPacket))
      → LocksAgree s
      → Agreeing (transmit_at env s o)
  unfolding transmit_at
  transmit_at-LocksAgree s none v = tt
  transmit_at-LocksAgree s (some packets) v =
      elim (packet_index packets s.our_data_pos)
        as (λ (o : Option UmpPacket). Agreeing (elim o as (λ _. Option (UmpSocket D)) [
          | none ↦ none
          | some p ↦ some (transmit env s packets p)
        ])) [ none ↦ tt | some p ↦ transmit-LocksAgree s packets p v ]

  pub handle_send_data_as-LocksAgree :
      (l : LockState) (s : UmpSocket D) → LocksAgree s → Agreeing (handle_send_data_as l env s)
  unfolding handle_send_data_as
  handle_send_data_as-LocksAgree unlocked s v = send_ack_alone-LocksAgree s v
  handle_send_data_as-LocksAgree locked s v =
      if_both Agreeing (ltb_ℤ s.our_data_pos s.our_wnd_pos)
        (transmit_at-LocksAgree s s.snd_packets v) (send_ack_alone-LocksAgree s v)

  pub sent-Agreeing :
      (o : Option (UmpSocket D))
      → Agreeing o
      → Agreeing (elim o as (λ _. Option (UmpSocket D)) [
        | none ↦ none
        | some s ↦ some (handle_send_reset_packet s)
      ])
  sent-Agreeing none v = tt
  sent-Agreeing (some s) v = handle_send_reset_packet-LocksAgree s v
