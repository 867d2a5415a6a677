-- ===== src/Sock/Locks/Packets.antt =====
-- The invariant of the lock machines across control packets and control calls.
use user_message_protocol.Base.{
  ◌≡◌, refl, List, [], ◌∷◌, Option, none, some, Bool, true, false, arith, if_both, not,
  if◌then◌else◌,
}
use user_message_protocol.Base.Int.{pos, ltb_ℤ}
use user_message_protocol.Clock.{time_sub}
use user_message_protocol.Packet.{UmpPacket, get_flag, ctrl_seq}
use user_message_protocol.Sock.{
  UmpSocket, Env, SockState, closed, connecting, established, closing, CallMethod, method_connect,
  method_close, method_all_call, LockState, locked, unlocked, send_out, now, timeout_limit,
}
use user_message_protocol.Sock.States.{closed_connect, established_close, timeout_refresh_ctrl_rto}
use user_message_protocol.Sock.Control.{
  read_syn, count_ctrl, settle_ctrl, ack_ctrl, closed_handle_ctrl_packet, read_syn_ack,
  try_establish, connecting_syn, connecting_handle_ctrl_packet, read_ack, established_next,
  established_handle_ctrl_packet, read_fin_ack, closing_next, closing_handle_ctrl_packet,
  sm_handle_ctrl_packet, handle_ctrl_packets, handle_ctrl_packet, sm_handle_ctrl, handle_ctrl_as,
  handle_ctrl, ctrl_timeout, handle_ctrl_timeout, send_ctrl, send_ctrl_ack, handle_send_ctrl_packet,
}
use user_message_protocol.Sock.Locks.{
  LocksAgree, calls, Keeps-LocksAgree, end_ctrl-LocksAgree, end_send-LocksAgree,
  end_receive-LocksAgree, change_state-LocksAgree, connection_error_occured-LocksAgree,
}

module _ {D : Type 0} where
  -- A step that changes nothing that the invariant is about.
  pub kept : (s : UmpSocket D) {t : UmpSocket D} → LocksAgree s → calls t ≡ calls s → LocksAgree t
  kept s {t} v e = Keeps-LocksAgree {s = s} {t = t} (record { same = e }) v

  count_ctrl-LocksAgree :
      (s : UmpSocket D) (p : UmpPacket) → LocksAgree s → LocksAgree (count_ctrl s p)
  unfolding count_ctrl
  count_ctrl-LocksAgree s p v =
      if_both LocksAgree _
        (if_both (λ (t : UmpSocket D). LocksAgree (ack_ctrl t)) _ (kept s v refl) (kept s v refl)) v

  closed_packet-LocksAgree :
      (env : Env D) (s : UmpSocket D) (p : UmpPacket)
      → LocksAgree s
      → LocksAgree (closed_handle_ctrl_packet env s p)
  unfolding closed_handle_ctrl_packet closed_connect read_syn
  closed_packet-LocksAgree env s p v =
      if_both LocksAgree _
        (if_both LocksAgree _ (change_state-LocksAgree env _ connecting (kept s v refl)) v)
        (count_ctrl-LocksAgree s p v)

  read_syn_ack-LocksAgree :
      (s : UmpSocket D) (p : UmpPacket) → LocksAgree s → LocksAgree (read_syn_ack s p)
  unfolding read_syn_ack settle_ctrl
  read_syn_ack-LocksAgree s p v =
      if_both LocksAgree _
        (if_both (λ (t : UmpSocket D). LocksAgree (record t { syn_ack_reced = true })) _
          (kept s v refl) (kept s v refl))
        v

  try_establish-LocksAgree :
      (env : Env D) (s : UmpSocket D) → LocksAgree s → LocksAgree (try_establish env s)
  unfolding try_establish
  try_establish-LocksAgree env s v =
      if_both LocksAgree _ (change_state-LocksAgree env s established v) v

  connecting_syn-LocksAgree :
      (env : Env D) (s : UmpSocket D) (p : UmpPacket)
      → LocksAgree s
      → LocksAgree (connecting_syn env s p)
  unfolding connecting_syn read_syn
  connecting_syn-LocksAgree env s p v =
      if_both LocksAgree _
        (if_both LocksAgree _ (kept s v refl)
          (if_both LocksAgree _ (try_establish-LocksAgree env _ (kept s v refl)) v))
        (try_establish-LocksAgree env _ (count_ctrl-LocksAgree s p v))

  read_ack-LocksAgree : (s : UmpSocket D) (p : UmpPacket) → LocksAgree s → LocksAgree (read_ack s p)
  unfolding read_ack settle_ctrl
  read_ack-LocksAgree s p v =
      if_both LocksAgree _ (end_ctrl-LocksAgree _ method_all_call true (kept s v refl)) v

  established_next-LocksAgree :
      (env : Env D) (s : UmpSocket D) (p : UmpPacket)
      → LocksAgree s
      → LocksAgree (established_next env s p)
  unfolding established_next established_close
  established_next-LocksAgree env s p v =
      if_both LocksAgree _
        (if_both LocksAgree _ (change_state-LocksAgree env _ closing (kept s v refl))
          (kept s v refl))
        v

  read_fin_ack-LocksAgree :
      (s : UmpSocket D) (p : UmpPacket) → LocksAgree s → LocksAgree (read_fin_ack s p)
  unfolding read_fin_ack settle_ctrl
  read_fin_ack-LocksAgree s p v =
      if_both LocksAgree _
        (if_both (λ (t : UmpSocket D). LocksAgree (record t { fin_ack_reced = true })) _
          (kept s v refl) (kept s v refl))
        v

  closing_next-LocksAgree :
      (s : UmpSocket D) (p : UmpPacket) → LocksAgree s → LocksAgree (ack_ctrl (closing_next s p))
  unfolding closing_next
  closing_next-LocksAgree s p v =
      if_both (λ (t : UmpSocket D). LocksAgree (ack_ctrl t)) _ (kept s v refl) (kept s v refl)

  closing_packet-LocksAgree :
      (env : Env D) (s : UmpSocket D) (p : UmpPacket)
      → LocksAgree s
      → LocksAgree (closing_handle_ctrl_packet env s p)
  unfolding closing_handle_ctrl_packet
  closing_packet-LocksAgree env s p v =
      if_both LocksAgree _ (change_state-LocksAgree env _ closed counted) counted
    where
      acked : LocksAgree (read_fin_ack s p)
      acked = read_fin_ack-LocksAgree s p v

      counted : LocksAgree (
          if get_flag p ctrl_seq
          then ack_ctrl (closing_next (read_fin_ack s p) p)
          else read_fin_ack s p)
      counted = if_both LocksAgree _ (closing_next-LocksAgree _ p acked) acked

  pub sm_handle_ctrl_packet-LocksAgree :
      (st : SockState) (env : Env D) (s : UmpSocket D) (p : UmpPacket)
      → LocksAgree s
      → LocksAgree (sm_handle_ctrl_packet st env s p)
  unfolding sm_handle_ctrl_packet connecting_handle_ctrl_packet established_handle_ctrl_packet
  sm_handle_ctrl_packet-LocksAgree closed env s p v = closed_packet-LocksAgree env s p v
  sm_handle_ctrl_packet-LocksAgree connecting env s p v =
      connecting_syn-LocksAgree env _ p (read_syn_ack-LocksAgree s p v)
  sm_handle_ctrl_packet-LocksAgree established env s p v =
      let acked = read_ack-LocksAgree s p v in
      if_both LocksAgree _
        (kept (established_next env (read_ack s p) p) (established_next-LocksAgree env _ p acked)
          refl)
        acked
  sm_handle_ctrl_packet-LocksAgree closing env s p v = closing_packet-LocksAgree env s p v

  handle_ctrl_packets-LocksAgree :
      (env : Env D) (s : UmpSocket D) (ps : List UmpPacket)
      → LocksAgree s
      → LocksAgree (handle_ctrl_packets env s ps)
  unfolding handle_ctrl_packets
  handle_ctrl_packets-LocksAgree env s [] v = kept s v refl
  handle_ctrl_packets-LocksAgree env s (p ∷ ps) v =
      let v1 : LocksAgree (record s { local_ctrl_packets = ps }) = kept s v refl in
      if_both LocksAgree _ (connection_error_occured-LocksAgree env _ v1) (
        handle_ctrl_packets-LocksAgree env
          (sm_handle_ctrl_packet s.state env (record s { local_ctrl_packets = ps }) p) ps
          (sm_handle_ctrl_packet-LocksAgree s.state env _ p v1))

  pub handle_ctrl_packet-LocksAgree :
      (env : Env D) (s : UmpSocket D) → LocksAgree s → LocksAgree (handle_ctrl_packet env s)
  unfolding handle_ctrl_packet
  handle_ctrl_packet-LocksAgree env s v =
      handle_ctrl_packets-LocksAgree env s s.local_ctrl_packets v

  sm_handle_ctrl-LocksAgree :
      (st : SockState) (env : Env D) (s : UmpSocket D) (m : CallMethod)
      → LocksAgree s
      → LocksAgree (sm_handle_ctrl st env s m)
  unfolding sm_handle_ctrl closed_connect established_close
  sm_handle_ctrl-LocksAgree closed env s method_connect v =
      change_state-LocksAgree env _ connecting (kept s v refl)
  sm_handle_ctrl-LocksAgree closed env s _ v = end_ctrl-LocksAgree s _ _ v
  sm_handle_ctrl-LocksAgree connecting env s method_connect v = v
  sm_handle_ctrl-LocksAgree connecting env s _ v = end_ctrl-LocksAgree s _ _ v
  sm_handle_ctrl-LocksAgree established env s method_close v =
      end_receive-LocksAgree _ false
        (end_send-LocksAgree _ false (change_state-LocksAgree env _ closing (kept s v refl)))
  sm_handle_ctrl-LocksAgree established env s _ v = end_ctrl-LocksAgree s _ _ v
  sm_handle_ctrl-LocksAgree closing env s method_close v = v
  sm_handle_ctrl-LocksAgree closing env s _ v = end_ctrl-LocksAgree s _ _ v

  taken-LocksAgree :
      (s : UmpSocket D) (m : CallMethod)
      → s.ctrl_locked ≡ unlocked
      → s.ctrl_para ≡ some m
      → LocksAgree s
      → LocksAgree (record s { ctrl_held = true; ctrl_locked = locked })
  taken-LocksAgree s m u e v = ground arith

  handle_ctrl_as-LocksAgree :
      (l : LockState) (free : Bool) (para : Option CallMethod) (env : Env D) (s : UmpSocket D)
      → s.ctrl_locked ≡ l
      → s.ctrl_para ≡ para
      → LocksAgree s
      → LocksAgree (handle_ctrl_as l free para env s)
  unfolding handle_ctrl_as
  handle_ctrl_as-LocksAgree locked free para env s a b v = v
  handle_ctrl_as-LocksAgree unlocked false para env s a b v = v
  handle_ctrl_as-LocksAgree unlocked true none env s a b v = v
  handle_ctrl_as-LocksAgree unlocked true (some m) env s a b v =
      let v1 = taken-LocksAgree s m a b v in
      if_both LocksAgree _ (end_ctrl-LocksAgree _ method_all_call false v1)
        (sm_handle_ctrl-LocksAgree s.state env _ m v1)

  pub handle_ctrl-LocksAgree :
      (env : Env D) (s : UmpSocket D) (free : Bool)
      → LocksAgree s
      → LocksAgree (handle_ctrl env s free)
  unfolding handle_ctrl
  handle_ctrl-LocksAgree env s free v =
      handle_ctrl_as-LocksAgree s.ctrl_locked free s.ctrl_para env s refl refl v

  ctrl_timeout-LocksAgree :
      (env : Env D) (s : UmpSocket D) → LocksAgree s → LocksAgree (ctrl_timeout env s)
  unfolding ctrl_timeout settle_ctrl timeout_refresh_ctrl_rto
  ctrl_timeout-LocksAgree env s v = if_both LocksAgree (not s.ctrl_packet_sent) (kept s v refl) (
      if_both LocksAgree (ltb_ℤ (time_sub (now env s) s.ctrl_resend_time) (pos 0)) (kept s v refl) (
        if_both LocksAgree (ltb_ℤ s.ctrl_rto (pos timeout_limit)) (kept s v refl) (
          connection_error_occured-LocksAgree env _
            (end_ctrl-LocksAgree _ method_all_call false (kept s v refl)))))

  pub handle_ctrl_timeout-LocksAgree :
      (env : Env D) (s : UmpSocket D) → LocksAgree s → LocksAgree (handle_ctrl_timeout env s)
  unfolding handle_ctrl_timeout
  handle_ctrl_timeout-LocksAgree env s v =
      elim s.ctrl_packet_to_send
        as (λ (o : Option UmpPacket).
          LocksAgree (elim o as (λ _. UmpSocket D) [ none ↦ s | some p ↦ ctrl_timeout env s ])) [
            | none ↦ v
            | some p ↦ ctrl_timeout-LocksAgree env s v
          ]

  send_ctrl_ack-LocksAgree : (s : UmpSocket D) → LocksAgree s → LocksAgree (send_ctrl_ack s)
  unfolding send_ctrl_ack send_out
  send_ctrl_ack-LocksAgree s v = if_both LocksAgree _ (kept s v refl) v

  send_ctrl-LocksAgree :
      (env : Env D) (s : UmpSocket D) (p : UmpPacket)
      → LocksAgree s
      → LocksAgree (send_ctrl env s p)
  unfolding send_ctrl send_out
  send_ctrl-LocksAgree env s p v = kept s v refl

  pub handle_send_ctrl_packet-LocksAgree :
      (env : Env D) (s : UmpSocket D) → LocksAgree s → LocksAgree (handle_send_ctrl_packet env s)
  unfolding handle_send_ctrl_packet
  handle_send_ctrl_packet-LocksAgree env s v =
      elim s.ctrl_packet_to_send
        as (λ (o : Option UmpPacket). LocksAgree (elim o as (λ _. UmpSocket D) [
          | none ↦ send_ctrl_ack s
          | some p ↦ if s.ctrl_packet_sent then send_ctrl_ack s else send_ctrl env s p
        ])) [
          | none ↦ send_ctrl_ack-LocksAgree s v
          | some p ↦
              if_both LocksAgree _ (send_ctrl_ack-LocksAgree s v) (send_ctrl-LocksAgree env s p v)
        ]
