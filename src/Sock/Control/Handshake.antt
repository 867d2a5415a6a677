-- ===== src/Sock/Control/Handshake.antt =====
-- What a connection needs to be established.
use user_message_protocol.Base.{
  ◌≡◌, refl, Bool, true, false, arith, if_both, if_cases, ◌∙◌, sym, subst, ap, ◌&&◌, ◌||◌,
}
use user_message_protocol.Packet.{UmpPacket, get_flag, ctrl_syn, ctrl_seq, ctrl_ack}
use user_message_protocol.Sock.States.{change_state}
use user_message_protocol.Sock.{UmpSocket, Env, connecting, established}
use user_message_protocol.Sock.Control.{
  connecting_handle_ctrl_packet, connecting_syn, read_syn_ack, try_establish, acks_ours, count_ctrl,
  settle_ctrl, read_syn,
}
use user_message_protocol.Sock.Control.Edges.{enters_established}

both_true : (a b : Bool) → (a && b) ≡ true → (a ≡ true) × (b ≡ true)
both_true true true e = (refl, refl)
both_true true false e = ground arith
both_true false b e = ground arith

module _ {D : Type 0} where
  -- A socket is established only with both flags, and each flag was there before, as `syn` and `ack`
  -- tell.
  record Opened (syn ack : Bool) (s : UmpSocket D) : Type 0 where
    both : s.state ≡ established → (syn ≡ true) × (ack ≡ true)

  try_establish-Opened :
      (syn ack : Bool) (env : Env D) (s : UmpSocket D)
      → s.state ≡ connecting
      → s.syn_reced ≡ syn
      → s.syn_ack_reced ≡ ack
      → Opened syn ack (try_establish env s)
  unfolding try_establish
  try_establish-Opened syn ack env s e f g =
      if_cases (Opened syn ack) _
        (λ h. let b = both_true _ _ h in record { both = λ _. (sym f ∙ b.0, sym g ∙ b.1) })
        (λ _. record { both = λ k. ground arith })

  record Counts (s t : UmpSocket D) : Type 0 where
    same_state : t.state ≡ s.state
    same_syn : t.syn_reced ≡ s.syn_reced
    same_ack : t.syn_ack_reced ≡ s.syn_ack_reced

  count_ctrl-Counts : (s : UmpSocket D) (p : UmpPacket) → Counts s (count_ctrl s p)
  unfolding count_ctrl
  count_ctrl-Counts s p = record {
    same_state = ground arith;
    same_syn = ground arith;
    same_ack = ground arith;
  }

  state-read_syn_ack : (s : UmpSocket D) (p : UmpPacket) → (read_syn_ack s p).state ≡ s.state
  unfolding read_syn_ack settle_ctrl
  state-read_syn_ack s p = ground arith

  -- What the two flags become when a packet's acknowledgement is read.
  flags-read_syn_ack :
      (s : UmpSocket D) (p : UmpPacket)
      → ((read_syn_ack s p).syn_reced ≡ s.syn_reced)
        × ((read_syn_ack s p).syn_ack_reced ≡ (s.syn_ack_reced || get_flag p ctrl_ack))
  unfolding read_syn_ack settle_ctrl
  flags-read_syn_ack s p = (ground arith, ground arith)

  stays-Opened : (syn ack : Bool) (s : UmpSocket D) → s.state ≡ connecting → Opened syn ack s
  stays-Opened syn ack s e = record { both = λ k. ground arith }

  connecting_syn-Opened :
      (ack : Bool) (env : Env D) (s : UmpSocket D) (p : UmpPacket)
      → s.state ≡ connecting
      → s.syn_ack_reced ≡ ack
      → Opened
          (s.syn_reced || (get_flag p ctrl_syn && get_flag p ctrl_seq))
          ack
          (connecting_syn env s p)
  unfolding connecting_syn read_syn
  connecting_syn-Opened ack env s p e g =
      if_cases P (get_flag p ctrl_syn)
        (λ y. if_both P _ (stays-Opened _ ack _ e) (
          if_cases P (get_flag p ctrl_seq)
            (λ q. try_establish-Opened _ ack env _ e (ground arith) g)
            (λ q. stays-Opened _ ack s e)))
        (λ y.
          let c = count_ctrl-Counts s p in
          try_establish-Opened _ ack env _ (c.same_state ∙ e) (c.same_syn ∙ ground arith)
            (c.same_ack ∙ g))
    where
      P : UmpSocket D → Type 0
      P = Opened (s.syn_reced || (get_flag p ctrl_syn && get_flag p ctrl_seq)) ack

  -- A connecting socket that a packet makes established has the peer's SYN, from before or in this
  -- packet, which has a number of its own then; and an acknowledgement, from before or in this
  -- packet.
  pub connecting_handle_ctrl_packet-established :
      (env : Env D) (s : UmpSocket D) (p : UmpPacket)
      → s.state ≡ connecting
      → (connecting_handle_ctrl_packet env s p).state ≡ established
      → ((s.syn_reced || (get_flag p ctrl_syn && get_flag p ctrl_seq)) ≡ true)
        × ((s.syn_ack_reced || get_flag p ctrl_ack) ≡ true)
  unfolding connecting_handle_ctrl_packet
  connecting_handle_ctrl_packet-established env s p e o =
      let f = flags-read_syn_ack s p in
      let b =
        (connecting_syn-Opened (s.syn_ack_reced || get_flag p ctrl_ack) env (read_syn_ack s p) p
            (state-read_syn_ack s p ∙ e) f.1).both
          o in
      (ap (λ (x : Bool). x || (get_flag p ctrl_syn && get_flag p ctrl_seq)) (sym f.0) ∙ b.0, b.1)

  read_syn_ack-unmatched :
      (s : UmpSocket D) (p : UmpPacket)
      → get_flag p ctrl_ack ≡ true
      → acks_ours s p ≡ false
      → read_syn_ack s p ≡ record s { syn_ack_reced = true }
  unfolding read_syn_ack
  read_syn_ack-unmatched s p a n = rw a (rw n)

  connecting_syn-plain :
      (env : Env D) (s : UmpSocket D) (p : UmpPacket)
      → get_flag p ctrl_syn ≡ false
      → get_flag p ctrl_seq ≡ false
      → connecting_syn env s p ≡ try_establish env s
  unfolding connecting_syn count_ctrl
  connecting_syn-plain env s p y q = rw y (rw q)

  try_establish-both :
      (env : Env D) (s : UmpSocket D)
      → (s.syn_reced && s.syn_ack_reced) ≡ true
      → try_establish env s ≡ change_state env s established
  unfolding try_establish
  try_establish-both env s e = rw e

  -- Any acknowledgement opens the connection: a packet without SYN and without a number of its own
  -- that acknowledges another number than ours makes a connecting socket that has read the peer's
  -- SYN established, and the control packet that waits to be acknowledged still waits.
  pub connecting_handle_ctrl_packet-unmatched :
      (env : Env D) (s : UmpSocket D) (p : UmpPacket)
      → s.syn_reced ≡ true
      → get_flag p ctrl_ack ≡ true
      → get_flag p ctrl_syn ≡ false
      → get_flag p ctrl_seq ≡ false
      → acks_ours s p ≡ false
      → let t = connecting_handle_ctrl_packet env s p in
        (t.state ≡ established) × (t.ctrl_packet_to_send ≡ s.ctrl_packet_to_send)
  unfolding connecting_handle_ctrl_packet
  connecting_handle_ctrl_packet-unmatched env s p r a y q n =
      let o = enters_established env (record s { syn_ack_reced = true }) in
      subst
        (λ (t : UmpSocket D).
          (t.state ≡ established) × (t.ctrl_packet_to_send ≡ s.ctrl_packet_to_send))
        (sym (
          ap (λ (t : UmpSocket D). connecting_syn env t p) (read_syn_ack-unmatched s p a n)
          ∙ connecting_syn-plain env _ p y q
          ∙ try_establish-both env (record s { syn_ack_reced = true }) (ground arith)))
        (o.0, o.3)
