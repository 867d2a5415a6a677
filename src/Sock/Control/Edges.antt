-- ===== src/Sock/Control/Edges.antt =====
-- Which states follow which.
use user_message_protocol.Base.{
  ◌≡◌, refl, List, [], ◌∷◌, Bool, true, false, arith, if_both, if_cases, ◌∙◌, if◌then◌else◌,
}
use user_message_protocol.Packet.{UmpPacket, get_flag, ctrl_seq, ctrl_rst}
use user_message_protocol.Sock.{
  UmpSocket, Env, SockState, closed, connecting, established, closing, CallMethod, method_connect,
  method_close, method_all_call,
}
use user_message_protocol.Sock.Calls.{end_ctrl}
use user_message_protocol.Sock.States.{change_state}
use user_message_protocol.Sock.Locks.{LockState-cases}
use user_message_protocol.Sock.States.Release.{
  enters_closed, end_send_all, end_receive_all, answers_all,
}
use user_message_protocol.Sock.Control.{
  sm_handle_ctrl_packet, sm_handle_ctrl, closed_handle_ctrl_packet, connecting_handle_ctrl_packet,
  connecting_syn, read_syn_ack, try_establish, established_handle_ctrl_packet, established_next,
  read_ack, closing_handle_ctrl_packet, read_fin_ack, ack_ctrl, count_ctrl, settle_ctrl, read_syn,
  closing_next, handle_ctrl_packets, handle_ctrl_packet,
}

-- The state machine of the README: closed, connecting, established, closing, closed.
pub data Edge : SockState → SockState → Type 0 where
  stay : (a : SockState) → Edge a a
  opens : Edge closed connecting
  establishes : Edge connecting established
  closes : Edge established closing
  ends : Edge closing closed

-- From a state to another one by control packets, in their order.
pub data Passage : SockState → List UmpPacket → SockState → Type 0 where
  over : {a : SockState} → Passage a [] a
  by_packet :
      {a b c : SockState} {p : UmpPacket} {ps : List UmpPacket}
      → get_flag p ctrl_rst ≡ false
      → Edge a b
      → Passage b ps c
      → Passage a (p ∷ ps) c
  by_reset :
      {a : SockState} {p : UmpPacket} {ps : List UmpPacket}
      → get_flag p ctrl_rst ≡ true
      → Passage a (p ∷ ps) closed

change_end : {a b c : SockState} {ps : List UmpPacket} → c ≡ b → Passage a ps b → Passage a ps c
change_end e h = rw e h

change_target : {a b c : SockState} → c ≡ b → Edge a b → Edge a c
change_target e h = rw e h

module _ {D : Type 0} where
  state-end_ctrl : (s : UmpSocket D) (m : CallMethod) (r : Bool) → (end_ctrl s m r).state ≡ s.state
  unfolding end_ctrl
  state-end_ctrl s m r = ground (arith, LockState-cases s.ctrl_locked)

  pub enters_established :
      (env : Env D) (s : UmpSocket D)
      → let t = change_state env s established in
        (t.state ≡ established)
        × (t.syn_reced ≡ s.syn_reced)
        × (t.syn_ack_reced ≡ s.syn_ack_reced)
        × (t.ctrl_packet_to_send ≡ s.ctrl_packet_to_send)
  unfolding change_state end_ctrl
  enters_established env s = ground (arith, LockState-cases s.ctrl_locked)

  state-count_ctrl : (s : UmpSocket D) (p : UmpPacket) → (count_ctrl s p).state ≡ s.state
  unfolding count_ctrl
  state-count_ctrl s p = ground arith

  state-read_syn_ack : (s : UmpSocket D) (p : UmpPacket) → (read_syn_ack s p).state ≡ s.state
  unfolding read_syn_ack settle_ctrl
  state-read_syn_ack s p = ground arith

  state-read_fin_ack : (s : UmpSocket D) (p : UmpPacket) → (read_fin_ack s p).state ≡ s.state
  unfolding read_fin_ack settle_ctrl
  state-read_fin_ack s p = ground arith

  state-closing_next : (s : UmpSocket D) (p : UmpPacket) → (closing_next s p).state ≡ s.state
  unfolding closing_next
  state-closing_next s p = ground arith

  state-read_ack : (s : UmpSocket D) (p : UmpPacket) → (read_ack s p).state ≡ s.state
  unfolding read_ack settle_ctrl
  state-read_ack s p =
      if_both (λ (t : UmpSocket D). t.state ≡ s.state) _ (state-end_ctrl _ method_all_call true)
        refl

  try_establish-Edge :
      (env : Env D) (s : UmpSocket D)
      → s.state ≡ connecting
      → Edge connecting (try_establish env s).state
  unfolding try_establish
  try_establish-Edge env s e =
      if_both (λ (t : UmpSocket D). Edge connecting t.state) _
        (change_target (enters_established env s).0 establishes) (change_target e (stay connecting))

  connecting_syn-Edge :
      (env : Env D) (s : UmpSocket D) (p : UmpPacket)
      → s.state ≡ connecting
      → Edge connecting (connecting_syn env s p).state
  unfolding connecting_syn read_syn
  connecting_syn-Edge env s p e =
      if_both P _
        (if_both P _ (change_target e (stay connecting))
          (if_both P _ (try_establish-Edge env _ e) (change_target e (stay connecting))))
        (try_establish-Edge env _ (state-count_ctrl s p ∙ e))
    where
      P : UmpSocket D → Type 0
      P t = Edge connecting t.state

  established_next-Edge :
      (env : Env D) (s : UmpSocket D) (p : UmpPacket)
      → s.state ≡ established
      → Edge established (established_next env s p).state
  unfolding established_next change_state
  established_next-Edge env s p e =
      if_both P _ (if_both P _ closes (change_target e (stay established)))
        (change_target e (stay established))
    where
      P : UmpSocket D → Type 0
      P t = Edge established t.state

  -- A packet that is handled by the state machine follows an edge.
  sm_handle_ctrl_packet-Edge :
      (st : SockState) (env : Env D) (s : UmpSocket D) (p : UmpPacket)
      → s.state ≡ st
      → Edge st (sm_handle_ctrl_packet st env s p).state
  unfolding sm_handle_ctrl_packet closed_handle_ctrl_packet connecting_handle_ctrl_packet
      established_handle_ctrl_packet closing_handle_ctrl_packet change_state
  sm_handle_ctrl_packet-Edge closed env s p e =
      if_both P _ (if_both P _ opens (change_target e (stay closed)))
        (change_target (state-count_ctrl s p ∙ e) (stay closed))
    where
      P : UmpSocket D → Type 0
      P t = Edge closed t.state
  sm_handle_ctrl_packet-Edge connecting env s p e =
      connecting_syn-Edge env _ p (state-read_syn_ack s p ∙ e)
  sm_handle_ctrl_packet-Edge established env s p e =
      if_both (λ (t : UmpSocket D). Edge established t.state) _
        (established_next-Edge env _ p (state-read_ack s p ∙ e))
        (change_target (state-read_ack s p ∙ e) (stay established))
  sm_handle_ctrl_packet-Edge closing env s p e =
      if_both P _ (change_target (enters_closed s2 env).0 ends) (change_target fin (stay closing))
    where
      P : UmpSocket D → Type 0
      P t = Edge closing t.state

      s2 : UmpSocket D
      s2 =
          if get_flag p ctrl_seq
          then ack_ctrl (closing_next (read_fin_ack s p) p)
          else read_fin_ack s p

      fin : s2.state ≡ closing
      fin =
          if_both (λ (t : UmpSocket D). t.state ≡ closing) _
            (state-closing_next _ p ∙ state-read_fin_ack s p ∙ e) (state-read_fin_ack s p ∙ e)

  handle_ctrl_packets-Passage :
      (env : Env D) (s : UmpSocket D) (ps : List UmpPacket)
      → Passage s.state ps (handle_ctrl_packets env s ps).state
  unfolding handle_ctrl_packets
  handle_ctrl_packets-Passage env s [] = over
  handle_ctrl_packets-Passage env s (p ∷ ps) =
      if_cases (λ (t : UmpSocket D). Passage s.state (p ∷ ps) t.state) (get_flag p ctrl_rst)
        (λ e. change_end (answers_all env _).0 (by_reset e))
        (λ e. by_packet e (sm_handle_ctrl_packet-Edge s.state env _ p refl) (
          handle_ctrl_packets-Passage env
            (sm_handle_ctrl_packet s.state env (record s { local_ctrl_packets = ps }) p) ps))

  -- The control packets of a round move the connection through the state machine, each of them along
  -- one edge or not at all; where one is a reset, the connection is closed at once, and the packets
  -- behind it move it no more.
  pub handle_ctrl_packet-Passage :
      (env : Env D) (s : UmpSocket D)
      → Passage s.state s.local_ctrl_packets (handle_ctrl_packet env s).state
  unfolding handle_ctrl_packet
  handle_ctrl_packet-Passage env s = handle_ctrl_packets-Passage env s s.local_ctrl_packets

  -- A control call moves the connection along an edge of the state machine, or not at all.
  pub sm_handle_ctrl-Edge :
      (st : SockState) (env : Env D) (s : UmpSocket D) (m : CallMethod)
      → s.state ≡ st
      → Edge st (sm_handle_ctrl st env s m).state
  unfolding sm_handle_ctrl change_state
  sm_handle_ctrl-Edge closed env s method_connect e = opens
  sm_handle_ctrl-Edge closed env s method_close e =
      change_target (state-end_ctrl s _ _ ∙ e) (stay closed)
  sm_handle_ctrl-Edge closed env s _ e = change_target (state-end_ctrl s _ _ ∙ e) (stay closed)
  sm_handle_ctrl-Edge connecting env s method_connect e = change_target e (stay connecting)
  sm_handle_ctrl-Edge connecting env s _ e =
      change_target (state-end_ctrl s _ _ ∙ e) (stay connecting)
  sm_handle_ctrl-Edge established env s method_close e =
      change_target ((end_receive_all _).3 ∙ (end_send_all _).2) closes
  sm_handle_ctrl-Edge established env s method_connect e =
      change_target (state-end_ctrl s _ _ ∙ e) (stay established)
  sm_handle_ctrl-Edge established env s _ e =
      change_target (state-end_ctrl s _ _ ∙ e) (stay established)
  sm_handle_ctrl-Edge closing env s method_close e = change_target e (stay closing)
  sm_handle_ctrl-Edge closing env s _ e = change_target (state-end_ctrl s _ _ ∙ e) (stay closing)
