-- ===== src/Sock/Data/Reordering.antt =====
-- What the loop of `ump_handle_data_packet` makes of the packets of a message that come in any order,
-- any number of times, among packets of earlier messages and acknowledgements.
use user_message_protocol.Base.{
  ℕ, zero, suc, ◌+◌, ◌<◌, ◌≤◌, ◌≡◌, refl, sym, ap, ◌∙◌, subst, List, [], ◌∷◌, Option, none, Bool,
  true, false, arith, ◌||◌, if◌then◌else◌, All, if_both, inl, inr,
}
use user_message_protocol.Packet.{UmpPacket, get_flag, data_seq}
use user_message_protocol.Sock.{UmpSocket, Env, SockState, established, LockState}
use user_message_protocol.Sock.Ack.{set_our_ack_info}
use user_message_protocol.Sock.Data.{
  established_handle_data_packet, sm_handle_data_packet, handle_data_packets,
}
use user_message_protocol.Sock.Data.View.{View, view, view-set_our_ack_info}
use user_message_protocol.Sock.Data.Sent.{
  Sent, IsSent, Incoming, number, has_number, first_missing, number-suc,
}
use user_message_protocol.Sock.Data.Extend.{at_start}
use user_message_protocol.Sock.Data.Apart.{holds, holds-Ascends}
use user_message_protocol.Sock.Data.Held.{order}
use user_message_protocol.Sock.Data.Receiving.{Receiving, gathering, complete}
use user_message_protocol.Sock.Data.Reassembly.{
  with_packet, seen-same, state-Receiving, established_handle_data_packet-Receiving,
}

-- An established connection that has nothing of the message yet. The lock of receive calls tells
-- whether a call waits.
pub record IsReady {D : Type 0} (m : Sent) (s : UmpSocket D) : Type 0 where
  pub state : s.state ≡ established
  pub base : s.their_data_seq_base ≡ m.start
  pub list : s.rcv_data_packets ≡ []
  pub so_far : s.rcv_data_so_far ≡ none
  pub none_complete : s.rcv_packets_msg_num ≡ 0
  pub none_taken : s.rec_msg_packets ≡ []

module _ (m : Sent) (v : IsSent m) where
  missing_from :
      (c i k : ℕ) (ps : List UmpPacket)
      → i + c ≡ m.count
      → i ≤ k
      → k ≤ m.count
      → ((j : ℕ) → j < k → has_number (number m j) ps ≡ true)
      → (k < m.count → has_number (number m k) ps ≡ false)
      → first_missing c (number m i) ps ≡ number m k
  unfolding first_missing
  missing_from zero i k ps e h u all gap = ap (number m) (omega arith)
  missing_from (suc c) i k ps e h u all gap = elim (order m i k) [
    | inl less ↦
        rw (all i less, number-suc m v i) (missing_from c (suc i) k ps (omega arith) less u all gap)
    | inr (inl same) ↦
        rw (ap (λ (x : ℕ). has_number (number m x) ps) same ∙ gap (omega arith))
          (ap (number m) same)
    | inr (inr more) ↦ absurd (omega arith)
  ]

  start_number :
      (c : ℕ) (ps : List UmpPacket) → first_missing c m.start ps ≡ first_missing c (number m 0) ps
  start_number c ps = let h = v.start in ap (λ (q : ℕ). first_missing c q ps) (omega arith)

  -- The base of a receiver that has seen what is in `ps`.
  base-Receiving :
      (l : LockState) (msg : Option (List ℕ)) (ps : List UmpPacket) (w : View)
      → Receiving m l msg (λ i. has_number (number m i) ps || false) w
      → w.their_data_seq_base ≡ first_missing m.count m.start ps
  base-Receiving l msg ps w (gathering k before rest hk a g e) =
      g.base
      ∙ sym (
          start_number m.count ps
          ∙ missing_from m.count 0 k ps (omega arith) (omega arith) (omega arith)
              (λ j hj. ground (arith, e.exact j (omega arith)))
              (λ h. ground (
                arith,
                e.exact k h,
                holds-Ascends m v k h (suc k) rest m.count (omega arith) g.ascends,
              )))
  base-Receiving l msg ps w (complete t n e) =
      t.base
      ∙ sym (
          start_number m.count ps
          ∙ missing_from m.count 0 m.count ps (omega arith) (omega arith) (omega arith)
              (λ j hj. ground (arith, e j hj)) (λ h. absurd (omega arith)))

module _ (m : Sent) (v : IsSent m) {D : Type 0} where
  pub ready-Receiving :
      (s : UmpSocket D) → IsReady m s → Receiving m s.rec_locked s.rec_msg (λ i. false) (view s)
  unfolding holds
  ready-Receiving s r =
      let h = v.start in
      gathering 0 [] [] v.nonempty
        (record {
          state = r.state;
          none_complete = r.none_complete;
          none_taken = r.none_taken;
          rec_locked = refl;
          rec_msg = refl;
          linked = ground (arith, r.list);
        })
        (record {
          base = r.base ∙ omega arith;
          list = r.list;
          run = refl;
          ascends = tt;
          reached = rw (r.so_far) (at_start refl);
          distinct = tt;
          old = tt;
        })
        (record { exact = λ i hi. ground arith })

  module _ (env : Env D) (l : LockState) (msg : Option (List ℕ)) where
    handled_as :
        (st : SockState) (s : UmpSocket D) (p : UmpPacket)
        → st ≡ established
        → sm_handle_data_packet st env s p ≡ established_handle_data_packet env s p
    unfolding sm_handle_data_packet
    handled_as st s p e = rw e refl

    pub handle_data_packets-Receiving :
        (ps : List UmpPacket) (s : UmpSocket D) (seen : ℕ → Bool)
        → All (Incoming m) ps
        → Receiving m l msg seen (view s)
        → Receiving m l msg
            (λ i. has_number (number m i) ps || seen i)
            (view (handle_data_packets env s ps))
    unfolding handle_data_packets has_number
    handle_data_packets-Receiving [] s seen h r = r
    handle_data_packets-Receiving (p ∷ ps) s seen (i, h) r =
        let s1 = record s { local_data_packets = ps } in
        let s2 = if get_flag p data_seq then set_our_ack_info s1 false else s1 in
        let alike : view s2 ≡ view s =
          if_both (λ (t : UmpSocket D). view t ≡ view s) (get_flag p data_seq)
            (view-set_our_ack_info s1 false) refl in
        let r2 = subst (Receiving m l msg seen) (sym alike) r in
        let r3 = established_handle_data_packet-Receiving m v l msg env s2 p seen i r2 in
        let r4 =
          subst (λ (t : UmpSocket D). Receiving m l msg (with_packet m v l msg p seen) (view t))
            (sym (handled_as s2.state s2 p (state-Receiving m v l msg r2))) r3 in
        seen-same m v l msg (λ j hj. ground arith)
          (handle_data_packets-Receiving ps (sm_handle_data_packet s2.state env s2 p)
            (with_packet m v l msg p seen) h r4)

  -- A message of at most 32768 packets comes in at an established connection that has nothing of it
  -- yet: its packets in any order, some of them perhaps not at all or more than once, among packets
  -- of earlier messages and acknowledgements. The number that the connection acknowledges
  -- afterwards is that of the first packet that is missing, or the one behind the message if none
  -- is.
  pub handle_data_packets-first_missing :
      (env : Env D) (s : UmpSocket D) (ps : List UmpPacket)
      → IsReady m s
      → All (Incoming m) ps
      → (handle_data_packets env s ps).their_data_seq_base ≡ first_missing m.count m.start ps
  handle_data_packets-first_missing env s ps r h = base-Receiving m v s.rec_locked s.rec_msg ps _ (
      handle_data_packets-Receiving env s.rec_locked s.rec_msg ps s (λ i. false) h
        (ready-Receiving s r))
