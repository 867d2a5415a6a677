-- ===== src/Sock/Locks/Work.antt =====
-- The invariant of the lock machines across acknowledgements, received data and timeouts.
use user_message_protocol.Base.{
  ℕ, ◌+◌, refl, List, [], ◌∷◌, Option, none, some, Bool, true, false, arith, if_both, ◌==◌, ◌||◌,
  not, if◌then◌else◌,
}
use user_message_protocol.Base.Int.{pos, ltb_ℤ}
use user_message_protocol.Packet.{UmpPacket, get_flag, data_seq}
use user_message_protocol.Rto.{get_rto}
use user_message_protocol.Timer.{TmEntry}
use user_message_protocol.Sock.{
  UmpSocket, Env, Node, SockState, closed, connecting, established, closing, timeout_limit,
}
use user_message_protocol.Sock.Ack.{set_our_ack_info}
use user_message_protocol.Sock.Calls.{end_send}
use user_message_protocol.Sock.Window.{refresh_snd_wnd_pos, refresh_back_point}
use user_message_protocol.Sock.DataAck.{
  probe, handle_wnd_notify, count_repeat, fast_retransmit, advance_base, grow_cwnd, catch_up,
  settle_timers, finish_message, handle_ack, handle_data_ack,
}
use user_message_protocol.Sock.States.{connection_error_occured}
use user_message_protocol.Sock.Data.{
  extend_from, extend_at, locate, run_on, store_packet, store_linked, dangles,
  established_handle_data_packet, sm_handle_data_packet, handle_data_packets, handle_data_packet,
  go_back, handle_data_timeout, read_if_any,
}
use user_message_protocol.Sock.Locks.{
  LocksAgree, Keeps, Keeps-LocksAgree, end_send-LocksAgree, check_rcv_data_so_far-LocksAgree,
  connection_error_occured-LocksAgree,
}
use user_message_protocol.Sock.Locks.Packets.{kept}

module _ {D : Type 0} (env : Env D) where
  handle_wnd_notify-Keeps : (s : UmpSocket D) (p : UmpPacket) → Keeps s (handle_wnd_notify env s p)
  unfolding handle_wnd_notify probe refresh_snd_wnd_pos
  handle_wnd_notify-Keeps s p = ground arith

  fast_retransmit-Keeps :
      (s : UmpSocket D) (ack : ℕ) → Keeps s (fast_retransmit env (count_repeat env s ack))
  unfolding fast_retransmit count_repeat refresh_back_point
  fast_retransmit-Keeps s ack = ground arith

  grow_cwnd-Keeps : (s : UmpSocket D) → Keeps s (grow_cwnd env s)
  unfolding grow_cwnd
  grow_cwnd-Keeps s = ground arith

  catch_up-Keeps : (s : UmpSocket D) → Keeps s (catch_up env s)
  unfolding catch_up
  catch_up-Keeps s = ground arith

  settle_timers-Keeps : (s : UmpSocket D) (ack : ℕ) → Keeps s (settle_timers env s ack)
  unfolding settle_timers
  settle_timers-Keeps s ack = ground arith

  advance_base-Keeps : (s : UmpSocket D) (ack : ℕ) → Keeps s (advance_base env s ack)
  unfolding advance_base refresh_back_point
  advance_base-Keeps s ack = ground arith

  finish_message-LocksAgree :
      (s : UmpSocket D) (ack : ℕ) → LocksAgree s → LocksAgree (finish_message env s ack)
  unfolding finish_message
  finish_message-LocksAgree s ack v = if_both LocksAgree _ (end_send-LocksAgree s true v) v

  handle_ack-LocksAgree :
      (s : UmpSocket D) (p : UmpPacket) (ack : ℕ)
      → LocksAgree s
      → LocksAgree (handle_ack env s p ack)
  unfolding handle_ack
  handle_ack-LocksAgree s p ack v = if_both LocksAgree _ v1 (
      if_both LocksAgree _
        (finish_message-LocksAgree _ ack (
          Keeps-LocksAgree (settle_timers-Keeps _ ack) (
            Keeps-LocksAgree (catch_up-Keeps _) (
              Keeps-LocksAgree (grow_cwnd-Keeps _) (
                Keeps-LocksAgree (handle_wnd_notify-Keeps _ p)
                  (Keeps-LocksAgree (advance_base-Keeps _ ack) v1))))))
        (Keeps-LocksAgree (handle_wnd_notify-Keeps _ p) v1))
    where
      v1 : LocksAgree (fast_retransmit env (count_repeat env s ack))
      v1 = Keeps-LocksAgree (fast_retransmit-Keeps s ack) v

  pub handle_data_ack-LocksAgree :
      (s : UmpSocket D) (p : UmpPacket) → LocksAgree s → LocksAgree (handle_data_ack env s p)
  unfolding handle_data_ack
  handle_data_ack-LocksAgree s p v =
      if_both LocksAgree _ (handle_ack-LocksAgree s p p.ack_num v)
        (Keeps-LocksAgree (handle_wnd_notify-Keeps s p) v)

  go_back-Keeps : (s : UmpSocket D) → Keeps s (go_back env s)
  unfolding go_back refresh_snd_wnd_pos refresh_back_point
  go_back-Keeps s = ground arith

  timeout-LocksAgree :
      (o : Option ℕ) (s : UmpSocket D)
      → LocksAgree s
      → LocksAgree (elim o as (λ _. UmpSocket D) [
        | none ↦ s
        | some seq ↦
            if ltb_ℤ (get_rto env.double s.rto_cpt) (pos timeout_limit)
            then go_back env s
            else connection_error_occured env (end_send s false)
      ])
  timeout-LocksAgree none s v = v
  timeout-LocksAgree (some seq) s v =
      if_both LocksAgree _ (Keeps-LocksAgree (go_back-Keeps s) v)
        (connection_error_occured-LocksAgree env _ (end_send-LocksAgree s false v))

  read_if_any-LocksAgree :
      (tl : List TmEntry) (s : UmpSocket D) → LocksAgree s → LocksAgree (read_if_any tl s)
  read_if_any-LocksAgree [] s v = v
  read_if_any-LocksAgree (e ∷ tl) s v = kept s v refl

  pub handle_data_timeout-LocksAgree :
      (s : UmpSocket D) → LocksAgree s → LocksAgree (handle_data_timeout env s)
  unfolding handle_data_timeout
  handle_data_timeout-LocksAgree s v =
      timeout-LocksAgree _ _
        (kept (read_if_any s.tm_list s) (read_if_any-LocksAgree s.tm_list s v) refl)

module _ {D : Type 0} where
  extend_from-LocksAgree :
      (fresh : Bool) (n : Node) (ns : List Node) (s : UmpSocket D)
      → LocksAgree s
      → LocksAgree (extend_from fresh n ns s)
  unfolding extend_from
  extend_from-LocksAgree fresh n ns s v =
      if_both LocksAgree (fresh || not ((run_on n ns).addr == n.addr))
        (check_rcv_data_so_far-LocksAgree _ (kept s v refl)) (kept s v refl)

  located-LocksAgree :
      (o : Option (Node × List Node)) (s : UmpSocket D)
      → LocksAgree s
      → LocksAgree
          (elim o as (λ _. UmpSocket D) [ none ↦ s | some (n, ns) ↦ extend_from false n ns s ])
  located-LocksAgree none s v = v
  located-LocksAgree (some (n, ns)) s v = extend_from-LocksAgree false n ns s v

  extend_at-LocksAgree :
      (o : Option ℕ) (nodes : List Node) (s : UmpSocket D)
      → LocksAgree s
      → LocksAgree (extend_at o nodes s)
  unfolding extend_at
  extend_at-LocksAgree none [] s v = v
  extend_at-LocksAgree none (n ∷ ns) s v =
      if_both LocksAgree _ (extend_from-LocksAgree true n ns s v) v
  extend_at-LocksAgree (some a) nodes s v = located-LocksAgree (locate a nodes) s v

  stored-LocksAgree :
      (o : Option (List Node)) (s : UmpSocket D)
      → LocksAgree s
      → LocksAgree (elim o as (λ _. UmpSocket D) [
        | none ↦ s
        | some nodes ↦ extend_at s.rcv_data_so_far nodes (record s {
          rcv_data_packets = nodes;
          rcv_head_dangles = dangles s;
          next_addr = s.next_addr + 1;
        })
      ])
  stored-LocksAgree none s v = v
  stored-LocksAgree (some nodes) s v =
      extend_at-LocksAgree s.rcv_data_so_far nodes _ (kept s v refl)

  store_linked-LocksAgree :
      (s : UmpSocket D) (p : UmpPacket) → LocksAgree s → LocksAgree (store_linked s p)
  unfolding store_linked
  store_linked-LocksAgree s p v = stored-LocksAgree _ s v

  store_packet-LocksAgree :
      (s : UmpSocket D) (p : UmpPacket) → LocksAgree s → LocksAgree (store_packet s p)
  unfolding store_packet
  store_packet-LocksAgree s p v =
      if_both LocksAgree _ (kept s v refl) (store_linked-LocksAgree s p v)

  sm_handle_data_packet-LocksAgree :
      (st : SockState) (env : Env D) (s : UmpSocket D) (p : UmpPacket)
      → LocksAgree s
      → LocksAgree (sm_handle_data_packet st env s p)
  unfolding sm_handle_data_packet established_handle_data_packet
  sm_handle_data_packet-LocksAgree closed env s p v = handle_data_ack-LocksAgree env s p v
  sm_handle_data_packet-LocksAgree connecting env s p v = v
  sm_handle_data_packet-LocksAgree established env s p v =
      let w = handle_data_ack-LocksAgree env s p v in
      if_both LocksAgree _ w (if_both LocksAgree _ w (store_packet-LocksAgree _ p w))
  sm_handle_data_packet-LocksAgree closing env s p v = handle_data_ack-LocksAgree env s p v

  acked-LocksAgree :
      (b : Bool) (s : UmpSocket D)
      → LocksAgree s
      → LocksAgree (if b then set_our_ack_info s false else s)
  unfolding set_our_ack_info
  acked-LocksAgree true s v = kept s v refl
  acked-LocksAgree false s v = v

  handle_data_packets-LocksAgree :
      (env : Env D) (ps : List UmpPacket) (s : UmpSocket D)
      → LocksAgree s
      → LocksAgree (handle_data_packets env s ps)
  unfolding handle_data_packets
  handle_data_packets-LocksAgree env [] s v = kept s v refl
  handle_data_packets-LocksAgree env (p ∷ ps) s v = handle_data_packets-LocksAgree env ps _ (
      sm_handle_data_packet-LocksAgree _ env _ p (
        acked-LocksAgree (get_flag p data_seq) (record s { local_data_packets = ps })
          (kept s v refl)))

  pub handle_data_packet-LocksAgree :
      (env : Env D) (s : UmpSocket D) → LocksAgree s → LocksAgree (handle_data_packet env s)
  unfolding handle_data_packet
  handle_data_packet-LocksAgree env s v =
      handle_data_packets-LocksAgree env s.local_data_packets s v
