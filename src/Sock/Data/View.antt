-- ===== src/Sock/Data/View.antt =====
-- What the receiving of data depends on. Acknowledgements of what the socket sent, and the request
-- to acknowledge what it received, belong to the other direction.
use user_message_protocol.Base.{ℕ, ◌≡◌, refl, ◌∙◌, List, Option, Bool, arith, if_both, ◌&&◌, not}
use user_message_protocol.Packet.{UmpPacket}
use user_message_protocol.Sock.{UmpSocket, Env, Node, SockState, LockState}
use user_message_protocol.Sock.Ack.{set_our_ack_info}
use user_message_protocol.Sock.Receive.{is_nil}
use user_message_protocol.Sock.Calls.{end_send}
use user_message_protocol.Sock.Window.{refresh_snd_wnd_pos, refresh_back_point}
use user_message_protocol.Sock.DataAck.{
  probe, handle_wnd_notify, count_repeat, fast_retransmit, advance_base, grow_cwnd, catch_up,
  settle_timers, finish_message, handle_ack, handle_data_ack,
}

pub record View : Type 0 where
  pub state : SockState
  pub their_data_seq_base : ℕ
  pub rcv_data_packets : List Node
  pub rcv_data_so_far : Option ℕ
  pub rcv_first_msg_end : Option ℕ
  pub rcv_packets_msg_num : ℕ
  pub rec_locked : LockState
  pub rec_msg_packets : List Node
  pub rec_msg : Option (List ℕ)
  pub rec_msg_l : ℕ
  pub rec_ok : Bool
  pub next_addr : ℕ
  pub dangling : Bool
  pub rec_done : Bool

module _ {D : Type 0} where
  abbrev pub view : UmpSocket D → View
  view s = record {
    state = s.state;
    their_data_seq_base = s.their_data_seq_base;
    rcv_data_packets = s.rcv_data_packets;
    rcv_data_so_far = s.rcv_data_so_far;
    rcv_first_msg_end = s.rcv_first_msg_end;
    rcv_packets_msg_num = s.rcv_packets_msg_num;
    rec_locked = s.rec_locked;
    rec_msg_packets = s.rec_msg_packets;
    rec_msg = s.rec_msg;
    rec_msg_l = s.rec_msg_l;
    rec_ok = s.rec_ok;
    next_addr = s.next_addr;
    dangling = s.rcv_head_dangles && not (is_nil s.rcv_data_packets);
    rec_done = s.rec_done;
  }

  -- The socket `t` is seen as the socket `s` is.
  record Alike (s t : UmpSocket D) : Type 0 where
    same : view t ≡ view s

  after : {s t u : UmpSocket D} → Alike t u → Alike s t → Alike s u
  after g f = record { same = g.same ∙ f.same }

  pub view-set_our_ack_info : (s : UmpSocket D) (b : Bool) → view (set_our_ack_info s b) ≡ view s
  unfolding set_our_ack_info
  view-set_our_ack_info s b = refl

module _ {D : Type 0} (env : Env D) where
  handle_wnd_notify-Alike : (s : UmpSocket D) (p : UmpPacket) → Alike s (handle_wnd_notify env s p)
  unfolding handle_wnd_notify probe refresh_snd_wnd_pos
  handle_wnd_notify-Alike s p = record { same = ground arith }

  fast_retransmit-Alike :
      (s : UmpSocket D) (ack : ℕ) → Alike s (fast_retransmit env (count_repeat env s ack))
  unfolding fast_retransmit count_repeat refresh_back_point
  fast_retransmit-Alike s ack = record { same = ground arith }

  grow_cwnd-Alike : (s : UmpSocket D) → Alike s (grow_cwnd env s)
  unfolding grow_cwnd
  grow_cwnd-Alike s = record { same = ground arith }

  catch_up-Alike : (s : UmpSocket D) → Alike s (catch_up env s)
  unfolding catch_up
  catch_up-Alike s = record { same = ground arith }

  settle_timers-Alike : (s : UmpSocket D) (ack : ℕ) → Alike s (settle_timers env s ack)
  unfolding settle_timers
  settle_timers-Alike s ack = record { same = ground arith }

  advance_base-Alike : (s : UmpSocket D) (ack : ℕ) → Alike s (advance_base env s ack)
  unfolding advance_base refresh_back_point
  advance_base-Alike s ack = record { same = ground arith }

  finish_message-Alike : (s : UmpSocket D) (ack : ℕ) → Alike s (finish_message env s ack)
  unfolding finish_message end_send
  finish_message-Alike s ack = record { same = ground arith }

  handle_ack-Alike : (s : UmpSocket D) (p : UmpPacket) (ack : ℕ) → Alike s (handle_ack env s p ack)
  unfolding handle_ack
  handle_ack-Alike s p ack =
      let repeated = fast_retransmit-Alike s ack in
      if_both (Alike s) _ repeated (
        if_both (Alike s) _
          (after (finish_message-Alike _ ack) (
            after (settle_timers-Alike _ ack) (
              after (catch_up-Alike _) (
                after (grow_cwnd-Alike _) (
                  after (handle_wnd_notify-Alike _ p)
                    (after (advance_base-Alike _ ack) repeated))))))
          (after (handle_wnd_notify-Alike _ p) repeated))

  handle_data_ack-Alike : (s : UmpSocket D) (p : UmpPacket) → Alike s (handle_data_ack env s p)
  unfolding handle_data_ack
  handle_data_ack-Alike s p =
      if_both (Alike s) _ (handle_ack-Alike s p p.ack_num) (handle_wnd_notify-Alike s p)

  -- An acknowledgement changes nothing of what the receiving depends on.
  pub view-handle_data_ack :
      (s : UmpSocket D) (p : UmpPacket) → view (handle_data_ack env s p) ≡ view s
  view-handle_data_ack s p = (handle_data_ack-Alike s p).same
