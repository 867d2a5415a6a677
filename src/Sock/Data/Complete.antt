-- ===== src/Sock/Data/Complete.antt =====
-- A complete message is taken out of the received packets, and given to the call that waits for it.
use user_message_protocol.Base.{
  ℕ, ◌+◌, ◌≡◌, ap, ◌∙◌, List, [], none, some, true, false, arith, not, ◌==◌, length, if◌then◌else◌,
}
use user_message_protocol.Sock.{UmpSocket, Node, LockState, locked, unlocked}
use user_message_protocol.Sock.Ack.{set_our_ack_info}
use user_message_protocol.Sock.Receive.{
  until, behind, message_complete, complete_as, harvest_messages, end_receive, end_rec_as,
  points_at, is_nil, end_receive_internal, join_data,
}
use user_message_protocol.Sock.Data.View.{View, view}

-- What is seen of a socket whose packets `ns` have become a message. A call that waits has the bytes,
-- and else the packets wait for a call.
abbrev pub taken : LockState → List Node → View → View
taken locked ns w = record w {
  rcv_data_packets = [];
  rcv_data_so_far = none;
  rcv_first_msg_end = none;
  rcv_packets_msg_num = 0;
  rec_locked = unlocked;
  rec_msg_packets = [];
  rec_msg = some (join_data ns);
  rec_msg_l = length (join_data ns);
  rec_ok = true;
  dangling = false;
  rec_done = true;
}
taken unlocked ns w = record w {
  rcv_data_packets = [];
  rcv_data_so_far = none;
  rcv_first_msg_end = none;
  rcv_packets_msg_num = 0;
  rec_msg_packets = ns;
  dangling = false;
}

module _ {D : Type 0} where
  -- The socket in front of the harvest.
  abbrev counted : ℕ → UmpSocket D → UmpSocket D
  counted a s = record s { rcv_packets_msg_num = 1; rcv_first_msg_end = some a }

  harvested : ℕ → List Node → UmpSocket D → UmpSocket D
  harvested a ns s = record s {
    rec_msg_packets = ns;
    rcv_data_packets = [];
    rcv_head_dangles = false;
    rcv_data_so_far = none;
    rcv_packets_msg_num = 0;
    rcv_first_msg_end = none;
  }

  harvest_messages-counted :
      (a : ℕ) (s : UmpSocket D)
      → until a s.rcv_data_packets ≡ s.rcv_data_packets
      → behind a s.rcv_data_packets ≡ []
      → s.rcv_data_so_far ≡ some a
      → harvest_messages (counted a s) ≡ harvested a s.rcv_data_packets s
  unfolding harvest_messages harvested
  harvest_messages-counted a s u b e =
      let gone : (if points_at s.rcv_data_so_far a then none else s.rcv_data_so_far) ≡ none =
        rw e (ground arith) in
      λ i. record s {
        rec_msg_packets = u i;
        rcv_data_packets = b i;
        rcv_head_dangles = not (is_nil (b i));
        rcv_data_so_far = gone i;
        rcv_packets_msg_num = 0;
        rcv_first_msg_end = none;
      }

  view-end_receive :
      (l : LockState) (a : ℕ) (ns : List Node) (s : UmpSocket D)
      → s.rec_locked ≡ l
      → view (end_receive (harvested a ns s) true) ≡ taken l ns (view s)
  unfolding end_receive end_receive_internal harvested set_our_ack_info
  view-end_receive locked a ns s e =
      ap (λ (x : LockState). view (end_rec_as x true (harvested a ns s))) e
  view-end_receive unlocked a ns s e =
      ap (λ (x : LockState). view (end_rec_as x true (harvested a ns s))) e

  -- The last packet of the only message makes the message complete.
  pub view-message_complete :
      (l : LockState) (a : ℕ) (s : UmpSocket D)
      → s.rec_msg_packets ≡ []
      → s.rcv_packets_msg_num ≡ 0
      → until a s.rcv_data_packets ≡ s.rcv_data_packets
      → behind a s.rcv_data_packets ≡ []
      → s.rcv_data_so_far ≡ some a
      → s.rec_locked ≡ l
      → view (message_complete a s) ≡ taken l s.rcv_data_packets (view s)
  unfolding message_complete complete_as
  view-message_complete l a s none_waits none_before u b e h =
      ap (λ (ns : List Node). view (complete_as ns (counted_from s.rcv_packets_msg_num))) none_waits
      ∙ ap (λ (c : ℕ). view (complete_as [] (counted_from c))) none_before
      ∙ ap (λ (t : UmpSocket D). view (end_receive t true)) (harvest_messages-counted a s u b e)
      ∙ view-end_receive l a s.rcv_data_packets s h
    where
      counted_from : ℕ → UmpSocket D
      counted_from c = record s {
        rcv_packets_msg_num = c + 1;
        rcv_first_msg_end = if c + 1 == 1 then some a else s.rcv_first_msg_end;
      }
