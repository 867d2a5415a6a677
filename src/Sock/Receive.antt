-- ===== src/Sock/Receive.antt =====
-- Received messages, of user_message_protocol/ump_sock.c: `ump_harvest_messages`,
-- `ump_end_receive_internal`, `ump_check_rcv_data_so_far` and `ump_end_receive`. The pointers
-- `rcv_data_so_far` and `rcv_first_msg_end` into the list of received packets are addresses of nodes.
-- Where the code follows a pointer, a null pointer (which would be a fault) leaves the socket alone.
pub mod Harvest
use user_message_protocol.Base.{
  ℕ, ◌+◌, ◌-◌, List, [], ◌∷◌, ◌++◌, Option, none, some, Bool, true, false, ltb, leb, ◌==◌, length,
  if◌then◌else◌, not,
}
use user_message_protocol.Packet.{UmpPacket, get_flag, data_bdr}
use user_message_protocol.Packet.Codec.{payload}
use user_message_protocol.Sock.{UmpSocket, Node, LockState, locked, unlocked}
use user_message_protocol.Sock.Ack.{set_our_ack_info}

-- The list up to the node at an address, and the list behind it.
unfoldable pub until : ℕ → List Node → List Node
until a [] = []
until a (n ∷ ns) = if n.addr == a then n ∷ [] else n ∷ until a ns

unfoldable pub behind : ℕ → List Node → List Node
behind a [] = []
behind a (n ∷ ns) = if n.addr == a then ns else behind a ns

-- What a pointer to a node shows.
unfoldable pub packet_at : ℕ → List Node → Option UmpPacket
packet_at a [] = none
packet_at a (n ∷ ns) = if n.addr == a then some n.packet else packet_at a ns

-- Lines 843 to 847: the first node whose packet ends a message.
unfoldable pub find_bdr : List Node → Option ℕ
find_bdr [] = none
find_bdr (n ∷ ns) = if get_flag n.packet data_bdr then some n.addr else find_bdr ns

-- Lines 499 to 511: the payloads, one behind the other.
unfoldable pub join_data : List Node → List ℕ
join_data [] = []
join_data (n ∷ ns) = payload n.packet.user_data ++ join_data ns

abbrev pub is_nil : List Node → Bool
is_nil [] = true
is_nil (n ∷ ns) = false

-- Whether two pointers are the same, the second one not null.
abbrev pub points_at : Option ℕ → ℕ → Bool
points_at none a = false
points_at (some b) a = b == a

module _ {D : Type 0} where
  -- Lines 827 to 849. What is left keeps the `prev` of its first node, which shows the last node that
  -- was taken.
  unfoldable pub harvest_at : Option ℕ → UmpSocket D → UmpSocket D
  unfolding until behind find_bdr
  harvest_at none s = s
  harvest_at (some a) s =
      let rest = behind a s.rcv_data_packets in
      let left = s.rcv_packets_msg_num - 1 in
      record s {
        rec_msg_packets = until a s.rcv_data_packets;
        rcv_data_packets = rest;
        rcv_head_dangles = not (is_nil rest);
        rcv_data_so_far = if points_at s.rcv_data_so_far a then none else s.rcv_data_so_far;
        rcv_packets_msg_num = left;
        rcv_first_msg_end = if ltb left 1 then none else find_bdr rest;
      }

  -- `ump_harvest_messages`.
  unfoldable pub harvest_messages : UmpSocket D → UmpSocket D
  unfolding harvest_at
  harvest_messages s = harvest_at s.rcv_first_msg_end s

  -- `ump_end_receive_internal`.
  unfoldable pub end_receive_internal : UmpSocket D → UmpSocket D
  unfolding join_data
  end_receive_internal s =
      let bytes = join_data s.rec_msg_packets in
      let s1 = record s { rec_msg_packets = []; rec_msg = some bytes; rec_msg_l = length bytes } in
      let s2 = if leb 1 s1.rcv_packets_msg_num then harvest_messages s1 else s1 in
      set_our_ack_info s2 true

  -- `ump_reclocked_end_rec` and `ump_recunlocked_end_rec`.
  abbrev pub end_rec_as : LockState → Bool → UmpSocket D → UmpSocket D
  end_rec_as unlocked result s = s
  end_rec_as locked result s =
      let s1 = record s { rec_locked = unlocked; rec_ok = result } in
      let s2 = if result then end_receive_internal s1 else s1 in
      record s2 { receive_called = false; rec_held = false; rec_done = true }

  -- `ump_end_receive`.
  unfoldable pub end_receive : UmpSocket D → Bool → UmpSocket D
  end_receive s result = end_rec_as s.rec_locked result s

  -- Lines 859 to 862: the message is taken if none waits for the application.
  unfoldable pub complete_as : List Node → UmpSocket D → UmpSocket D
  complete_as [] s = end_receive (harvest_messages s) true
  complete_as (n ∷ ns) s = s

  -- Lines 855 to 862: another message is complete.
  unfoldable pub message_complete : ℕ → UmpSocket D → UmpSocket D
  unfolding complete_as
  message_complete a s =
      let count = s.rcv_packets_msg_num + 1 in
      complete_as s.rec_msg_packets (record s {
        rcv_packets_msg_num = count;
        rcv_first_msg_end = if count == 1 then some a else s.rcv_first_msg_end;
      })

  unfoldable pub check_packet : ℕ → Option UmpPacket → UmpSocket D → UmpSocket D
  check_packet a none s = s
  check_packet a (some p) s = if get_flag p data_bdr then message_complete a s else s

  unfoldable pub check_at : Option ℕ → UmpSocket D → UmpSocket D
  unfolding check_packet packet_at
  check_at none s = s
  check_at (some a) s = check_packet a (packet_at a s.rcv_data_packets) s

  -- `ump_check_rcv_data_so_far`.
  unfoldable pub check_rcv_data_so_far : UmpSocket D → UmpSocket D
  unfolding check_at
  check_rcv_data_so_far s = check_at s.rcv_data_so_far s
