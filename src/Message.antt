-- ===== src/Message.antt =====
-- Messages of the application, of user_message_protocol/ump.c: `ump_send_message` and
-- `ump_receive_message`, with the halves of `ump_sock_send` and `ump_sock_receive` behind the wait.
-- The arguments are taken to be there (`data` is not null).
mod Tests
pub mod Split
pub mod Whole
pub mod Network
pub mod Reordered
pub mod Carried
pub mod Outgoing
pub mod EndToEnd
pub mod Delivery
use user_message_protocol.Base.{
  ℕ, zero, suc, ◌+◌, ◌*◌, ◌/◌, min, List, [], ◌∷◌, Option, none, some, Bool, true, false, ltb, leb,
  ◌==◌, length, take, drop, if◌then◌else◌,
}
use user_message_protocol.Base.Int.{ℤ, pos, negsuc}
use user_message_protocol.Packet.{UmpPacket, PacketType, user, outgoing, new, set_data}
use user_message_protocol.Sock.{UmpSocket}
use user_message_protocol.Sock.Calls.{sock_send}

-- Lines 291 to 294: how many packets the array has room for.
unfoldable pub packets_count : ℕ → ℕ → ℕ
packets_count mss len = let q = len / mss in if ltb (q * mss) len then q + 1 else q

-- Lines 305 and 306.
unfoldable pub data_packet : List ℕ → UmpPacket
data_packet bytes = set_data (new user outgoing) bytes

-- The loop of lines 303 to 312: the packets that it stores into the array, from the bytes that are
-- left. Each round takes at least one byte, so as much fuel as there are bytes is enough.
unfoldable pub fill : ℕ → ℕ → List ℕ → List UmpPacket
unfolding data_packet
fill zero mss bytes = []
fill (suc fuel) mss bytes =
    let size = min mss (length bytes) in
    let rest = data_packet (take size bytes) ∷ fill fuel mss (drop size bytes) in
    if ltb 0 (length bytes) then rest else []

unfoldable pub split_message : ℕ → List ℕ → List UmpPacket
unfolding fill
split_message mss bytes = fill (length bytes) mss bytes

-- Where `ump_send_message` is when it returns or waits: it refuses the message, it divides by a
-- maximum segment size of 0, or its packets are with the socket's thread.
pub data Sending (D : Type 0) : Type 0 where
  refused : Sending D
  divides_by_zero : Sending D
  waits : UmpSocket D → Sending D

module _ {D : Type 0} where
  -- `ump_send_message`, up to the wait of `ump_sock_send`.
  unfoldable pub send_message : UmpSocket D → List ℕ → Sending D
  unfolding split_message
  send_message s bytes =
      if leb (length bytes) 0
      then refused
      else if s.our_mss == 0
      then divides_by_zero
      else waits (sock_send s (split_message s.our_mss bytes))

  -- `ump_sock_receive` from line 1816 on: the message, or null.
  unfoldable pub take_message : UmpSocket D → Option (List ℕ) × UmpSocket D
  take_message s = if s.rec_ok then (s.rec_msg, record s { rec_msg = none }) else (none, s)

  -- Lines 331 to 334: what `ump_send_message` returns when the wait is over.
  unfoldable pub send_result : UmpSocket D → ℤ
  send_result s = if s.snd_ok then pos 0 else negsuc 0

  -- `ump_receive_message` behind the wait: what it returns, and the message with its length.
  unfoldable pub receive_message : UmpSocket D → ℤ × (Option (List ℕ) × ℕ) × UmpSocket D
  unfolding take_message
  receive_message s = elim (take_message s).0 [
    | none ↦ (negsuc 0, (none, 0), (take_message s).1)
    | some bytes ↦ (pos 0, (some bytes, s.rec_msg_l), (take_message s).1)
  ]
