-- ===== src/Sock/Sending/Transmit.antt =====
-- Sending stays inside the array of packets.
use user_message_protocol.Base.{ℕ, ◌≡◌, List, some, length}
use user_message_protocol.Base.Int.{pos, ◌≤ℤ◌}
use user_message_protocol.Packet.{UmpPacket}
use user_message_protocol.Sock.{UmpSocket}

-- The thread sends from the array that it was given, and only from there.
pub record InArray {D : Type 0} (s : UmpSocket D) : Type 0 where
  pub packets : List UmpPacket
  pub given : s.snd_packets ≡ some packets
  pub index : ℕ
  pub position : s.our_data_pos ≡ pos index
  pub window : s.our_wnd_pos ≤ℤ pos (length packets)
