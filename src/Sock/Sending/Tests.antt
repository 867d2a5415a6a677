-- ===== src/Sock/Sending/Tests.antt =====
-- Sending at concrete inputs.
use user_message_protocol.Base.{refl, List, [], ◌∷◌, some, arith}
use user_message_protocol.Base.Int.{ℤ, pos}
use user_message_protocol.Packet.{UmpPacket, user, outgoing, new}
use user_message_protocol.Sock.{UmpSocket, locked}
use user_message_protocol.Sock.Sending.Transmit.{InArray}
use user_message_protocol.Samples.{sample_sock}

abbrev packet : UmpPacket
packet = record (new user outgoing) { user_data = some (1 ∷ 2 ∷ []) }

abbrev message : List UmpPacket
message = new user outgoing ∷ packet ∷ []

abbrev sender : UmpSocket ℤ
sender = record sample_sock {
  snd_locked = locked;
  snd_packets = some message;
  our_data_pos = pos 1;
  our_wnd_pos = pos 2;
}

abbrev sender-InArray : InArray sender
sender-InArray = record {
  packets = message;
  given = refl;
  index = 1;
  position = refl;
  window = omega arith;
}
