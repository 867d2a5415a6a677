-- ===== src/Packet/Codec/Tests.antt =====
-- The packets of user_message_protocol/upacket.c at concrete inputs.
use user_message_protocol.Base.{
  ◌≡◌, refl, [], ◌∷◌, ◌++◌, true, false, some, arith, length, u16, ◌+◌,
}
use user_message_protocol.Packet.{
  UmpPacket, user, outgoing, new, set_flag, get_flag, data_seq, data_ack,
}
use user_message_protocol.Packet.Flags.{HasByteFlags}
use user_message_protocol.Packet.Codec.{
  write, from_binary, parsed, rejected, overread, checksum, data_length, parse_user, verify,
  sum_words, read_fields,
}
use user_message_protocol.Packet.Codec.Memory.{length-write, from_binary_overreads}
use user_message_protocol.Packet.Codec.Checksum.{
  checksum_lem, from_binary-corrupt, of_user, byte_total, word_total,
}
use user_message_protocol.Packet.Codec.RoundTrip.{from_binary-write, IsSendable, seen}
use user_message_protocol.Base.Int.{ℤ}
use user_message_protocol.Event
use user_message_protocol.Core.{UmpCore, new_core}
use user_message_protocol.Core.Samples.{entry_lists}
use user_message_protocol.Core.Threads.{receive_turn, frees_twice}
use user_message_protocol.Core.Threads.Turns.{receive_turn-corrupt}
use user_message_protocol.Samples.{sample_sock}

-- A data packet with a number, an acknowledgement and three bytes.
abbrev data_packet : UmpPacket
data_packet = record (set_flag (set_flag (new user outgoing) data_seq) data_ack) {
  seq_num = 65535;
  ack_num = 258;
  user_data = some (7 ∷ 8 ∷ 9 ∷ []);
}

data_packet-IsSendable : IsSendable data_packet
unfolding set_flag new
data_packet-IsSendable = record {
  version = (refl, refl);
  seq = omega arith;
  ack = omega arith;
  mss = omega arith;
  wnd = omega arith;
}

data_packet-HasByteFlags : HasByteFlags data_packet
unfolding set_flag new
data_packet-HasByteFlags = record {
  flags1 = omega arith;
  flags2 = omega arith;
  flags = omega arith;
}

from_binary-write_example : from_binary (write data_packet).1 ≡ parsed (seen user data_packet)
unfolding set_flag new
from_binary-write_example = from_binary-write data_packet data_packet-IsSendable

-- Its bytes, as they are read.
accepted :
    (q : UmpPacket) × (from_binary (102 ∷ 10 ∷ 118 ∷ 255 ∷ 255 ∷ 1 ∷ 2 ∷ 7 ∷ 8 ∷ 9 ∷ []) ≡ parsed q)
unfolding from_binary parse_user verify checksum sum_words read_fields get_flag new
accepted = (_, refl)

from_binary-corrupt_example :
    from_binary ((102 ∷ 10 ∷ 118 ∷ []) ++ ((255 ∷ 255 ∷ 1 ∷ 2 ∷ 7 ∷ 8 ∷ []) ++ 10 ∷ []))
    ≡ rejected true
from_binary-corrupt_example =
    from_binary-corrupt (102 ∷ 10 ∷ 118 ∷ []) (255 ∷ 255 ∷ 1 ∷ 2 ∷ 7 ∷ 8 ∷ []) [] 9 10
      (of_user 102 10 118 refl) (omega arith) (omega arith) (λ e. absurd (omega arith)) accepted.1

length-write_example : length (write data_packet).1 ≡ data_length data_packet
length-write_example = length-write data_packet

from_binary_overreads_example : from_binary (100 ∷ 0 ∷ 105 ∷ 5 ∷ []) ≡ overread
from_binary_overreads_example = from_binary_overreads 100 0 105 5 refl refl refl refl

checksum_lem_example :
    checksum (255 ∷ 255 ∷ []) (255 ∷ 255 ∷ 1 ∷ [])
    ≡ u16 (byte_total (255 ∷ 255 ∷ []) + word_total (255 ∷ 255 ∷ 1 ∷ []))
checksum_lem_example = checksum_lem (255 ∷ 255 ∷ []) (255 ∷ 255 ∷ 1 ∷ [])

-- A core without sockets.
abbrev core : UmpCore ℤ entry_lists
core = new_core 5

receive_turn-corrupt_example :
    receive_turn (Event.new false false) true sample_sock core (
      some (
        record { sin_port = 9000; sin_addr = 7 },
        (102 ∷ 10 ∷ 118 ∷ []) ++ ((255 ∷ 255 ∷ 1 ∷ 2 ∷ 7 ∷ 8 ∷ []) ++ 10 ∷ []),
      ))
    ≡ frees_twice
receive_turn-corrupt_example =
    receive_turn-corrupt (Event.new false false) true sample_sock core
      (record { sin_port = 9000; sin_addr = 7 }) (102 ∷ 10 ∷ 118 ∷ [])
      (255 ∷ 255 ∷ 1 ∷ 2 ∷ 7 ∷ 8 ∷ []) [] 9 10 accepted.0 (of_user 102 10 118 refl) (omega arith)
      (omega arith) (λ e. absurd (omega arith)) accepted.1
