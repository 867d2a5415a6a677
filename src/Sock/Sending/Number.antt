-- ===== src/Sock/Sending/Number.antt =====
-- The numbers that the packets of a message get.
use user_message_protocol.Base.{
  ℕ, ◌+◌, ◌<◌, ◌≡◌, refl, List, [], ◌∷◌, some, arith, length, u16, u16_mod, zero, suc, get_elem?,
}
use user_message_protocol.Packet.{UmpPacket, set_flag, data_seq}
use user_message_protocol.Sock.Sending.{number_packets, mark_last}

abbrev pub numbered : ℕ → UmpPacket → UmpPacket
numbered seq p = record (set_flag p data_seq) { seq_num = seq }

-- The i-th packet of a message gets the i-th number after the first one, around the circle, and the
-- flag that announces it; its payload stays.
pub get_elem?-number_packets :
    (seq : ℕ) (ps : List UmpPacket) (i : ℕ) (p : UmpPacket)
    → seq < u16_mod
    → get_elem? ps i ≡ some p
    → get_elem? (number_packets seq ps) i ≡ some (numbered (u16 (seq + i)) p)
unfolding number_packets
get_elem?-number_packets seq [] i p h e = ground arith
get_elem?-number_packets seq (q ∷ ps) zero p h e = ground arith
get_elem?-number_packets seq (q ∷ ps) (suc i) p h e =
    ground (arith, get_elem?-number_packets (u16 (seq + 1)) ps i p)

pub length-number_packets :
    (seq : ℕ) (ps : List UmpPacket) → length (number_packets seq ps) ≡ length ps
unfolding number_packets
length-number_packets seq [] = refl
length-number_packets seq (p ∷ ps) = omega (arith, length-number_packets (u16 (seq + 1)) ps)

pub length-mark_last : (ps : List UmpPacket) → length (mark_last ps) ≡ length ps
unfolding mark_last
length-mark_last [] = refl
length-mark_last (p ∷ []) = refl
length-mark_last (p ∷ q ∷ ps) = omega (arith, length-mark_last (q ∷ ps))
