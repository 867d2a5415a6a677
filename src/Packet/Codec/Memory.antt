-- ===== src/Packet/Codec/Memory.antt =====
-- The memory that upacket.c allocates and reads.
use user_message_protocol.Base.{
  ℕ, ◌+◌, ◌*◌, ◌≡◌, refl, List, [], ◌∷◌, ◌++◌, Bool, true, false, Option, none, some, arith, length,
  length-append, ltb, bit_and, u16, ◌==◌,
}
use user_message_protocol.Packet.{
  UmpPacket, PacketType, control, user, get_flag, new, up_ver, ump_ver, up_type, data_seq,
}
use user_message_protocol.Packet.Codec.{
  data_length, data_length_of, write, to_binary, reuse, field, field_length, body_of, flags_of,
  word_bytes, from_binary, overread, parse_user, verify, checksum, sum_words, read_fields,
}

length-field-append :
    (b : Bool) (n : ℕ) (xs : List ℕ) → length (field b n ++ xs) ≡ field_length b + length xs
length-field-append true n xs = omega arith
length-field-append false n xs = omega arith

abbrev header_length : PacketType → ℕ
header_length control = 4
header_length user = 3

length-body_of :
    (t : PacketType) (p : UmpPacket) → header_length t + length (body_of t p) ≡ data_length_of t p
unfolding data_length_of
length-body_of control p = simp length-field-append (omega arith)
length-body_of user p = simp length-field-append (omega arith)

length-flags_of : (t : PacketType) (p : UmpPacket) → length (flags_of t p) + 2 ≡ header_length t
length-flags_of control p = omega arith
length-flags_of user p = omega arith

-- `u_packet_to_binary` fills the memory that it allocates: what it writes is as long as the length
-- that it computes first.
pub length-write : (p : UmpPacket) → length (write p).1 ≡ data_length p
unfolding write data_length
length-write p = omega (
  arith,
  length-append (flags_of p.p_type p) (word_bytes sum ++ body_of p.p_type p),
  length-body_of p.p_type p,
  length-flags_of p.p_type p,
)
  where
    sum : ℕ
    sum = checksum (flags_of p.p_type p) (body_of p.p_type p)

-- Once written, a packet that does not change is not written again: a second call of
-- `u_packet_to_binary` returns the same bytes and leaves the packet alone.
pub to_binary-to_binary : (p : UmpPacket) → to_binary (to_binary p).0 ≡ to_binary p
unfolding to_binary write
to_binary-to_binary p = reused p.changed p.raw_data
  where
    reused :
        (b : Bool) (raw : Option (List ℕ))
        → to_binary (reuse b raw (record p { changed = b; raw_data = raw })).0
          ≡ reuse b raw (record p { changed = b; raw_data = raw })
    reused true raw = refl
    reused false none = refl
    reused false (some raw) = refl

-- The check before a field's read lets one byte pass for two: a data packet of four bytes whose
-- flags announce a sequence number, with the right checksum, is read behind its end.
pub from_binary_overreads :
    (f hi lo x : ℕ)
    → bit_and f up_ver ≡ ump_ver
    → (bit_and f up_type == 0) ≡ false
    → ltb 0 (bit_and f data_seq) ≡ true
    → u16 (u16 f + x) ≡ hi * 256 + lo
    → from_binary (f ∷ hi ∷ lo ∷ x ∷ []) ≡ overread
unfolding from_binary parse_user verify checksum sum_words read_fields get_flag new
from_binary_overreads f hi lo x v t s c = ground arith

-- Writing a packet out changes its checksum and its bytes only.
pub write_fields :
    (p : UmpPacket)
    → (write p).0
      ≡ record p { check_sum = (write p).0.check_sum; raw_data = some (write p).1; changed = false }
unfolding write
write_fields p = refl
