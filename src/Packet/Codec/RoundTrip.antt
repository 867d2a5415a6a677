-- ===== src/Packet/Codec/RoundTrip.antt =====
-- What one side writes, the other side reads.
use user_message_protocol.Base.{
  ℕ, ◌+◌, ◌*◌, ◌/◌, ◌%◌, ◌<◌, ◌≡◌, refl, ◌∙◌, List, [], ◌∷◌, ◌++◌, Bool, true, false, Option, none,
  some, arith, bit_and, u16_mod, if◌then◌else◌,
}
use user_message_protocol.Packet.{
  UmpPacket, PacketType, control, user, incoming, new, get_flag, up_type, up_ver, ump_ver, ctrl_seq,
  ctrl_ack, ctrl_mss, ctrl_wnd, data_seq, data_ack, data_wnd,
}
use user_message_protocol.Packet.Codec.{
  checksum, from_binary, Parsed, parsed, parse_control, parse_user, verify, read_field, read_fields,
  finish, field, payload, write, body_of, word_bytes,
}
use user_message_protocol.Packet.Codec.Checksum.{checksum_lem}

-- The version and the type that the flags of a packet state.
abbrev pub HasVersion : PacketType → UmpPacket → Type 0
HasVersion control p =
    (bit_and p.ctrl_flags1 up_ver ≡ ump_ver) × (bit_and p.ctrl_flags1 up_type ≡ 0)
HasVersion user p = (bit_and p.data_flags up_ver ≡ ump_ver) × (bit_and p.data_flags up_type ≡ 32)

-- A packet that can be sent: its flags state the version and its type, and its fields fit 16 bits.
pub record IsSendable (p : UmpPacket) : Type 0 where
  pub version : HasVersion p.p_type p
  pub seq : p.seq_num < u16_mod
  pub ack : p.ack_num < u16_mod
  pub mss : p.mss_num < u16_mod
  pub wnd : p.wnd_num < u16_mod

-- An empty payload is read as no payload.
abbrev pub received : List ℕ → Option (List ℕ)
received [] = none
received (x ∷ xs) = some (x ∷ xs)

abbrev pub sent_field : Bool → ℕ → ℕ
sent_field b n = if b then n else 0

-- The packet that the peer should see: the fields that the flags announce, 0 for the others.
abbrev pub seen : PacketType → UmpPacket → UmpPacket
seen control p = record (new control incoming) {
  ctrl_flags1 = p.ctrl_flags1;
  ctrl_flags2 = p.ctrl_flags2;
  check_sum = (write p).0.check_sum;
  seq_num = sent_field (get_flag p ctrl_seq) p.seq_num;
  ack_num = sent_field (get_flag p ctrl_ack) p.ack_num;
  mss_num = sent_field (get_flag p ctrl_mss) p.mss_num;
  wnd_num = sent_field (get_flag p ctrl_wnd) p.wnd_num;
  user_data = received (payload p.user_data);
  raw_data = some (write p).1;
}
seen user p = record (new user incoming) {
  data_flags = p.data_flags;
  check_sum = (write p).0.check_sum;
  seq_num = sent_field (get_flag p data_seq) p.seq_num;
  ack_num = sent_field (get_flag p data_ack) p.ack_num;
  wnd_num = sent_field (get_flag p data_wnd) p.wnd_num;
  user_data = received (payload p.user_data);
  raw_data = some (write p).1;
}

read_field_lem :
    (b : Bool) (n old : ℕ) (xs : List ℕ) (k : ℕ → List ℕ → Parsed)
    → n < u16_mod
    → read_field b (field b n ++ xs) k old ≡ k (if b then n else old) xs
read_field_lem true n old xs k h = rw (word n h)
  where
    word : (n : ℕ) → n < u16_mod → (n / 256 % 256) * 256 + n % 256 ≡ n
    word n h = omega arith
read_field_lem false n old xs k h = refl

checksum-lt : (flags body : List ℕ) → checksum flags body < u16_mod
checksum-lt flags body = omega (arith, checksum_lem flags body)

finish-payload :
    (q : UmpPacket) (bytes : List ℕ)
    → q.user_data ≡ none
    → finish q bytes ≡ parsed (record q { user_data = received bytes })
finish-payload q [] e = ground arith
finish-payload q (x ∷ xs) e = refl

-- A header with the version and the right checksum is accepted, and the fields are read.
accepts_control :
    (f1 f2 : ℕ) (body : List ℕ)
    → bit_and f1 up_ver ≡ ump_ver
    → bit_and f1 up_type ≡ 0
    → let sum = checksum (f1 ∷ f2 ∷ []) body in
      let raw = f1 ∷ f2 ∷ (word_bytes sum ++ body) in
      from_binary raw
      ≡ read_fields control
          (record (new control incoming) {
            ctrl_flags1 = f1;
            ctrl_flags2 = f2;
            raw_data = some raw;
            check_sum = sum;
          })
          body
unfolding from_binary parse_control verify new
accepts_control f1 f2 body v t = ground (arith, checksum-lt (f1 ∷ f2 ∷ []) body)

accepts_user :
    (f : ℕ) (body : List ℕ)
    → bit_and f up_ver ≡ ump_ver
    → bit_and f up_type ≡ 32
    → let sum = checksum (f ∷ []) body in
      let raw = f ∷ (word_bytes sum ++ body) in
      from_binary raw
      ≡ read_fields user
          (record (new user incoming) { data_flags = f; raw_data = some raw; check_sum = sum })
          body
unfolding from_binary parse_user verify new
accepts_user f body v t = ground (arith, checksum-lt (f ∷ []) body)

from_binary-write_as :
    (t : PacketType) (p : UmpPacket)
    → IsSendable (record p { p_type = t })
    → from_binary (write (record p { p_type = t })).1 ≡ parsed (seen t (record p { p_type = t }))
unfolding write read_fields get_flag new
from_binary-write_as control p v =
    accepts_control p.ctrl_flags1 p.ctrl_flags2 (body_of control (record p { p_type = control }))
      v.version.0 v.version.1
    ∙ rw
        (
          read_field_lem _ _ _ _ _ v.seq,
          read_field_lem _ _ _ _ _ v.ack,
          read_field_lem _ _ _ _ _ v.mss,
          read_field_lem _ _ _ _ _ v.wnd,
        )
        (finish-payload _ (payload p.user_data) refl)
from_binary-write_as user p v =
    accepts_user p.data_flags (body_of user (record p { p_type = user })) v.version.0 v.version.1
    ∙ rw
        (
          read_field_lem _ _ _ _ _ v.seq,
          read_field_lem _ _ _ _ _ v.ack,
          read_field_lem _ _ _ _ _ v.wnd,
        )
        (finish-payload _ (payload p.user_data) refl)

-- What is written can be read: `u_packet_from_binary` accepts the bytes of every packet that can be
-- sent, and gives back its type, its flags, each field that a flag announces and its payload.
pub from_binary-write :
    (p : UmpPacket) → IsSendable p → from_binary (write p).1 ≡ parsed (seen p.p_type p)
from_binary-write p v = from_binary-write_as p.p_type p v
