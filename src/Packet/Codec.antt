-- ===== src/Packet/Codec.antt =====
-- `u_packet_to_binary` and `u_packet_from_binary` of user_message_protocol/upacket.c. A packet in
-- memory is the list of its bytes; the walk of `d` and `pos` over it is the walk along the list.
-- `htons` and `ntohs` put the high byte first.
pub mod Checksum
pub mod RoundTrip
mod Tests
pub mod Memory
use user_message_protocol.Base.{
  ℕ, ◌+◌, ◌*◌, ◌/◌, ◌%◌, List, [], ◌∷◌, ◌++◌, Option, none, some, Bool, true, false, ltb, leb, ◌==◌,
  not, ◌&&◌, bit_and, u16, length, if◌then◌else◌,
}
use user_message_protocol.Packet.{
  UmpPacket, PacketType, control, user, incoming, new, get_flag, ump_ver, up_ver, up_type, ctrl_seq,
  ctrl_ack, ctrl_mss, ctrl_wnd, data_seq, data_ack, data_wnd,
}

-- `*(guint16*)d = htons(n)`.
abbrev pub word_bytes : ℕ → List ℕ
word_bytes n = (n / 256 % 256) ∷ n % 256 ∷ []

-- A field that a flag announces.
abbrev pub field : Bool → ℕ → List ℕ
field true n = word_bytes n
field false n = []

-- What `memcpy` appends: `user_data_l` bytes, if there are any.
abbrev pub payload : Option (List ℕ) → List ℕ
payload none = []
payload (some bytes) = bytes

-- Lines 37 to 67: the length of the memory to allocate.
abbrev field_length : Bool → ℕ
field_length b = if b then 2 else 0

data_length_of : PacketType → UmpPacket → ℕ
data_length_of control p =
    4
    + field_length (get_flag p ctrl_seq)
    + field_length (get_flag p ctrl_ack)
    + field_length (get_flag p ctrl_mss)
    + field_length (get_flag p ctrl_wnd)
    + length (payload p.user_data)
data_length_of user p =
    3
    + field_length (get_flag p data_seq)
    + field_length (get_flag p data_ack)
    + field_length (get_flag p data_wnd)
    + length (payload p.user_data)

pub data_length : UmpPacket → ℕ
unfolding data_length_of
data_length p = data_length_of p.p_type p

-- Lines 75 to 119, without the flags and the checksum in front.
abbrev pub body_of : PacketType → UmpPacket → List ℕ
body_of control p =
    field (get_flag p ctrl_seq) p.seq_num
    ++ (field (get_flag p ctrl_ack) p.ack_num
        ++ (field (get_flag p ctrl_mss) p.mss_num
            ++ (field (get_flag p ctrl_wnd) p.wnd_num ++ payload p.user_data)))
body_of user p =
    field (get_flag p data_seq) p.seq_num
    ++ (field (get_flag p data_ack) p.ack_num
        ++ (field (get_flag p data_wnd) p.wnd_num ++ payload p.user_data))

abbrev pub flags_of : PacketType → UmpPacket → List ℕ
flags_of control p = p.ctrl_flags1 ∷ p.ctrl_flags2 ∷ []
flags_of user p = p.data_flags ∷ []

-- `computed_sum` over the flags, and then over the words behind the checksum, the low byte first.
abbrev pub sum_flags : ℕ → List ℕ → ℕ
sum_flags s [] = s
sum_flags s (x ∷ xs) = sum_flags (u16 (s + x)) xs

pub sum_words : ℕ → List ℕ → ℕ
sum_words s [] = s
sum_words s (x ∷ []) = u16 (s + x)
sum_words s (x ∷ y ∷ xs) = sum_words (u16 (u16 (s + x) + u16 (y * 256))) xs

pub checksum : List ℕ → List ℕ → ℕ
unfolding sum_words
checksum flags body = sum_words (sum_flags 0 flags) body

-- Lines 37 to 158: the packet is written out anew.
pub write : UmpPacket → UmpPacket × List ℕ
unfolding checksum
write p =
    let flags = flags_of p.p_type p in
    let body = body_of p.p_type p in
    let sum = checksum flags body in
    let raw = flags ++ (word_bytes sum ++ body) in
    (record p { check_sum = sum; raw_data = some raw; changed = false }, raw)

-- Lines 33 to 36: what is written already and has not changed is used again.
abbrev reuse : Bool → Option (List ℕ) → UmpPacket → UmpPacket × List ℕ
reuse true raw p = write p
reuse false none p = write p
reuse false (some raw) p = (p, raw)

-- `u_packet_to_binary` of a packet that is not NULL.
unfoldable pub to_binary : UmpPacket → UmpPacket × List ℕ
unfolding write
to_binary p = reuse p.changed p.raw_data p

-- What `u_packet_from_binary` comes to: a packet; NULL, with `raw_data` given back to the allocator
-- (`true`) or left to the caller (`false`); or a read behind the end of `raw_data`.
pub data Parsed : Type 0 where
  parsed : UmpPacket → Parsed
  rejected : Bool → Parsed
  overread : Parsed

-- Lines 234 to 241, and the six places like them: a field is read where its flag is set. The check
-- `pos >= raw_data_l` passes where one byte is left, and two are read.
abbrev pub read_field : Bool → List ℕ → (ℕ → List ℕ → Parsed) → ℕ → Parsed
read_field false bytes k old = k old bytes
read_field true [] k old = rejected true
read_field true (x ∷ []) k old = overread
read_field true (x ∷ y ∷ bytes) k old = k (x * 256 + y) bytes

-- Lines 294 to 299.
abbrev finish : UmpPacket → List ℕ → Parsed
finish p [] = parsed p
finish p (x ∷ bytes) = parsed (record p { user_data = some (x ∷ bytes) })

-- Lines 227 to 299.
pub read_fields : PacketType → UmpPacket → List ℕ → Parsed
read_fields control p bytes =
    read_field (get_flag p ctrl_seq) bytes
      (λ seq r1.
        read_field (get_flag p ctrl_ack) r1
          (λ ack r2.
            read_field (get_flag p ctrl_mss) r2
              (λ mss r3.
                read_field (get_flag p ctrl_wnd) r3
                  (λ wnd r4.
                    finish (record p { seq_num = seq; ack_num = ack; mss_num = mss; wnd_num = wnd })
                      r4)
                  p.wnd_num)
              p.mss_num)
          p.ack_num)
      p.seq_num
read_fields user p bytes =
    read_field (get_flag p data_seq) bytes
      (λ seq r1.
        read_field (get_flag p data_ack) r1
          (λ ack r2.
            read_field (get_flag p data_wnd) r2
              (λ wnd r3. finish (record p { seq_num = seq; ack_num = ack; wnd_num = wnd }) r3)
              p.wnd_num)
          p.ack_num)
      p.seq_num

-- Lines 202 to 225: the checksum that was sent, `hi` and `lo`, against that of the bytes.
pub verify : UmpPacket → List ℕ → ℕ → ℕ → List ℕ → Parsed
unfolding checksum read_fields
verify p flags hi lo body =
    let sum = checksum flags body in
    if sum == hi * 256 + lo
    then read_fields p.p_type (record p { check_sum = sum }) body
    else rejected true

-- Lines 181 to 200: the flags, and packets too short to hold them and the checksum.
pub parse_control : List ℕ → Parsed
unfolding verify
parse_control (f1 ∷ f2 ∷ hi ∷ lo ∷ body) =
    let raw = f1 ∷ f2 ∷ hi ∷ lo ∷ body in
    verify
      (record (new control incoming) { ctrl_flags1 = f1; ctrl_flags2 = f2; raw_data = some raw })
      (f1 ∷ f2 ∷ []) hi lo body
parse_control _ = rejected false

pub parse_user : List ℕ → Parsed
unfolding verify
parse_user (f ∷ hi ∷ lo ∷ body) =
    let raw = f ∷ hi ∷ lo ∷ body in
    verify (record (new user incoming) { data_flags = f; raw_data = some raw }) (f ∷ []) hi lo body
parse_user _ = rejected false

-- `u_packet_from_binary`.
unfoldable pub from_binary : List ℕ → Parsed
unfolding parse_control parse_user
from_binary [] = rejected false
from_binary (d ∷ rest) =
    if not (bit_and d up_ver == ump_ver)
    then rejected false
    else if bit_and d up_type == 0
    then parse_control (d ∷ rest)
    else parse_user (d ∷ rest)
