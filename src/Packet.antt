-- ===== src/Packet.antt =====
-- `UMPPacket` of user_message_protocol/upacket_private.h, the flag masks of upacket_public.h, and
-- of upacket.c `u_packet_new`, the three functions on flags and `u_packet_set_data`.
-- A `guchar` is a number below 256 and a `guint16` one below 2 ^ 16. `user_data` and `raw_data` are
-- each a pointer with a length: `none` is the null pointer, and the length is that of the list.
-- `u_packet_free` only gives memory back.
pub mod Flags
pub mod Codec
use user_message_protocol.Base.{
  ℕ, List, Option, none, some, Bool, true, false, ltb, leb, ◌==◌, ◌&&◌, not, bit_and, bit_or,
  bit_xor, if◌then◌else◌,
}

pub data PacketType : Type 0 where
  control user : PacketType

pub data PacketDirection : Type 0 where
  incoming outgoing : PacketDirection

-- `UMP_VER`, `UP_VER` and the other masks, under their names without the prefix.
abbrev pub ump_ver : ℕ
ump_ver = 64

abbrev pub up_ver : ℕ
up_ver = 192

abbrev pub up_type : ℕ
up_type = 32

abbrev pub ctrl_syn : ℕ
ctrl_syn = 8

abbrev pub ctrl_fin : ℕ
ctrl_fin = 4

abbrev pub ctrl_rst : ℕ
ctrl_rst = 2

abbrev pub ctrl_seq : ℕ
ctrl_seq = 128

abbrev pub ctrl_ack : ℕ
ctrl_ack = 64

abbrev pub ctrl_mss : ℕ
ctrl_mss = 32

abbrev pub ctrl_wnd : ℕ
ctrl_wnd = 16

abbrev pub ctrl_ext : ℕ
ctrl_ext = 7

abbrev pub data_reqwnd : ℕ
data_reqwnd = 16

abbrev pub data_bdr : ℕ
data_bdr = 8

abbrev pub data_seq : ℕ
data_seq = 4

abbrev pub data_ack : ℕ
data_ack = 2

abbrev pub data_wnd : ℕ
data_wnd = 1

pub record UmpPacket : Type 0 where
  pub changed : Bool
  pub p_type : PacketType
  pub direction : PacketDirection
  pub ctrl_flags1 : ℕ
  pub ctrl_flags2 : ℕ
  pub data_flags : ℕ
  pub check_sum : ℕ
  pub seq_num : ℕ
  pub ack_num : ℕ
  pub mss_num : ℕ
  pub wnd_num : ℕ
  pub user_data : Option (List ℕ)
  pub raw_data : Option (List ℕ)

-- The zeroed memory of `g_malloc0`.
abbrev blank : PacketType → PacketDirection → UmpPacket
blank t d = record {
  changed = false;
  p_type = t;
  direction = d;
  ctrl_flags1 = 0;
  ctrl_flags2 = 0;
  data_flags = 0;
  check_sum = 0;
  seq_num = 0;
  ack_num = 0;
  mss_num = 0;
  wnd_num = 0;
  user_data = none;
  raw_data = none;
}

-- `u_packet_new`.
unfoldable pub new : PacketType → PacketDirection → UmpPacket
new control d = record (blank control d) { ctrl_flags1 = bit_or 0 ump_ver }
new user d = record (blank user d) { data_flags = bit_or (bit_or 0 ump_ver) up_type }

-- Which byte of flags a mask of a control packet is about.
abbrev pub in_flags1 : ℕ → Bool
in_flags1 mask = leb mask ctrl_syn && not (mask == ctrl_ext)

abbrev flag_byte : PacketType → UmpPacket → ℕ → ℕ
flag_byte user p mask = p.data_flags
flag_byte control p mask = if in_flags1 mask then p.ctrl_flags1 else p.ctrl_flags2

-- `u_packet_get_flag`.
unfoldable pub get_flag : UmpPacket → ℕ → Bool
get_flag p mask = ltb 0 (bit_and (flag_byte p.p_type p mask) mask)

abbrev with_flags : PacketType → (ℕ → ℕ) → UmpPacket → ℕ → UmpPacket
with_flags user f p mask = record p { data_flags = f p.data_flags; changed = true }
with_flags control f p mask =
    if in_flags1 mask
    then record p { ctrl_flags1 = f p.ctrl_flags1; changed = true }
    else record p { ctrl_flags2 = f p.ctrl_flags2; changed = true }

-- `u_packet_set_flag`.
unfoldable pub set_flag : UmpPacket → ℕ → UmpPacket
set_flag p mask = with_flags p.p_type (λ b. bit_or b mask) p mask

-- `u_packet_clear_flag`.
unfoldable pub clear_flag : UmpPacket → ℕ → UmpPacket
clear_flag p mask = with_flags p.p_type (λ b. bit_and b (bit_xor mask 255)) p mask

abbrev set_outgoing : PacketDirection → UmpPacket → List ℕ → UmpPacket
set_outgoing outgoing p bytes = record p { user_data = some bytes; changed = true }
set_outgoing incoming p bytes = p

-- `u_packet_set_data`.
unfoldable pub set_data : UmpPacket → List ℕ → UmpPacket
set_data p bytes = set_outgoing p.direction p bytes
