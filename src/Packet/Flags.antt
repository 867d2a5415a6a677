-- ===== src/Packet/Flags.antt =====
-- What setting and clearing a flag does to the flags of a packet.
use user_message_protocol.Base.{
  ℕ, ◌<◌, ◌^◌, ◌≡◌, refl, true, false, ◌⊎◌, ◌==◌, if◌then◌else◌, arith, inl, inr, ap,
}
use user_message_protocol.Base.Bits.{has-bit_or, has-clear}
use user_message_protocol.Packet.{
  UmpPacket, PacketType, control, user, get_flag, set_flag, clear_flag, in_flags1,
}

-- The flags of a packet are bytes.
pub record HasByteFlags (p : UmpPacket) : Type 0 where
  pub flags1 : p.ctrl_flags1 < 256
  pub flags2 : p.ctrl_flags2 < 256
  pub flags : p.data_flags < 256

PacketType-cases : (t : PacketType) → (t ≡ control) ⊎ (t ≡ user)
PacketType-cases control = inl refl
PacketType-cases user = inr refl

same_byte : (i j : ℕ) → i ≡ j → in_flags1 (2 ^ i) ≡ in_flags1 (2 ^ j)
same_byte i j e = ap (λ (k : ℕ). in_flags1 (2 ^ k)) e

-- `u_packet_set_flag` sets the flag it is given, and every other flag reads as before: for masks of
-- one bit, on control and on data packets.
pub get_flag-set_flag :
    (p : UmpPacket) (i j : ℕ)
    → HasByteFlags p
    → i < 8
    → j < 8
    → get_flag (set_flag p (2 ^ i)) (2 ^ j) ≡ (if i == j then true else get_flag p (2 ^ j))
unfolding get_flag set_flag
get_flag-set_flag p i j v hi hj = ground (
  arith,
  PacketType-cases p.p_type,
  same_byte i j,
  has-bit_or p.data_flags i j,
  has-bit_or p.ctrl_flags1 i j,
  has-bit_or p.ctrl_flags2 i j,
)

-- `u_packet_clear_flag` clears the flag it is given, and every other flag reads as before.
pub get_flag-clear_flag :
    (p : UmpPacket) (i j : ℕ)
    → HasByteFlags p
    → i < 8
    → j < 8
    → get_flag (clear_flag p (2 ^ i)) (2 ^ j) ≡ (if i == j then false else get_flag p (2 ^ j))
unfolding get_flag clear_flag
get_flag-clear_flag p i j v hi hj = ground (
  arith,
  PacketType-cases p.p_type,
  same_byte i j,
  has-clear p.data_flags i j,
  has-clear p.ctrl_flags1 i j,
  has-clear p.ctrl_flags2 i j,
)
