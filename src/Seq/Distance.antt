-- ===== src/Seq/Distance.antt =====
-- The order of sequence numbers is that of their signed distances from the base.
use user_message_protocol.Base.{ℕ, ◌+◌, ◌-◌, ◌%◌, ◌<◌, ◌≡◌, ◌↔◌, arith, ltb, if◌then◌else◌, u16_mod}
use user_message_protocol.Base.Int.{ℤ, pos, negsuc, ◌-ℤ◌, ◌+ℤ◌, ◌≤ℤ◌, int_laws}
use user_message_protocol.Seq.{cmp_in_base, seq_to_relative}

-- How far `x` is ahead of `base`, from -32768 to 32767: the 16-bit difference read as signed.
unfoldable pub distance : ℕ → ℕ → ℤ
distance base x =
    let d = (x + 65536 - base) % 65536 in if ltb d 32768 then pos d else negsuc (65535 - d)

module _ (base x y : ℕ) (hb : base < u16_mod) (hx : x < u16_mod) (hy : y < u16_mod) where
  -- On 16-bit numbers `ump_cmp_in_sndbase` and `ump_cmp_in_rcvbase` give the difference of the signed
  -- distances from the base.
  pub cmp_in_base-distance : cmp_in_base base x y ≡ distance base x -ℤ distance base y
  unfolding cmp_in_base distance ◌-ℤ◌
  cmp_in_base-distance = ground arith

  -- They find two numbers equal exactly when these are the same.
  pub cmp_in_base-zero : (cmp_in_base base x y ≡ pos 0) ↔ (x ≡ y)
  unfolding cmp_in_base
  cmp_in_base-zero = ground arith

-- `ump_seq_to_relative_via_sndstartseq` is the signed distance from the start.
pub seq_to_relative-distance :
    (start seq : ℕ)
    → start < u16_mod
    → seq < u16_mod
    → seq_to_relative start seq ≡ distance start seq
unfolding seq_to_relative distance
seq_to_relative-distance start seq hs hx = ground arith

-- Every number has a distance from -32768 to 32767.
pub distance_bounds :
    (base x : ℕ) → (negsuc 32767 ≤ℤ distance base x) × (distance base x ≤ℤ pos 32767)
unfolding distance
distance_bounds base x = ground arith

-- Relative to a base, sequence numbers are in a linear order: what comes out for `x` and `z` is the
-- sum of what comes out for `x` and `y` and for `y` and `z`.
pub cmp_in_base-add :
    (base x y z : ℕ)
    → base < u16_mod
    → x < u16_mod
    → y < u16_mod
    → z < u16_mod
    → cmp_in_base base x y +ℤ cmp_in_base base y z ≡ cmp_in_base base x z
cmp_in_base-add base x y z hb hx hy hz =
    rw
      (
        cmp_in_base-distance base x y hb hx hy,
        cmp_in_base-distance base y z hb hy hz,
        cmp_in_base-distance base x z hb hx hz,
      )
      (omega int_laws)
