-- ===== src/Seq.antt =====
-- Sequence numbers: `ump_cmp_in_sndbase`, `ump_cmp_in_rcvbase` and the three conversions at the end
-- of the same part of user_message_protocol/ump_sock.c. A sequence number is a `guint16`, the order
-- is relative to a base, and the functions here take the base that the sources read from a field.
pub mod Distance
mod Tests
pub mod Relative
use user_message_protocol.Base.{ℕ, ◌+◌, ◌-◌, ◌%◌, leb, if◌then◌else◌, u16, u32_mod}
use user_message_protocol.Base.Int.{ℤ, pos, negsuc, sub_ℕ}

-- `G_MAXUINT16 >> 1` beyond the base, as a `guint16`.
abbrev circle_point : ℕ → ℕ
circle_point base = u16 (base + 32767)

-- Numbers up to the circle point belong to the next turn.
abbrev lift : ℕ → ℕ → ℕ
lift circle a = if leb a circle then a + 65536 else a

-- The bodies of `ump_cmp_in_sndbase` and `ump_cmp_in_rcvbase`, which differ in the base only.
unfoldable pub cmp_in_base : ℕ → ℕ → ℕ → ℤ
cmp_in_base base x y = sub_ℕ (lift (circle_point base) x) (lift (circle_point base) y)

-- `ump_seq_to_relative_via_sndstartseq`.
unfoldable pub seq_to_relative : ℕ → ℕ → ℤ
seq_to_relative start seq = sub_ℕ (lift (circle_point start) seq) (lift (circle_point start) start)

-- `(guint)` of a `gint`.
abbrev pub u32_of : ℤ → ℕ
u32_of (pos n) = n % u32_mod
u32_of (negsuc n) = (u32_mod - 1) - n % u32_mod

-- `ump_relative_to_seq_via_sndstartseq` and `ump_relative_to_seq_via_rcvseq`: the sum is a `guint`.
unfoldable pub relative_to_seq : ℕ → ℕ → ℕ
relative_to_seq base l = u16 ((base + l) % u32_mod)
