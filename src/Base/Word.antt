-- ===== src/Base/Word.antt =====
-- The fixed widths of C: a `guint16` is a number below 2 ^ 16, and every store wraps.
use Prim.Native.Nat.{ℕ, ◌%◌, ◌<◌}
use native.Mathlib.Omega.{arith}

abbrev pub u16_mod : ℕ
u16_mod = 65536

abbrev pub u16 : ℕ → ℕ
u16 n = n % 65536

abbrev pub u32_mod : ℕ
u32_mod = 4294967296

pub u16-lt : (n : ℕ) → u16 n < u16_mod
u16-lt n = omega arith
