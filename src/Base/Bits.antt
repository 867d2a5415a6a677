-- ===== src/Base/Bits.antt =====
-- Bytes under masks: facts about `&`, `|` and `^` at variables, found by checking every byte.
use Prim.Native.Nat.{ℕ, zero, suc, ◌<◌, ◌^◌, bit_and, bit_or, bit_xor}
use mathlib.Core.Path.{◌≡◌, refl}
use mathlib.Core.Bool.{Bool, true, false, not, ◌&&◌}
use native.Mathlib.Omega.{arith}
use user_message_protocol.Base.Tests.{ltb, ◌==◌, if◌then◌else◌}

-- Whether a test passes at each of the first numbers.
pub passes : (ℕ → Bool) → ℕ → Bool
passes test zero = true
passes test (suc k) = passes test k && test k

pub passes_at : (test : ℕ → Bool) (k m : ℕ) → m < k → passes test k ≡ true → test m ≡ true
unfolding passes
passes_at test zero m less all = absurd (omega arith)
passes_at test (suc k) m less all = ground (arith, passes_at test k m)

-- Two Boolean values are the same.
abbrev same : Bool → Bool → Bool
same true b = b
same false b = not b

same→eq : (a b : Bool) → same a b ≡ true → a ≡ b
same→eq true true h = refl
same→eq true false h = cc
same→eq false true h = cc
same→eq false false h = refl

abbrev pub has : ℕ → ℕ → Bool
has b mask = ltb 0 (bit_and b mask)

or_test : ℕ → ℕ → ℕ → Bool
or_test b i j = same (has (bit_or b (2 ^ i)) (2 ^ j)) (if i == j then true else has b (2 ^ j))

clear_test : ℕ → ℕ → ℕ → Bool
clear_test b i j =
    same (has (bit_and b (bit_xor (2 ^ i) 255)) (2 ^ j)) (if i == j then false else has b (2 ^ j))

-- A test at every byte and every two of its bits.
all_bits : (ℕ → ℕ → ℕ → Bool) → Bool
unfolding passes
all_bits p = passes (λ b. passes (λ i. passes (p b i) 8) 8) 256

all_bits_sound :
    (p : ℕ → ℕ → ℕ → Bool) (b i j : ℕ)
    → all_bits p ≡ true
    → b < 256
    → i < 8
    → j < 8
    → p b i j ≡ true
unfolding all_bits
all_bits_sound p b i j h hb hi hj = passes_at (p b i) 8 j hj (
    passes_at (λ i. passes (p b i) 8) 8 i hi
      (passes_at (λ b. passes (λ i. passes (p b i) 8) 8) 256 b hb h))

or_table : all_bits or_test ≡ true
unfolding all_bits or_test
or_table = refl

clear_table : all_bits clear_test ≡ true
unfolding all_bits clear_test
clear_table = refl

-- Setting one bit of a byte sets that bit alone.
pub has-bit_or :
    (b i j : ℕ)
    → b < 256
    → i < 8
    → j < 8
    → has (bit_or b (2 ^ i)) (2 ^ j) ≡ (if i == j then true else has b (2 ^ j))
unfolding or_test
has-bit_or b i j hb hi hj = same→eq _ _ (all_bits_sound or_test b i j or_table hb hi hj)

-- Clearing one bit of a byte clears that bit alone.
pub has-clear :
    (b i j : ℕ)
    → b < 256
    → i < 8
    → j < 8
    → has (bit_and b (bit_xor (2 ^ i) 255)) (2 ^ j) ≡ (if i == j then false else has b (2 ^ j))
unfolding clear_test
has-clear b i j hb hi hj = same→eq _ _ (all_bits_sound clear_test b i j clear_table hb hi hj)
