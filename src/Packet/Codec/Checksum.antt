-- ===== src/Packet/Codec/Checksum.antt =====
-- What the checksum of upacket.c is, and what it protects.
use user_message_protocol.Base.{
  ℕ, ◌+◌, ◌*◌, ◌<◌, ◌≡◌, ◌≢◌, refl, ◌⊎◌, inl, inr, List, [], ◌∷◌, ◌++◌, true, false, arith, u16,
  bit_and, ◌==◌, u16_mod,
}
use user_message_protocol.Packet.{UmpPacket, up_type}
use user_message_protocol.Packet.Codec.{
  sum_words, sum_flags, checksum, from_binary, parsed, rejected, parse_control, parse_user, verify,
}

-- The 16-bit words of the body, the low byte first, and an odd byte at the end, added up.
abbrev pub word_total : List ℕ → ℕ
word_total [] = 0
word_total (x ∷ []) = x
word_total (x ∷ y ∷ xs) = x + y * 256 + word_total xs

abbrev pub byte_total : List ℕ → ℕ
byte_total [] = 0
byte_total (x ∷ xs) = x + byte_total xs

sum_words_lem : (s : ℕ) (xs : List ℕ) → s < u16_mod → sum_words s xs ≡ u16 (s + word_total xs)
unfolding sum_words
sum_words_lem s [] h = omega arith
sum_words_lem s (x ∷ []) h = refl
sum_words_lem s (x ∷ y ∷ xs) h =
    omega (arith, sum_words_lem (u16 (u16 (s + x) + u16 (y * 256))) xs (omega arith))

sum_flags_lem : (s : ℕ) (xs : List ℕ) → s < u16_mod → sum_flags s xs ≡ u16 (s + byte_total xs)
sum_flags_lem s [] h = omega arith
sum_flags_lem s (x ∷ xs) h = omega (arith, sum_flags_lem (u16 (s + x)) xs (omega arith))

-- The checksum is the sum of the flag bytes and of the body's words, modulo 2 ^ 16, however the
-- sixteen-bit additions wrap on the way.
pub checksum_lem :
    (flags body : List ℕ) → checksum flags body ≡ u16 (byte_total flags + word_total body)
unfolding checksum
checksum_lem flags body =
    omega (arith, sum_flags_lem 0 flags, sum_words_lem (sum_flags 0 flags) body)

-- What a byte behind `xs` counts for.
abbrev weight : List ℕ → ℕ
weight [] = 1
weight (x ∷ []) = 256
weight (x ∷ y ∷ xs) = weight xs

weight-cases : (xs : List ℕ) → (weight xs ≡ 1) ⊎ (weight xs ≡ 256)
weight-cases [] = inl refl
weight-cases (x ∷ []) = inr refl
weight-cases (x ∷ y ∷ xs) = weight-cases xs

word_total-at :
    (xs ys : List ℕ) (x y : ℕ)
    → word_total (xs ++ x ∷ ys) + weight xs * y ≡ word_total (xs ++ y ∷ ys) + weight xs * x
word_total-at [] [] x y = omega arith
word_total-at [] (z ∷ ys) x y = omega arith
word_total-at (a ∷ []) ys x y = omega arith
word_total-at (a ∷ b ∷ xs) ys x y = omega (arith, word_total-at xs ys x y)

checksum-ne :
    (flags xs ys : List ℕ) (x y : ℕ)
    → x < 256
    → y < 256
    → x ≢ y
    → checksum flags (xs ++ x ∷ ys) ≢ checksum flags (xs ++ y ∷ ys)
checksum-ne flags xs ys x y hx hy ne e = ground (
  arith,
  checksum_lem flags (xs ++ x ∷ ys),
  checksum_lem flags (xs ++ y ∷ ys),
  word_total-at xs ys x y,
  weight-cases xs,
)

-- The bytes in front of the body: the flags and the checksum.
pub data IsHeader : List ℕ → Type 0 where
  of_control :
      (f1 f2 hi lo : ℕ) → (bit_and f1 up_type == 0) ≡ true → IsHeader (f1 ∷ f2 ∷ hi ∷ lo ∷ [])
  of_user : (f hi lo : ℕ) → (bit_and f up_type == 0) ≡ false → IsHeader (f ∷ hi ∷ lo ∷ [])

-- One byte of the body changed on the way is always noticed: if a packet is accepted, then with any
-- other value of any one byte behind the checksum it is rejected.
pub from_binary-corrupt :
    (front xs ys : List ℕ) (x y : ℕ) {q : UmpPacket}
    → IsHeader front
    → x < 256
    → y < 256
    → x ≢ y
    → from_binary (front ++ (xs ++ x ∷ ys)) ≡ parsed q
    → from_binary (front ++ (xs ++ y ∷ ys)) ≡ rejected true
unfolding from_binary parse_control parse_user verify
from_binary-corrupt front xs ys x y (of_control f1 f2 hi lo t) hx hy ne e =
    ground (arith, checksum-ne (f1 ∷ f2 ∷ []) xs ys x y hx hy ne)
from_binary-corrupt front xs ys x y (of_user f hi lo t) hx hy ne e =
    ground (arith, checksum-ne (f ∷ []) xs ys x y hx hy ne)
