-- ===== src/Message/Split.antt =====
-- How a message is cut into packets.
use user_message_protocol.Base.{
  ℕ, zero, suc, ◌+◌, ◌-◌, ◌*◌, ◌<◌, ◌≤◌, ◌≡◌, refl, ap, subst, min, List, [], ◌∷◌, ◌++◌, arith,
  length, take, drop, All, leb, leb→le, length-take, length-drop, take-append-drop, Bool-cases, inl,
  inr,
}
use user_message_protocol.Packet.{UmpPacket, new, set_data}
use user_message_protocol.Packet.Codec.{payload}
use user_message_protocol.Message.{packets_count, data_packet, fill, split_message}

-- The bytes of the packets, one behind the other.
abbrev pub contents : List UmpPacket → List ℕ
contents [] = []
contents (p ∷ ps) = payload p.user_data ++ contents ps

-- A packet that carries at least one byte and at most `mss`.
pub record Fits (mss : ℕ) (p : UmpPacket) : Type 0 where
  pub some_byte : 1 ≤ length (payload p.user_data)
  pub most : length (payload p.user_data) ≤ mss

pub payload-data_packet : (bytes : List ℕ) → payload (data_packet bytes).user_data ≡ bytes
unfolding data_packet set_data new
payload-data_packet bytes = refl

-- One round of the loop.
pub fill_step :
    (fuel mss x : ℕ) (xs : List ℕ)
    → fill (suc fuel) mss (x ∷ xs)
      ≡ data_packet (take (min mss (length (x ∷ xs))) (x ∷ xs))
        ∷ fill fuel mss (drop (min mss (length (x ∷ xs))) (x ∷ xs))
unfolding fill
fill_step fuel mss x xs = ground arith

fill_empty : (fuel mss : ℕ) → fill fuel mss [] ≡ []
unfolding fill
fill_empty zero mss = refl
fill_empty (suc fuel) mss = refl

contents-fill :
    (fuel mss : ℕ) (bytes : List ℕ)
    → 0 < mss
    → length bytes ≤ fuel
    → contents (fill fuel mss bytes) ≡ bytes
contents-fill fuel mss [] h k = rw (fill_empty fuel mss)
contents-fill zero mss (x ∷ xs) h k = absurd (omega arith)
contents-fill (suc fuel) mss (x ∷ xs) h k =
    let n = min mss (length (x ∷ xs)) in
    let rest = contents-fill fuel mss (drop n (x ∷ xs)) h (omega (arith, length-drop n (x ∷ xs))) in
    rw (fill_step fuel mss x xs, payload-data_packet (take n (x ∷ xs)), rest)
      (take-append-drop n (x ∷ xs))

-- Cutting loses no byte and keeps the order, where the maximum segment size is not 0: the payloads of
-- the packets, one behind the other, are the message.
pub contents-split_message :
    (mss : ℕ) (bytes : List ℕ) → 0 < mss → contents (split_message mss bytes) ≡ bytes
unfolding split_message
contents-split_message mss bytes h = contents-fill (length bytes) mss bytes h (omega arith)

fill-Fits : (fuel mss : ℕ) (bytes : List ℕ) → 0 < mss → All (Fits mss) (fill fuel mss bytes)
unfolding fill
fill-Fits zero mss [] h = tt
fill-Fits (suc fuel) mss [] h = tt
fill-Fits zero mss (x ∷ xs) h = tt
fill-Fits (suc fuel) mss (x ∷ xs) h =
    let n = min mss (length (x ∷ xs)) in
    let first : Fits mss (data_packet (take n (x ∷ xs))) =
      omega
        (arith, ap (length {0}) (payload-data_packet (take n (x ∷ xs))), length-take n (x ∷ xs)) in
    let rest = fill-Fits fuel mss (drop n (x ∷ xs)) h in rw (fill_step fuel mss x xs) (first, rest)

none_left : (l m : ℕ) → l * m < m → l ≡ 0
none_left zero m h = refl
none_left (suc l) m h = absurd (grind arith)

round_bounds :
    (len mss l : ℕ)
    → 0 < len
    → (len - min mss len ≤ l * mss) × (l * mss < len - min mss len + mss)
    → (len ≤ suc l * mss) × (suc l * mss < len + mss)
round_bounds len mss l pos h = elim (Bool-cases (leb mss len)) [
  | inl full ↦ let e : mss ≤ len = leb→le mss len full in (grind arith, grind arith)
  | inr last ↦
      let e : len < mss = ground arith in
      let z : l ≡ 0 = none_left l mss (omega arith) in (grind arith, grind arith)
]

-- The bounds of the number of packets, which determine it.
fill_bounds :
    (fuel mss : ℕ) (bytes : List ℕ)
    → 0 < mss
    → length bytes ≤ fuel
    → (length bytes ≤ length (fill fuel mss bytes) * mss)
      × (length (fill fuel mss bytes) * mss < length bytes + mss)
fill_bounds fuel mss [] h k = rw (fill_empty fuel mss) (omega arith)
fill_bounds zero mss (x ∷ xs) h k = absurd (omega arith)
fill_bounds (suc fuel) mss (x ∷ xs) h k =
    let n = min mss (length (x ∷ xs)) in
    let rest = fill_bounds fuel mss (drop n (x ∷ xs)) h (omega (arith, length-drop n (x ∷ xs))) in
    rw (fill_step fuel mss x xs) (
      round_bounds (length (x ∷ xs)) mss (length (fill fuel mss (drop n (x ∷ xs)))) (omega arith) (
        subst
          (λ (l : ℕ).
            (l ≤ length (fill fuel mss (drop n (x ∷ xs))) * mss)
            × (length (fill fuel mss (drop n (x ∷ xs))) * mss < l + mss))
          (length-drop n (x ∷ xs)) rest))

packets_count_bounds :
    (mss len : ℕ)
    → 0 < mss
    → (len ≤ packets_count mss len * mss) × (packets_count mss len * mss < len + mss)
unfolding packets_count
packets_count_bounds mss len h = grind arith

unique :
    (k j mss len : ℕ)
    → len ≤ k * mss
    → k * mss < len + mss
    → len ≤ j * mss
    → j * mss < len + mss
    → k ≡ j
unique k j mss len a b c d = grind arith

-- The loop of `ump_send_message` fills its array exactly: it stores as many packets as the array has
-- room for, and each carries at least one byte and at most the maximum segment size, where that is
-- not 0.
pub split_message-Fits :
    (mss : ℕ) (bytes : List ℕ)
    → 0 < mss
    → (length (split_message mss bytes) ≡ packets_count mss (length bytes))
      × All (Fits mss) (split_message mss bytes)
unfolding split_message
split_message-Fits mss bytes h =
    let a = fill_bounds (length bytes) mss bytes h (omega arith) in
    let b = packets_count_bounds mss (length bytes) h in
    (unique _ _ mss (length bytes) a.0 a.1 b.0 b.1, fill-Fits (length bytes) mss bytes h)
