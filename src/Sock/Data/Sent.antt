-- ===== src/Sock/Data/Sent.antt =====
-- A message as its receiver sees it: a few packets with numbers one behind the other, from a first
-- number on, the last one marked.
use user_message_protocol.Base.{
  ℕ, zero, suc, ◌+◌, ◌-◌, ◌<◌, ◌≤◌, ◌≡◌, ◌∙◌, List, [], ◌∷◌, ◌++◌, Bool, true, false, arith, ltb,
  ◌==◌, ◌&&◌, ◌||◌, u16, u16_mod, if◌then◌else◌,
}
use user_message_protocol.Base.Int.{pos, ltb_ℤ, ◌-ℤ◌, sub_ℕ}
use user_message_protocol.Seq.{cmp_in_base}
use user_message_protocol.Seq.Distance.{distance, cmp_in_base-distance}
use user_message_protocol.Packet.{UmpPacket, get_flag, data_seq, data_bdr}
use user_message_protocol.Packet.Codec.{payload}

pub record Sent : Type 0 where
  pub start : ℕ
  pub count : ℕ
  pub load : ℕ → List ℕ

-- It has a packet at least, and no more than half of the circle of numbers.
pub record IsSent (m : Sent) : Type 0 where
  pub start : m.start < u16_mod
  pub nonempty : 0 < m.count
  pub short : m.count ≤ 32768

abbrev pub number : Sent → ℕ → ℕ
number m j = u16 (m.start + j)

-- The packet `j` of the message.
pub record IsPart (m : Sent) (j : ℕ) (p : UmpPacket) : Type 0 where
  pub inside : j < m.count
  pub numbered : p.seq_num ≡ number m j
  pub in_sequence : get_flag p data_seq ≡ true
  pub ending : get_flag p data_bdr ≡ (suc j == m.count)
  pub bytes : payload p.user_data ≡ m.load j

-- What may come in while a message is received: its packets, packets of earlier messages, and
-- acknowledgements.
pub data Incoming (m : Sent) (p : UmpPacket) : Type 0 where
  part : (j : ℕ) → IsPart m j p → Incoming m p
  stale : (d : ℕ) → 0 < d → d + m.count ≤ 32768 → p.seq_num ≡ number m (65536 - d) → Incoming m p
  bare : get_flag p data_seq ≡ false → Incoming m p

-- The payloads of `c` packets from the `i`-th on.
unfoldable pub loads : Sent → ℕ → ℕ → List ℕ
loads m i zero = []
loads m i (suc c) = m.load i ++ loads m (suc i) c

-- Whether one of the packets is in sequence and has the number.
unfoldable pub has_number : ℕ → List UmpPacket → Bool
has_number q [] = false
has_number q (p ∷ ps) = (get_flag p data_seq && (p.seq_num == q)) || has_number q ps

-- The first of `c` numbers from `q` on that none of the packets has, or the number behind them.
unfoldable pub first_missing : ℕ → ℕ → List UmpPacket → ℕ
first_missing zero q ps = q
first_missing (suc c) q ps =
    let further = first_missing c (u16 (q + 1)) ps in if has_number q ps then further else q

sub_sub : (i j k : ℕ) → sub_ℕ j k -ℤ sub_ℕ i k ≡ sub_ℕ j i
unfolding ◌-ℤ◌
sub_sub i j k = ground arith

-- Numbers that are not too far apart are at the distance of their places.
module _ (m : Sent) (h : m.start < u16_mod) (k i j : ℕ) where
  distance-number :
      (x : ℕ) → x ≤ k + 32767 → k ≤ x + 32768 → distance (number m k) (number m x) ≡ sub_ℕ x k
  unfolding distance
  distance-number x hx hk = ground arith

  cmp_in_base-number :
      i ≤ k + 32767
      → k ≤ i + 32768
      → j ≤ k + 32767
      → k ≤ j + 32768
      → cmp_in_base (number m k) (number m j) (number m i) ≡ sub_ℕ j i
  cmp_in_base-number h1 h2 h3 h4 =
      cmp_in_base-distance (number m k) (number m j) (number m i) (omega arith) (omega arith)
        (omega arith)
      ∙ rw (distance-number j h3 h4, distance-number i h1 h2) (sub_sub i j k)

module _ (m : Sent) (v : IsSent m) where
  -- While the base is a number of the message, its packets are in the order of their places.
  pub ltb-number :
      (k i j : ℕ)
      → k ≤ m.count
      → i < m.count
      → j < m.count
      → ltb_ℤ (cmp_in_base (number m k) (number m j) (number m i)) (pos 0) ≡ ltb j i
  ltb-number k i j hk hi hj =
      let h = v.short in
      rw
        (cmp_in_base-number m v.start k i j (omega arith) (omega arith) (omega arith) (omega arith))
        (ground arith)

  -- A packet of the message is behind the base exactly when its place is.
  pub ltb-number_base :
      (k j : ℕ)
      → k ≤ m.count
      → j < m.count
      → ltb_ℤ (cmp_in_base (number m k) (number m j) (number m k)) (pos 0) ≡ ltb j k
  ltb-number_base k j hk hj =
      let h = v.short in
      rw
        (cmp_in_base-number m v.start k k j (omega arith) (omega arith) (omega arith) (omega arith))
        (ground arith)

  pub ltb-number_stale :
      (k d : ℕ)
      → k ≤ m.count
      → 0 < d
      → d + m.count ≤ 32768
      → ltb_ℤ (cmp_in_base (number m k) (number m (65536 - d)) (number m k)) (pos 0) ≡ true
  unfolding cmp_in_base
  ltb-number_stale k d hk hd hs = let h = v.start in ground arith

  pub number-same : (i j : ℕ) → i ≤ m.count → j ≤ m.count → (number m j == number m i) ≡ (j == i)
  number-same i j hi hj = let h1 = v.start in let h2 = v.short in ground arith

  pub number-stale :
      (i d : ℕ)
      → i < m.count
      → 0 < d
      → d + m.count ≤ 32768
      → (number m (65536 - d) == number m i) ≡ false
  number-stale i d hi hd hs = let h1 = v.start in ground arith

  pub number-suc : (j : ℕ) → u16 (number m j + 1) ≡ number m (suc j)
  number-suc j = omega arith
