-- ===== src/Timer/Ack.antt =====
-- What an acknowledgement does to the timers.
use user_message_protocol.Base.{
  ℕ, ◌+◌, ◌-◌, ◌%◌, ◌<◌, ◌≤◌, ◌≡◌, ◌≢◌, ◌↔◌, List, [], ◌∷◌, ◌++◌, true, false, arith, u16, u16_mod,
  All,
}
use user_message_protocol.Base.Int.{negsuc}
use user_message_protocol.Clock.{TimeVal, time_sub}
use user_message_protocol.Timer.{TmEntry, ack_refused, take_acked, ack_packet}

-- The numbers that are not refused are those of the arc from `seq1` to `seq2` on the circle.
pub ack_refused_iff :
    (seq seq1 seq2 : ℕ)
    → seq < u16_mod
    → seq1 < u16_mod
    → seq2 < u16_mod
    → (ack_refused seq seq1 seq2 ≡ false)
      ↔ ((seq + u16_mod - seq1) % u16_mod ≤ (seq2 + u16_mod - seq1) % u16_mod)
unfolding ack_refused
ack_refused_iff seq seq1 seq2 h h1 h2 = (λ r. ground arith, λ r. ground arith)

abbrev NotAcked : ℕ → TmEntry → Type 0
NotAcked seq e = seq ≢ u16 (e.seq + 1)

take_acked_found :
    (now : TimeVal) (older newer : List TmEntry) (e : TmEntry)
    → All (NotAcked (u16 (e.seq + 1))) older
    → take_acked now (older ++ e ∷ newer) (u16 (e.seq + 1)) ≡ (time_sub now e.reg_time, newer)
unfolding take_acked
take_acked_found now [] newer e h = ground arith
take_acked_found now (o ∷ older) newer e h = ground (arith, take_acked_found now older newer e h.1)

inside_arc :
    (seq start upper : ℕ)
    → (u16 (seq + 1) + u16_mod - u16 (start + 1)) % u16_mod
      ≤ (u16 (upper + 1) + u16_mod - u16 (start + 1)) % u16_mod
    → ack_refused (u16 (seq + 1)) (u16 (start + 1)) (u16 (upper + 1)) ≡ false
inside_arc seq start upper =
    (ack_refused_iff (u16 (seq + 1)) (u16 (start + 1)) (u16 (upper + 1)) (omega arith) (omega arith)
      (omega arith)).1

-- The oldest entry of a list that is not empty.
abbrev pub front_seq : List TmEntry → ℕ → ℕ
front_seq [] d = d
front_seq (e ∷ tl) d = e.seq

-- How far the number `seq` is from `start`, counted forwards on the circle of 16-bit numbers.
abbrev pub arc : ℕ → ℕ → ℕ
arc start seq = (seq + u16_mod - start) % u16_mod

-- Acknowledgements are cumulative: an acknowledgement of an entry, within the arc from the one that
-- acknowledges the oldest packet in flight to the one that acknowledges the last packet sent, removes
-- that entry and every older one, keeps every newer one, and gives the time since that packet was
-- registered. Numbers may wrap.
pub ack_packet_cumulative :
    (now : TimeVal) (older newer : List TmEntry) (e : TmEntry) (upper : ℕ)
    → All (NotAcked (u16 (e.seq + 1))) older
    → arc (u16 (front_seq older e.seq + 1)) (u16 (e.seq + 1))
      ≤ arc (u16 (front_seq older e.seq + 1)) (u16 (upper + 1))
    → ack_packet now (older ++ e ∷ newer) (u16 (e.seq + 1)) upper ≡ (time_sub now e.reg_time, newer)
unfolding ack_packet
ack_packet_cumulative now [] newer e upper h near =
    rw (inside_arc e.seq e.seq upper near) (take_acked_found now [] newer e h)
ack_packet_cumulative now (o ∷ older) newer e upper h near =
    rw (inside_arc e.seq o.seq upper near) (take_acked_found now (o ∷ older) newer e h)

-- An acknowledgement outside the arc leaves every timer alone and gives -1.
pub ack_packet_outside :
    (now : TimeVal) (e : TmEntry) (tl : List TmEntry) (seq upper : ℕ)
    → ack_refused seq (u16 (e.seq + 1)) (u16 (upper + 1)) ≡ true
    → ack_packet now (e ∷ tl) seq upper ≡ (negsuc 0, e ∷ tl)
unfolding ack_packet
ack_packet_outside now e tl seq upper r = rw r
