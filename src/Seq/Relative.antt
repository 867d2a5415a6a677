-- ===== src/Seq/Relative.antt =====
-- Absolute and relative positions name the same packets.
use user_message_protocol.Base.{ℕ, ◌<◌, ◌≡◌, arith, u16_mod}
use user_message_protocol.Base.Int.{pos}
use user_message_protocol.Seq.{seq_to_relative, relative_to_seq, u32_of}

-- A relative position turned into a sequence number and back is the same, over half the circle.
pub seq_to_relative-relative_to_seq :
    (start l : ℕ)
    → start < u16_mod
    → l < 32768
    → seq_to_relative start (relative_to_seq start l) ≡ pos l
unfolding seq_to_relative relative_to_seq
seq_to_relative-relative_to_seq start l hs hl = ground arith

-- A sequence number turned into a relative position, behind the start too, and back is the same.
pub relative_to_seq-seq_to_relative :
    (start seq : ℕ)
    → start < u16_mod
    → seq < u16_mod
    → relative_to_seq start (u32_of (seq_to_relative start seq)) ≡ seq
unfolding seq_to_relative relative_to_seq
relative_to_seq-seq_to_relative start seq hs hx = ground arith
