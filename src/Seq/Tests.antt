-- ===== src/Seq/Tests.antt =====
-- Sequence numbers on both sides of 0 at concrete inputs.
use user_message_protocol.Base.{◌≡◌, arith}
use user_message_protocol.Base.Int.{◌-ℤ◌}
use user_message_protocol.Seq.{cmp_in_base}
use user_message_protocol.Seq.Distance.{distance, cmp_in_base-distance}

cmp_in_base-distance_example : cmp_in_base 65530 3 65535 ≡ distance 65530 3 -ℤ distance 65530 65535
cmp_in_base-distance_example =
    cmp_in_base-distance 65530 3 65535 (omega arith) (omega arith) (omega arith)
