-- ===== src/Rto/Tests.antt =====
-- Two samples and a timeout, with integers in place of `double`.
use user_message_protocol.Base.{List, [], ◌∷◌}
use user_message_protocol.Base.Int.{ℤ, pos}
use user_message_protocol.Rto.{RtoComputer, new}
use user_message_protocol.Rto.Bounds.{sample, timeout, RtoEvent, rto_run, AtLeast16, rto_run-new}
use user_message_protocol.Samples.{sample_double, sample_double-IsOrdered}

abbrev events : List RtoEvent
events = sample (pos 40) ∷ timeout ∷ sample (pos 0) ∷ []

rto_run-new_example :
    AtLeast16 sample_double (rto_run sample_double (new sample_double (pos 1) (pos 2)) events)
rto_run-new_example = rto_run-new sample_double sample_double-IsOrdered (pos 1) (pos 2) events

abbrev fresh : RtoComputer ℤ
fresh = new sample_double (pos 1) (pos 2)
