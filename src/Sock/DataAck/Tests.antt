-- ===== src/Sock/DataAck/Tests.antt =====
-- Acknowledgements and received packets at concrete inputs.
use user_message_protocol.Base.{ℕ, ◌≡◌, refl, arith}
use user_message_protocol.Base.Int.{ℤ, pos, ◌+ℤ◌, ◌-ℤ◌, ◌*ℤ◌, div_ℤ}
use user_message_protocol.Clock.{time_sub}
use user_message_protocol.Packet.{UmpPacket, user, outgoing, new, set_flag, data_ack}
use user_message_protocol.Rto
use user_message_protocol.Rto.{get_estimated_rtt}
use user_message_protocol.Sock.{UmpSocket, Node}
use user_message_protocol.Sock.DataAck.{handle_data_ack, grow_cwnd}
use user_message_protocol.Sock.DataAck.Accept.{MovesBase, handle_data_ack-MovesBase}
use user_message_protocol.Sock.DataAck.Congestion.{grow_cwnd_wraps}
use user_message_protocol.Samples.{sample_sock, sample_env, no_ack}

abbrev ack_of : ℕ → UmpPacket
ack_of n = record (set_flag (new user outgoing) data_ack) { ack_num = n }

abbrev sending : UmpSocket ℤ
sending = record sample_sock { our_data_seq_base = 65534; our_data_sent = 1 }

handle_data_ack-MovesBase_example :
    MovesBase sending 0 (handle_data_ack sample_env sending (ack_of 0))
handle_data_ack-MovesBase_example = handle_data_ack-MovesBase sample_env sending (ack_of 0)

abbrev full : UmpSocket ℤ
full = record sending { our_cwnd = 65535; readings = 2 }

grow_cwnd_wraps_example : (grow_cwnd sample_env full).our_cwnd ≡ 0
unfolding time_sub get_estimated_rtt Rto.new ◌+ℤ◌ ◌-ℤ◌ ◌*ℤ◌ div_ℤ
grow_cwnd_wraps_example = grow_cwnd_wraps sample_env full refl refl (omega arith) refl

abbrev node : ℕ → ℕ → Node
node a seq = record { addr = a; packet = record (new user outgoing) { seq_num = seq } }

-- The first request was answered 50 ms ago.
abbrev answered : UmpSocket ℤ
answered = record sending {
  readings = 1;
  ack_info = record no_ack { last_ack_t = record { tv_sec = pos 0; tv_usec = pos 950000 } };
}

abbrev overdue : UmpSocket ℤ
overdue = record answered { readings = 2 }

abbrev acked : UmpSocket ℤ
acked = record sample_sock { our_data_seq_base = 2; our_data_sent = 1; ack_rep_count = 1 }
