-- ===== src/Sock/Control/Tests.antt =====
-- Control packets and calls at concrete inputs.
use user_message_protocol.Base.{◌≡◌, refl, [], ◌∷◌, some, true, ◌&&◌, ◌||◌}
use user_message_protocol.Base.Int.{ℤ}
use user_message_protocol.Packet.{
  UmpPacket, control, outgoing, new, set_flag, get_flag, ctrl_syn, ctrl_seq, ctrl_ack, ctrl_rst,
}
use user_message_protocol.Sock.{UmpSocket, closed, connecting, established, method_connect}
use user_message_protocol.Sock.Control.{
  handle_ctrl_packet, sm_handle_ctrl, connecting_handle_ctrl_packet, connecting_syn, read_syn_ack,
  read_syn, try_establish, settle_ctrl,
}
use user_message_protocol.Sock.Calls.{end_ctrl}
use user_message_protocol.Sock.States.{change_state}
use user_message_protocol.Sock.Control.Edges.{
  Edge, Passage, handle_ctrl_packet-Passage, sm_handle_ctrl-Edge,
}
use user_message_protocol.Sock.Control.Handshake.{
  connecting_handle_ctrl_packet-established, connecting_handle_ctrl_packet-unmatched,
}
use user_message_protocol.Samples.{sample_sock, sample_env}

abbrev syn_ack : UmpPacket
syn_ack =
    record (set_flag (set_flag (set_flag (new control outgoing) ctrl_syn) ctrl_seq) ctrl_ack) {
      seq_num = 700;
      ack_num = 6;
    }

abbrev dialing : UmpSocket ℤ
dialing = record sample_sock {
  state = connecting;
  public_state = connecting;
  our_ctrl_seq = 6;
  ctrl_packet_to_send = some syn_ack;
}

-- The acknowledgement of a number that was never sent.
abbrev stray_ack : UmpPacket
stray_ack = record (set_flag (new control outgoing) ctrl_ack) { ack_num = 99 }

abbrev reset_in : UmpPacket
reset_in = set_flag (new control outgoing) ctrl_rst

abbrev answered : UmpSocket ℤ
answered = record dialing { local_ctrl_packets = syn_ack ∷ reset_in ∷ [] }

handle_ctrl_packet-Passage_example :
    Passage connecting (syn_ack ∷ reset_in ∷ []) (handle_ctrl_packet sample_env answered).state
handle_ctrl_packet-Passage_example = handle_ctrl_packet-Passage sample_env answered

sm_handle_ctrl-Edge_example :
    Edge closed (sm_handle_ctrl closed sample_env sample_sock method_connect).state
sm_handle_ctrl-Edge_example = sm_handle_ctrl-Edge closed sample_env sample_sock method_connect refl

connecting_handle_ctrl_packet-established_example :
    ((dialing.syn_reced || (get_flag syn_ack ctrl_syn && get_flag syn_ack ctrl_seq)) ≡ true)
    × ((dialing.syn_ack_reced || get_flag syn_ack ctrl_ack) ≡ true)
unfolding connecting_handle_ctrl_packet connecting_syn read_syn_ack read_syn try_establish
    settle_ctrl change_state end_ctrl get_flag set_flag new
connecting_handle_ctrl_packet-established_example =
    connecting_handle_ctrl_packet-established sample_env dialing syn_ack refl refl

abbrev half_open : UmpSocket ℤ
half_open = record dialing { syn_reced = true }

connecting_handle_ctrl_packet-unmatched_example :
    ((connecting_handle_ctrl_packet sample_env half_open stray_ack).state ≡ established)
    × ((connecting_handle_ctrl_packet sample_env half_open stray_ack).ctrl_packet_to_send
        ≡ some syn_ack)
unfolding get_flag set_flag new
connecting_handle_ctrl_packet-unmatched_example =
    connecting_handle_ctrl_packet-unmatched sample_env half_open stray_ack refl refl refl refl refl
