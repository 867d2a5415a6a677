-- ===== src/Sock/Life.antt =====
-- The beginning and the end of a socket, of user_message_protocol/ump_sock.c: `ump_sock_new` and
-- `ump_sock_free`. Creating mutexes, events and queues is taken to succeed; a thread that cannot be
-- created ends in `ump_sock_free` at once.
pub mod Calls
use user_message_protocol.Base.{ℕ, ◌/◌, [], none, false, true}
use user_message_protocol.Base.Int.{pos}
use user_message_protocol.Clock.{TimeVal}
use user_message_protocol.Rto
use user_message_protocol.Rto.{Double}
use user_message_protocol.Sock.{
  UmpSocket, AckInfo, closed, unlocked, rec_queue_limit, default_mss, max_cwnd, method_all_call,
}
use user_message_protocol.Sock.Calls.{end_ctrl, end_send}
use user_message_protocol.Sock.Receive.{end_receive}
use user_message_protocol.Sock.States.{init_ctrl_rto}

-- Zeroed memory.
abbrev no_time : TimeVal
no_time = record { tv_sec = pos 0; tv_usec = pos 0 }

abbrev no_ack_info : AckInfo
no_ack_info = record {
  ctrl_ack_set = false;
  data_ack_set = false;
  ctrl_ack_data = 0;
  data_ack_seq = 0;
  data_ack_wnd = 0;
  last_ack_t = no_time;
  push_ack = false;
  schedule_ack = false;
}

module _ {D : Type 0} where
  -- `ump_sock_new`. `seq` is what `g_random_int_range` returns; `e0` and `m0` are what the memory
  -- of the estimator holds.
  unfoldable pub sock_new : Double D → D → D → ℕ → UmpSocket D
  unfolding init_ctrl_rto
  sock_new double e0 m0 seq = init_ctrl_rto (record {
    state = closed;
    public_state = closed;
    connect_time = no_time;
    close_time = no_time;
    last_heartbeat = no_time;
    error_occured = false;
    send_reset_packet = false;
    rto_cpt = Rto.new double e0 m0;
    tm_list = [];
    their_wnd = 0;
    our_mss = default_mss;
    our_data_start_seq = seq;
    our_data_seq_base = seq;
    our_back_point = 0;
    our_data_pos = pos 0;
    our_data_sent = 0;
    our_wnd_pos = pos 0;
    our_cwnd = 1;
    our_ssthresh = max_cwnd;
    our_ctrl_seq = seq;
    our_msg_last_seq = 0;
    last_refresh_cwnd = no_time;
    fast_retran = false;
    ack_rep_count = 0;
    ack_info = no_ack_info;
    their_ctrl_seq = 0;
    our_rwnd = rec_queue_limit / 2;
    our_rwnd_pos_seq = 0;
    their_data_seq_base = 0;
    buffer_load = 0;
    rcv_first_msg_end = none;
    rcv_data_so_far = none;
    rcv_data_packets = [];
    rcv_head_dangles = false;
    follows_dangling = false;
    rcv_packets_msg_num = 0;
    local_data_packets = [];
    local_ctrl_packets = [];
    rec_control_packets = [];
    rec_data_packets = [];
    ctrl_held = false;
    ctrl_locked = unlocked;
    ctrl_done = false;
    ctrl_para = none;
    ctrl_ok = false;
    snd_held = false;
    snd_locked = unlocked;
    snd_done = false;
    snd_packets = none;
    snd_packets_count = 0;
    snd_ok = false;
    rec_held = false;
    rec_locked = unlocked;
    receive_called = false;
    rec_done = false;
    rec_msg_packets = [];
    rec_msg = none;
    rec_msg_l = 0;
    rec_ok = false;
    ctrl_rto = pos 0;
    ctrl_resend_time = no_time;
    ctrl_packet_to_send = none;
    ctrl_packet_sent = true;
    syn_ack_reced = false;
    syn_reced = false;
    fin_ack_reced = false;
    fin_reced = false;
    act_req_wnd = false;
    last_req_wnd_time = no_time;
    up_req_wnd = none;
    accept_ok = false;
    sleep_ms = pos 0;
    sent = [];
    readings = 0;
    next_addr = 0;
  })

  -- `ump_sock_free`, lines 1707 to 1740, once the thread has stopped: the calls that wait are
  -- answered, and the packets are given back.
  unfoldable pub sock_free : UmpSocket D → UmpSocket D
  sock_free s = record (end_receive (end_send (end_ctrl s method_all_call false) false) false) {
    rec_control_packets = [];
    rec_data_packets = [];
    rcv_data_packets = [];
    local_data_packets = [];
    local_ctrl_packets = [];
    rec_msg_packets = [];
    ctrl_packet_to_send = none;
    up_req_wnd = none;
  }
