-- ===== src/Samples.antt =====
-- Concrete inputs that the tests share: a clock, numbers in place of `double`, and a socket as
-- `ump_sock_new` of user_message_protocol/ump_sock.c leaves it.
use user_message_protocol.Base.{◌/◌, [], none, true, false, arith}
use user_message_protocol.Base.Int.{ℤ, pos, ◌+ℤ◌, ◌-ℤ◌, ◌*ℤ◌, ltb_ℤ, int_laws, eq_of_parts}
use user_message_protocol.Clock.{TimeVal, Clock}
use user_message_protocol.Clock.Difference.{micros}
use user_message_protocol.Timer.Timeout.{AddsMicros}
use user_message_protocol.Rto
use user_message_protocol.Rto.{Double}
use user_message_protocol.Rto.Bounds.{IsOrdered}
use user_message_protocol.Sock.{UmpSocket, AckInfo, Env, closed, unlocked}

-- A clock of one second a reading.
abbrev pub sample_clock : Clock
sample_clock = record {
  current_time = λ n. record { tv_sec = pos n; tv_usec = pos 0 };
  time_val_add = λ t us. record t { tv_usec = t.tv_usec +ℤ us };
}

pub sample_clock-AddsMicros : AddsMicros sample_clock
unfolding micros
sample_clock-AddsMicros t us = eq_of_parts _ _ (omega int_laws)

-- Integers in place of `double`.
abbrev pub sample_double : Double ℤ
sample_double = record {
  add = λ x y. x +ℤ y;
  sub = λ x y. x -ℤ y;
  mul = λ x y. x *ℤ y;
  negate = λ x. pos 0 -ℤ x;
  lt = ltb_ℤ;
  decimal = λ n d. pos (n / d);
  of_glong = λ x. x;
  to_glong = λ x. x;
}

pub sample_double-IsOrdered : IsOrdered sample_double
unfolding ◌*ℤ◌ ◌+ℤ◌
sample_double-IsOrdered = record {
  irrefl = λ x. ground arith;
  constants = ground arith;
  doubled = λ x h. ground arith;
  asym = λ x y h. ground arith;
  starts = ground arith;
}

abbrev pub sample_env : Env ℤ
sample_env = record { clock = sample_clock; double = sample_double }

abbrev pub time_zero : TimeVal
time_zero = record { tv_sec = pos 0; tv_usec = pos 0 }

abbrev pub no_ack : AckInfo
no_ack = record {
  ctrl_ack_set = false;
  data_ack_set = false;
  ctrl_ack_data = 0;
  data_ack_seq = 0;
  data_ack_wnd = 0;
  last_ack_t = time_zero;
  push_ack = false;
  schedule_ack = false;
}

abbrev pub sample_sock : UmpSocket ℤ
sample_sock = record {
  state = closed;
  public_state = closed;
  connect_time = time_zero;
  close_time = time_zero;
  last_heartbeat = time_zero;
  error_occured = false;
  send_reset_packet = false;
  rto_cpt = Rto.new sample_double (pos 0) (pos 0);
  tm_list = [];
  their_wnd = 0;
  our_mss = 1400;
  our_data_start_seq = 0;
  our_data_seq_base = 0;
  our_back_point = 0;
  our_data_pos = pos 0;
  our_data_sent = 0;
  our_wnd_pos = pos 0;
  our_cwnd = 1;
  our_ssthresh = 512;
  our_ctrl_seq = 0;
  our_msg_last_seq = 0;
  last_refresh_cwnd = time_zero;
  fast_retran = false;
  ack_rep_count = 0;
  ack_info = no_ack;
  their_ctrl_seq = 0;
  our_rwnd = 0;
  our_rwnd_pos_seq = 0;
  their_data_seq_base = 0;
  buffer_load = 0;
  rcv_first_msg_end = none;
  rcv_data_so_far = none;
  rcv_data_packets = [];
  rcv_head_dangles = false;
  follows_dangling = false;
  rcv_packets_msg_num = 0;
  local_data_packets = [];
  local_ctrl_packets = [];
  rec_control_packets = [];
  rec_data_packets = [];
  ctrl_held = false;
  ctrl_locked = unlocked;
  ctrl_done = false;
  ctrl_para = none;
  ctrl_ok = false;
  snd_held = false;
  snd_locked = unlocked;
  snd_done = false;
  snd_packets = none;
  snd_packets_count = 0;
  snd_ok = false;
  rec_held = false;
  rec_locked = unlocked;
  receive_called = false;
  rec_done = false;
  rec_msg_packets = [];
  rec_msg = none;
  rec_msg_l = 0;
  rec_ok = false;
  ctrl_rto = pos 3000;
  ctrl_resend_time = time_zero;
  ctrl_packet_to_send = none;
  ctrl_packet_sent = true;
  syn_ack_reced = false;
  syn_reced = false;
  fin_ack_reced = false;
  fin_reced = false;
  act_req_wnd = false;
  last_req_wnd_time = time_zero;
  up_req_wnd = none;
  accept_ok = false;
  sleep_ms = pos 0;
  sent = [];
  readings = 0;
  next_addr = 0;
}
