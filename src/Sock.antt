-- ===== src/Sock.antt =====
-- `UMPSocket` of user_message_protocol/ump_sock_private.h and what all its parts share: the enums,
-- the constants, reading the clock, and handing a datagram to `ump_sendto`.
--
-- A handler takes the socket and returns the socket after it. `sleep_ms`, which the handlers get as
-- a pointer, is a field. A mutex that the socket's thread holds is a field `..._held`, and an
-- `MEvent` is the field `..._done` or `accept_ok` that tells whether it is set. `sent` collects the
-- datagrams handed to `ump_sendto`, the first one first, and `readings` counts the calls of
-- `g_get_current_time`, whose n-th result is the clock's. A node of a `GList` that other fields point
-- at has an address. A `gint` that the code keeps at 0 or above is a number of ℕ.
pub mod Ack
pub mod Receive
pub mod Calls
pub mod Window
pub mod Sending
pub mod DataAck
pub mod States
pub mod Control
pub mod Data
pub mod Thread
pub mod Locks
pub mod Life
mod Tests
use user_message_protocol.Base.{ℕ, ◌+◌, List, [], ◌∷◌, ◌++◌, Option, Bool}
use user_message_protocol.Base.Int.{ℤ}
use user_message_protocol.Clock.{TimeVal, Clock}
use user_message_protocol.Packet.{UmpPacket}
use user_message_protocol.Packet.Codec.{to_binary}
use user_message_protocol.Timer.{TmEntry}
use user_message_protocol.Rto.{Double, RtoComputer}

pub data SockState : Type 0 where
  closed connecting established closing : SockState

pub data CallMethod : Type 0 where
  method_connect method_close method_send method_receive method_no_call method_all_call : CallMethod

pub data LockState : Type 0 where
  unlocked locked : LockState

abbrev pub rec_queue_limit : ℕ
rec_queue_limit = 100

abbrev pub default_mss : ℕ
default_mss = 1400

abbrev pub max_cwnd : ℕ
max_cwnd = 512

abbrev pub ump_ctrl_timeout : ℕ
ump_ctrl_timeout = 3000

abbrev pub local_data_packet_limit : ℕ
local_data_packet_limit = 1024

abbrev pub ack_delay : ℕ
ack_delay = 100

abbrev pub req_wnd_delay : ℕ
req_wnd_delay = 500

abbrev pub rtt_min_ms : ℕ
rtt_min_ms = 50

abbrev pub timeout_limit : ℕ
timeout_limit = 15000

abbrev pub heartbeat_interval : ℕ
heartbeat_interval = 10000

-- `UMPAckInfo`.
pub record AckInfo : Type 0 where
  pub ctrl_ack_set : Bool
  pub data_ack_set : Bool
  pub ctrl_ack_data : ℕ
  pub data_ack_seq : ℕ
  pub data_ack_wnd : ℕ
  pub last_ack_t : TimeVal
  pub push_ack : Bool
  pub schedule_ack : Bool

-- A node of a `GList` of packets.
pub record Node : Type 0 where
  pub addr : ℕ
  pub packet : UmpPacket

pub record UmpSocket (D : Type 0) : Type 0 where
  pub state : SockState
  pub public_state : SockState
  pub connect_time : TimeVal
  pub close_time : TimeVal
  pub last_heartbeat : TimeVal
  pub error_occured : Bool
  pub send_reset_packet : Bool
  pub rto_cpt : RtoComputer D
  pub tm_list : List TmEntry
  pub their_wnd : ℕ
  pub our_mss : ℕ
  pub our_data_start_seq : ℕ
  pub our_data_seq_base : ℕ
  pub our_back_point : ℕ
  pub our_data_pos : ℤ
  pub our_data_sent : ℕ
  pub our_wnd_pos : ℤ
  pub our_cwnd : ℕ
  pub our_ssthresh : ℕ
  pub our_ctrl_seq : ℕ
  pub our_msg_last_seq : ℕ
  pub last_refresh_cwnd : TimeVal
  pub fast_retran : Bool
  pub ack_rep_count : ℕ
  pub ack_info : AckInfo
  pub their_ctrl_seq : ℕ
  pub our_rwnd : ℕ
  pub our_rwnd_pos_seq : ℕ
  pub their_data_seq_base : ℕ
  pub buffer_load : ℕ
  pub rcv_first_msg_end : Option ℕ
  pub rcv_data_so_far : Option ℕ
  pub rcv_data_packets : List Node
  -- Whether `prev` of the first of these nodes still shows a node that was harvested; and whether
  -- this pointer was followed.
  pub rcv_head_dangles : Bool
  pub follows_dangling : Bool
  pub rcv_packets_msg_num : ℕ
  pub local_data_packets : List UmpPacket
  pub local_ctrl_packets : List UmpPacket
  pub rec_control_packets : List UmpPacket
  pub rec_data_packets : List UmpPacket
  pub ctrl_held : Bool
  pub ctrl_locked : LockState
  pub ctrl_done : Bool
  pub ctrl_para : Option CallMethod
  pub ctrl_ok : Bool
  pub snd_held : Bool
  pub snd_locked : LockState
  pub snd_done : Bool
  pub snd_packets : Option (List UmpPacket)
  pub snd_packets_count : ℕ
  pub snd_ok : Bool
  pub rec_held : Bool
  pub rec_locked : LockState
  pub receive_called : Bool
  pub rec_done : Bool
  pub rec_msg_packets : List Node
  pub rec_msg : Option (List ℕ)
  pub rec_msg_l : ℕ
  pub rec_ok : Bool
  pub ctrl_rto : ℤ
  pub ctrl_resend_time : TimeVal
  pub ctrl_packet_to_send : Option UmpPacket
  pub ctrl_packet_sent : Bool
  pub syn_ack_reced : Bool
  pub syn_reced : Bool
  pub fin_ack_reced : Bool
  pub fin_reced : Bool
  pub act_req_wnd : Bool
  pub last_req_wnd_time : TimeVal
  pub up_req_wnd : Option UmpPacket
  pub accept_ok : Bool
  pub sleep_ms : ℤ
  pub sent : List (List ℕ)
  pub readings : ℕ
  pub next_addr : ℕ

-- What the handlers use of the libraries.
pub record Env (D : Type 0) : Type 0 where
  pub clock : Clock
  pub double : Double D

module _ {D : Type 0} where
  -- `g_get_current_time`: its result, and the socket's thread after it.
  abbrev pub now : Env D → UmpSocket D → TimeVal
  now env s = env.clock.current_time s.readings

  abbrev pub tick : UmpSocket D → UmpSocket D
  tick s = record s { readings = s.readings + 1 }

  -- `u_packet_to_binary` and `ump_sendto`: the packet holds its bytes afterwards.
  unfoldable pub send_out : UmpSocket D → UmpPacket → UmpPacket × UmpSocket D
  send_out s p = ((to_binary p).0, record s { sent = s.sent ++ ((to_binary p).1 ∷ []) })
