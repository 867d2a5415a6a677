-- ===== src/Sock/Calls.antt =====
-- The lock machines of user_message_protocol/ump_sock.c through which the calls of the application
-- reach the socket's thread and are answered: control calls, sending and receiving. The enter and
-- leave functions of the lock states do nothing.
use user_message_protocol.Base.{
  ℕ, ◌+◌, List, [], ◌∷◌, Option, none, some, Bool, true, false, u16, ◌==◌, length, if◌then◌else◌,
  ◌||◌, not,
}
use user_message_protocol.Packet.{UmpPacket}
use user_message_protocol.Sock.{
  UmpSocket, Node, CallMethod, method_connect, method_close, method_send, method_receive,
  method_no_call, method_all_call, LockState, locked, unlocked, SockState, established,
}
use user_message_protocol.Sock.Receive.{end_receive_internal}

abbrev pub method_code : CallMethod → ℕ
method_code method_connect = 0
method_code method_close = 1
method_code method_send = 2
method_code method_receive = 3
method_code method_no_call = 4
method_code method_all_call = 5

abbrev pub same_method : CallMethod → CallMethod → Bool
same_method m n = method_code m == method_code n

-- Whether an answer to `m` is an answer to the call that is there. (The code follows the pointer
-- `ctrl_para` here, which is not null while the lock is held.)
abbrev pub answers : CallMethod → Option CallMethod → Bool
answers method_all_call para = true
answers m none = false
answers m (some n) = same_method n m

abbrev pub is_established : SockState → Bool
is_established established = true
is_established _ = false

module _ {D : Type 0} where
  -- `ump_ctrlunlocked_end_ctrl` and `ump_ctrllocked_end_ctrl`.
  abbrev pub end_ctrl_as : LockState → CallMethod → Bool → UmpSocket D → UmpSocket D
  end_ctrl_as unlocked m result s = record s {
    accept_ok = s.accept_ok || same_method method_connect m;
  }
  end_ctrl_as locked m result s =
      if answers m s.ctrl_para
      then record s {
        ctrl_ok = result;
        ctrl_para = none;
        ctrl_locked = unlocked;
        ctrl_held = false;
        ctrl_done = true;
      }
      else s

  -- `ump_end_ctrl`.
  unfoldable pub end_ctrl : UmpSocket D → CallMethod → Bool → UmpSocket D
  end_ctrl s m result = end_ctrl_as s.ctrl_locked m result s

  -- `ump_sndunlocked_end_snd` and `ump_sndlocked_end_snd`.
  abbrev pub end_snd_as : LockState → Bool → UmpSocket D → UmpSocket D
  end_snd_as unlocked result s = s
  end_snd_as locked result s = record s {
    snd_locked = unlocked;
    snd_ok = result;
    our_data_start_seq =
        if result
        then u16 (s.our_data_start_seq + u16 s.snd_packets_count)
        else s.our_data_start_seq;
    snd_packets = none;
    snd_packets_count = 0;
    snd_held = false;
    snd_done = true;
  }

  -- `ump_end_send`.
  unfoldable pub end_send : UmpSocket D → Bool → UmpSocket D
  end_send s result = end_snd_as s.snd_locked result s

  -- Lines 548 to 565: the lock was taken and a call is there.
  unfoldable pub receive_call : List Node → UmpSocket D → UmpSocket D
  receive_call (n ∷ ns) s = record (end_receive_internal (record s { rec_ok = true })) {
    receive_called = false;
    rec_held = false;
    rec_done = true;
  }
  receive_call [] s =
      if not (is_established s.state) || s.error_occured
      then record s { rec_ok = false; receive_called = false; rec_held = false; rec_done = true }
      else record s { rec_locked = locked }

  unfoldable pub handle_receive_as : LockState → Bool → UmpSocket D → UmpSocket D
  unfolding receive_call
  handle_receive_as locked free s = s
  handle_receive_as unlocked false s = s
  handle_receive_as unlocked true s =
      if s.receive_called then receive_call s.rec_msg_packets (record s { rec_held = true }) else s

  -- `ump_handle_receive`; `free` is what `g_mutex_trylock` returns.
  unfoldable pub handle_receive : UmpSocket D → Bool → UmpSocket D
  unfolding handle_receive_as
  handle_receive s free = handle_receive_as s.rec_locked free s

  -- The application's halves, up to the wait: `ump_sock_control_call`, `ump_sock_send` and
  -- `ump_sock_receive`. Each runs while no thread holds its mutex.
  unfoldable pub control_call : UmpSocket D → CallMethod → UmpSocket D
  control_call s m = record s { ctrl_para = some m; ctrl_done = false }

  -- `ump_sock_connect` and `ump_sock_close`.
  abbrev pub sock_connect : UmpSocket D → UmpSocket D
  sock_connect s = control_call s method_connect

  abbrev pub sock_close : UmpSocket D → UmpSocket D
  sock_close s = control_call s method_close

  unfoldable pub sock_send : UmpSocket D → List UmpPacket → UmpSocket D
  sock_send s packets = record s {
    snd_packets = some packets;
    snd_packets_count = length packets;
    snd_done = false;
  }

  unfoldable pub sock_receive : UmpSocket D → UmpSocket D
  sock_receive s = record s { receive_called = true; rec_done = false }
