-- ===== src/Sock/Tests.antt =====
-- A socket with three calls waiting, at the places where calls are answered.
use user_message_protocol.Base.{
  ◌≡◌, ◌≢◌, refl, ap, [], ◌∷◌, Option, none, some, Bool, true, false, arith,
}
use user_message_protocol.Base.Int.{ℤ}
use user_message_protocol.Packet.{UmpPacket, user, outgoing, new, set_flag, data_bdr}
use user_message_protocol.Sock.{UmpSocket, closed, established, locked, unlocked, method_close}
use user_message_protocol.Sock.States.{connection_error_occured}
use user_message_protocol.Sock.States.Release.{connection_error_occured_releases}
use user_message_protocol.Sock.Locks.{LocksAgree}
use user_message_protocol.Samples.{sample_sock, sample_env}

abbrev last_packet : UmpPacket
last_packet = set_flag (new user outgoing) data_bdr

abbrev busy : UmpSocket ℤ
busy = record sample_sock {
  state = established;
  public_state = established;
  ctrl_held = true;
  ctrl_locked = locked;
  ctrl_para = some method_close;
  snd_held = true;
  snd_locked = locked;
  snd_packets = some (last_packet ∷ []);
  rec_held = true;
  rec_locked = locked;
  receive_called = true;
  rcv_data_packets = record { addr = 4; packet = last_packet } ∷ [];
  rcv_data_so_far = some 4;
}

abbrev is_some {ℓ} : {A : Type ℓ} → Option A → Bool
is_some none = false
is_some (some a) = true

true-ne-false : true ≢ false
true-ne-false e = ground arith

busy-LocksAgree : LocksAgree busy
busy-LocksAgree = record {
  agreement = record {
    ctrl = refl;
    snd = refl;
    rec = refl;
    ctrl_call = λ _ e. true-ne-false (ap is_some e);
    snd_call = λ _ e. true-ne-false (ap is_some e);
    rec_call = λ _. refl;
    visible = refl;
  };
}

connection_error_occured_releases_example :
    ((connection_error_occured sample_env busy).state ≡ closed)
    × ((connection_error_occured sample_env busy).public_state ≡ closed)
    × ((connection_error_occured sample_env busy).error_occured ≡ true)
    × ((connection_error_occured sample_env busy).ctrl_locked ≡ unlocked)
    × ((connection_error_occured sample_env busy).snd_locked ≡ unlocked)
    × ((connection_error_occured sample_env busy).rec_locked ≡ unlocked)
    × ((connection_error_occured sample_env busy).ctrl_held ≡ false)
    × ((connection_error_occured sample_env busy).snd_held ≡ false)
    × ((connection_error_occured sample_env busy).rec_held ≡ false)
    × (busy.ctrl_locked ≡ locked → (connection_error_occured sample_env busy).ctrl_done ≡ true)
    × (busy.snd_locked ≡ locked → (connection_error_occured sample_env busy).snd_done ≡ true)
    × (busy.rec_locked ≡ locked → (connection_error_occured sample_env busy).rec_done ≡ true)
connection_error_occured_releases_example =
    connection_error_occured_releases sample_env busy busy-LocksAgree
