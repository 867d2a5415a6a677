-- ===== src/Sock/Data/Tests.antt =====
-- A message of two packets whose numbers go over the end of the circle, coming in the wrong order.
use user_message_protocol.Base.{
  ℕ, zero, suc, ◌+◌, ◌≡◌, ◌<◌, All, refl, List, [], ◌∷◌, some, true, false, arith, length,
}
use user_message_protocol.Base.Int.{ℤ}
use user_message_protocol.Packet.{
  UmpPacket, user, incoming, new, get_flag, set_flag, data_seq, data_bdr,
}
use user_message_protocol.Sock.{UmpSocket, established, locked, unlocked}
use user_message_protocol.Sock.Calls.{sock_receive, handle_receive}
use user_message_protocol.Sock.Data.{
  handle_data_packets, sm_handle_data_packet, established_handle_data_packet, store_packet,
  all_ahead, store_linked, insert_packet, insert_back, extend_at, extend_from, run_on, locate,
}
use user_message_protocol.Seq.{cmp_in_base}
use user_message_protocol.Sock.Ack.{set_our_ack_info}
use user_message_protocol.Sock.DataAck.{handle_data_ack, handle_wnd_notify}
use user_message_protocol.Sock.Receive.{
  check_rcv_data_so_far, check_at, check_packet, message_complete, complete_as, harvest_messages,
  harvest_at, until, behind, packet_at, end_receive, end_receive_internal,
}
use user_message_protocol.Sock.Data.Sent.{
  Sent, IsSent, IsPart, Incoming, part, stale, bare, number, has_number, first_missing, loads,
}
use user_message_protocol.Sock.Data.Reordering.{IsReady, handle_data_packets-first_missing}
use user_message_protocol.Sock.Data.Arrival.{
  handle_data_packets-answered, handle_data_packets-waits,
}
use user_message_protocol.Sock.Data.Called.{handle_receive-answered}
use user_message_protocol.Samples.{sample_sock, sample_env}

abbrev two : Sent
two = record { start = 65535; count = 2; load = λ j. (5 + j) ∷ [] }

two-IsSent : IsSent two
two-IsSent = record { start = omega arith; nonempty = omega arith; short = omega arith }

abbrev first : UmpPacket
first = record (set_flag (new user incoming) data_seq) {
  seq_num = 65535;
  user_data = some (5 ∷ []);
}

abbrev second : UmpPacket
second = record (set_flag (set_flag (new user incoming) data_seq) data_bdr) {
  seq_num = 0;
  user_data = some (6 ∷ []);
}

first-IsPart : IsPart two 0 first
unfolding set_flag get_flag new
first-IsPart = record {
  inside = omega arith;
  numbered = refl;
  in_sequence = refl;
  ending = refl;
  bytes = refl;
}

second-IsPart : IsPart two 1 second
unfolding set_flag get_flag new
second-IsPart = record {
  inside = omega arith;
  numbered = refl;
  in_sequence = refl;
  ending = refl;
  bytes = refl;
}

-- A packet of an earlier message.
abbrev old : UmpPacket
old = record first { seq_num = 65530 }

abbrev swapped : List UmpPacket
swapped = second ∷ old ∷ new user incoming ∷ first ∷ second ∷ []

new-bare : get_flag (new user incoming) data_seq ≡ false
unfolding get_flag new
new-bare = refl

swapped-Incoming : All (Incoming two) swapped
swapped-Incoming = (
  part 1 second-IsPart,
  (
    stale 5 (omega arith) (omega arith) refl,
    (bare new-bare, (part 0 first-IsPart, (part 1 second-IsPart, tt))),
  ),
)

swapped-whole : (i : ℕ) → i < 2 → has_number (number two i) swapped ≡ true
unfolding has_number get_flag set_flag new
swapped-whole zero h = refl
swapped-whole (suc zero) h = refl
swapped-whole (suc (suc i)) h = absurd (omega arith)

abbrev waiting : UmpSocket ℤ
waiting = record sample_sock {
  state = established;
  their_data_seq_base = 65535;
  rec_locked = locked;
}

abbrev idle : UmpSocket ℤ
idle = record sample_sock { state = established; their_data_seq_base = 65535 }

waiting-IsReady : IsReady two waiting
waiting-IsReady = record {
  state = refl;
  base = refl;
  list = refl;
  so_far = refl;
  none_complete = refl;
  none_taken = refl;
}

idle-IsReady : IsReady two idle
idle-IsReady = record {
  state = refl;
  base = refl;
  list = refl;
  so_far = refl;
  none_complete = refl;
  none_taken = refl;
}

-- Only the second packet.
abbrev half : List UmpPacket
half = second ∷ []

half-first_missing : first_missing 2 65535 half ≡ 65535
unfolding first_missing has_number get_flag set_flag new
half-first_missing = refl

half-gap : has_number (number two 0) half ≡ false
unfolding has_number get_flag set_flag new
half-gap = refl

half-Incoming : All (Incoming two) half
half-Incoming = (part 1 second-IsPart, tt)

-- A message of one packet whose end comes after a packet of a later message; then the packet between
-- them makes the walk follow the pointer to what was harvested.
abbrev ending : UmpPacket
ending = record second { seq_num = 65535 }

abbrev later : UmpPacket
later = record first { seq_num = 1 }

overtaken :
    (handle_data_packets sample_env waiting (later ∷ ending ∷ second ∷ [])).follows_dangling ≡ true
unfolding handle_data_packets sm_handle_data_packet established_handle_data_packet store_packet
    all_ahead store_linked insert_packet insert_back extend_at extend_from run_on locate
    check_rcv_data_so_far check_at check_packet message_complete complete_as harvest_messages
    harvest_at until behind packet_at end_receive end_receive_internal set_our_ack_info
    handle_data_ack handle_wnd_notify cmp_in_base get_flag set_flag new
overtaken = refl

handle_data_packets-first_missing_example :
    (handle_data_packets sample_env waiting half).their_data_seq_base ≡ first_missing 2 65535 half
handle_data_packets-first_missing_example =
    handle_data_packets-first_missing two two-IsSent sample_env waiting half waiting-IsReady
      half-Incoming

handle_data_packets-answered_example :
    let t = handle_data_packets sample_env waiting swapped in
    (t.rec_msg ≡ some (loads two 0 2))
    × (t.rec_msg_l ≡ length (loads two 0 2))
    × (t.rec_ok ≡ true)
    × (t.rec_done ≡ true)
    × (t.rec_locked ≡ unlocked)
    × IsReady (record two { start = number two 2 }) t
handle_data_packets-answered_example =
    handle_data_packets-answered two sample_env waiting swapped two-IsSent waiting-IsReady refl
      swapped-Incoming swapped-whole

handle_receive-answered_example :
    let t = handle_receive (sock_receive (handle_data_packets sample_env idle swapped)) true in
    (t.rec_msg ≡ some (loads two 0 2)) × (t.rec_ok ≡ true) × (t.rec_done ≡ true)
handle_receive-answered_example =
    handle_receive-answered two sample_env idle swapped two-IsSent idle-IsReady refl
      swapped-Incoming swapped-whole

handle_data_packets-waits_example :
    let t = handle_data_packets sample_env waiting half in
    (t.rec_msg ≡ waiting.rec_msg) × (t.rec_msg_packets ≡ []) × (t.rec_locked ≡ waiting.rec_locked)
handle_data_packets-waits_example =
    handle_data_packets-waits two sample_env waiting half 0 two-IsSent waiting-IsReady half-Incoming
      (omega arith) half-gap
