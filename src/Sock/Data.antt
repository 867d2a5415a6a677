-- ===== src/Sock/Data.antt =====
-- Data packets in each state, of user_message_protocol/ump_sock.c, the timeout of data packets, and
-- what the socket's thread sends on its own: window probes, heartbeats and resets. The development
-- is of the build without `RAND_DROP`.
pub mod Insert
pub mod View
pub mod Place
pub mod Sent
pub mod Held
pub mod Extend
pub mod Advance
pub mod Complete
pub mod Apart
pub mod Gather
pub mod Store
pub mod Receiving
pub mod Closing
pub mod Reassembly
pub mod Reordering
pub mod Arrival
pub mod Called
mod Tests
use user_message_protocol.Base.{
  ℕ, ◌+◌, ◌-◌, ◌/◌, List, [], ◌∷◌, ◌++◌, Option, none, some, Bool, true, false, ltb, ◌==◌, ◌||◌,
  ◌&&◌, not, u16, max, if◌then◌else◌,
}
use user_message_protocol.Base.Int.{ℤ, pos, ltb_ℤ, leb_ℤ, min_ℤ, ◌-ℤ◌}
use mathlib.Core.List.{reverse}
use user_message_protocol.Clock.{time_sub}
use user_message_protocol.Seq.{cmp_in_base}
use user_message_protocol.Packet.{
  UmpPacket, PacketType, user, control, outgoing, new, get_flag, set_flag, data_seq, data_reqwnd,
  ctrl_rst,
}
use user_message_protocol.Timer.{TmEntry, get_next_timeout}
use user_message_protocol.Rto.{get_rto, timeout_occur}
use user_message_protocol.Sock.{
  UmpSocket, Env, Node, now, tick, send_out, SockState, closed, connecting, established, closing,
  timeout_limit, req_wnd_delay, heartbeat_interval,
}
use user_message_protocol.Sock.Ack.{set_our_ack_info}
use user_message_protocol.Sock.Calls.{end_send, is_established}
use user_message_protocol.Sock.Receive.{check_rcv_data_so_far, is_nil}
use user_message_protocol.Sock.Window.{
  cmp_in_rcvbase, relative_of, seq_of, refresh_snd_wnd_pos, refresh_back_point,
}
use user_message_protocol.Sock.DataAck.{handle_data_ack}
use user_message_protocol.Sock.States.{connection_error_occured}

-- Lines 1362 to 1372: the list is walked from its last node on, `rev` is what is still in front of
-- the place and `passed` what is behind it. `none`: a packet of this number is there already.
unfoldable pub insert_back : ℕ → Node → List Node → List Node → Option (List Node)
insert_back base n [] passed = some (n ∷ passed)
insert_back base n (t ∷ rev) passed =
    let further = insert_back base n rev (t ∷ passed) in
    if ltb_ℤ (cmp_in_base base n.packet.seq_num t.packet.seq_num) (pos 0)
    then further
    else if n.packet.seq_num == t.packet.seq_num
    then none
    else some (reverse (t ∷ rev) ++ n ∷ passed)

unfoldable pub insert_packet : ℕ → Node → List Node → Option (List Node)
unfolding insert_back
insert_packet base n ns = insert_back base n (reverse ns) []

-- Whether the walk from the last node goes past all of them, to what the first one's `prev` shows.
unfoldable pub all_ahead : ℕ → Node → List Node → Bool
all_ahead base n [] = true
all_ahead base n (t ∷ ts) =
    ltb_ℤ (cmp_in_base base n.packet.seq_num t.packet.seq_num) (pos 0) && all_ahead base n ts

-- Lines 1384 to 1388: from the node `n` on, over the nodes behind it, as long as the numbers go on.
unfoldable pub run_on : Node → List Node → Node
run_on n [] = n
run_on n (m ∷ ms) = if u16 (n.packet.seq_num + 1) == m.packet.seq_num then run_on m ms else n

-- A node and what is behind it.
unfoldable pub locate : ℕ → List Node → Option (Node × List Node)
locate a [] = none
locate a (n ∷ ns) = if n.addr == a then some (n, ns) else locate a ns

-- The probe packet, made at its first use.
unfoldable pub probe_packet : Option UmpPacket → UmpPacket
probe_packet none = set_flag (new user outgoing) data_reqwnd
probe_packet (some p) = p

module _ {D : Type 0} where
  -- Lines 1384 to 1394; `fresh` is `check_if_get_msg` before the loop.
  unfoldable pub extend_from : Bool → Node → List Node → UmpSocket D → UmpSocket D
  unfolding run_on
  extend_from fresh n ns s =
      let last = run_on n ns in
      let s1 = record s {
        rcv_data_so_far = some last.addr;
        their_data_seq_base = u16 (last.packet.seq_num + 1);
      } in
      if fresh || not (last.addr == n.addr) then check_rcv_data_so_far s1 else s1

  unfoldable pub extend_at : Option ℕ → List Node → UmpSocket D → UmpSocket D
  unfolding extend_from locate
  extend_at none [] s = s
  extend_at none (n ∷ ns) s =
      if n.packet.seq_num == s.their_data_seq_base then extend_from true n ns s else s
  extend_at (some a) nodes s = elim (locate a nodes) [
    | none ↦ s
    | some (n, ns) ↦ extend_from false n ns s
  ]

  -- There is a first node, and its `prev` shows a node that was harvested.
  abbrev pub dangles : UmpSocket D → Bool
  dangles s = s.rcv_head_dangles && not (is_nil s.rcv_data_packets)

  -- The first node of a list that was empty has no `prev`.
  unfoldable pub store_linked : UmpSocket D → UmpPacket → UmpSocket D
  unfolding insert_packet extend_at
  store_linked s p =
      elim (insert_packet s.their_data_seq_base (record { addr = s.next_addr; packet = p })
        s.rcv_data_packets) [
          | none ↦ s
          | some nodes ↦ extend_at s.rcv_data_so_far nodes (record s {
            rcv_data_packets = nodes;
            rcv_head_dangles = dangles s;
            next_addr = s.next_addr + 1;
          })
        ]

  -- Lines 1361 to 1395. A packet that belongs in front of the first node makes the walk follow the
  -- `prev` of this node; where it dangles, what the code does then is left open.
  unfoldable pub store_packet : UmpSocket D → UmpPacket → UmpSocket D
  unfolding store_linked all_ahead
  store_packet s p =
      if dangles s
        && all_ahead s.their_data_seq_base (record { addr = s.next_addr; packet = p })
            s.rcv_data_packets
      then record s { follows_dangling = true }
      else store_linked s p

  -- `ump_established_handle_data_packet`.
  unfoldable pub established_handle_data_packet : Env D → UmpSocket D → UmpPacket → UmpSocket D
  unfolding store_packet
  established_handle_data_packet env s p =
      let s1 = handle_data_ack env s p in
      if not (get_flag p data_seq)
      then s1
      else if ltb_ℤ (cmp_in_rcvbase s1 p.seq_num s1.their_data_seq_base) (pos 0)
      then s1
      else store_packet s1 p

  -- The column `sm_handle_data_packet`.
  unfoldable pub sm_handle_data_packet : SockState → Env D → UmpSocket D → UmpPacket → UmpSocket D
  sm_handle_data_packet closed env s p = handle_data_ack env s p
  sm_handle_data_packet connecting env s p = s
  sm_handle_data_packet established env s p = established_handle_data_packet env s p
  sm_handle_data_packet closing env s p = handle_data_ack env s p

  -- The loop of `ump_handle_data_packet`.
  unfoldable pub handle_data_packets : Env D → UmpSocket D → List UmpPacket → UmpSocket D
  handle_data_packets env s [] = record s { local_data_packets = [] }
  handle_data_packets env s (p ∷ ps) =
      let s1 = record s { local_data_packets = ps } in
      let s2 = if get_flag p data_seq then set_our_ack_info s1 false else s1 in
      handle_data_packets env (sm_handle_data_packet s2.state env s2 p) ps

  -- `ump_handle_data_packet`.
  unfoldable pub handle_data_packet : Env D → UmpSocket D → UmpSocket D
  handle_data_packet env s = handle_data_packets env s s.local_data_packets

  -- Lines 692 to 701: everything from the base on is sent again.
  unfoldable pub go_back : Env D → UmpSocket D → UmpSocket D
  go_back env s =
      let s1 =
        refresh_back_point (record s { our_ssthresh = max (s.our_cwnd / 2) 2; our_cwnd = 1 })
          (seq_of s s.our_data_pos) in
      let s2 = record s1 {
        our_data_pos = relative_of s1 s1.our_data_seq_base;
        ack_rep_count = 0;
        fast_retran = false;
        rto_cpt = timeout_occur env.double s1.rto_cpt;
      } in
      record (refresh_snd_wnd_pos s2) { sleep_ms = pos 0 }

  -- `get_next_timeout` reads the clock where a packet is in flight.
  abbrev pub read_if_any : List TmEntry → UmpSocket D → UmpSocket D
  read_if_any [] s = s
  read_if_any (e ∷ tl) s = tick s

  -- `ump_handle_data_timeout`.
  unfoldable pub handle_data_timeout : Env D → UmpSocket D → UmpSocket D
  handle_data_timeout env s =
      let (fired, left) = get_next_timeout (now env s) s.tm_list in
      let s1 = record (read_if_any s.tm_list s) { tm_list = left } in
      elim fired [
        | none ↦ s1
        | some seq ↦
            if ltb_ℤ (get_rto env.double s1.rto_cpt) (pos timeout_limit)
            then go_back env s1
            else connection_error_occured env (end_send s1 false)
      ]

  -- `ump_act_req_wnd`.
  unfoldable pub act_req_wnd : Env D → UmpSocket D → UmpSocket D
  unfolding probe_packet
  act_req_wnd env s =
      let delay = time_sub (now env s) s.last_req_wnd_time in
      if not s.act_req_wnd
      then s
      else if leb_ℤ (pos req_wnd_delay) delay
      then (let (p, s1) = send_out (tick s) (probe_packet s.up_req_wnd) in
          record s1 { up_req_wnd = some p; sleep_ms = min_ℤ s.sleep_ms (pos req_wnd_delay) })
      else record (tick s) { sleep_ms = min_ℤ s.sleep_ms (pos req_wnd_delay -ℤ delay) }

  -- `ump_handle_send_heartbeat`.
  unfoldable pub handle_send_heartbeat : Env D → UmpSocket D → UmpSocket D
  handle_send_heartbeat env s =
      if not (is_established s.state)
      then s
      else if ltb_ℤ (pos heartbeat_interval) (time_sub (now env s) s.last_heartbeat)
      then record (set_our_ack_info (tick s) false) { last_heartbeat = now env s; sleep_ms = pos 0 }
      else tick s

  -- `ump_handle_send_reset_packet`, with `ump_send_reset_packet` of ump_misc.c.
  unfoldable pub handle_send_reset_packet : UmpSocket D → UmpSocket D
  handle_send_reset_packet s =
      if s.send_reset_packet
      then record ((send_out s (set_flag (new control outgoing) ctrl_rst)).1) {
        send_reset_packet = false;
      }
      else s
