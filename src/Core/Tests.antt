-- ===== src/Core/Tests.antt =====
-- A core that a peer asks for a connection, at concrete inputs.
use user_message_protocol.Base.{ℕ, ◌≡◌, refl, ◌&&◌, if◌then◌else◌, none, some, true, false, arith}
use user_message_protocol.Base.Int.{ℤ, pos}
use user_message_protocol.Packet.{
  UmpPacket, control, user, incoming, new, set_flag, get_flag, ctrl_syn,
}
use user_message_protocol.Sock.{UmpSocket, established}
use user_message_protocol.Sock.Thread.{deliver}
use user_message_protocol.Core.{Peer, UmpCore, core_bind, new_core}
use user_message_protocol.Core.Dispatch.{receive, find_receiver, admit}
use user_message_protocol.Core.Connections.{
  accept, accepts, sleeps, accept_turn, is_ready, connect_begin,
}
use user_message_protocol.Core.Connections.Accepting.{Handover, accept_takes, accept_misses}
use user_message_protocol.Core.Clean.{core_close, clean, goes}
use user_message_protocol.Core.Clean.Exact.{is_looked_at, clean-exact}
use user_message_protocol.Core.Connections.Asking.{to_connect, connect_begin_lem}
use user_message_protocol.Core.Place.{nowhere, in_backlog, occupant, At, IsTidy, Follows}
use user_message_protocol.Core.Steps.{
  by_packet, by_accept, by_sock, Reach, here, step, run_sock, Step-Follows, core_bind-always-IsTidy,
}
use user_message_protocol.Core.Backlog.{IsBounded, backlog-IsBounded}
use user_message_protocol.Core.Release.{core_close_frees}
use user_message_protocol.Packet.Codec.{write}
use user_message_protocol.Packet.Codec.RoundTrip.{IsSendable, seen}
use user_message_protocol.Event
use user_message_protocol.Event.{MEvent}
use user_message_protocol.Core.Threads.{goes_on, receive_turn}
use user_message_protocol.Core.Threads.Turns.{Queued, receive_turn-write}
use user_message_protocol.Core.Table.{SockAddr, inaddr_eq}
use user_message_protocol.Core.Samples.{entry_lists, entry_lists-IsTable}
use user_message_protocol.Samples.{sample_sock, sample_clock}

abbrev peer : SockAddr
peer = record { sin_port = 9000; sin_addr = 7 }

abbrev other : SockAddr
other = record { sin_port = 9001; sin_addr = 7 }

abbrev syn : UmpPacket
syn = set_flag (new control incoming) ctrl_syn

abbrev empty : UmpCore ℤ entry_lists
empty = new_core 5

abbrev asked_once : UmpCore ℤ entry_lists
asked_once = receive sample_sock empty peer syn

abbrev ready : UmpCore ℤ entry_lists
ready = run_sock (λ s. record s { public_state = established }) asked_once 0

bound : core_bind {D = ℤ} {h = entry_lists} (pos 5) ≡ some empty
unfolding core_bind
bound = refl

empty-IsTidy : IsTidy empty
empty-IsTidy = core_bind-always-IsTidy entry_lists-IsTable (pos 5) bound here

asked_once-IsTidy : IsTidy asked_once
asked_once-IsTidy =
    core_bind-always-IsTidy entry_lists-IsTable (pos 5) bound
      (step here (by_packet sample_sock peer syn))

ready_reached : Reach empty ready
ready_reached = step (step here (by_packet sample_sock peer syn)) (by_sock _ 0)

ready-IsTidy : IsTidy ready
ready-IsTidy = core_bind-always-IsTidy entry_lists-IsTable (pos 5) bound ready_reached

waits : entry_lists.lookup ready.backlog_umps peer ≡ some 0
unfolding receive find_receiver admit get_flag set_flag new inaddr_eq
waits = refl

is_waiting : At asked_once peer (in_backlog 0)
unfolding receive find_receiver admit get_flag set_flag new inaddr_eq
is_waiting = record {
  umps_at = refl;
  backlog_at = refl;
  act_at = refl;
  closed_at = refl;
  live = λ i e. ground (arith, e);
}

Step-Follows_example : Follows asked_once peer nowhere
Step-Follows_example =
    Step-Follows entry_lists-IsTable peer nowhere empty-IsTidy
      (record {
        umps_at = refl;
        backlog_at = refl;
        act_at = refl;
        closed_at = refl;
        live = λ i e. ground (arith, e);
      })
      (by_packet sample_sock peer syn)

core_bind-always-IsTidy_example : IsTidy (accept ready).1
core_bind-always-IsTidy_example =
    core_bind-always-IsTidy entry_lists-IsTable (pos 5) bound (step ready_reached by_accept)

backlog-IsBounded_example : IsBounded 5 (receive sample_sock asked_once other syn)
backlog-IsBounded_example =
    backlog-IsBounded entry_lists-IsTable 5 bound
      (step (step here (by_packet sample_sock peer syn)) (by_packet sample_sock other syn))

abbrev accept_ok : MEvent
accept_ok = (Event.set (Event.new false true)).0

accept_takes_example :
    (e : MEvent) × (d : UmpCore ℤ entry_lists) × (j : ℕ) × (k : SockAddr) × (accept_turn accept_ok
        ready
      ≡ accepts e j d)
    × Handover ready d j k
unfolding receive find_receiver admit get_flag set_flag new inaddr_eq Event.new Event.set
accept_takes_example =
    accept_takes entry_lists-IsTable accept_ok ready peer 0 refl ready-IsTidy waits refl

-- Two peers have asked, and both connections are established.
abbrev establish : UmpSocket ℤ → UmpSocket ℤ
establish s = record s { public_state = established }

abbrev asked_twice : UmpCore ℤ entry_lists
asked_twice = receive sample_sock asked_once other syn

abbrev two_ready : UmpCore ℤ entry_lists
two_ready = run_sock establish (run_sock establish asked_twice 0) 1

two_ready-IsTidy : IsTidy two_ready
two_ready-IsTidy = core_bind-always-IsTidy entry_lists-IsTable (pos 5) bound (
    step
      (step (step (step here (by_packet sample_sock peer syn)) (by_packet sample_sock other syn))
        (by_sock establish 0))
      (by_sock establish 1))

accept_misses_example :
    (e : MEvent) × (d : UmpCore ℤ entry_lists) × (j : ℕ) × (k : SockAddr) × (accept_turn
        (Event.set (Event.set (Event.new false true)).0).0
        two_ready
      ≡ accepts e j d)
    × Handover two_ready d j k
    × (accept_turn e d ≡ sleeps)
    × ((q : SockAddr) × (m : ℕ) × (entry_lists.lookup d.backlog_umps q ≡ some m)
        × (is_ready d m ≡ true))
unfolding receive find_receiver admit get_flag set_flag new inaddr_eq Event.new
accept_misses_example =
    accept_misses entry_lists-IsTable (Event.new false true) two_ready peer other 0 1 refl
      two_ready-IsTidy refl refl refl refl refl

core_close_frees_example :
    At (core_close asked_once) peer nowhere
    × ((i : ℕ) → occupant (in_backlog 0) ≡ some i → (core_close asked_once).socks i ≡ none)
core_close_frees_example =
    core_close_frees entry_lists-IsTable asked_once peer (in_backlog 0) is_waiting

abbrev data_in : UmpPacket
data_in = new user incoming

abbrev stored_peer : Peer ℤ
stored_peer = record { their_addr = peer; sock = deliver control sample_sock syn }

data_in-IsSendable : IsSendable data_in
unfolding new
data_in-IsSendable = record {
  version = (refl, refl);
  seq = omega arith;
  ack = omega arith;
  mss = omega arith;
  wnd = omega arith;
}

receive_turn-write_example :
    (d : UmpCore ℤ entry_lists) × (t : UmpSocket ℤ) × (receive_turn
        (Event.new false false)
        true
        sample_sock
        asked_once
        (some (peer, (write data_in).1))
      ≡ goes_on d)
    × (d.socks 0 ≡ some (record stored_peer { sock = t }))
    × Queued user (seen user data_in) stored_peer.sock t
unfolding new receive set_flag get_flag
receive_turn-write_example =
    receive_turn-write (Event.new false false) true sample_sock asked_once peer data_in
      (in_backlog 0) 0 stored_peer data_in-IsSendable is_waiting refl refl

clean-exact_example :
    let b =
      is_looked_at (in_backlog 0)
      && goes sample_clock (λ i. sample_clock.current_time 30) asked_once 0 in
    At
      (clean sample_clock (λ i. sample_clock.current_time 30) asked_once)
      peer
      (if b then nowhere else in_backlog 0)
    × ((clean sample_clock (λ i. sample_clock.current_time 30) asked_once).socks 0
        ≡ (if b then none else asked_once.socks 0))
clean-exact_example =
    clean-exact entry_lists-IsTable sample_clock (λ i. sample_clock.current_time 30) asked_once peer
      (in_backlog 0) 0 asked_once-IsTidy is_waiting refl

connect_begin_lem_example :
    ((connect_begin sample_sock asked_once peer).0
      ≡ to_connect sample_sock asked_once peer (in_backlog 0))
    × ((j : ℕ)
        → (connect_begin sample_sock asked_once peer).0 ≡ some j
        → entry_lists.lookup (connect_begin sample_sock asked_once peer).1.act_connect peer
          ≡ some j)
connect_begin_lem_example =
    connect_begin_lem sample_sock asked_once peer entry_lists-IsTable (in_backlog 0) is_waiting
