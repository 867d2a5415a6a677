-- ===== src/Core/Threads.antt =====
-- The two threads of a core, `receive_thread_func` and `cleaner_thread_func` of
-- user_message_protocol/core_thread.c, with `ump_recvfrom` of ump_misc.c and
-- `ump_stop_background_threads_and_socket` of ump.c. One turn of a loop is one function; the loop is
-- the turns one behind the other. Where a thread sleeps at the event `stop_work`, `in_time` is what
-- `g_cond_timed_wait` returned to it.
pub mod Turns
use user_message_protocol.Base.{
  ℕ, List, [], ◌∷◌, Option, none, some, Bool, true, false, not, ◌&&◌, if◌then◌else◌,
}
use user_message_protocol.Base.Int.{ℤ}
use user_message_protocol.Clock.{TimeVal, Clock}
use user_message_protocol.Packet.Codec.{Parsed, parsed, rejected, overread, from_binary}
use user_message_protocol.Event
use user_message_protocol.Event.{MEvent, try_timed_wait, set_all}
use user_message_protocol.Sock.{UmpSocket}
use user_message_protocol.Core.{UmpCore, core_bind}
use user_message_protocol.Core.Dispatch.{receive}
use user_message_protocol.Core.Clean.{clean}
use user_message_protocol.Core.Table.{SockAddr, GHashTable}

-- `ump_recvfrom`: `got` is what `recvfrom` gives, `none` where it returns -1. A datagram of no bytes
-- is copied to the null pointer, which is what `g_malloc` returns for it.
unfoldable pub ump_recvfrom : Option (SockAddr × List ℕ) → Option (SockAddr × List ℕ)
ump_recvfrom none = none
ump_recvfrom (some (from, [])) = none
ump_recvfrom (some (from, x ∷ bytes)) = some (from, x ∷ bytes)

-- Where a thread of the core is at the end of a turn: it goes on, it has returned, or it sleeps at
-- `stop_work`. Or the receiving thread has done what the language leaves undefined: it has read
-- behind the datagram, or given its memory back twice.
pub data Turn (D : Type 0) (h : GHashTable) : Type 0 where
  goes_on : UmpCore D h → Turn D h
  returned : UmpCore D h → Turn D h
  asleep : UmpCore D h → Turn D h
  reads_behind : Turn D h
  frees_twice : Turn D h

module _ {D : Type 0} {h : GHashTable} where
  -- A wait at the event, and what the thread does behind it.
  abbrev pub stop_or : (UmpCore D h → UmpCore D h) → Option (Bool × MEvent) → UmpCore D h → Turn D h
  stop_or f none c = asleep c
  stop_or f (some (true, e)) c = returned c
  stop_or f (some (false, e)) c = goes_on (f c)

  -- Lines 57 to 65, and the rest of the turn.
  abbrev pub receive_parsed : UmpSocket D → UmpCore D h → SockAddr → Parsed → Turn D h
  receive_parsed fresh c from (parsed p) = goes_on (receive fresh c from p)
  receive_parsed fresh c from (rejected true) = frees_twice
  receive_parsed fresh c from (rejected false) = goes_on c
  receive_parsed fresh c from overread = reads_behind

  abbrev pub receive_got :
      MEvent → Bool → UmpSocket D → UmpCore D h → Option (SockAddr × List ℕ) → Turn D h
  receive_got stop_work in_time fresh c none = stop_or (λ d. d) (try_timed_wait in_time stop_work) c
  receive_got stop_work in_time fresh c (some (from, bytes)) =
      receive_parsed fresh c from (from_binary bytes)

  -- A turn of `receive_thread_func`, lines 46 to 149. The waits do not change `stop_work`, which has
  -- no automatic reset.
  unfoldable pub receive_turn :
      MEvent → Bool → UmpSocket D → UmpCore D h → Option (SockAddr × List ℕ) → Turn D h
  unfolding ump_recvfrom
  receive_turn stop_work in_time fresh c got =
      receive_got stop_work in_time fresh c (ump_recvfrom got)

  -- A turn of `cleaner_thread_func`, lines 163 to 173.
  unfoldable pub cleaner_turn : MEvent → Bool → Clock → (ℕ → TimeVal) → UmpCore D h → Turn D h
  cleaner_turn stop_work in_time clock cur c =
      stop_or (clean clock cur) (try_timed_wait in_time stop_work) c

-- What the two threads share besides the tables: the event, and whether the UDP port is open.
pub record Background : Type 0 where
  pub stop_work : MEvent
  pub port_open : Bool

-- `ump_core_bind` makes the event; the port is bound then.
abbrev pub new_background : Background
new_background = record { stop_work = Event.new false false; port_open = true }

-- `ump_stop_background_threads_and_socket` up to the two joins.
unfoldable pub stop_background : Background → Background
stop_background b = record { stop_work = (set_all b.stop_work).0; port_open = false }

-- What `ump_core_bind` comes to: NULL, a core with its threads, or a write through the null pointer
-- that the variable holds when the receiving thread could not be created.
pub data Bound (D : Type 0) (h : GHashTable) : Type 0 where
  refused : Bound D h
  bound : UmpCore D h → Background → Bound D h
  writes_null : Bound D h

-- `ump_core_bind`, behind the check of its argument: whether `socket`, `bind` and the two calls of
-- `g_thread_create` succeed are arguments. What is refused has been closed.
abbrev pub bind_as :
    {D : Type 0} {h : GHashTable} → Bool → Bool → Bool → Bool → Option (UmpCore D h) → Bound D h
bind_as opened port_bound rec_thread cleaner_thread none = refused
bind_as opened port_bound rec_thread cleaner_thread (some c) =
    if not (opened && port_bound)
    then refused
    else if not rec_thread
    then writes_null
    else if cleaner_thread
    then bound c new_background
    else refused

unfoldable pub ump_core_bind :
    {D : Type 0} {h : GHashTable} → Bool → Bool → Bool → Bool → ℤ → Bound D h
unfolding core_bind
ump_core_bind opened port_bound rec_thread cleaner_thread backlog =
    bind_as opened port_bound rec_thread cleaner_thread (core_bind backlog)
