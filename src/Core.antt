-- ===== src/Core.antt =====
-- The core of user_message_protocol/ump.c and core_thread.c: the sockets of one UDP port, in four
-- hash tables. What a function does while it holds `umps_lock` is one function here. A pointer to a
-- socket is a number, `next` is the next pointer that `ump_sock_new` returns, and `socks` tells what
-- it points at, where its memory is not given back. A read or a write through a pointer to memory
-- that is given back has no effect here; the code has no defined behaviour there.
-- `sent` collects the datagrams that the core itself hands to `ump_sendto`.
pub mod Table
pub mod Dispatch
pub mod Connections
pub mod Clean
pub mod Place
pub mod Steps
pub mod Backlog
pub mod Release
pub mod Threads
pub mod Samples
mod Tests
use user_message_protocol.Base.{
  ℕ, suc, ◌+◌, List, [], ◌∷◌, ◌++◌, Option, none, some, Bool, true, false, ltb, leb, ◌==◌, ◌&&◌,
  ◌||◌, if◌then◌else◌,
}
use user_message_protocol.Base.Int.{ℤ, pos, negsuc, ltb_ℤ, leb_ℤ}
use user_message_protocol.Clock.{TimeVal, Clock, time_sub}
use user_message_protocol.Packet.{
  UmpPacket, PacketType, control, user, outgoing, new, set_flag, get_flag, ctrl_syn, ctrl_rst,
}
use user_message_protocol.Packet.Codec.{to_binary}
use user_message_protocol.Sock.{UmpSocket, Env, SockState, closed, connecting, established, closing}
use user_message_protocol.Sock.Calls.{is_established}
use user_message_protocol.Sock.Life.{sock_new}
use user_message_protocol.Sock.Thread.{deliver}
use user_message_protocol.Core.Table.{SockAddr, inaddr_eq, GHashTable, has, contains}

-- A socket, with its field `their_addr`.
pub record Peer (D : Type 0) : Type 0 where
  pub their_addr : SockAddr
  pub sock : UmpSocket D

pub record UmpCore (D : Type 0) (h : GHashTable) : Type 0 where
  pub umps : h.Table
  pub backlog_limit : ℕ
  pub backlog_umps : h.Table
  pub act_connect : h.Table
  pub closed_umps : h.Table
  pub socks : ℕ → Option (Peer D)
  pub next : ℕ
  pub sent : List (SockAddr × List ℕ)

-- A store through a pointer, and giving its memory back.
abbrev pub store {ℓ} : {A : Type ℓ} → (ℕ → Option A) → ℕ → Option A → ℕ → Option A
store socks i o j = if i == j then o else socks j

abbrev pub or_else : Option ℕ → Option ℕ → Option ℕ
or_else none o = o
or_else (some i) o = some i

abbrev pub is_closed : SockState → Bool
is_closed closed = true
is_closed _ = false

abbrev pub is_over : SockState → Bool
is_over closed = true
is_over closing = true
is_over _ = false

abbrev pub is_control : PacketType → Bool
is_control control = true
is_control user = false

-- `UMP_CALM_MICROS`, which the code subtracts.
abbrev pub calm_micros : ℤ
calm_micros = negsuc 19999999

abbrev pub later : Option TimeVal → Option TimeVal → Bool
later none o = false
later (some t) none = false
later (some t) (some u) = ltb_ℤ (pos 0) (time_sub t u)

abbrev pub always : ℕ → Bool
always i = true

module _ {D : Type 0} where
  abbrev pub test_sock : (UmpSocket D → Bool) → Option (Peer D) → Bool
  test_sock f none = false
  test_sock f (some s) = f s.sock

  abbrev pub change_sock : (UmpSocket D → UmpSocket D) → Option (Peer D) → Option (Peer D)
  change_sock f none = none
  change_sock f (some s) = some (record s { sock = f s.sock })

  abbrev pub connect_time_of : Option (Peer D) → Option TimeVal
  connect_time_of none = none
  connect_time_of (some s) = some (s.sock.connect_time)

  abbrev pub their_addr_of : Option (Peer D) → Option SockAddr
  their_addr_of none = none
  their_addr_of (some s) = some s.their_addr

  -- `ump_clean_closed_sock`: whether the socket goes. `cur` is what `g_get_current_time` returns
  -- there.
  abbrev pub due : Clock → TimeVal → UmpSocket D → Bool
  due clock cur s =
      is_closed s.public_state
      && leb_ℤ (pos 0) (time_sub (clock.time_val_add cur calm_micros) s.close_time)

  -- The sockets for which a callback returns true are freed.
  abbrev pub free_where : (ℕ → Bool) → List ℕ → (ℕ → Option (Peer D)) → ℕ → Option (Peer D)
  free_where gone is socks i = if contains i is && gone i then none else socks i

module _ (h : GHashTable) where
  -- `g_hash_table_insert` at the address of the socket.
  abbrev pub insert_at : {D : Type 0} → h.Table → Option (Peer D) → ℕ → h.Table
  insert_at t none i = t
  insert_at t (some s) i = h.insert t s.their_addr i

  abbrev pub remove_at : h.Table → Option SockAddr → h.Table
  remove_at t none = t
  remove_at t (some a) = h.remove t a

  abbrev pub drop_at : h.Table → SockAddr → h.Table
  drop_at t a = if has (h.lookup t a) then h.remove t a else t

module _ {D : Type 0} {h : GHashTable} where
  -- `ump_core_bind` once the port is bound: the tables that it makes, and the check of its argument.
  abbrev pub new_core : ℕ → UmpCore D h
  new_core backlog = record {
    umps = h.new;
    backlog_limit = backlog;
    backlog_umps = h.new;
    act_connect = h.new;
    closed_umps = h.new;
    socks = λ i. none;
    next = 0;
    sent = [];
  }

  unfoldable pub core_bind : ℤ → Option (UmpCore D h)
  core_bind (negsuc n) = none
  core_bind (pos n) = if ltb n 1 then none else some (new_core n)

  -- `ump_sock_new`, whose result is `next`, and `ump_sock_free`.
  abbrev pub alloc : UmpCore D h → SockAddr → UmpSocket D → UmpCore D h
  alloc c addr s = record c {
    socks = store c.socks c.next (some (record { their_addr = addr; sock = s }));
    next = suc c.next;
  }

  abbrev pub free : UmpCore D h → ℕ → UmpCore D h
  free c i = record c { socks = store c.socks i none }
