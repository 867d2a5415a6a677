-- ===== src/Core/Steps.antt =====
-- A core over its life: after `ump_core_bind`, packets, calls of the application, rounds of the
-- cleaner and the threads of the sockets come in any order. A call that blocks, `ump_connect` or
-- `ump_close`, is two steps, and other steps come in between. The application closes a socket that is
-- in use, or that it closed before and that was not cleaned.
use user_message_protocol.Base.{ℕ, ◌≡◌, ◌⊎◌, refl, sym, ◌∙◌, ap, subst, none, some, Bool, arith}
use user_message_protocol.Base.Int.{ℤ, pos, negsuc}
use user_message_protocol.Clock.{Clock, TimeVal}
use user_message_protocol.Packet.{UmpPacket}
use user_message_protocol.Sock.{UmpSocket}
use user_message_protocol.Core.{UmpCore, store, change_sock, their_addr_of, core_bind, new_core}
use user_message_protocol.Core.Dispatch.{receive}
use user_message_protocol.Core.Connections.{connect_begin, connect_end, accept, close_end}
use user_message_protocol.Core.Clean.{clean}
use user_message_protocol.Core.Dispatch.Places.{receive-Follows, receive-IsUnborn}
use user_message_protocol.Core.Connections.Places.{connect_begin-Follows}
use user_message_protocol.Core.Connections.Endings.{connect_end-Follows, close_end-Follows}
use user_message_protocol.Core.Connections.Accepting.{accept-Follows}
use user_message_protocol.Core.Connections.Unborn.{
  connect_begin-IsUnborn, connect_end-IsUnborn, accept-IsUnborn, close_end-IsUnborn,
}
use user_message_protocol.Core.Clean.Places.{clean-Follows, clean-IsUnborn}
use user_message_protocol.Core.Place.{
  Place, nowhere, At, IsTidy, IsUnborn, Follows, Elsewhere-Follows, store-their_addr_of,
  change_sock-their_addr_of, store-none,
}
use user_message_protocol.Core.Table.{SockAddr, GHashTable, IsTable}

module _ {D : Type 0} {h : GHashTable} where
  -- What the thread of a socket, or a call that blocks, makes of the socket.
  abbrev pub run_sock : (UmpSocket D → UmpSocket D) → UmpCore D h → ℕ → UmpCore D h
  run_sock f c i = record c { socks = store c.socks i (change_sock f (c.socks i)) }

  pub data Step : UmpCore D h → UmpCore D h → Type 0 where
    by_packet :
        {c : UmpCore D h} (fresh : UmpSocket D) (from : SockAddr) (p : UmpPacket)
        → Step c (receive fresh c from p)
    by_connect :
        {c : UmpCore D h} (fresh : UmpSocket D) (addr : SockAddr)
        → Step c (connect_begin fresh c addr).1
    by_connected :
        {c : UmpCore D h} (addr : SockAddr) (i : ℕ) (ok : Bool)
        → h.lookup c.act_connect addr ≡ some i
        → Step c (connect_end c addr i ok).1
    by_accept : {c : UmpCore D h} → Step c (accept c).1
    by_close :
        {c : UmpCore D h} (addr : SockAddr) (i : ℕ)
        → (h.lookup c.umps addr ≡ some i) ⊎ (h.lookup c.closed_umps addr ≡ some i)
        → Step c (close_end c i)
    by_cleaner : {c : UmpCore D h} (clock : Clock) (cur : ℕ → TimeVal) → Step c (clean clock cur c)
    by_sock : {c : UmpCore D h} (f : UmpSocket D → UmpSocket D) (i : ℕ) → Step c (run_sock f c i)

  pub data Reach : UmpCore D h → UmpCore D h → Type 0 where
    here : {c : UmpCore D h} → Reach c c
    step : {c d e : UmpCore D h} → Reach c d → Step d e → Reach c e

  run_sock-IsUnborn :
      (f : UmpSocket D → UmpSocket D) (c : UmpCore D h) (i : ℕ)
      → IsUnborn c
      → IsUnborn (run_sock f c i)
  run_sock-IsUnborn f c i u = record {
    unborn = λ j le.
        store-none c.socks i _ j (u.unborn j le)
          (λ q. ap (change_sock f) (subst (λ (k : ℕ). c.socks k ≡ none) (sym q) (u.unborn j le)));
  }

  Step-IsUnborn : {c d : UmpCore D h} → Step c d → IsUnborn c → IsUnborn d
  Step-IsUnborn {c} (by_packet fresh from p) u = receive-IsUnborn fresh c from p u
  Step-IsUnborn {c} (by_connect fresh addr) u = connect_begin-IsUnborn fresh c addr u
  Step-IsUnborn {c} (by_connected addr i ok e) u = connect_end-IsUnborn c addr i ok u
  Step-IsUnborn {c} by_accept u = accept-IsUnborn c u
  Step-IsUnborn {c} (by_close addr i e) u = close_end-IsUnborn c i u
  Step-IsUnborn {c} (by_cleaner clock cur) u = clean-IsUnborn clock cur c u
  Step-IsUnborn {c} (by_sock f i) u = run_sock-IsUnborn f c i u

-- A core that is made is the new core.
pub bound_core :
    {D : Type 0} {h : GHashTable} (n : ℕ) (c : UmpCore D h)
    → core_bind (pos n) ≡ some c
    → new_core n ≡ c
unfolding core_bind
bound_core n c e = ground (arith, e)

module _ {D : Type 0} {h : GHashTable} (laws : IsTable h) where
  -- The core refines the abstract view: when every address of a core has its place, every step
  -- takes an address to a place again, and only along the life of a socket, from the backlog or a
  -- connect into use, from there to rest, and away.
  pub Step-Follows :
      {c d : UmpCore D h} (a : SockAddr) (p : Place)
      → IsTidy c
      → At c a p
      → Step c d
      → Follows d a p
  Step-Follows {c} a p w at (by_packet fresh from q) = receive-Follows laws fresh c from a q p w at
  Step-Follows {c} a p w at (by_connect fresh addr) =
      connect_begin-Follows laws fresh c addr a p w at
  Step-Follows {c} a p w at (by_connected addr i ok e) =
      connect_end-Follows laws c addr i ok a p w e at
  Step-Follows {c} a p w at by_accept = accept-Follows laws c a p w at
  Step-Follows {c} a p w at (by_close addr i e) = close_end-Follows laws c addr i a p w e at
  Step-Follows {c} a p w at (by_cleaner clock cur) = clean-Follows laws clock cur c a p w at
  Step-Follows {c} a p w at (by_sock f i) = Elsewhere-Follows at (record {
    same_umps = refl;
    same_backlog = refl;
    same_act = refl;
    same_closed = refl;
    kept_socks = λ j e.
        store-their_addr_of c.socks i _ j a
          (λ q.
            change_sock-their_addr_of f (c.socks i)
            ∙ subst (λ (k : ℕ). their_addr_of (c.socks k) ≡ some a) (sym q) e)
          e;
  })

  Step-IsTidy : {c d : UmpCore D h} → Step c d → IsTidy c → IsTidy d
  Step-IsTidy k w = record {
    placed = λ a. let (p, at) = w.placed a in let f = Step-Follows a p w at k in (f.place, f.there);
    unborn = Step-IsUnborn k w.unborn;
  }

  new_core-IsTidy : (n : ℕ) → IsTidy (new_core {D = D} {h = h} n)
  new_core-IsTidy n = record {
    placed = λ a. (
      nowhere,
      record {
        umps_at = laws.lookup-new a;
        backlog_at = laws.lookup-new a;
        act_at = laws.lookup-new a;
        closed_at = laws.lookup-new a;
        live = λ i o. absurd (ground (arith, o));
      },
    );
    unborn = record { unborn = λ i le. refl };
  }

  core_bind-IsTidy : (backlog : ℤ) {c : UmpCore D h} → core_bind backlog ≡ some c → IsTidy c
  unfolding core_bind
  core_bind-IsTidy (negsuc n) e = absurd (ground (arith, e))
  core_bind-IsTidy (pos n) e = subst IsTidy (bound_core n _ e) (new_core-IsTidy n)

  Reach-IsTidy : {c d : UmpCore D h} → Reach c d → IsTidy c → IsTidy d
  Reach-IsTidy here w = w
  Reach-IsTidy (step r k) w = Step-IsTidy k (Reach-IsTidy r w)

  -- Whatever packets, calls, rounds of the cleaner and doings of the sockets a new core has been
  -- through, in any order: an address is in one of the tables at most, and a socket that a table
  -- has is not freed and is a socket of this address.
  pub core_bind-always-IsTidy :
      (backlog : ℤ) {c d : UmpCore D h} → core_bind backlog ≡ some c → Reach c d → IsTidy d
  core_bind-always-IsTidy backlog e r = Reach-IsTidy r (core_bind-IsTidy backlog e)
