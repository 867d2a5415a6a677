-- ===== src/Core/Connections/Unborn.antt =====
-- Connecting, accepting and closing, and the pointers that `ump_sock_new` has not returned yet.
use user_message_protocol.Base.{ℕ, ◌≤◌, ◌≡◌, refl, Option, none, some, Bool, arith, if_both, ◌==◌}
use user_message_protocol.Sock.{UmpSocket}
use user_message_protocol.Core.{UmpCore, store, their_addr_of, test_sock, is_over, drop_at}
use user_message_protocol.Core.Connections.{
  begin_as, connect_begin, connect_end, scan, take_out, accept, take_off, settle_closed, close_at,
  close_end,
}
use user_message_protocol.Core.Place.{IsUnborn, store-none}
use user_message_protocol.Core.Table.{SockAddr, GHashTable, has}

module _ {D : Type 0} {h : GHashTable} where
  begin_as-IsUnborn :
      (o : Option ℕ) (fresh : UmpSocket D) (c : UmpCore D h) (addr : SockAddr)
      → IsUnborn c
      → IsUnborn (begin_as o fresh c addr).1
  begin_as-IsUnborn (some i) fresh c addr u =
      if_both (λ (r : Option ℕ × UmpCore D h). IsUnborn r.1)
        (test_sock (λ s. is_over s.public_state) (c.socks i)) (record { unborn = u.unborn })
        (record { unborn = u.unborn })
  begin_as-IsUnborn none fresh c addr u = record {
    unborn = λ j le.
        store-none c.socks c.next (some (record { their_addr = addr; sock = fresh })) j
          (u.unborn j (omega (arith, le))) (λ q. absurd (omega (arith, q, le)));
  }

  pub connect_begin-IsUnborn :
      (fresh : UmpSocket D) (c : UmpCore D h) (addr : SockAddr)
      → IsUnborn c
      → IsUnborn (connect_begin fresh c addr).1
  unfolding connect_begin
  connect_begin-IsUnborn fresh c addr u =
      let P : Option ℕ × UmpCore D h → Type 0 = λ r. IsUnborn r.1 in
      if_both P (has (h.lookup c.act_connect addr)) u (
        if_both P (has (h.lookup c.umps addr)) u (
          if_both P (has (h.lookup c.closed_umps addr)) u
            (begin_as-IsUnborn (h.lookup c.backlog_umps addr) fresh c addr u)))

  freed-IsUnborn :
      (c : UmpCore D h) (i : ℕ) → IsUnborn c → (j : ℕ) → c.next ≤ j → store c.socks i none j ≡ none
  freed-IsUnborn c i u j le = store-none c.socks i none j (u.unborn j le) (λ _. refl)

  pub connect_end-IsUnborn :
      (c : UmpCore D h) (addr : SockAddr) (i : ℕ) (ok : Bool)
      → IsUnborn c
      → IsUnborn (connect_end c addr i ok).1
  unfolding connect_end
  connect_end-IsUnborn c addr i ok u =
      if_both (λ (r : Option ℕ × UmpCore D h). IsUnborn r.1) ok (record { unborn = u.unborn })
        (record { unborn = freed-IsUnborn c i u })

  take_out-IsUnborn : (c : UmpCore D h) (o : Option ℕ) → IsUnborn c → IsUnborn (take_out c o)
  take_out-IsUnborn c none u = u
  take_out-IsUnborn c (some i) u = record { unborn = u.unborn }

  pub accept-IsUnborn : (c : UmpCore D h) → IsUnborn c → IsUnborn (accept c).1
  unfolding accept
  accept-IsUnborn c u = take_out-IsUnborn c (scan c none (h.values c.backlog_umps)) u

  settle_closed-IsUnborn :
      (o : Option ℕ) (c : UmpCore D h) (i : ℕ) → IsUnborn c → IsUnborn (settle_closed o c i)
  settle_closed-IsUnborn none c i u = record { unborn = u.unborn }
  settle_closed-IsUnborn (some j) c i u =
      if_both IsUnborn (j == i) u (record { unborn = freed-IsUnborn c i u })

  close_at-IsUnborn :
      (o : Option SockAddr) (c : UmpCore D h) (i : ℕ) → IsUnborn c → IsUnborn (close_at o c i)
  close_at-IsUnborn none c i u = u
  close_at-IsUnborn (some a) c i u =
      settle_closed-IsUnborn (h.lookup (drop_at h c.umps a) a) (take_off c a) i
        (record { unborn = u.unborn })

  pub close_end-IsUnborn : (c : UmpCore D h) (i : ℕ) → IsUnborn c → IsUnborn (close_end c i)
  unfolding close_end
  close_end-IsUnborn c i u = close_at-IsUnborn (their_addr_of (c.socks i)) c i u
