-- ===== src/Core/Backlog.antt =====
-- How long the backlog can grow.
use user_message_protocol.Base.{
  ℕ, ◌+◌, ◌≤◌, ◌≡◌, refl, subst, Option, none, some, ◌&&◌, ◌==◌, leb, leb→le, arith, if_both,
  if_cases,
}
use user_message_protocol.Base.Int.{pos}
use user_message_protocol.Packet.{UmpPacket, get_flag, ctrl_syn}
use user_message_protocol.Sock.{UmpSocket}
use user_message_protocol.Core.{
  UmpCore, their_addr_of, core_bind, test_sock, is_over, is_control, remove_at, drop_at,
}
use user_message_protocol.Core.Dispatch.{receive, receive_as, conclude, admit, find_receiver}
use user_message_protocol.Core.Connections.{
  begin_as, connect_begin, connect_end, scan, take_out, accept, take_off, settle_closed, close_at,
  close_end,
}
use user_message_protocol.Core.Clean.{clean}
use user_message_protocol.Core.Steps.{
  Step, by_packet, by_connect, by_connected, by_accept, by_close, by_cleaner, by_sock, Reach, here,
  step, bound_core,
}
use user_message_protocol.Core.Table.{SockAddr, GHashTable, IsTable, has}

module _ {D : Type 0} {h : GHashTable} where
  -- The backlog holds no more than one socket above its limit.
  pub record IsBounded (limit : ℕ) (c : UmpCore D h) : Type 0 where
    pub limit_kept : c.backlog_limit ≡ limit
    pub bounded : h.size c.backlog_umps ≤ limit + 1

module _ {h : GHashTable} (laws : IsTable h) where
  remove_at-size : (t : h.Table) (o : Option SockAddr) → h.size (remove_at h t o) ≤ h.size t
  remove_at-size t none = omega arith
  remove_at-size t (some a) = laws.size-remove t a

  drop_at-size : (t : h.Table) (a : SockAddr) → h.size (drop_at h t a) ≤ h.size t
  drop_at-size t a =
      if_both (λ (u : h.Table). h.size u ≤ h.size t) (has (h.lookup t a)) (laws.size-remove t a)
        (omega arith)

module _ {D : Type 0} {h : GHashTable} (laws : IsTable h) (n : ℕ) where
  -- A step with this backlog in place of the one before.
  shrunk :
      (c : UmpCore D h) (t : h.Table)
      → h.size t ≤ h.size c.backlog_umps
      → IsBounded n c
      → h.size t ≤ n + 1
  shrunk c t le b = omega (arith, le, b.bounded)

  admit-IsBounded :
      (fresh : UmpSocket D) (c : UmpCore D h) (from : SockAddr) (p : UmpPacket)
      → IsBounded n c
      → IsBounded n (admit fresh c from p).1
  unfolding admit
  admit-IsBounded fresh c from p b =
      let P : Option ℕ × UmpCore D h → Type 0 = λ r. IsBounded n r.1 in
      if_both P (is_control p.p_type && get_flag p ctrl_syn)
        (if_cases P (leb (h.size c.backlog_umps) c.backlog_limit)
          (λ e. record {
            limit_kept = b.limit_kept;
            bounded =
                omega
                  (arith, b.limit_kept, leb→le _ _ e, laws.size-insert c.backlog_umps from c.next);
          })
          (λ _. record { limit_kept = b.limit_kept; bounded = b.bounded }))
        b

  conclude-IsBounded :
      (from : SockAddr) (p : UmpPacket) (r : Option ℕ × UmpCore D h)
      → IsBounded n r.1
      → IsBounded n (conclude from p r)
  conclude-IsBounded from p (none, c) b = record { limit_kept = b.limit_kept; bounded = b.bounded }
  conclude-IsBounded from p (some i, c) b = record {
    limit_kept = b.limit_kept;
    bounded = b.bounded;
  }

  receive_as-IsBounded :
      (o : Option ℕ) (fresh : UmpSocket D) (c : UmpCore D h) (from : SockAddr) (p : UmpPacket)
      → IsBounded n c
      → IsBounded n (receive_as o fresh c from p)
  receive_as-IsBounded (some i) fresh c from p b = record {
    limit_kept = b.limit_kept;
    bounded = b.bounded;
  }
  receive_as-IsBounded none fresh c from p b =
      conclude-IsBounded from p _ (admit-IsBounded fresh c from p b)

  begin_as-IsBounded :
      (o : Option ℕ) (fresh : UmpSocket D) (c : UmpCore D h) (addr : SockAddr)
      → IsBounded n c
      → IsBounded n (begin_as o fresh c addr).1
  begin_as-IsBounded none fresh c addr b = record { limit_kept = b.limit_kept; bounded = b.bounded }
  begin_as-IsBounded (some i) fresh c addr b =
      let less = shrunk c (h.remove c.backlog_umps addr) (laws.size-remove c.backlog_umps addr) b in
      if_both (λ (r : Option ℕ × UmpCore D h). IsBounded n r.1)
        (test_sock (λ s. is_over s.public_state) (c.socks i))
        (record { limit_kept = b.limit_kept; bounded = less })
        (record { limit_kept = b.limit_kept; bounded = less })

  take_out-IsBounded : (c : UmpCore D h) (o : Option ℕ) → IsBounded n c → IsBounded n (take_out c o)
  take_out-IsBounded c none b = b
  take_out-IsBounded c (some i) b = record {
    limit_kept = b.limit_kept;
    bounded = shrunk c _ (remove_at-size laws c.backlog_umps (their_addr_of (c.socks i))) b;
  }

  settle_closed-IsBounded :
      (o : Option ℕ) (c : UmpCore D h) (i : ℕ) → IsBounded n c → IsBounded n (settle_closed o c i)
  settle_closed-IsBounded none c i b = record { limit_kept = b.limit_kept; bounded = b.bounded }
  settle_closed-IsBounded (some j) c i b =
      if_both (IsBounded n) (j == i) b (record { limit_kept = b.limit_kept; bounded = b.bounded })

  close_at-IsBounded :
      (o : Option SockAddr) (c : UmpCore D h) (i : ℕ) → IsBounded n c → IsBounded n (close_at o c i)
  close_at-IsBounded none c i b = b
  close_at-IsBounded (some a) c i b =
      settle_closed-IsBounded (h.lookup (take_off c a).umps a) (take_off c a) i (record {
        limit_kept = b.limit_kept;
        bounded = shrunk c _ (drop_at-size laws c.backlog_umps a) b;
      })

  Step-IsBounded : {c d : UmpCore D h} → Step c d → IsBounded n c → IsBounded n d
  unfolding receive connect_begin connect_end accept close_end clean
  Step-IsBounded {c} (by_packet fresh from p) b =
      receive_as-IsBounded (find_receiver c from) fresh c from p b
  Step-IsBounded {c} (by_connect fresh addr) b =
      let P : Option ℕ × UmpCore D h → Type 0 = λ r. IsBounded n r.1 in
      if_both P (has (h.lookup c.act_connect addr)) b (
        if_both P (has (h.lookup c.umps addr)) b (
          if_both P (has (h.lookup c.closed_umps addr)) b
            (begin_as-IsBounded (h.lookup c.backlog_umps addr) fresh c addr b)))
  Step-IsBounded {c} (by_connected addr i ok e) b =
      if_both (λ (r : Option ℕ × UmpCore D h). IsBounded n r.1) ok
        (record { limit_kept = b.limit_kept; bounded = b.bounded })
        (record { limit_kept = b.limit_kept; bounded = b.bounded })
  Step-IsBounded {c} by_accept b = take_out-IsBounded c (scan c none (h.values c.backlog_umps)) b
  Step-IsBounded {c} (by_close addr i e) b = close_at-IsBounded (their_addr_of (c.socks i)) c i b
  Step-IsBounded {c} (by_cleaner clock cur) b = record {
    limit_kept = b.limit_kept;
    bounded = shrunk c _ (laws.size-foreach_remove c.backlog_umps _) b;
  }
  Step-IsBounded {c} (by_sock f i) b = record { limit_kept = b.limit_kept; bounded = b.bounded }

  Reach-IsBounded : {c d : UmpCore D h} → Reach c d → IsBounded n c → IsBounded n d
  Reach-IsBounded here b = b
  Reach-IsBounded (step r k) b = Step-IsBounded k (Reach-IsBounded r b)

  -- However many connections are asked for, the backlog of a core that was made for n connections
  -- never holds more than n + 1 sockets.
  pub backlog-IsBounded :
      {c d : UmpCore D h} → core_bind (pos n) ≡ some c → Reach c d → IsBounded n d
  backlog-IsBounded {c} e r = Reach-IsBounded r (
      subst (IsBounded n) (bound_core n c e)
        (record { limit_kept = refl; bounded = omega (arith, laws.size-new) }))
