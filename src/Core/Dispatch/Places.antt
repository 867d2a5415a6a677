-- ===== src/Core/Dispatch/Places.antt =====
-- What the receiving thread does to the places of the addresses.
use user_message_protocol.Base.{
  ℕ, suc, ◌≡◌, ◌≤◌, refl, sym, ◌∙◌, ap, subst, Option, none, some, ◌&&◌, leb, arith, if_both,
}
use user_message_protocol.Packet.{UmpPacket, get_flag, ctrl_syn}
use user_message_protocol.Sock.{UmpSocket}
use user_message_protocol.Core.{
  Peer, UmpCore, store, their_addr_of, change_sock, alloc, free, is_control,
}
use user_message_protocol.Core.Dispatch.{
  find_receiver, admit, hand_over, conclude, receive_as, receive,
}
use user_message_protocol.Core.Place.{
  Place, nowhere, asked, At, IsTidy, Follows, Elsewhere, Elsewhere-Follows, Follows-Elsewhere,
  next-Elsewhere, store-none, IsUnborn, store-their_addr_of, alloc-their_addr_of, stored,
  change_sock-their_addr_of, one_address,
}
use user_message_protocol.Core.Table.{SockAddr, GHashTable, IsTable, insert_here, insert_there}

module _ {D : Type 0} {h : GHashTable} where
  hand_over-Elsewhere :
      (c : UmpCore D h) (i : ℕ) (p : UmpPacket) (a : SockAddr) → Elsewhere c (hand_over c i p) a
  hand_over-Elsewhere c i p a = record {
    same_umps = refl;
    same_backlog = refl;
    same_act = refl;
    same_closed = refl;
    kept_socks = λ j e.
        store-their_addr_of c.socks i _ j a
          (λ q.
            change_sock-their_addr_of _ (c.socks i)
            ∙ subst (λ (k : ℕ). their_addr_of (c.socks k) ≡ some a) (sym q) e)
          e;
  }

  -- Nothing is found only where nothing is.
  not_found :
      (c : UmpCore D h) (a : SockAddr) (p : Place)
      → At c a p
      → find_receiver c a ≡ none
      → p ≡ nowhere
  unfolding find_receiver
  not_found c a p w e = ground (arith, w.umps_at, w.backlog_at, w.act_at, w.closed_at)

module _ {D : Type 0} {h : GHashTable} (laws : IsTable h) where
  admitted-Follows :
      (fresh : UmpSocket D) (c : UmpCore D h) (from a : SockAddr) (p : Place)
      → IsTidy c
      → find_receiver c from ≡ none
      → At c a p
      → Follows
          (record (alloc c from fresh) { backlog_umps = h.insert c.backlog_umps from c.next })
          a
          p
  admitted-Follows fresh c from a p w e at =
      let (q, at0) = w.placed from in
      let o : Option (Peer D) = some (record { their_addr = from; sock = fresh }) in
      let v = subst (At c from) (not_found c from q at0 e) at0 in
      one_address from a v at
        (record {
          umps_at = v.umps_at;
          backlog_at = insert_here laws c.backlog_umps from c.next;
          act_at = v.act_at;
          closed_at = v.closed_at;
          live = λ i x.
              subst (λ (j : ℕ). their_addr_of (store c.socks c.next o j) ≡ some from)
                (ground (arith, x)) (ap their_addr_of (stored c.socks c.next o));
        })
        asked
        (λ f. record {
          same_umps = refl;
          same_backlog = insert_there laws c.backlog_umps from a c.next f;
          same_act = refl;
          same_closed = refl;
          kept_socks = λ j. alloc-their_addr_of c o j a w;
        })

  conclude-Follows :
      (from a : SockAddr) (p : UmpPacket) (r : Option ℕ × UmpCore D h) (pl : Place)
      → Follows r.1 a pl
      → Follows (conclude from p r) a pl
  conclude-Follows from a p (none, c) pl f = Follows-Elsewhere f (record {
    same_umps = refl;
    same_backlog = refl;
    same_act = refl;
    same_closed = refl;
    kept_socks = λ i e. e;
  })
  conclude-Follows from a p (some i, c) pl f = Follows-Elsewhere f (hand_over-Elsewhere c i p a)

  refused-Elsewhere :
      (fresh : UmpSocket D) (c : UmpCore D h) (from a : SockAddr)
      → IsTidy c
      → Elsewhere c (free (alloc c from fresh) c.next) a
  refused-Elsewhere fresh c from a w = record {
    same_umps = refl;
    same_backlog = refl;
    same_act = refl;
    same_closed = refl;
    kept_socks = λ j e.
        store-their_addr_of (alloc c from fresh).socks c.next none j a
          (λ q. absurd (next-Elsewhere w j a e q))
          (alloc-their_addr_of c (some (record { their_addr = from; sock = fresh })) j a w e);
  }

  admit-Follows :
      (fresh : UmpSocket D) (c : UmpCore D h) (from a : SockAddr) (p : UmpPacket) (pl : Place)
      → IsTidy c
      → find_receiver c from ≡ none
      → At c a pl
      → Follows (admit fresh c from p).1 a pl
  unfolding admit
  admit-Follows fresh c from a p pl w e at =
      let P : Option ℕ × UmpCore D h → Type 0 = λ r. Follows r.1 a pl in
      if_both P (is_control p.p_type && get_flag p ctrl_syn)
        (if_both P (leb (h.size c.backlog_umps) c.backlog_limit)
          (admitted-Follows fresh c from a pl w e at)
          (Elsewhere-Follows at (refused-Elsewhere fresh c from a w)))
        (Elsewhere-Follows at (record {
          same_umps = refl;
          same_backlog = refl;
          same_act = refl;
          same_closed = refl;
          kept_socks = λ i o. o;
        }))

  receive_as-Follows :
      (o : Option ℕ) (fresh : UmpSocket D) (c : UmpCore D h) (from a : SockAddr) (p : UmpPacket)
      (pl : Place)
      → IsTidy c
      → find_receiver c from ≡ o
      → At c a pl
      → Follows (receive_as o fresh c from p) a pl
  receive_as-Follows (some i) fresh c from a p pl w e at =
      Elsewhere-Follows at (hand_over-Elsewhere c i p a)
  receive_as-Follows none fresh c from a p pl w e at =
      conclude-Follows from a p _ pl (admit-Follows fresh c from a p pl w e at)

  -- A packet lets every address follow its life.
  pub receive-Follows :
      (fresh : UmpSocket D) (c : UmpCore D h) (from a : SockAddr) (p : UmpPacket) (pl : Place)
      → IsTidy c
      → At c a pl
      → Follows (receive fresh c from p) a pl
  unfolding receive
  receive-Follows fresh c from a p pl w at =
      receive_as-Follows (find_receiver c from) fresh c from a p pl w refl at

module _ {D : Type 0} {h : GHashTable} where
  hand_over-IsUnborn :
      (c : UmpCore D h) (i : ℕ) (p : UmpPacket) → IsUnborn c → IsUnborn (hand_over c i p)
  hand_over-IsUnborn c i p u = record {
    unborn = λ j le.
        store-none c.socks i _ j (u.unborn j le)
          (λ q. ap (change_sock _) (subst (λ (k : ℕ). c.socks k ≡ none) (sym q) (u.unborn j le)));
  }

  conclude-IsUnborn :
      (from : SockAddr) (p : UmpPacket) (r : Option ℕ × UmpCore D h)
      → IsUnborn r.1
      → IsUnborn (conclude from p r)
  conclude-IsUnborn from p (none, c) u = record { unborn = u.unborn }
  conclude-IsUnborn from p (some i, c) u = hand_over-IsUnborn c i p u

  admit-IsUnborn :
      (fresh : UmpSocket D) (c : UmpCore D h) (from : SockAddr) (p : UmpPacket)
      → IsUnborn c
      → IsUnborn (admit fresh c from p).1
  unfolding admit
  admit-IsUnborn fresh c from p u =
      let P : Option ℕ × UmpCore D h → Type 0 = λ r. IsUnborn r.1 in
      let o : Option (Peer D) = some (record { their_addr = from; sock = fresh }) in
      let added : (j : ℕ) → suc c.next ≤ j → store c.socks c.next o j ≡ none = λ j le.
        store-none c.socks c.next o j (u.unborn j (omega (arith, le)))
          (λ q. absurd (omega (arith, q, le))) in
      if_both P (is_control p.p_type && get_flag p ctrl_syn)
        (if_both P (leb (h.size c.backlog_umps) c.backlog_limit) (record { unborn = added })
          (record {
            unborn =
                λ j le. store-none (store c.socks c.next o) c.next none j (added j le) (λ _. refl);
          }))
        u

  receive_as-IsUnborn :
      (o : Option ℕ) (fresh : UmpSocket D) (c : UmpCore D h) (from : SockAddr) (p : UmpPacket)
      → IsUnborn c
      → IsUnborn (receive_as o fresh c from p)
  receive_as-IsUnborn (some i) fresh c from p u = hand_over-IsUnborn c i p u
  receive_as-IsUnborn none fresh c from p u =
      conclude-IsUnborn from p _ (admit-IsUnborn fresh c from p u)

  pub receive-IsUnborn :
      (fresh : UmpSocket D) (c : UmpCore D h) (from : SockAddr) (p : UmpPacket)
      → IsUnborn c
      → IsUnborn (receive fresh c from p)
  unfolding receive
  receive-IsUnborn fresh c from p u = receive_as-IsUnborn (find_receiver c from) fresh c from p u
