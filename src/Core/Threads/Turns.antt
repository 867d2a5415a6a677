-- ===== src/Core/Threads/Turns.antt =====
-- What a turn of the receiving thread or of the cleaner does.
use user_message_protocol.Base.{
  ℕ, ◌<◌, ◌≡◌, ◌≢◌, ◌++◌, ◌⊎◌, inl, inr, refl, sym, ap, subst, List, [], ◌∷◌, Option, none, some,
  Bool, true, false, arith, length, if_both,
}
use user_message_protocol.Clock.{TimeVal, Clock}
use user_message_protocol.Packet.{UmpPacket, PacketType, control, user, new}
use user_message_protocol.Packet.Codec.{Parsed, parsed, rejected, overread, from_binary, write}
use user_message_protocol.Packet.Codec.RoundTrip.{from_binary-write, IsSendable, seen}
use user_message_protocol.Packet.Codec.Checksum.{IsHeader, from_binary-corrupt}
use user_message_protocol.Event.{MEvent, try_timed_wait}
use user_message_protocol.Sock.{UmpSocket, rec_queue_limit}
use user_message_protocol.Sock.Thread.{deliver}
use user_message_protocol.Core.{Peer, UmpCore}
use user_message_protocol.Core.Dispatch.{receive}
use user_message_protocol.Core.Dispatch.Delivery.{receive_reaches}
use user_message_protocol.Core.Clean.{clean}
use user_message_protocol.Core.Steps.{Step, Reach, by_packet, by_cleaner, step}
use user_message_protocol.Core.Place.{Place, At, occupant}
use user_message_protocol.Core.Table.{SockAddr, GHashTable}
use user_message_protocol.Core.Threads.{
  Turn, goes_on, returned, asleep, reads_behind, frees_twice, receive_turn, receive_parsed,
  cleaner_turn, stop_or, ump_recvfrom,
}

module _ {D : Type 0} where
  -- What the socket `t` has queued that the socket `s` has not, in the queue for this type of packet:
  -- a data packet behind the others if fewer than the limit are there, a control packet if none is.
  -- The queue for the other type is the same.
  abbrev pub Queued : PacketType → UmpPacket → UmpSocket D → UmpSocket D → Type 0
  Queued control q s t =
      (s.rec_control_packets ≡ [] → t.rec_control_packets ≡ q ∷ [])
      × (t.rec_data_packets ≡ s.rec_data_packets)
  Queued user q s t =
      (length s.rec_data_packets < rec_queue_limit
        → t.rec_data_packets ≡ s.rec_data_packets ++ q ∷ [])
      × (t.rec_control_packets ≡ s.rec_control_packets)

  deliver-Queued : (k : PacketType) (s : UmpSocket D) (q : UmpPacket) → Queued k q s (deliver k s q)
  unfolding deliver
  deliver-Queued control s q = (
    λ e. rw e (ground arith),
    if_both (λ (t : UmpSocket D). t.rec_data_packets ≡ s.rec_data_packets) _ refl refl,
  )
  deliver-Queued user s q = (
    λ h. ground arith,
    if_both (λ (t : UmpSocket D). t.rec_control_packets ≡ s.rec_control_packets) _ refl refl,
  )

  seen-Queued :
      (k : PacketType) (p : UmpPacket) (s : UmpSocket D)
      → Queued k (seen k p) s (deliver (seen k p).p_type s (seen k p))
  unfolding new
  seen-Queued control p s = deliver-Queued control s (seen control p)
  seen-Queued user p s = deliver-Queued user s (seen user p)

module _ {D : Type 0} {h : GHashTable} where
  -- A core after a turn, where the turn leaves one.
  abbrev pub Leaves : (UmpCore D h → Type 0) → Turn D h → Type 0
  Leaves P (goes_on c) = P c
  Leaves P (returned c) = P c
  Leaves P (asleep c) = P c
  Leaves P reads_behind = Unit
  Leaves P frees_twice = Unit

  stop_or-Reach :
      (b c : UmpCore D h) (f : UmpCore D h → UmpCore D h) (o : Option (Bool × MEvent))
      → Reach b c
      → Step c (f c) ⊎ (f c ≡ c)
      → Leaves (Reach b) (stop_or f o c)
  stop_or-Reach b c f none r s = r
  stop_or-Reach b c f (some (true, e)) r s = r
  stop_or-Reach b c f (some (false, e)) r s = elim s [
    | inl k ↦ step r k
    | inr q ↦ subst (Reach b) (sym q) r
  ]

  receive_parsed-Reach :
      (b c : UmpCore D h) (fresh : UmpSocket D) (from : SockAddr) (r : Parsed)
      → Reach b c
      → Leaves (Reach b) (receive_parsed fresh c from r)
  receive_parsed-Reach b c fresh from (parsed p) r = step r (by_packet fresh from p)
  receive_parsed-Reach b c fresh from (rejected true) r = tt
  receive_parsed-Reach b c fresh from (rejected false) r = r
  receive_parsed-Reach b c fresh from overread r = tt

  -- Whatever bytes come in from wherever, a turn of the receiving thread is a step of the core's
  -- life, or none.
  pub receive_turn-Reach :
      (b c : UmpCore D h) (e : MEvent) (in_time : Bool) (fresh : UmpSocket D)
      (got : Option (SockAddr × List ℕ))
      → Reach b c
      → Leaves (Reach b) (receive_turn e in_time fresh c got)
  unfolding receive_turn ump_recvfrom
  receive_turn-Reach b c e in_time fresh none r =
      stop_or-Reach b c (λ d. d) (try_timed_wait in_time e) r (inr refl)
  receive_turn-Reach b c e in_time fresh (some (from, [])) r =
      stop_or-Reach b c (λ d. d) (try_timed_wait in_time e) r (inr refl)
  receive_turn-Reach b c e in_time fresh (some (from, x ∷ bytes)) r =
      receive_parsed-Reach b c fresh from (from_binary (x ∷ bytes)) r

  pub cleaner_turn-Reach :
      (b c : UmpCore D h) (e : MEvent) (in_time : Bool) (clock : Clock) (cur : ℕ → TimeVal)
      → Reach b c
      → Leaves (Reach b) (cleaner_turn e in_time clock cur c)
  unfolding cleaner_turn
  cleaner_turn-Reach b c e in_time clock cur r =
      stop_or-Reach b c (clean clock cur) (try_timed_wait in_time e) r (inl (by_cleaner clock cur))

  receive_turn-parsed :
      (e : MEvent) (in_time : Bool) (fresh : UmpSocket D) (c : UmpCore D h) (from : SockAddr)
      (bytes : List ℕ) (q : UmpPacket)
      → from_binary bytes ≡ parsed q
      → receive_turn e in_time fresh c (some (from, bytes)) ≡ goes_on (receive fresh c from q)
  unfolding receive_turn ump_recvfrom from_binary
  receive_turn-parsed e in_time fresh c from [] q h = absurd (ground arith)
  receive_turn-parsed e in_time fresh c from (x ∷ bytes) q h = ap (receive_parsed fresh c from) h

  -- A datagram that a peer writes of a packet it may send, and that comes from the address at which
  -- a socket is, reaches this socket: the turn of the receiving thread goes on, with the socket
  -- where it was, and what the packet says is in the socket's queue for its type, a data packet
  -- behind the others if fewer than the limit were there, a control packet if none was.
  pub receive_turn-write :
      (e : MEvent) (in_time : Bool) (fresh : UmpSocket D) (c : UmpCore D h) (from : SockAddr)
      (p : UmpPacket) (place : Place) (i : ℕ) (s : Peer D)
      → IsSendable p
      → At c from place
      → occupant place ≡ some i
      → c.socks i ≡ some s
      → (d : UmpCore D h) × (t : UmpSocket D) × (receive_turn e in_time fresh c
            (some (from, (write p).1))
          ≡ goes_on d)
        × (d.socks i ≡ some (record s { sock = t }))
        × Queued p.p_type (seen p.p_type p) s.sock t
  receive_turn-write e in_time fresh c from p place i s v at o l =
      let q = seen p.p_type p in
      (
        receive fresh c from q,
        deliver q.p_type s.sock q,
        receive_turn-parsed e in_time fresh c from (write p).1 q (from_binary-write p v),
        (receive_reaches fresh c from q place i s at o l).0,
        seen-Queued p.p_type p s.sock,
      )

  receive_turn-rejected :
      (e : MEvent) (in_time : Bool) (fresh : UmpSocket D) (c : UmpCore D h) (from : SockAddr)
      (bytes : List ℕ)
      → from_binary bytes ≡ rejected true
      → receive_turn e in_time fresh c (some (from, bytes)) ≡ frees_twice
  unfolding receive_turn ump_recvfrom from_binary
  receive_turn-rejected e in_time fresh c from [] k = absurd (ground arith)
  receive_turn-rejected e in_time fresh c from (x ∷ bytes) k = ap (receive_parsed fresh c from) k

  -- A datagram that is read as a packet, with one byte of its body changed on the way to another
  -- byte, makes the receiving thread give the memory of the datagram back twice, whatever the core
  -- is.
  pub receive_turn-corrupt :
      (e : MEvent) (in_time : Bool) (fresh : UmpSocket D) (c : UmpCore D h) (from : SockAddr)
      (front xs ys : List ℕ) (x y : ℕ) (q : UmpPacket)
      → IsHeader front
      → x < 256
      → y < 256
      → x ≢ y
      → from_binary (front ++ (xs ++ x ∷ ys)) ≡ parsed q
      → receive_turn e in_time fresh c (some (from, front ++ (xs ++ y ∷ ys))) ≡ frees_twice
  receive_turn-corrupt e in_time fresh c from front xs ys x y q v hx hy ne k =
      receive_turn-rejected e in_time fresh c from (front ++ (xs ++ y ∷ ys))
        (from_binary-corrupt front xs ys x y v hx hy ne k)
