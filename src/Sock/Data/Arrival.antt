-- ===== src/Sock/Data/Arrival.antt =====
-- When a message has come in: the call that waits for it is given its bytes.
use user_message_protocol.Base.{
  ℕ, suc, ◌<◌, ◌≡◌, List, [], Option, some, Bool, true, false, arith, length, ◌||◌, All,
}
use user_message_protocol.Packet.{UmpPacket}
use user_message_protocol.Sock.{UmpSocket, Env, LockState, locked, unlocked}
use user_message_protocol.Sock.Data.{handle_data_packets}
use user_message_protocol.Sock.Data.View.{View, view}
use user_message_protocol.Sock.Data.Sent.{Sent, IsSent, Incoming, number, has_number, loads}
use user_message_protocol.Sock.Data.Apart.{holds-Ascends}
use user_message_protocol.Sock.Data.Receiving.{
  Receiving, gathering, complete, Through, Ended, answered, kept,
}
use user_message_protocol.Sock.Data.Reordering.{
  IsReady, ready-Receiving, handle_data_packets-Receiving,
}

module _ (m : Sent) (l : LockState) (msg : Option (List ℕ)) (seen : ℕ → Bool) (w : View) where
  -- With every packet seen the socket is behind the message.
  through :
      IsSent m
      → ((i : ℕ) → i < m.count → seen i ≡ true)
      → Receiving m l msg seen w
      → Through m w × Ended m msg w l
  through v all (gathering k before rest hk a g e) = absurd (
      ground (
        arith,
        all k,
        e.exact k,
        holds-Ascends m v k hk (suc k) rest m.count (omega arith) g.ascends,
      ))
  through v all (complete t d e) = (t, d)

  -- With a packet missing nothing has been given.
  waits :
      (i : ℕ)
      → i < m.count
      → seen i ≡ false
      → Receiving m l msg seen w
      → (w.rec_msg ≡ msg) × (w.rec_msg_packets ≡ []) × (w.rec_locked ≡ l)
  waits i hi none_seen (gathering k before rest hk a g e) = (a.rec_msg, a.none_taken, a.rec_locked)
  waits i hi none_seen (complete t d e) = absurd (ground (arith, e i hi))

module _ (m : Sent) {D : Type 0} (env : Env D) (s : UmpSocket D) (ps : List UmpPacket) where
  -- The socket when its thread has handled the packets.
  abbrev after : UmpSocket D
  after = handle_data_packets env s ps

  abbrev seen_in : ℕ → Bool
  seen_in i = has_number (number m i) ps || false

  came :
      IsSent m
      → IsReady m s
      → All (Incoming m) ps
      → Receiving m s.rec_locked s.rec_msg seen_in (view after)
  came v r h =
      handle_data_packets-Receiving m v env s.rec_locked s.rec_msg ps s (λ i. false) h
        (ready-Receiving m v s r)

  pub ended :
      IsSent m
      → IsReady m s
      → All (Incoming m) ps
      → ((i : ℕ) → i < m.count → has_number (number m i) ps ≡ true)
      → Through m (view after) × Ended m s.rec_msg (view after) s.rec_locked
  ended v r h all =
      through m s.rec_locked s.rec_msg seen_in (view after) v (λ i hi. ground (arith, all i hi))
        (came v r h)

answered_by :
    (m : Sent) (msg : Option (List ℕ)) (w : View) (l : LockState)
    → l ≡ locked
    → Ended m msg w l
    → (w.rec_msg ≡ some (loads m 0 m.count))
      × (w.rec_msg_l ≡ length (loads m 0 m.count))
      × (w.rec_ok ≡ true)
      × (w.rec_done ≡ true)
      × (w.rec_msg_packets ≡ [])
answered_by m msg w l e (answered a b c d f) = (a, b, c, d, f)
answered_by m msg w l e (kept a b) = absurd (ground arith)

-- A call for a message waits, and all packets of a message of at most 32768 come in, in any order,
-- any number of times, among packets of earlier messages and acknowledgements. The call is given
-- the payloads one behind the other, in the order of the numbers, and the event at which it waits
-- is set; the connection is ready for the next message.
pub handle_data_packets-answered :
    {D : Type 0} (m : Sent) (env : Env D) (s : UmpSocket D) (ps : List UmpPacket)
    → IsSent m
    → IsReady m s
    → s.rec_locked ≡ locked
    → All (Incoming m) ps
    → ((i : ℕ) → i < m.count → has_number (number m i) ps ≡ true)
    → let t = handle_data_packets env s ps in
      (t.rec_msg ≡ some (loads m 0 m.count))
      × (t.rec_msg_l ≡ length (loads m 0 m.count))
      × (t.rec_ok ≡ true)
      × (t.rec_done ≡ true)
      × (t.rec_locked ≡ unlocked)
      × IsReady (record m { start = number m m.count }) t
handle_data_packets-answered m env s ps v r w h all =
    let e = ended m env s ps v r h all in
    let t = e.0 in
    let a = answered_by m s.rec_msg (view (handle_data_packets env s ps)) s.rec_locked w e.1 in
    (
      a.0,
      a.1,
      a.2,
      a.3,
      t.rec_locked,
      record {
        state = t.state;
        base = t.base;
        list = t.list;
        so_far = t.so_far;
        none_complete = t.none_complete;
        none_taken = a.4;
      },
    )

-- As long as a packet of the message is missing, no call is given anything, and no packets wait for
-- a call.
pub handle_data_packets-waits :
    {D : Type 0} (m : Sent) (env : Env D) (s : UmpSocket D) (ps : List UmpPacket) (i : ℕ)
    → IsSent m
    → IsReady m s
    → All (Incoming m) ps
    → i < m.count
    → has_number (number m i) ps ≡ false
    → let t = handle_data_packets env s ps in
      (t.rec_msg ≡ s.rec_msg) × (t.rec_msg_packets ≡ []) × (t.rec_locked ≡ s.rec_locked)
handle_data_packets-waits m env s ps i v r h hi gap =
    waits m s.rec_locked s.rec_msg (seen_in m env s ps) (view (handle_data_packets env s ps)) i hi
      (ground (arith, gap)) (came m env s ps v r h)
