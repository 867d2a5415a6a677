-- ===== src/Sock/Data/Called.antt =====
-- A message that has come in while no call waited for it: the next call is given its bytes.
use user_message_protocol.Base.{
  ℕ, ◌<◌, ◌≡◌, refl, sym, ap, ◌∙◌, subst, List, [], ◌∷◌, Option, some, true, arith, All, if_both,
  leb,
}
use user_message_protocol.Packet.{UmpPacket}
use user_message_protocol.Sock.{UmpSocket, Env, Node, LockState, unlocked}
use user_message_protocol.Sock.Receive.{
  join_data, end_receive_internal, harvest_messages, harvest_at,
}
use user_message_protocol.Sock.Ack.{set_our_ack_info}
use user_message_protocol.Sock.Calls.{sock_receive, handle_receive, handle_receive_as, receive_call}
use user_message_protocol.Sock.Data.{handle_data_packets}
use user_message_protocol.Sock.Data.View.{view}
use user_message_protocol.Sock.Data.Sent.{Sent, IsSent, Incoming, number, has_number, loads}
use user_message_protocol.Sock.Data.Held.{Run, join_data-Run}
use user_message_protocol.Sock.Data.Receiving.{Ended, answered, kept}
use user_message_protocol.Sock.Data.Reordering.{IsReady}
use user_message_protocol.Sock.Data.Arrival.{ended}
use user_message_protocol.Message.Delivery.{end_receive_internal-message}

module _ {D : Type 0} where
  harvest_messages-rec_ok : (s : UmpSocket D) → (harvest_messages s).rec_ok ≡ s.rec_ok
  unfolding harvest_messages harvest_at
  harvest_messages-rec_ok s = ground arith

  end_receive_internal-rec_ok : (s : UmpSocket D) → (end_receive_internal s).rec_ok ≡ s.rec_ok
  unfolding end_receive_internal set_our_ack_info
  end_receive_internal-rec_ok s =
      if_both (λ (t : UmpSocket D). t.rec_ok ≡ s.rec_ok) (leb 1 s.rcv_packets_msg_num)
        (harvest_messages-rec_ok _) refl

  -- A call that finds the packets `n ∷ ns` waiting is given their payloads.
  abbrev Given : List Node → UmpSocket D → Type 0
  Given ns t = (t.rec_msg ≡ some (join_data ns)) × (t.rec_ok ≡ true) × (t.rec_done ≡ true)

  receive_call-Given :
      (n : Node) (ns : List Node) (s : UmpSocket D)
      → s.rec_msg_packets ≡ n ∷ ns
      → Given (n ∷ ns) (receive_call (n ∷ ns) s)
  unfolding receive_call
  receive_call-Given n ns s e = (
    (end_receive_internal-message (record s { rec_ok = true })).0
        ∙ ap (λ (xs : List Node). some (join_data xs)) e,
    end_receive_internal-rec_ok (record s { rec_ok = true }),
    refl,
  )

  handle_receive-Given :
      (n : Node) (ns : List Node) (s : UmpSocket D)
      → s.rec_locked ≡ unlocked
      → s.rec_msg_packets ≡ n ∷ ns
      → Given (n ∷ ns) (handle_receive (sock_receive s) true)
  unfolding handle_receive handle_receive_as sock_receive
  handle_receive-Given n ns s u e =
      subst (λ (l : LockState). Given (n ∷ ns) (handle_receive_as l true (sock_receive s))) (sym u)
        (subst
          (λ (xs : List Node).
            Given (n ∷ ns) (receive_call xs (record (sock_receive s) { rec_held = true })))
          (sym e) (receive_call-Given n ns (record (sock_receive s) { rec_held = true }) e))

  given-Run :
      (m : Sent) (ns : List Node) (s : UmpSocket D)
      → 0 < m.count
      → Run m 0 ns m.count
      → s.rec_locked ≡ unlocked
      → s.rec_msg_packets ≡ ns
      → let t = handle_receive (sock_receive s) true in
        (t.rec_msg ≡ some (loads m 0 m.count)) × (t.rec_ok ≡ true) × (t.rec_done ≡ true)
  given-Run m [] s h r u e = absurd (omega arith)
  given-Run m (n ∷ ns) s h r u e =
      let g = handle_receive-Given n ns s u e in
      (g.0 ∙ ap some (join_data-Run m 0 (n ∷ ns) m.count m.count (omega arith) r), g.1, g.2)

kept_for :
    {D : Type 0} (m : Sent) (msg : Option (List ℕ)) (s : UmpSocket D) (l : LockState)
    → l ≡ unlocked
    → 0 < m.count
    → s.rec_locked ≡ unlocked
    → Ended m msg (view s) l
    → let t = handle_receive (sock_receive s) true in
      (t.rec_msg ≡ some (loads m 0 m.count)) × (t.rec_ok ≡ true) × (t.rec_done ≡ true)
kept_for m msg s l e h u (answered a b c d f) = absurd (ground arith)
kept_for m msg s l e h u (kept a r) = given-Run m s.rec_msg_packets s h r u refl

-- A message of at most 32768 packets comes in while no call for a message waits, all its packets in
-- any order, any number of times, among packets of earlier messages and acknowledgements. Then the
-- next call that the thread finds is answered at once, with the payloads one behind the other.
pub handle_receive-answered :
    {D : Type 0} (m : Sent) (env : Env D) (s : UmpSocket D) (ps : List UmpPacket)
    → IsSent m
    → IsReady m s
    → s.rec_locked ≡ unlocked
    → All (Incoming m) ps
    → ((i : ℕ) → i < m.count → has_number (number m i) ps ≡ true)
    → let t = handle_receive (sock_receive (handle_data_packets env s ps)) true in
      (t.rec_msg ≡ some (loads m 0 m.count)) × (t.rec_ok ≡ true) × (t.rec_done ≡ true)
handle_receive-answered m env s ps v r u h all =
    let e = ended m env s ps v r h all in
    kept_for m s.rec_msg (handle_data_packets env s ps) s.rec_locked u v.nonempty (e.0).rec_locked
      e.1
