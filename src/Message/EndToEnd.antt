-- ===== src/Message/EndToEnd.antt =====
-- A message from one application to the other: from `ump_sock_send` at the sender to
-- `ump_receive_message` at the receiver, over a network that loses, doubles and reorders datagrams.
use user_message_protocol.Base.{
  ℕ, zero, suc, ◌+◌, ◌<◌, ◌≤◌, ◌≡◌, refl, sym, ap, subst, ◌∙◌, List, [], ◌∷◌, Option, none, some,
  arith, true, false, Bool, ◌==◌, ◌||◌, not, ltb, length, get_elem?, All, u16, u16_mod, if_cases,
}
use user_message_protocol.Base.Int.{pos}
use user_message_protocol.Packet.{UmpPacket, new}
use user_message_protocol.Packet.Codec.{Parsed, from_binary}
use user_message_protocol.Sock.{UmpSocket, Env, established, LockState, locked, unlocked}
use user_message_protocol.Sock.Calls.{sock_send, is_established}
use user_message_protocol.Sock.Window.{refresh_snd_wnd_pos}
use user_message_protocol.Sock.Sending.{
  number_packets, mark_last, accept_message, handle_send, handle_send_as,
}
use user_message_protocol.Sock.Sending.Number.{length-number_packets, length-mark_last}
use user_message_protocol.Sock.Data.{handle_data_packets}
use user_message_protocol.Sock.Data.Sent.{Sent, Incoming, has_number, number}
use user_message_protocol.Sock.Data.Reordering.{IsReady}
use user_message_protocol.Sock.Data.Arrival.{handle_data_packets-answered}
use user_message_protocol.Message.{split_message, packets_count, receive_message}
use user_message_protocol.Message.Whole.{IsData, sealed}
use user_message_protocol.Message.Network.{heard, chunk, of_packets, prepared-At}
use user_message_protocol.Message.Reordered.{parts-IsSent, bytes_lem, receive_message-given}
use user_message_protocol.Message.Carried.{Carries, AckFits, Sound, flags}
use user_message_protocol.Message.Outgoing.{IsLoaded, IsSending}

-- What the receiving thread makes of datagrams, one behind the other.
unfoldable pub heard_all : List (List ℕ) → List UmpPacket
unfolding heard
heard_all [] = []
heard_all (d ∷ ds) = heard (from_binary d) (heard_all ds)

-- What the network makes of the datagrams `sent`: `js` are the places of those that come in, in their
-- order.
unfoldable pub brought : List (List ℕ) → List ℕ → List (List ℕ)
brought sent [] = []
brought sent (j ∷ js) = elim (get_elem? sent j) [
  | none ↦ brought sent js
  | some d ↦ d ∷ brought sent js
]

get-All :
    {A : Type 0} (P : A → Type 0) (xs : List A) (j : ℕ) (x : A)
    → All P xs
    → get_elem? xs j ≡ some x
    → P x
get-All P [] j x h e = absurd (ground arith)
get-All P (y ∷ xs) zero x (p, h) e = subst P (ground (arith, e)) p
get-All P (y ∷ xs) (suc j) x (p, h) e = get-All P xs j x h e

brought-Sound :
    (m : Sent) (sent : List (List ℕ)) (js : List ℕ)
    → All (Sound m) sent
    → All (Sound m) (brought sent js)
unfolding brought
brought-Sound m sent [] h = tt
brought-Sound m sent (j ∷ js) h = one (get_elem? sent j) refl (brought-Sound m sent js h)
  where
    one :
        (o : Option (List ℕ))
        → get_elem? sent j ≡ o
        → All (Sound m) (brought sent js)
        → All (Sound m) (elim o as (λ _. List (List ℕ)) [
          | none ↦ brought sent js
          | some d ↦ d ∷ brought sent js
        ])
    one none e g = g
    one (some d) e g = (get-All (Sound m) sent j d h e, g)

heard_all-Incoming :
    (m : Sent) (ds : List (List ℕ)) → All (Sound m) ds → All (Incoming m) (heard_all ds)
unfolding heard_all heard
heard_all-Incoming m [] h = tt
heard_all-Incoming m (d ∷ ds) (s, h) =
    subst (λ (r : Parsed). All (Incoming m) (heard r (heard_all ds))) (sym s.read)
      (s.incoming, heard_all-Incoming m ds h)

get_elem?-lt : {A : Type 0} (xs : List A) (j : ℕ) (x : A) → get_elem? xs j ≡ some x → j < length xs
get_elem?-lt [] j x e = absurd (ground arith)
get_elem?-lt (y ∷ xs) zero x e = omega arith
get_elem?-lt (y ∷ xs) (suc j) x e = let h = get_elem?-lt xs j x e in omega arith

sealed-Carries :
    (m : Sent) (j : ℕ) (b : Bool)
    → j < m.count
    → b ≡ (suc j == m.count)
    → Carries m j (sealed b (number m j) (m.load j))
unfolding new
sealed-Carries m j true h e = record {
  inside = h;
  kind = refl;
  acked = false;
  flagged = ap (λ (c : Bool). flags c false) e;
  numbered = refl;
  bytes = refl;
  ack = omega arith;
  mss = omega arith;
  wnd = omega arith;
}
sealed-Carries m j false h e = record {
  inside = h;
  kind = refl;
  acked = false;
  flagged = ap (λ (c : Bool). flags c false) e;
  numbered = refl;
  bytes = refl;
  ack = omega arith;
  mss = omega arith;
  wnd = omega arith;
}

-- What `ump_sndunlocked_handle_snd` makes of the packets is loaded with the message.
pub prepared-IsLoaded :
    (seq : ℕ) (ps : List UmpPacket)
    → seq < u16_mod
    → All IsData ps
    → IsLoaded (of_packets seq ps) (mark_last (number_packets seq ps))
prepared-IsLoaded seq ps hs ds = record {
  at = λ j p e.
      let inside : j < length ps = omega (
        arith,
        get_elem?-lt (mark_last (number_packets seq ps)) j p e,
        length-mark_last (number_packets seq ps),
        length-number_packets seq ps,
      ) in
      let m = of_packets seq ps in
      let same : sealed (suc j == length ps) (number m j) (chunk ps j) ≡ p =
        some-same (sym (prepared-At seq j ps hs ds inside) ∙ e) in
      subst (Carries m j) same (sealed-Carries m j (suc j == length ps) inside refl);
}
  where
    some-same : {p q : UmpPacket} → some p ≡ some q → p ≡ q
    some-same e = ground (arith, e)

module _ {D : Type 0} (s : UmpSocket D) (ps : List UmpPacket) where
  takes :
      0 < length ps
      → s.state ≡ established
      → s.error_occured ≡ false
      → (ltb (length ps) 1 || (not (is_established s.state) || s.error_occured)) ≡ false
  takes h st ok = rw (st, ok) (ground arith)

  accepted :
      s.our_data_start_seq < u16_mod
      → All IsData ps
      → 0 < length ps
      → s.state ≡ established
      → s.error_occured ≡ false
      → AckFits s
      → All (Sound (of_packets s.our_data_start_seq ps)) s.sent
      → IsSending
          (of_packets s.our_data_start_seq ps)
          (accept_message ps (record (sock_send s ps) { snd_held = true }))
  unfolding sock_send accept_message refresh_snd_wnd_pos
  accepted hs ds some_packet st ok f v =
      if_cases (IsSending (of_packets s.our_data_start_seq ps))
        (ltb (length ps) 1 || (not (is_established s.state) || s.error_occured))
        (λ e. absurd (ground (arith, e, takes some_packet st ok)))
        (λ e. record {
          packets = mark_last (number_packets s.our_data_start_seq ps);
          given = refl;
          loaded = prepared-IsLoaded s.our_data_start_seq ps hs ds;
          ack = record { seq = f.seq; wnd = f.wnd };
          sound = v;
        })

  -- A socket starts to send a message: where the connection is established without an error, no other
  -- message is being sent, the message has a packet, and only its datagrams or acknowledgements went
  -- out so far, the thread's handling of the call of `ump_sock_send` leaves an array in which each
  -- packet is one of this message at its place, with its number, its mark and its bytes.
  pub handle_send-IsSending :
      s.our_data_start_seq < u16_mod
      → All IsData ps
      → 0 < length ps
      → s.snd_locked ≡ unlocked
      → s.state ≡ established
      → s.error_occured ≡ false
      → AckFits s
      → All (Sound (of_packets s.our_data_start_seq ps)) s.sent
      → IsSending (of_packets s.our_data_start_seq ps) (handle_send (sock_send s ps) true)
  unfolding handle_send handle_send_as sock_send
  handle_send-IsSending hs ds some_packet u st ok f v =
      subst
        (λ (l : LockState).
          IsSending (of_packets s.our_data_start_seq ps)
            (handle_send_as l true (some ps) (sock_send s ps)))
        (sym u) (accepted hs ds some_packet st ok f v)

-- A message from `ump_sock_send` to `ump_receive_message`. The sender has handed datagrams to
-- `ump_sendto` while it sends the message: its packets, each as often as it was resent and with
-- whatever acknowledgement, and acknowledgements alone. The network brings any of them in any
-- order, any number of times. Where each packet comes through once at least, and a call waits for a
-- message at a receiver that is established, expects the first number and has nothing of the
-- message, this call is woken and given exactly the bytes that were sent. The message has a byte at
-- least and at most 32768 packets.
pub message_delivered :
    {D : Type 0} (env : Env D) (t s : UmpSocket D) (mss x : ℕ) (xs : List ℕ) (js : List ℕ)
    → 0 < mss
    → s.their_data_seq_base < u16_mod
    → packets_count mss (length (x ∷ xs)) ≤ 32768
    → IsSending (of_packets s.their_data_seq_base (split_message mss (x ∷ xs))) t
    → IsReady (of_packets s.their_data_seq_base (split_message mss (x ∷ xs))) s
    → s.rec_locked ≡ locked
    → ((i : ℕ)
        → i < length (split_message mss (x ∷ xs))
        → has_number (u16 (s.their_data_seq_base + i)) (heard_all (brought t.sent js)) ≡ true)
    → let u = handle_data_packets env s (heard_all (brought t.sent js)) in
      let r = receive_message u in
      (u.rec_done ≡ true) × (r.0 ≡ pos 0) × (r.1 ≡ (some (x ∷ xs), length (x ∷ xs)))
message_delivered env t s mss x xs js hm hs short v r w all =
    let seq = s.their_data_seq_base in
    let m = of_packets seq (split_message mss (x ∷ xs)) in
    let a =
      handle_data_packets-answered m env s (heard_all (brought t.sent js))
        (parts-IsSent mss seq x xs hm hs short) r w
        (heard_all-Incoming m (brought t.sent js) (brought-Sound m t.sent js v.sound)) all in
    let bytes = bytes_lem mss seq x xs hm hs short in
    let g =
      receive_message-given (x ∷ xs) _ (a.2) (a.0 ∙ ap some bytes) (a.1 ∙ ap (length {0}) bytes) in
    (a.3, g.0, g.1)
