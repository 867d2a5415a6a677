-- ===== src/Message/Reordered.antt =====
-- A message from one application to the other, over a network that reorders, doubles and delays its
-- datagrams.
use user_message_protocol.Base.{
  ℕ, ◌<◌, ◌≤◌, ◌≡◌, refl, sym, ap, subst, ◌∙◌, List, ◌∷◌, some, arith, true, length, All, u16_mod,
}
use user_message_protocol.Base.Int.{pos}
use user_message_protocol.Packet.{UmpPacket}
use user_message_protocol.Sock.{UmpSocket, Env, locked}
use user_message_protocol.Sock.Data.{handle_data_packets}
use user_message_protocol.Sock.Data.Sent.{IsSent, Incoming, has_number, number, loads}
use user_message_protocol.Sock.Data.Reordering.{IsReady}
use user_message_protocol.Sock.Data.Arrival.{handle_data_packets-answered}
use user_message_protocol.Message.{split_message, packets_count, receive_message, take_message}
use user_message_protocol.Message.Split.{contents-split_message, split_message-Fits, fill_step}
use user_message_protocol.Message.Whole.{prepared, IsData, fill-IsData}
use user_message_protocol.Message.Network.{
  arrivals, comes, chunk, of_packets, loads-contents, arrivals-Incoming, has_number-arrivals,
}

module _ (mss seq x : ℕ) (xs : List ℕ) (hm : 0 < mss) (hs : seq < u16_mod)
    (short : packets_count mss (length (x ∷ xs)) ≤ 32768) where
  abbrev pub parts : List UmpPacket
  parts = split_message mss (x ∷ xs)

  count_lem : length parts ≡ packets_count mss (length (x ∷ xs))
  count_lem = (split_message-Fits mss (x ∷ xs) hm).0

  pub parts-IsSent : IsSent (of_packets seq parts)
  unfolding split_message
  parts-IsSent = record {
    start = hs;
    nonempty =
        subst (λ (ps : List UmpPacket). 0 < length ps) (sym (fill_step (length xs) mss x xs))
          (omega arith);
    short = omega (arith, count_lem);
  }

  pub bytes_lem : loads (of_packets seq parts) 0 (length parts) ≡ x ∷ xs
  bytes_lem =
      loads-contents (of_packets seq parts) 0 parts (λ j. ap (chunk parts) (omega arith))
      ∙ contents-split_message mss (x ∷ xs) hm

  pub parts-IsData : All IsData parts
  unfolding split_message
  parts-IsData = fill-IsData (length (x ∷ xs)) mss (x ∷ xs)

  module _ (js : List ℕ) (places : All (λ (j : ℕ). j < length parts) js)
      (all : (i : ℕ) → i < length parts → comes i js ≡ true) where
    incoming : All (Incoming (of_packets seq parts)) (arrivals (prepared mss seq (x ∷ xs)) js)
    unfolding prepared
    incoming = arrivals-Incoming seq parts hs parts-IsData js places

    all_there :
        (i : ℕ)
        → i < length parts
        → has_number (number (of_packets seq parts) i) (arrivals (prepared mss seq (x ∷ xs)) js)
          ≡ true
    unfolding prepared
    all_there i h = has_number-arrivals seq parts hs parts-IsData i js places (all i h)

-- What `ump_receive_message` returns when the call was answered.
pub receive_message-given :
    {D : Type 0} (bytes : List ℕ) (s : UmpSocket D)
    → s.rec_ok ≡ true
    → s.rec_msg ≡ some bytes
    → s.rec_msg_l ≡ length bytes
    → let r = receive_message s in (r.0 ≡ pos 0) × (r.1 ≡ (some bytes, length bytes))
unfolding receive_message take_message
receive_message-given bytes s ok msg len = rw (ok, msg) (refl, λ i. (some bytes, len i))

-- A message of bytes is cut into at most 32768 packets, which are numbered around the circle and
-- marked, and go out as datagrams. The network brings them in the order `js`, in which each comes
-- once at least. The peer's socket is established, expects the first number, and has nothing of the
-- message. Where a call waits for a message, it is given exactly the bytes that were sent.
pub message_arrives :
    {D : Type 0} (env : Env D) (s : UmpSocket D) (mss x : ℕ) (xs : List ℕ) (js : List ℕ)
    → 0 < mss
    → s.their_data_seq_base < u16_mod
    → packets_count mss (length (x ∷ xs)) ≤ 32768
    → IsReady (of_packets s.their_data_seq_base (split_message mss (x ∷ xs))) s
    → s.rec_locked ≡ locked
    → All (λ (j : ℕ). j < length (split_message mss (x ∷ xs))) js
    → ((i : ℕ) → i < length (split_message mss (x ∷ xs)) → comes i js ≡ true)
    → let t =
        handle_data_packets env s (arrivals (prepared mss s.their_data_seq_base (x ∷ xs)) js) in
      let r = receive_message t in (r.0 ≡ pos 0) × (r.1 ≡ (some (x ∷ xs), length (x ∷ xs)))
message_arrives env s mss x xs js hm hs short r w places all =
    let seq = s.their_data_seq_base in
    let a =
      handle_data_packets-answered (of_packets seq (split_message mss (x ∷ xs))) env s
        (arrivals (prepared mss seq (x ∷ xs)) js) (parts-IsSent mss seq x xs hm hs short) r w
        (incoming mss seq x xs hm hs short js places all)
        (all_there mss seq x xs hm hs short js places all) in
    let bytes = bytes_lem mss seq x xs hm hs short in
    receive_message-given (x ∷ xs) _ (a.2) (a.0 ∙ ap some bytes) (a.1 ∙ ap (length {0}) bytes)
