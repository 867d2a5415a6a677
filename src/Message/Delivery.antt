-- ===== src/Message/Delivery.antt =====
-- A message on its way: cut into packets, sent, read by the peer, and put together again.
use user_message_protocol.Base.{
  ℕ, ◌<◌, ◌≡◌, refl, sym, ap, subst, ◌∙◌, List, [], ◌∷◌, Option, some, none, if_both, leb, length,
  u16_mod,
}
use user_message_protocol.Sock.{Node, UmpSocket}
use user_message_protocol.Sock.Receive.{
  join_data, find_bdr, until, end_receive_internal, harvest_messages, harvest_at,
}
use user_message_protocol.Sock.Ack.{set_our_ack_info}
use user_message_protocol.Message.Split.{contents-split_message}
use user_message_protocol.Message.Whole.{prepared, arrive, prepared-IsWhole}

-- A receiver of the packets `ns` alone, whose first message has just become complete.
abbrev pub receiver : {D : Type 0} → UmpSocket D → List Node → UmpSocket D
receiver s ns = record s {
  rcv_data_packets = ns;
  rcv_first_msg_end = find_bdr ns;
  rcv_packets_msg_num = 1;
}

harvest_messages-message :
    {D : Type 0} (s : UmpSocket D)
    → let t = harvest_messages s in (t.rec_msg ≡ s.rec_msg) × (t.rec_msg_l ≡ s.rec_msg_l)
unfolding harvest_messages
harvest_messages-message s =
    elim s.rcv_first_msg_end
      as (λ (o : Option ℕ).
        ((harvest_at o s).rec_msg ≡ s.rec_msg) × ((harvest_at o s).rec_msg_l ≡ s.rec_msg_l)) [
          | none ↦ (refl, refl)
          | some a ↦ (refl, refl)
        ]

-- `ump_end_receive_internal` puts the packets of the message together.
pub end_receive_internal-message :
    {D : Type 0} (s : UmpSocket D)
    → let t = end_receive_internal s in
      (t.rec_msg ≡ some (join_data s.rec_msg_packets))
      × (t.rec_msg_l ≡ length (join_data s.rec_msg_packets))
unfolding end_receive_internal set_our_ack_info
end_receive_internal-message {D} s =
    if_both
      (λ (t : UmpSocket D).
        (t.rec_msg ≡ some (join_data s.rec_msg_packets))
        × (t.rec_msg_l ≡ length (join_data s.rec_msg_packets)))
      (leb 1 s.rcv_packets_msg_num)
      (harvest_messages-message (record s {
        rec_msg_packets = [];
        rec_msg = some (join_data s.rec_msg_packets);
        rec_msg_l = length (join_data s.rec_msg_packets);
      }))
      (refl, refl)

harvested :
    {D : Type 0} (s : UmpSocket D) (a : ℕ) (ns : List Node)
    → find_bdr ns ≡ some a
    → until a ns ≡ ns
    → (harvest_messages (receiver s ns)).rec_msg_packets ≡ ns
unfolding harvest_messages
harvested {D} s a ns ends taken =
    subst (λ (o : Option ℕ). (harvest_at o (receiver s ns)).rec_msg_packets ≡ ns) (sym ends) taken

-- A message arrives as it was sent: cut into packets, numbered around the circle and marked,
-- written as datagrams that arrive in order and are read by the peer, found complete, and
-- harvested, it is put together to the same bytes and the same length, where the message has a byte
-- at least, its first number is a 16-bit number, and the maximum segment size is not 0.
pub end_receive_internal-prepared :
    {D : Type 0} (s : UmpSocket D) (mss seq addr x : ℕ) (xs : List ℕ)
    → 0 < mss
    → seq < u16_mod
    → let t =
        end_receive_internal
          (harvest_messages (receiver s (arrive addr (prepared mss seq (x ∷ xs))))) in
      (t.rec_msg ≡ some (x ∷ xs)) × (t.rec_msg_l ≡ length (x ∷ xs))
end_receive_internal-prepared s mss seq addr x xs hm hs =
    let ns = arrive addr (prepared mss seq (x ∷ xs)) in
    let w = prepared-IsWhole mss seq addr x xs hs in
    let e = end_receive_internal-message (harvest_messages (receiver s ns)) in
    let bytes : join_data (harvest_messages (receiver s ns)).rec_msg_packets ≡ x ∷ xs =
      ap join_data (harvested s _ ns w.ends w.taken)
      ∙ w.joined
      ∙ contents-split_message mss (x ∷ xs) hm in
    (e.0 ∙ ap some bytes, e.1 ∙ ap (length {0}) bytes)
