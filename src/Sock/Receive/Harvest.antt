-- ===== src/Sock/Receive/Harvest.antt =====
-- Taking a message out of the list of received packets.
use user_message_protocol.Base.{ℕ, ◌≡◌, refl, sym, ◌∙◌, List, [], ◌∷◌, ◌++◌, some, arith, ap}
use mathlib.Core.List.{append_assoc}
use user_message_protocol.Packet.Codec.{payload}
use user_message_protocol.Sock.{UmpSocket, Node}
use user_message_protocol.Sock.Receive.{until, behind, join_data, harvest_messages}

-- Cutting a list at a node loses nothing and keeps the order.
pub until-behind : (a : ℕ) (ns : List Node) → until a ns ++ behind a ns ≡ ns
unfolding until behind
until-behind a [] = refl
until-behind a (n ∷ ns) = ground (arith, until-behind a ns)

join_data-append : (xs ys : List Node) → join_data (xs ++ ys) ≡ join_data xs ++ join_data ys
unfolding join_data
join_data-append [] ys = refl
join_data-append (n ∷ xs) ys =
    rw (join_data-append xs ys)
      (sym (append_assoc (payload n.packet.user_data) (join_data xs) (join_data ys)))

-- Where the end of the first message is known, harvesting it moves packets and drops none: the
-- packets of the message with those that stay behind are the packets that were there, so that no
-- byte of the stream is lost or doubled.
pub harvest_messages-keeps :
    {D : Type 0} (s : UmpSocket D) (a : ℕ)
    → s.rcv_first_msg_end ≡ some a
    → let t = harvest_messages s in
      (t.rec_msg_packets ++ t.rcv_data_packets ≡ s.rcv_data_packets)
      × (join_data t.rec_msg_packets ++ join_data t.rcv_data_packets ≡ join_data s.rcv_data_packets)
unfolding harvest_messages
harvest_messages-keeps s a e = rw e (
  until-behind a s.rcv_data_packets,
  sym (join_data-append _ _) ∙ ap join_data (until-behind a s.rcv_data_packets),
)
