-- ===== src/Sock/Thread/Queue.antt =====
-- The queues between the receiving thread and the socket's thread.
use user_message_protocol.Base.{
  ◌+◌, ◌≤◌, ◌≡◌, refl, ◌∙◌, List, [], ◌∷◌, ◌++◌, true, arith, length, leb, if_both, if_cases,
  length-append,
}
use mathlib.Core.List.{append_assoc}
use user_message_protocol.Packet.{UmpPacket, PacketType, control, user}
use user_message_protocol.Sock.{UmpSocket, local_data_packet_limit, rec_queue_limit}
use user_message_protocol.Sock.Thread.{fetch_data, is_empty, deliver}

-- Fetching data packets loses none and keeps their order: what is in the thread's own list and in
-- the queue behind it is the same list before and after.
pub fetch_data-keeps :
    (local queue : List UmpPacket)
    → let (taken, left) = fetch_data local queue in taken ++ left ≡ local ++ queue
unfolding fetch_data
fetch_data-keeps local [] = refl
fetch_data-keeps local (q ∷ qs) =
    if_both (λ (r : List UmpPacket × List UmpPacket). r.0 ++ r.1 ≡ local ++ q ∷ qs)
      (leb (length local) local_data_packet_limit) {x = fetch_data (local ++ q ∷ []) qs}
      {y = (local, q ∷ qs)} (fetch_data-keeps (local ++ q ∷ []) qs ∙ append_assoc local (q ∷ []) qs)
      refl

-- Fetching keeps the thread's own list of data packets within one packet more than its limit.
pub fetch_data-limit :
    (local queue : List UmpPacket)
    → length local ≤ local_data_packet_limit + 1
    → length (fetch_data local queue).0 ≤ local_data_packet_limit + 1
unfolding fetch_data
fetch_data-limit local [] h = h
fetch_data-limit local (q ∷ qs) h =
    if_cases (λ (r : List UmpPacket × List UmpPacket). length r.0 ≤ local_data_packet_limit + 1) _
      (λ t. fetch_data-limit (local ++ q ∷ []) qs (ground (arith, length-append local (q ∷ []))))
      (λ t. h)

deliver_control :
    (ps : List UmpPacket) (p : UmpPacket) → is_empty ps ≡ true → length (ps ++ p ∷ []) ≡ 1
deliver_control [] p e = refl
deliver_control (q ∷ ps) p e = ground arith

-- The queues of received packets stay within their limits, whatever packet arrives: 100 data
-- packets, and one control packet.
pub deliver-limits :
    {D : Type 0} (t : PacketType) (s : UmpSocket D) (p : UmpPacket)
    → length s.rec_data_packets ≤ rec_queue_limit
    → length s.rec_control_packets ≤ 1
    → (length (deliver t s p).rec_data_packets ≤ rec_queue_limit)
      × (length (deliver t s p).rec_control_packets ≤ 1)
unfolding deliver
deliver-limits control s p h k = ground (arith, deliver_control s.rec_control_packets p)
deliver-limits user s p h k = ground (arith, length-append s.rec_data_packets (p ∷ []))
