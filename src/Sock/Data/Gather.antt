-- ===== src/Sock/Data/Gather.antt =====
-- A socket while it receives the packets of a message, in whatever order they come.
use user_message_protocol.Base.{
  ℕ, suc, ◌+◌, ◌<◌, ◌≤◌, ◌≡◌, refl, sym, ap, ◌∙◌, List, [], ◌∷◌, ◌++◌, Option, none, some, Bool,
  false, arith, ltb, ◌==◌, ◌||◌, All, All-append,
}
use mathlib.Core.List.{append_assoc}
use user_message_protocol.Packet.{UmpPacket}
use user_message_protocol.Sock.{UmpSocket, Node, established, LockState}
use user_message_protocol.Sock.Data.{insert_packet, extend_at, store_packet, store_linked, dangles}
use user_message_protocol.Sock.Data.View.{View, view}
use user_message_protocol.Sock.Data.Place.{insert_packet-between, insert_packet-same, IsBefore}
use user_message_protocol.Sock.Data.Sent.{Sent, IsSent, IsPart, number}
use user_message_protocol.Sock.Data.Held.{Run, Ascends}
use user_message_protocol.Sock.Data.Extend.{
  Reached, part-IsSame, Ascends-IsAhead, Ascends-IsBefore, Run-IsBefore,
}
use user_message_protocol.Sock.Data.Apart.{Distinct, IsOld, holds}

-- No message is complete, and the lock of receive calls is in the state `l`; `msg` is what the last
-- call was given.
pub record Waits (l : LockState) (msg : Option (List ℕ)) (w : View) : Type 0 where
  pub state : w.state ≡ established
  pub none_complete : w.rcv_packets_msg_num ≡ 0
  pub none_taken : w.rec_msg_packets ≡ []
  pub rec_locked : w.rec_locked ≡ l
  pub rec_msg : w.rec_msg ≡ msg
  pub linked : w.dangling ≡ false

-- The list of received packets with their addresses, and the place `k` of the gap.
pub record Gathered (m : Sent) (k : ℕ) (before rest : List Node) (w : View) : Type 0 where
  pub base : w.their_data_seq_base ≡ number m k
  pub list : w.rcv_data_packets ≡ before ++ rest
  pub run : Run m 0 before k
  pub ascends : Ascends m (suc k) rest m.count
  pub reached : Reached before w.rcv_data_so_far
  pub distinct : Distinct (before ++ rest)
  pub old : All (IsOld w.next_addr) (before ++ rest)

-- The places of the packets that are there are those that `seen` tells.
pub record IsSeen (m : Sent) (k : ℕ) (rest : List Node) (seen : ℕ → Bool) : Type 0 where
  pub exact : (i : ℕ) → i < m.count → seen i ≡ (ltb i k || holds (number m i) rest)

abbrev pub also : ℕ → (ℕ → Bool) → ℕ → Bool
also j seen i = (j == i) || seen i

module _ {D : Type 0} where
  -- A received packet got a node of its own.
  abbrev pub noded : UmpSocket D → UmpPacket → Node
  noded s p = record { addr = s.next_addr; packet = p }

  abbrev pub listed : List Node → UmpSocket D → UmpSocket D
  listed ns s = record s {
    rcv_data_packets = ns;
    rcv_head_dangles = dangles s;
    next_addr = s.next_addr + 1;
  }

  pub dangling-listed :
      (ns : List Node) (s : UmpSocket D)
      → (view s).dangling ≡ false
      → (view (listed ns s)).dangling ≡ false
  dangling-listed ns s e = rw e refl

  not_followed :
      (s : UmpSocket D) (p : UmpPacket)
      → (view s).dangling ≡ false
      → store_packet s p ≡ store_linked s p
  unfolding store_packet
  not_followed s p e = rw e refl

  pub store_packet-placed :
      (s : UmpSocket D) (p : UmpPacket) (ns : List Node)
      → (view s).dangling ≡ false
      → insert_packet s.their_data_seq_base (noded s p) s.rcv_data_packets ≡ some ns
      → store_packet s p ≡ extend_at s.rcv_data_so_far ns (listed ns s)
  unfolding store_linked
  store_packet-placed s p ns l e = not_followed s p l ∙ rw (e, store_linked) refl

  pub store_packet-known :
      (s : UmpSocket D) (p : UmpPacket)
      → (view s).dangling ≡ false
      → insert_packet s.their_data_seq_base (noded s p) s.rcv_data_packets ≡ none
      → store_packet s p ≡ s
  unfolding store_linked
  store_packet-known s p l e = not_followed s p l ∙ rw (e, store_linked) refl

module _ (m : Sent) (v : IsSent m) where
  module _ {D : Type 0} (s : UmpSocket D) (p : UmpPacket) (k j : ℕ) (before : List Node)
      (part : IsPart m j p) (hk : k < m.count) (hj : k ≤ j) where
    -- Between the packets before and after its place.
    pub insert_packet-placed :
        (lo hi : List Node)
        → Gathered m k before (lo ++ hi) (view s)
        → Ascends m (suc k) lo j
        → Ascends m (suc j) hi m.count
        → insert_packet s.their_data_seq_base (noded s p) s.rcv_data_packets
          ≡ some (before ++ (lo ++ noded s p ∷ hi))
    insert_packet-placed lo hi g a b =
        ap (λ (q : ℕ). insert_packet q (noded s p) s.rcv_data_packets) g.base
        ∙ ap (insert_packet (number m k) (noded s p)) (g.list ∙ sym (append_assoc before lo hi))
        ∙ insert_packet-between (number m k) (noded s p) (before ++ lo) hi
            (All-append (IsBefore (number m k) (noded s p)) before lo
              (Run-IsBefore m v k j 0 k (noded s p) before (omega arith) hj part g.run)
              (Ascends-IsBefore m v k j (suc k) (noded s p) lo (omega arith) part a))
            (Ascends-IsAhead m v k j (suc j) (noded s p) hi (omega arith) (omega arith) part b)
        ∙ ap some (append_assoc before lo (noded s p ∷ hi))

    -- Not again where it is already.
    pub insert_packet-found :
        (lo hi : List Node) (t : Node)
        → Gathered m k before (lo ++ t ∷ hi) (view s)
        → IsPart m j t.packet
        → Ascends m (suc j) hi m.count
        → insert_packet s.their_data_seq_base (noded s p) s.rcv_data_packets ≡ none
    insert_packet-found lo hi t g q b =
        ap (λ (q : ℕ). insert_packet q (noded s p) s.rcv_data_packets) g.base
        ∙ ap (insert_packet (number m k) (noded s p))
            (g.list ∙ sym (append_assoc before lo (t ∷ hi)))
        ∙ insert_packet-same (number m k) (noded s p) (before ++ lo) hi t
            (part-IsSame m v k j (noded s p) t (omega arith) part q)
            (Ascends-IsAhead m v k j (suc j) (noded s p) hi (omega arith) (omega arith) part b)
