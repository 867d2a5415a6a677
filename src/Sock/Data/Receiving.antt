-- ===== src/Sock/Data/Receiving.antt =====
-- The two stages of a message at its receiver, and the packet that ends the first one.
use user_message_protocol.Base.{
  ℕ, suc, ◌<◌, ◌≡◌, refl, sym, ap, ◌∙◌, subst, List, [], ◌∷◌, ◌++◌, Option, none, some, Bool, true,
  arith, length,
}
use user_message_protocol.Packet.{UmpPacket}
use user_message_protocol.Sock.{UmpSocket, Node, established, LockState, locked, unlocked}
use user_message_protocol.Sock.Data.{store_packet}
use user_message_protocol.Sock.Data.View.{View, view}
use user_message_protocol.Sock.Data.Sent.{Sent, IsSent, IsPart, number, loads}
use user_message_protocol.Sock.Data.Held.{Run, Ascends, Cut, between, found}
use user_message_protocol.Sock.Data.Extend.{extend_at-stays}
use user_message_protocol.Sock.Data.Gather.{
  Waits, Gathered, IsSeen, also, noded, listed, dangling-listed, store_packet-placed,
  store_packet-known, insert_packet-placed, insert_packet-found,
}
use user_message_protocol.Sock.Data.Store.{grown-Gathered, grown-IsSeen, known-IsSeen}

-- What has become of a message that is complete, where the lock of receive calls was in the state
-- `l`: the call that waited got its bytes, or its packets wait for a call.
pub data Ended (m : Sent) (msg : Option (List ℕ)) (w : View) : LockState → Type 0 where
  answered :
      w.rec_msg ≡ some (loads m 0 m.count)
      → w.rec_msg_l ≡ length (loads m 0 m.count)
      → w.rec_ok ≡ true
      → w.rec_done ≡ true
      → w.rec_msg_packets ≡ []
      → Ended m msg w locked
  kept : w.rec_msg ≡ msg → Run m 0 w.rec_msg_packets m.count → Ended m msg w unlocked

-- The socket is behind the message.
pub record Through (m : Sent) (w : View) : Type 0 where
  pub state : w.state ≡ established
  pub base : w.their_data_seq_base ≡ number m m.count
  pub list : w.rcv_data_packets ≡ []
  pub so_far : w.rcv_data_so_far ≡ none
  pub none_complete : w.rcv_packets_msg_num ≡ 0
  pub first_end : w.rcv_first_msg_end ≡ none
  pub rec_locked : w.rec_locked ≡ unlocked

pub data Receiving (m : Sent) (l : LockState) (msg : Option (List ℕ)) (seen : ℕ → Bool) (w : View)
    : Type 0 where
  gathering :
      (k : ℕ) (before rest : List Node)
      → k < m.count
      → Waits l msg w
      → Gathered m k before rest w
      → IsSeen m k rest seen
      → Receiving m l msg seen w
  complete :
      Through m w
      → Ended m msg w l
      → ((i : ℕ) → i < m.count → seen i ≡ true)
      → Receiving m l msg seen w

-- Behind the gap, or again.
module _ (m : Sent) (v : IsSent m) (l : LockState) (msg : Option (List ℕ)) {D : Type 0} where
  module _ (s : UmpSocket D) (p : UmpPacket) (k j : ℕ) (before : List Node) (seen : ℕ → Bool)
      (part : IsPart m j p) (hk : k < j) (w : Waits l msg (view s)) where
    store_behind :
        (lo hi : List Node)
        → Gathered m k before (lo ++ hi) (view s)
        → IsSeen m k (lo ++ hi) seen
        → Ascends m (suc k) lo j
        → Ascends m (suc j) hi m.count
        → Receiving m l msg (also j seen) (view (store_packet s p))
    store_behind lo hi g e a b =
        let h = part.inside in
        let rest = lo ++ noded s p ∷ hi in
        let placed =
          store_packet-placed s p (before ++ rest) w.linked (
            insert_packet-placed m v s p k j before part (omega arith) (omega arith) lo hi g a b) in
        let g1 = grown-Gathered m v s p k j before lo hi part hk g a b in
        let still =
          extend_at-stays m v (listed (before ++ rest) s) k g.base s.rcv_data_so_far before rest
            refl g.reached g.run g1.ascends (omega arith) in
        subst (Receiving m l msg (also j seen)) (sym (ap view placed ∙ still)) (
          gathering k before rest (omega arith)
            (record {
              state = w.state;
              none_complete = w.none_complete;
              none_taken = w.none_taken;
              rec_locked = w.rec_locked;
              rec_msg = w.rec_msg;
              linked = dangling-listed (before ++ rest) s w.linked;
            })
            g1 (grown-IsSeen m v k j (noded s p) lo hi seen part e))

    store_again :
        (lo hi : List Node) (t : Node)
        → Gathered m k before (lo ++ t ∷ hi) (view s)
        → IsSeen m k (lo ++ t ∷ hi) seen
        → IsPart m j t.packet
        → Ascends m (suc j) hi m.count
        → Receiving m l msg (also j seen) (view (store_packet s p))
    store_again lo hi t g e q b =
        let h = part.inside in
        let known =
          store_packet-known s p w.linked (
            insert_packet-found m v s p k j before part (omega arith) (omega arith) lo hi t g q
              b) in
        subst (Receiving m l msg (also j seen)) (sym (ap view known)) (
          gathering k before (lo ++ t ∷ hi) (omega arith) w g
            (known-IsSeen m v k j t lo hi seen q e))

    pub store_cut :
        (rest : List Node)
        → Gathered m k before rest (view s)
        → IsSeen m k rest seen
        → Cut m (suc k) j rest
        → Receiving m l msg (also j seen) (view (store_packet s p))
    store_cut rest g e (between lo hi parted a b) =
        store_behind lo hi (subst (λ (xs : List Node). Gathered m k before xs (view s)) parted g)
          (subst (λ (xs : List Node). IsSeen m k xs seen) parted e) a b
    store_cut rest g e (found lo hi t parted a q b) =
        store_again lo hi t (subst (λ (xs : List Node). Gathered m k before xs (view s)) parted g)
          (subst (λ (xs : List Node). IsSeen m k xs seen) parted e) q b
