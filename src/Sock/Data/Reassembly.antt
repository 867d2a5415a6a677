-- ===== src/Sock/Data/Reassembly.antt =====
-- The packets of a message in any order, any number of times, among packets of earlier messages and
-- acknowledgements: the loop of `ump_handle_data_packet`.
use user_message_protocol.Base.{
  ℕ, suc, ◌+◌, ◌-◌, ◌<◌, ◌≤◌, ◌≡◌, refl, sym, ap, ◌∙◌, subst, List, Option, Bool, true, false,
  arith, ltb, ◌==◌, ◌||◌, ◌&&◌, not, if_cases, Bool-cases, inl, inr,
}
use user_message_protocol.Base.Int.{pos, ltb_ℤ}
use user_message_protocol.Packet.{UmpPacket, get_flag, data_seq}
use user_message_protocol.Sock.{UmpSocket, Node, Env, established, LockState}
use user_message_protocol.Sock.DataAck.{handle_data_ack}
use user_message_protocol.Seq.{cmp_in_base}
use user_message_protocol.Sock.Window.{cmp_in_rcvbase}
use user_message_protocol.Sock.Data.{store_packet, established_handle_data_packet}
use user_message_protocol.Sock.Data.View.{View, view, view-handle_data_ack}
use user_message_protocol.Sock.Data.Sent.{
  Sent, IsSent, IsPart, Incoming, part, stale, bare, number, number-same, number-stale,
  ltb-number_base, ltb-number_stale,
}
use user_message_protocol.Sock.Data.Held.{Run, Ascends, absorb, cut, order}
use user_message_protocol.Sock.Data.Gather.{Waits, Gathered, IsSeen, also}
use user_message_protocol.Sock.Data.Receiving.{Receiving, gathering, complete, store_cut}
use user_message_protocol.Sock.Data.Closing.{store_packet-Receiving_closes}

module _ (m : Sent) (v : IsSent m) (l : LockState) (msg : Option (List ℕ)) where
  -- What is seen at the places of the message is all that counts.
  pub seen-same :
      {seen later : ℕ → Bool} {w : View}
      → ((i : ℕ) → i < m.count → later i ≡ seen i)
      → Receiving m l msg seen w
      → Receiving m l msg later w
  seen-same h (gathering k before rest hk a g e) =
      gathering k before rest hk a g (record { exact = λ i hi. h i hi ∙ e.exact i hi })
  seen-same h (complete t d e) = complete t d (λ i hi. h i hi ∙ e i hi)

  -- The place of a packet is seen from now on.
  abbrev pub with_packet : UmpPacket → (ℕ → Bool) → ℕ → Bool
  with_packet p seen i = (get_flag p data_seq && (p.seq_num == number m i)) || seen i

  pub state-Receiving :
      {seen : ℕ → Bool} {w : View} → Receiving m l msg seen w → w.state ≡ established
  state-Receiving (gathering k before rest hk a g e) = a.state
  state-Receiving (complete t d e) = t.state

  module _ {D : Type 0} (s : UmpSocket D) (p : UmpPacket) (j : ℕ) (q : IsPart m j p)
      (seen : ℕ → Bool) where
    store_gap :
        (before rest : List Node)
        → Waits l msg (view s)
        → Gathered m j before rest (view s)
        → IsSeen m j rest seen
        → Receiving m l msg (also j seen) (view (store_packet s p))
    store_gap before rest a g e =
        let b = absorb m (suc j) rest g.ascends in
        let far : b.upto ≡ suc (b.upto - 1) = let h = b.grows in omega arith in
        store_packet-Receiving_closes m v l msg s p j before seen q a (b.upto - 1) b.more b.rest
          (subst (λ (xs : List Node). Gathered m j before xs (view s)) b.parted g)
          (subst (λ (xs : List Node). IsSeen m j xs seen) b.parted e)
          (subst (Run m (suc j) b.more) far b.run)
          (subst (λ (x : ℕ). Ascends m (suc x) b.rest m.count) far b.ascends)

    -- A packet that is not behind the base is stored.
    store_packet-Receiving :
        (k : ℕ) (before rest : List Node)
        → k < m.count
        → k ≤ j
        → Waits l msg (view s)
        → Gathered m k before rest (view s)
        → IsSeen m k rest seen
        → Receiving m l msg (also j seen) (view (store_packet s p))
    store_packet-Receiving k before rest hk h a g e = elim (order m k j) [
      | inl less ↦
          store_cut m v l msg s p k j before seen q less a rest g e
            (cut m (suc k) j rest less g.ascends)
      | inr (inl same) ↦
          store_gap before rest a (subst (λ (x : ℕ). Gathered m x before rest (view s)) same g)
            (subst (λ (x : ℕ). IsSeen m x rest seen) same e)
      | inr (inr more) ↦ absurd (omega arith)
    ]

  module _ {D : Type 0} (env : Env D) (s : UmpSocket D) (p : UmpPacket) (seen : ℕ → Bool) where
    abbrev acked : UmpSocket D
    acked = handle_data_ack env s p

    abbrev is_behind : UmpSocket D → Bool
    is_behind t = ltb_ℤ (cmp_in_rcvbase t p.seq_num t.their_data_seq_base) (pos 0)

    behind_at :
        (x y : ℕ)
        → p.seq_num ≡ x
        → acked.their_data_seq_base ≡ y
        → is_behind acked ≡ ltb_ℤ (cmp_in_base y x y) (pos 0)
    behind_at x y q b =
        ap (λ (x : ℕ). ltb_ℤ (cmp_in_rcvbase acked x acked.their_data_seq_base) (pos 0)) q
        ∙ ap (λ (y : ℕ). ltb_ℤ (cmp_in_base y x y) (pos 0)) b

    -- The packet changes nothing.
    passed_over :
        (get_flag p data_seq ≡ true → is_behind acked ≡ true)
        → established_handle_data_packet env s p ≡ acked
    unfolding established_handle_data_packet
    passed_over h =
        if_cases (λ (t : UmpSocket D). t ≡ acked) (not (get_flag p data_seq)) (λ e. refl)
          (λ e.
            if_cases (λ (t : UmpSocket D). t ≡ acked) (is_behind acked) (λ b. refl)
              (λ b. absurd (ground (arith, h))))

    stored_on :
        get_flag p data_seq ≡ true
        → is_behind acked ≡ false
        → established_handle_data_packet env s p ≡ store_packet acked p
    unfolding established_handle_data_packet
    stored_on e b =
        if_cases (λ (t : UmpSocket D). t ≡ store_packet acked p) (not (get_flag p data_seq))
          (λ f. absurd (ground arith))
          (λ f.
            if_cases (λ (t : UmpSocket D). t ≡ store_packet acked p) (is_behind acked)
              (λ c. absurd (ground arith)) (λ c. refl))

    abbrev next_view : View
    next_view = view (established_handle_data_packet env s p)

    -- A packet that changes nothing keeps the stage, where its place was seen before.
    passed-Receiving :
        (get_flag p data_seq ≡ true → is_behind acked ≡ true)
        → ((i : ℕ) → i < m.count → with_packet p seen i ≡ seen i)
        → Receiving m l msg seen (view acked)
        → Receiving m l msg (with_packet p seen) next_view
    passed-Receiving h e r =
        subst (Receiving m l msg (with_packet p seen)) (sym (ap view (passed_over h)))
          (seen-same e r)

    part_gathering :
        (j k : ℕ) (before rest : List Node)
        → IsPart m j p
        → k < m.count
        → Waits l msg (view acked)
        → Gathered m k before rest (view acked)
        → IsSeen m k rest seen
        → Receiving m l msg (with_packet p seen) next_view
    part_gathering j k before rest q hk a g e =
        let h = q.inside in
        let test : is_behind acked ≡ ltb j k =
          behind_at (number m j) (number m k) q.numbered g.base
          ∙ ltb-number_base m v k j (omega arith) h in
        let place : (i : ℕ) → i < m.count → with_packet p seen i ≡ also j seen i = λ i hi.
          rw (q.in_sequence, q.numbered, number-same m v i j (omega arith) (omega arith))
            (ground arith) in
        elim (Bool-cases (ltb j k)) [
          | inl less ↦
              passed-Receiving (λ f. test ∙ less)
                (λ i hi. place i hi ∙ ground (arith, e.exact i hi))
                (gathering k before rest hk a g e)
          | inr more ↦
              subst (Receiving m l msg (with_packet p seen))
                (sym (ap view (stored_on q.in_sequence (test ∙ more))))
                (seen-same place
                  (store_packet-Receiving acked p j q seen k before rest hk (ground arith) a g e))
        ]

    stale_passes :
        (d k : ℕ)
        → 0 < d
        → d + m.count ≤ 32768
        → p.seq_num ≡ number m (65536 - d)
        → k ≤ m.count
        → acked.their_data_seq_base ≡ number m k
        → Receiving m l msg seen (view acked)
        → Receiving m l msg (with_packet p seen) next_view
    stale_passes d k hd hs q hk b r =
        passed-Receiving
          (λ f.
            behind_at (number m (65536 - d)) (number m k) q b ∙ ltb-number_stale m v k d hk hd hs)
          (λ i hi. rw (q, number-stale m v i d hi hd hs) (ground arith)) r

    handled :
        Incoming m p
        → Receiving m l msg seen (view acked)
        → Receiving m l msg (with_packet p seen) next_view
    handled (part j q) (gathering k before rest hk a g e) =
        part_gathering j k before rest q hk a g e
    handled (part j q) (complete t d e) =
        passed-Receiving
          (λ f.
            behind_at (number m j) (number m m.count) q.numbered t.base
            ∙ ltb-number_base m v m.count j (omega arith) q.inside
            ∙ ground (arith, q.inside))
          (λ i hi. rw (e i hi) (ground arith)) (complete t d e)
    handled (stale d hd hs q) (gathering k before rest hk a g e) =
        stale_passes d k hd hs q (omega arith) g.base (gathering k before rest hk a g e)
    handled (stale d hd hs q) (complete t n e) =
        stale_passes d m.count hd hs q (omega arith) t.base (complete t n e)
    handled (bare f) r = passed-Receiving (λ e. absurd (ground arith)) (λ i hi. rw f refl) r

    -- A packet that comes in at an established connection takes a message on, or changes nothing.
    pub established_handle_data_packet-Receiving :
        Incoming m p
        → Receiving m l msg seen (view s)
        → Receiving m l msg (with_packet p seen) next_view
    established_handle_data_packet-Receiving i r =
        handled i (subst (Receiving m l msg seen) (sym (view-handle_data_ack env s p)) r)
