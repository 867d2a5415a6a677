-- ===== src/Sock/Data/Place.antt =====
-- The list of received packets cut at a node: what the walks over it find.
use user_message_protocol.Base.{
  ℕ, ◌≡◌, refl, sym, ap, ◌∙◌, subst, List, [], ◌∷◌, ◌++◌, none, some, true, false, All, arith, ◌==◌,
}
use user_message_protocol.Base.Int.{pos, ltb_ℤ}
use mathlib.Core.List.{
  reverse, append_assoc, reverse-cons, reverse-reverse, reverse-append, append-nil,
}
use user_message_protocol.Seq.{cmp_in_base}
use user_message_protocol.Sock.{Node}
use user_message_protocol.Sock.Receive.{until, behind, packet_at}
use user_message_protocol.Sock.Data.{insert_back, insert_packet, locate}
use user_message_protocol.Sock.Data.Insert.{IsAhead}

-- The node is neither ahead of `n` nor has its number.
abbrev pub IsBefore : ℕ → Node → Node → Type 0
IsBefore base n t =
    (ltb_ℤ (cmp_in_base base n.packet.seq_num t.packet.seq_num) (pos 0) ≡ false)
    × ((n.packet.seq_num == t.packet.seq_num) ≡ false)

-- The node has the number of `n`.
abbrev pub IsSame : ℕ → Node → Node → Type 0
IsSame base n t =
    (ltb_ℤ (cmp_in_base base n.packet.seq_num t.packet.seq_num) (pos 0) ≡ false)
    × ((n.packet.seq_num == t.packet.seq_num) ≡ true)

-- The node has another address.
abbrev pub IsElsewhere : ℕ → Node → Type 0
IsElsewhere a n = (n.addr == a) ≡ false

All-reverse {ℓ κ} : {A : Type ℓ} (P : A → Type κ) (xs : List A) → All P xs → All P (reverse xs)
All-reverse P [] h = tt
All-reverse {A} P (x ∷ xs) h =
    subst (All P) (sym (reverse-cons x xs)) (All-last (reverse xs) (All-reverse P xs h.1))
  where
    All-last : (ys : List A) → All P ys → All P (ys ++ x ∷ [])
    All-last [] g = (h.0, tt)
    All-last (y ∷ ys) g = (g.0, All-last ys g.1)

reverse-step : (h : Node) (hi rev : List Node) → reverse (h ∷ hi) ++ rev ≡ reverse hi ++ h ∷ rev
reverse-step h hi rev =
    ap (λ (xs : List Node). xs ++ rev) (reverse-cons h hi) ∙ append_assoc (reverse hi) (h ∷ []) rev

module _ (base : ℕ) (n : Node) where
  insert_back-ahead :
      (hi rev passed : List Node)
      → All (IsAhead base n) hi
      → insert_back base n (reverse hi ++ rev) passed ≡ insert_back base n rev (hi ++ passed)
  insert_back-ahead [] rev passed h = refl
  insert_back-ahead (t ∷ hi) rev passed (e, h) =
      ap (λ (xs : List Node). insert_back base n xs passed) (reverse-step t hi rev)
      ∙ insert_back-ahead hi (t ∷ rev) passed h
      ∙ unfold insert_back in ground arith

  insert_back-before :
      (rev passed : List Node)
      → All (IsBefore base n) rev
      → insert_back base n rev passed ≡ some (reverse rev ++ n ∷ passed)
  unfolding insert_back
  insert_back-before [] passed h = refl
  insert_back-before (t ∷ rev) passed h = ground arith

  -- Past what is ahead of it, up to the node of its own number.
  pub insert_packet-same :
      (front hi : List Node) (t : Node)
      → IsSame base n t
      → All (IsAhead base n) hi
      → insert_packet base n (front ++ t ∷ hi) ≡ none
  unfolding insert_packet
  insert_packet-same front hi t e hh =
      ap (λ (xs : List Node). insert_back base n xs [])
        (reverse-append front (t ∷ hi) ∙ reverse-step t hi (reverse front))
      ∙ insert_back-ahead hi (t ∷ reverse front) [] hh
      ∙ unfold insert_back in ground arith

  -- Between what is before it and what is ahead of it.
  pub insert_packet-between :
      (front hi : List Node)
      → All (IsBefore base n) front
      → All (IsAhead base n) hi
      → insert_packet base n (front ++ hi) ≡ some (front ++ n ∷ hi)
  unfolding insert_packet
  insert_packet-between front hi hf hh =
      ap (λ (xs : List Node). insert_back base n xs []) (reverse-append front hi)
      ∙ insert_back-ahead hi (reverse front) [] hh
      ∙ insert_back-before (reverse front) (hi ++ []) (All-reverse (IsBefore base n) front hf)
      ∙ ap some (ap (λ (xs : List Node). xs ++ n ∷ (hi ++ [])) (reverse-reverse front))
      ∙ ap (λ (xs : List Node). some (front ++ n ∷ xs)) (append-nil hi)

-- A node whose address none in front of it has.
module _ (a : ℕ) (t : Node) (rest : List Node) (here : t.addr ≡ a) where
  pub locate-middle :
      (front : List Node)
      → All (IsElsewhere a) front
      → locate a (front ++ t ∷ rest) ≡ some (t, rest)
  unfolding locate
  locate-middle [] h = ground arith
  locate-middle (n ∷ front) h = ground (arith, locate-middle front)

  pub packet_at-middle :
      (front : List Node)
      → All (IsElsewhere a) front
      → packet_at a (front ++ t ∷ rest) ≡ some t.packet
  unfolding packet_at
  packet_at-middle [] h = ground arith
  packet_at-middle (n ∷ front) h = ground (arith, packet_at-middle front)

  pub until-middle :
      (front : List Node)
      → All (IsElsewhere a) front
      → until a (front ++ t ∷ rest) ≡ front ++ t ∷ []
  unfolding until
  until-middle [] h = ground arith
  until-middle (n ∷ front) h = ground (arith, until-middle front)

  pub behind-middle :
      (front : List Node) → All (IsElsewhere a) front → behind a (front ++ t ∷ rest) ≡ rest
  unfolding behind
  behind-middle [] h = ground arith
  behind-middle (n ∷ front) h = ground (arith, behind-middle front)
