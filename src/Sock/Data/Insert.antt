-- ===== src/Sock/Data/Insert.antt =====
-- Where a received packet goes.
use user_message_protocol.Base.{
  ℕ, ◌≡◌, ◌∙◌, sym, ap, List, [], ◌∷◌, ◌++◌, Option, none, some, true, false, if_cases, All, ◌==◌,
}
use user_message_protocol.Base.Int.{pos, ltb_ℤ}
use mathlib.Core.List.{reverse, append_assoc, reverse-cons, reverse-reverse, append-nil}
use user_message_protocol.Seq.{cmp_in_base}
use user_message_protocol.Sock.{Node}
use user_message_protocol.Sock.Data.{insert_back, insert_packet}

-- The number of a node is ahead of that of `n`.
abbrev pub IsAhead : ℕ → Node → Node → Type 0
IsAhead base n t = ltb_ℤ (cmp_in_base base n.packet.seq_num t.packet.seq_num) (pos 0) ≡ true

-- The node next to it, the first one of `rev`, is neither ahead nor of the same number.
abbrev pub IsNext : ℕ → Node → List Node → Type 0
IsNext base n [] = Unit
IsNext base n (t ∷ rev) =
    (ltb_ℤ (cmp_in_base base n.packet.seq_num t.packet.seq_num) (pos 0) ≡ false)
    × ((n.packet.seq_num == t.packet.seq_num) ≡ false)

-- What an insertion into `ns` may give.
pub data Inserted (base : ℕ) (n : Node) (ns : List Node) : Option (List Node) → Type 0 where
  placed :
      (rev passed : List Node)
      → ns ≡ reverse rev ++ passed
      → IsNext base n rev
      → All (IsAhead base n) passed
      → Inserted base n ns (some (reverse rev ++ n ∷ passed))
  known :
      (before after : List Node) (t : Node)
      → ns ≡ before ++ t ∷ after
      → (n.packet.seq_num == t.packet.seq_num) ≡ true
      → Inserted base n ns none

cons_step :
    (t : Node) (rev passed : List Node) → reverse (t ∷ rev) ++ passed ≡ reverse rev ++ t ∷ passed
cons_step t rev passed =
    ap (λ (xs : List Node). xs ++ passed) (reverse-cons t rev)
    ∙ append_assoc (reverse rev) (t ∷ []) passed

insert_back-Inserted :
    (base : ℕ) (n : Node) (rev passed ns : List Node)
    → ns ≡ reverse rev ++ passed
    → All (IsAhead base n) passed
    → Inserted base n ns (insert_back base n rev passed)
unfolding insert_back
insert_back-Inserted base n [] passed ns e a = placed [] passed e tt a
insert_back-Inserted base n (t ∷ rev) passed ns e a =
    if_cases P (ltb_ℤ (cmp_in_base base n.packet.seq_num t.packet.seq_num) (pos 0))
      (λ ahead.
        insert_back-Inserted base n rev (t ∷ passed) ns (e ∙ cons_step t rev passed) (ahead, a))
      (λ not_ahead.
        if_cases P (n.packet.seq_num == t.packet.seq_num)
          (λ same. known (reverse rev) passed t (e ∙ cons_step t rev passed) same)
          (λ other. placed (t ∷ rev) passed e (not_ahead, other) a))
  where
    P : Option (List Node) → Type 0
    P = Inserted base n ns

-- A received packet goes into the list of received packets in front of packets that are all ahead
-- of it, and right behind one, if any, that is neither ahead of it nor has its number; every packet
-- that was there stays, in its order. It is left out only when a packet with its number is there.
pub insert_packet-Inserted :
    (base : ℕ) (n : Node) (ns : List Node) → Inserted base n ns (insert_packet base n ns)
unfolding insert_packet
insert_packet-Inserted base n ns =
    insert_back-Inserted base n (reverse ns) [] ns
      (sym (append-nil (reverse (reverse ns)) ∙ reverse-reverse ns)) tt
