-- ===== src/Core/Connections/Choice.antt =====
-- The socket that `ump_accept` takes.
use user_message_protocol.Base.{
  ℕ, ◌≡◌, refl, sym, ◌∙◌, subst, Option, none, some, true, false, ◌==◌, arith, if_cases, if_both,
  List, [], ◌∷◌, inl, inr, Bool-cases,
}
use user_message_protocol.Core.{UmpCore, connect_time_of, later}
use user_message_protocol.Core.Connections.{choose, weigh, is_ready, scan}
use user_message_protocol.Core.Table.{GHashTable, has, contains}

module _ {D : Type 0} {h : GHashTable} where
  -- A choice, where there is one, is a socket of the list that is established.
  abbrev pub IsChosen : UmpCore D h → List ℕ → Option ℕ → Type 0
  IsChosen c is none = Unit
  IsChosen c is (some i) = (contains i is ≡ true) × (is_ready c i ≡ true)

  choose-IsChosen :
      (c : UmpCore D h) (is : List ℕ) (best : Option ℕ) (i : ℕ)
      → IsChosen c is best
      → IsChosen c is (some i)
      → IsChosen c is (choose c best i)
  choose-IsChosen c is none i hb hi = hi
  choose-IsChosen c is (some b) i hb hi =
      if_both (IsChosen c is) (later (connect_time_of (c.socks b)) (connect_time_of (c.socks i))) hi
        hb

  pub scan-IsChosen :
      (c : UmpCore D h) (all : List ℕ) (best : Option ℕ) (is : List ℕ)
      → ((i : ℕ) → contains i is ≡ true → contains i all ≡ true)
      → IsChosen c all best
      → IsChosen c all (scan c best is)
  unfolding scan
  scan-IsChosen c all best [] sub hb = hb
  scan-IsChosen c all best (i ∷ is) sub hb =
      scan-IsChosen c all (weigh c best i) is (λ j e. sub j (ground (arith, e)))
        (if_cases (IsChosen c all) (is_ready c i)
          (λ t. choose-IsChosen c all best i hb (sub i (ground arith), t)) (λ _. hb))

  choose_some : (c : UmpCore D h) (best : Option ℕ) (i : ℕ) → has (choose c best i) ≡ true
  choose_some c none i = refl
  choose_some c (some b) i =
      if_both (λ (o : Option ℕ). has o ≡ true)
        (later (connect_time_of (c.socks b)) (connect_time_of (c.socks i))) refl refl

  scan_some :
      (c : UmpCore D h) (best : Option ℕ) (is : List ℕ)
      → has best ≡ true
      → has (scan c best is) ≡ true
  unfolding scan
  scan_some c best [] e = e
  scan_some c best (i ∷ is) e =
      scan_some c (weigh c best i) is
        (if_both (λ (o : Option ℕ). has o ≡ true) (is_ready c i) (choose_some c best i) e)

  pub scan_finds :
      (c : UmpCore D h) (best : Option ℕ) (is : List ℕ) (i : ℕ)
      → contains i is ≡ true
      → is_ready c i ≡ true
      → has (scan c best is) ≡ true
  unfolding scan
  scan_finds c best [] i e t = absurd (ground (arith, e))
  scan_finds c best (j ∷ js) i e t = elim (Bool-cases (i == j)) [
    | inl q ↦ scan_some c (weigh c best j) js (
        if_cases (λ (o : Option ℕ). has o ≡ true) (is_ready c j) (λ _. choose_some c best j)
          (λ f. absurd (
            ground (
              arith,
              sym t ∙ subst (λ (k : ℕ). is_ready c k ≡ false) (sym (ground (arith, q))) f,
            ))))
    | inr n ↦ scan_finds c (weigh c best j) js i (ground (arith, e, n)) t
  ]
