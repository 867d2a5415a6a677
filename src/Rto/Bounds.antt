-- ===== src/Rto/Bounds.antt =====
-- The timeout stays in its range, whatever the round-trip times are.
use user_message_protocol.Base.{◌≡◌, ◌⊎◌, refl, true, false, Bool-cases, inl, inr, List, [], ◌∷◌}
use user_message_protocol.Base.Int.{ℤ}
use user_message_protocol.Rto.{
  Double, RtoComputer, new, refresh_rtt, timeout_occur, whole, max_double,
}

-- The documented behaviour of `double` that the bounds rest on, for numbers (no NaN): the order,
-- and doubling of what is at least 16.
pub record IsOrdered {D : Type 0} (double : Double D) : Type 0 where
  pub irrefl : (x : D) → double.lt x x ≡ false
  pub constants : double.lt (double.decimal 90000 1) (double.decimal 16 1) ≡ false
  pub doubled :
      (x : D)
      → double.lt x (double.decimal 16 1) ≡ false
      → double.lt (double.mul x (double.decimal 2 1)) (double.decimal 16 1) ≡ false
  pub asym : (x y : D) → double.lt x y ≡ true → double.lt y x ≡ false
  pub starts :
      double.lt
        (double.add (double.decimal 0 1) (double.mul (double.decimal 2 1) (double.decimal 3000 1)))
        (double.decimal 16 1)
      ≡ false

-- What happens to the estimator: a round-trip time, or a timeout.
pub data RtoEvent : Type 0 where
  sample : ℤ → RtoEvent
  timeout : RtoEvent

module _ {D : Type 0} (double : Double D) where
  abbrev pub rto_step : RtoComputer D → RtoEvent → RtoComputer D
  rto_step c (sample rtt) = refresh_rtt double c rtt
  rto_step c timeout = timeout_occur double c

  abbrev pub rto_run : RtoComputer D → List RtoEvent → RtoComputer D
  rto_run c [] = c
  rto_run c (e ∷ es) = rto_run (rto_step c e) es

  abbrev pub AtLeast16 : RtoComputer D → Type 0
  AtLeast16 c = double.lt c.rto (whole double 16) ≡ false

module _ {D : Type 0} (double : Double D) (laws : IsOrdered double) where
  max_double-ge : (x y : D) → double.lt (max_double double x y) y ≡ false
  max_double-ge x y = elim (Bool-cases (double.lt y x)) [
    | inl e ↦ rw e (laws.asym y x e)
    | inr e ↦ rw e (laws.irrefl y)
  ]

  rto_step-AtLeast16 :
      (c : RtoComputer D) (e : RtoEvent)
      → AtLeast16 double c
      → AtLeast16 double (rto_step double c e)
  unfolding refresh_rtt timeout_occur
  rto_step-AtLeast16 c (sample rtt) v = max_double-ge _ _
  rto_step-AtLeast16 c timeout v =
      elim (Bool-cases (double.lt (double.mul c.rto (whole double 2)) (whole double 90000))) [
        | inl e ↦ rw e (laws.doubled c.rto v)
        | inr e ↦ rw e laws.constants
      ]

  rto_run-AtLeast16 :
      (c : RtoComputer D) (es : List RtoEvent)
      → AtLeast16 double c
      → AtLeast16 double (rto_run double c es)
  rto_run-AtLeast16 c [] v = v
  rto_run-AtLeast16 c (e ∷ es) v =
      rto_run-AtLeast16 (rto_step double c e) es (rto_step-AtLeast16 c e v)

  -- From the start on, after any sequence of samples and timeouts, the timeout is at least 16 ms.
  pub rto_run-new :
      (e0 m0 : D) (es : List RtoEvent) → AtLeast16 double (rto_run double (new double e0 m0) es)
  unfolding new
  rto_run-new e0 m0 es = rto_run-AtLeast16 _ es laws.starts

  -- A timeout backs off to twice the value or to 90 s, and never beyond 90 s; the estimates of the
  -- round-trip time and its deviation stay as they are.
  pub timeout_occur_lem :
      (c : RtoComputer D)
      → let c' = timeout_occur double c in
        (double.lt (whole double 90000) c'.rto ≡ false)
        × ((c'.rto ≡ double.mul c.rto (whole double 2)) ⊎ (c'.rto ≡ whole double 90000))
        × (c'.a ≡ c.a)
        × (c'.d ≡ c.d)
  unfolding timeout_occur
  timeout_occur_lem c =
      elim (Bool-cases (double.lt (double.mul c.rto (whole double 2)) (whole double 90000))) [
        | inl e ↦ rw e (laws.asym _ _ e, inl refl, refl, refl)
        | inr e ↦ rw e (laws.irrefl _, inr refl, refl, refl)
      ]
