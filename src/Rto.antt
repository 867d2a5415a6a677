-- ===== src/Rto.antt =====
-- user_message_protocol/rtocomputer.c: the retransmission timeout, estimated from round-trip times.
-- The C type `double` and its arithmetic are a parameter.
pub mod Bounds
mod Tests
use user_message_protocol.Base.{ℕ, Bool, ◌≡◌, true, false, if◌then◌else◌}
use user_message_protocol.Base.Int.{ℤ}

-- `double`, with the operations that the file uses; `to_glong` is the cast, and `decimal n d` is the
-- constant n / d.
pub record Double (D : Type 0) : Type 0 where
  pub add : D → D → D
  pub sub : D → D → D
  pub mul : D → D → D
  pub negate : D → D
  pub lt : D → D → Bool
  pub decimal : ℕ → ℕ → D
  pub of_glong : ℤ → D
  pub to_glong : D → ℤ

pub record RtoComputer (D : Type 0) : Type 0 where
  pub a : D
  pub d : D
  pub err : D
  pub m : D
  pub rto : D
  pub g : D
  pub h : D

module _ {D : Type 0} (double : Double D) where
  open double use {add, sub, mul, negate, lt, decimal, of_glong, to_glong}

  abbrev whole : ℕ → D
  whole n = decimal n 1

  -- glib's `MAX`, `MIN` and `ABS`.
  abbrev pub max_double : D → D → D
  max_double x y = if lt y x then x else y

  abbrev pub min_double : D → D → D
  min_double x y = if lt x y then x else y

  abbrev abs_double : D → D
  abs_double x = if lt x (whole 0) then negate x else x

  -- `rto_computer_new`. The memory of `err` and `m` is not set: `e0` and `m0` are what it holds.
  unfoldable pub new : D → D → RtoComputer D
  new e0 m0 = record {
    g = decimal 125 1000;
    h = decimal 25 100;
    a = whole 0;
    d = whole 3000;
    rto = add (whole 0) (mul (whole 2) (whole 3000));
    err = e0;
    m = m0;
  }

  -- `rto_refresh_rtt`.
  unfoldable pub refresh_rtt : RtoComputer D → ℤ → RtoComputer D
  refresh_rtt c rtt =
      let m = of_glong rtt in
      let err = sub m c.a in
      let a = add c.a (mul c.g err) in
      let d = add c.d (mul c.h (sub (abs_double err) c.d)) in
      record c {
        m = m;
        err = err;
        a = a;
        d = d;
        rto = max_double (add a (mul (whole 4) d)) (whole 16);
      }

  -- `rto_timeout_occur`.
  unfoldable pub timeout_occur : RtoComputer D → RtoComputer D
  timeout_occur c = record c { rto = min_double (mul c.rto (whole 2)) (whole 90000) }

  -- `rto_get_rto` and `rto_get_estimated_rtt`.
  unfoldable pub get_rto : RtoComputer D → ℤ
  get_rto c = to_glong c.rto

  unfoldable pub get_estimated_rtt : RtoComputer D → ℤ
  get_estimated_rtt c = to_glong c.a
