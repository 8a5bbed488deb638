-- ===== src/Float.antt =====
-- The `f64` arithmetic that the sources use, as an interface: IEEE 754 operations are not code of
-- this repository. `num n` is the float of a whole number, a literal or `n as f64`, and `of_int` that
-- of an `i64`; `decimal m k` is the literal m / 10^k; `to_nat` and `to_int` are the saturating casts
-- to `usize` or `u64` and to `i64`; `tau` is `TAU`.
use rust_hotpath_ipc.Prelude.{ℕ, Bool, if◌then◌else◌}
use rust_hotpath_ipc.Prelude.Int.{ℤ}

pub record F64 : Type 1 where
  pub Float : Type 0
  pub num : ℕ → Float
  pub decimal : ℕ → ℕ → Float
  pub of_int : ℤ → Float
  pub neg : Float → Float
  pub add : Float → Float → Float
  pub sub : Float → Float → Float
  pub mul : Float → Float → Float
  pub div : Float → Float → Float
  pub sqrt : Float → Float
  pub tanh : Float → Float
  pub ln : Float → Float
  pub cos : Float → Float
  pub tau : Float
  pub ceil : Float → Float
  pub abs : Float → Float
  pub lt : Float → Float → Bool
  pub le : Float → Float → Bool
  pub same : Float → Float → Bool
  pub to_nat : Float → ℕ
  pub to_int : Float → ℤ

module _ (F : F64) where
  open F use {Float, num, neg, lt}

  -- `x.clamp(-1.0, 1.0)`: a NaN, which no bound is above or below, passes.
  abbrev pub clamp_unit : Float → Float
  clamp_unit x = if lt x (neg (num 1)) then neg (num 1) else if lt (num 1) x then num 1 else x
