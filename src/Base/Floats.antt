-- ===== src/Base/Floats.antt =====
-- The `f64` operations that the program calls, over the bit patterns of the values. They are the
-- processor's and the standard library's, so they enter as a parameter.
use mathlib.Core.Bool.{Bool}
use Prim.Native.Nat.{ℕ, ◌<◌, ◌^◌}

pub record Floats : Type 0 where
  pub zero : ℕ
  pub one : ℕ
  pub ln_2 : ℕ
  pub lt : ℕ → ℕ → Bool
  pub of_u64 : ℕ → ℕ
  pub to_u64 : ℕ → ℕ
  pub neg : ℕ → ℕ
  pub ln : ℕ → ℕ
  pub ceil : ℕ → ℕ
  pub round : ℕ → ℕ
  pub max : ℕ → ℕ → ℕ
  pub mul : ℕ → ℕ → ℕ
  pub div : ℕ → ℕ → ℕ
  -- the exponent is the bit pattern of an `i32`
  pub powi : ℕ → ℕ → ℕ
  -- a cast to `u64` saturates, and a value has 64 bits
  pub to_u64_fits : (x : ℕ) → to_u64 x < 2 ^ 64
  pub powi_fits : (x k : ℕ) → powi x k < 2 ^ 64
