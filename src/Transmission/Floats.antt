-- ===== src/Transmission/Floats.antt =====
-- The operations on `float64` that the scheduler uses. The logic has no floating point, so the
-- type and its operations are an argument of what is modelled; no law of them is assumed here.
use mars_icnp.Prelude.{ℕ, Bool}

pub record FloatOps (F : Type 0) : Type 0 where
  -- 0.0, 1.0 and -1.0
  pub f_zero : F
  pub f_one : F
  pub f_minus_one : F
  pub f_add : F → F → F
  pub f_sub : F → F → F
  pub f_mul : F → F → F
  pub f_div : F → F → F
  -- a < b
  pub f_lt : F → F → Bool
  -- a == b
  pub f_eq : F → F → Bool
  -- float64(n), and int(math.Floor(x)) of a number that is not negative
  pub of_int : ℕ → F
  pub floor : F → ℕ
  -- a duration in nanoseconds, in seconds
  pub seconds : ℕ → F
