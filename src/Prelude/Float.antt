-- ===== src/Prelude/Float.antt =====
-- Floating point, which is no code of the repository: what it uses of float64, of `math` and of
-- the quotients of `math/big`, over any type of floats.
use forgenx_engine.Prelude.{ℕ, Bool}
use forgenx_engine.Prelude.Int.{ℤ}

pub record Floats : Type 1 where
  pub F : Type 0
  -- `<` and `<=`, which are both false on a NaN.
  pub lt : F → F → Bool
  pub le : F → F → Bool
  pub add : F → F → F
  pub sub : F → F → F
  pub mul : F → F → F
  pub div : F → F → F
  pub abs : F → F
  pub round : F → F
  -- `math.Pow(10, n)`, and a number of Go that has an exact float.
  pub pow10 : ℤ → F
  pub of_nat : ℕ → F
  -- `float64(n)` of an int64
  pub of_int : ℤ → F
  -- `uint64(x)` and `int64(x)`.
  pub to_u64 : F → ℕ
  pub to_i64 : F → ℤ
  -- `Seconds()` of a time.Duration, which is a number of nanoseconds.
  pub seconds : ℤ → F
  -- `big.Float`: an integer by a float, cut to an integer, and an integer by another as a float.
  pub quo_int : ℕ → F → ℕ
  pub quo : ℕ → ℕ → F
