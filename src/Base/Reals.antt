-- ===== src/Base/Reals.antt =====
-- The operations on `double` that the source calls, on any type. `decimal m e` is the literal
-- m / 10 ^ e, `positive` is `> 0.0`, `at_most_zero` is `<= 0.0`, and `same` is
-- `==`; a NaN answers none of the three.
use Prim.Native.Nat.{ℕ}
use mathlib.Core.Bool.{Bool}

pub record Reals (A : Type 0) : Type 0 where
  pub decimal : ℕ → ℕ → A
  pub mul : A → A → A
  pub div : A → A → A
  pub negate : A → A
  pub positive : A → Bool
  pub at_most_zero : A → Bool
  pub same : A → A → Bool
