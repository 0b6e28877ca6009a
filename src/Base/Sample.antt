-- ===== src/Base/Sample.antt =====
-- Whole numbers in place of reals, for runs on concrete values.
use Prim.Native.Nat.{ℕ, ◌+◌, ◌-◌, ◌*◌, ◌/◌, ◌^◌}
use cpmdc.Base.Tests.{ltb, ◌==◌}
use cpmdc.Base.Reals.{Reals}

abbrev pub whole : Reals ℕ
whole = record {
  decimal = λ m e. m / 10 ^ e;
  mul = λ x y. x * y;
  div = λ x y. x / (y + 1);
  negate = λ x. 1000 - x;
  positive = λ x. ltb 0 x;
  at_most_zero = λ x. x == 0;
  same = λ x y. x == y;
}
