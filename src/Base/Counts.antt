-- ===== src/Base/Counts.antt =====
-- How often a number stands in a list.
use Prim.Native.Nat.{ℕ, zero, suc, ◌+◌}
use mathlib.Core.Path.{◌≡◌, refl}
use mathlib.Core.Bool.{Bool, true, false}
use mathlib.Core.List.{List, [], ◌∷◌, ◌++◌}
use native.Mathlib.Omega.{arith}
use cpmdc.Base.Tests.{◌==◌}
use cpmdc.Base.Lists.{replicate}

abbrev pub one_if : Bool → ℕ
one_if true = 1
one_if false = 0

abbrev pub count : ℕ → List ℕ → ℕ
count k [] = 0
count k (x ∷ xs) = one_if (x == k) + count k xs

pub count-append : (k : ℕ) (xs ys : List ℕ) → count k (xs ++ ys) ≡ count k xs + count k ys
count-append k [] ys = omega arith
count-append k (x ∷ xs) ys = omega (arith, count-append k xs ys)

-- 1 where flag k of the list is set.
abbrev pub flag : List Bool → ℕ → ℕ
flag [] k = 0
flag (u ∷ us) zero = one_if u
flag (u ∷ us) (suc k) = flag us k

pub flag-replicate : (n k : ℕ) → flag (replicate n false) k ≡ 0
flag-replicate zero k = refl
flag-replicate (suc n) zero = refl
flag-replicate (suc n) (suc k) = flag-replicate n k
