-- ===== src/Base/Words.antt =====
-- The C `int` and `int32_t` as bit patterns below 2 ^ 32.
use Prim.Native.Nat.{ℕ, ◌-◌, ◌^◌}
use mathlib.Core.Bool.{Bool}
use cpmdc.Base.Tests.{leb, if◌then◌else◌}

abbrev pub int_max : ℕ
int_max = 2 ^ 31 - 1

abbrev pub int32_min : ℕ
int32_min = 2 ^ 31

-- `x < 0` and `|x|` of a bit pattern.
abbrev pub is_negative : ℕ → Bool
is_negative u = leb int32_min u

abbrev pub magnitude : ℕ → ℕ
magnitude u = if is_negative u then 2 ^ 32 - u else u
