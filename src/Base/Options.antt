-- ===== src/Base/Options.antt =====
-- `do` over options: `none` is the failure of a step.
use mathlib.Core.Option.{Option, none, some}
use mathlib.Core.Bool.{Bool, true, false}

infixl 5 ◌>>=◌ ◌>>◌
abbrev pub ◌>>=◌ : {A B : Type 0} → Option A → (A → Option B) → Option B
none >>= f = none
some a >>= f = f a

abbrev pub ◌>>◌ : {B : Type 0} → Option (Unit {0}) → Option B → Option B
m >> k = m >>= λ _. k

-- `if (test) return -1;`
abbrev pub stop_if : Bool → Option (Unit {0})
stop_if true = none
stop_if false = some tt
