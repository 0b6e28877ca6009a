-- ===== src/Stop/Tests.antt =====
-- src/cpmd_stop_intercept.c: one stop, with code 0.
use cpmdc.Base.{ℕ, Bool, true, false, Option, none, some, List, [], ◌∷◌}
use cpmdc.Stop.{Stop}
use cpmdc.Stop.Recorded.{Archive}

abbrev idle : Stop
idle = record { code = 5; catching = false; hooked = false }

abbrev one_stop : List ℕ
one_stop = 0 ∷ []

abbrev returned : Bool × Stop → Option Stop
returned (true, noted) = some noted
returned (false, noted) = none

abbrev patched : Archive
patched none s code = none
patched (some hook) s code = returned (hook s code)
