-- ===== src/Stop.antt =====
-- src/cpmd_stop_intercept.c: the record of a stop of CPMD during an embed call.
-- An `int` is its bit pattern. The archive with `cpmd_stopgm_hook` is linked in.
pub mod Recorded
mod Tests
use cpmdc.Base.{ℕ, Bool, true, false, Option, none, some, ◌==◌, if◌then◌else◌}

-- `g_code`, `g_catch`, and whether `cpmd_stopgm_hook` points to `cpmdc_stopgm_catch`.
pub record Stop : Type 0 where
  pub code : ℕ
  pub catching : Bool
  pub hooked : Bool

unfoldable pub note_stop : Stop → ℕ → Stop
note_stop s code = record s { code = if code == 0 then 1 else code }

-- `cpmdc_stopgm_catch`: its result, whether the stop returns to its caller, and the record.
unfoldable pub stopgm_catch : Stop → ℕ → Bool × Stop
stopgm_catch s code = (s.catching, note_stop s code)

unfoldable pub stop_arm : Stop → Stop
stop_arm s = record { code = 0; catching = true; hooked = true }

unfoldable pub stop_disarm : Stop → Stop
stop_disarm s = record s { catching = false; hooked = false }

-- What `cpmd_stopgm_hook` points to.
abbrev pub hook_of : Stop → Option (Stop → ℕ → Bool × Stop)
hook_of s = if s.hooked then some stopgm_catch else none
