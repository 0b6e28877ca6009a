-- ===== src/Stop/Recorded.antt =====
-- A call that is armed, stopped any number of times and disarmed.
use cpmdc.Base.{
  ℕ, ◌≡◌, ◌≢◌, Bool, true, false, Option, none, some, List, [], ◌∷◌, ◌==◌, if◌then◌else◌, arith,
}
use cpmdc.Stop.{Stop, hook_of}

-- The archive's `stopgm` with a hook, a record and a code: the record where it returns to its caller,
-- `none` where the process ends.
abbrev pub Archive : Type 0
Archive = Option (Stop → ℕ → Bool × Stop) → Stop → ℕ → Option Stop

-- As the archive is patched: `stopgm` calls the hook, and returns where the hook returns 1.
pub record CallsHook (archive : Archive) : Type 0 where
  pub returns :
      (hook : Stop → ℕ → Bool × Stop) (s noted : Stop) (code : ℕ)
      → hook s code ≡ (true, noted)
      → archive (some hook) s code ≡ some noted
  pub ends :
      (hook : Stop → ℕ → Bool × Stop) (s noted : Stop) (code : ℕ)
      → hook s code ≡ (false, noted)
      → archive (some hook) s code ≡ none
  pub unhooked : (s : Stop) (code : ℕ) → archive none s code ≡ none

-- Stops with these codes, one after the other.
unfoldable pub stops : Archive → Stop → List ℕ → Option Stop
stops archive s [] = some s
stops archive s (code ∷ codes) = elim (archive (hook_of s) s code) [
  | none ↦ none
  | some noted ↦ stops archive noted codes
]

-- The code of the last stop, with 1 for 0.
abbrev pub last_code : ℕ → List ℕ → ℕ
last_code before [] = before
last_code before (code ∷ codes) = last_code (if code == 0 then 1 else code) codes

noted : (code : ℕ) → (if code == 0 then 1 else code) ≢ 0
noted code = λ e. ground arith

abbrev armed : ℕ → Stop
armed code = record { code = code; catching = true; hooked = true }
