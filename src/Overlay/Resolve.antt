-- ===== src/Overlay/Resolve.antt =====
-- src/cpmdc.c: from a `PotentialConfig` message to the bytes of the parameters, and to a session.
-- M is the bytes of a message. The Cap'n Proto library is a parameter: what it writes of a message
-- into a buffer of some capacity, `none` where that does not fit.
use cpmdc.Base.{ℕ, zero, suc, ◌*◌, Bool, true, false, Option, none, some, if◌then◌else◌}
use cpmdc.Base.Reals.{Reals}
use cpmdc.Base.Results.{Result, ok, err, ◌>>=◌}
use cpmdc.Overlay.Effective.{Params, Overrides}
use cpmdc.Overlay.{
  Common, Lowered, OverlayError, common_to_params, merge_common_into_arm, serialization,
  out_of_memory, empty_arm, other_backend,
}
use cpmdc.Session.{Session}
use cpmdc.Session.Params as Knobs
use cpmdc.Session.Params.{ParamsStatus, applied, session_create, session_set_params}

-- `for (attempt = 0; attempt < n && written < 0; ++attempt)` from a capacity on.
unfoldable pub write_growing :
    {M : Type 0} → (ℕ → Bool) → (ℕ → Option M) → ℕ → ℕ → Result OverlayError M
write_growing grants write zero capacity = err serialization
write_growing grants write (suc n) capacity =
    let rest = write_growing grants write n (capacity * 2) in
    if grants capacity
    then elim (write capacity) [ none ↦ rest | some m ↦ ok m ]
    else err out_of_memory

-- `which` of PotentialConfig with its CPMD arm, `none` where that is not a struct.
pub data Arm (A : Type 0) : Type 0 where
  cpmd_arm : Option (Params A) → Arm A
  no_arm other_arm : Arm A

abbrev pub was_applied : ParamsStatus → Bool
was_applied applied = true
was_applied _ = false

-- What a session holds of its parameters.
abbrev pub Knob : Type 0 → Type 0 → Type 0 → Type 0
Knob A M D = Knobs.Params M (Overrides A) D

-- `cpmdc_session_create` and, with overrides, the second installation.
unfoldable pub install :
    {A M D : Type 0}
    → (M → Bool)
    → Bool
    → (M → Option (Overrides A) → Option D)
    → Bool
    → M
    → Option (Overrides A)
    → Option (Session A (Knob A M D))
install is_empty granted apply ready message none =
    session_create is_empty granted apply ready message
install is_empty granted apply ready message (some o) =
    elim (session_create is_empty granted apply ready message) [
      | none ↦ none
      | some session ↦
          let (status, after) =
            session_set_params is_empty granted apply ready session message (some o) in
          if was_applied status then some after else none
    ]

module _ {A M : Type 0} (r : Reals A) (grants : ℕ → Bool) (write_arm : Params A → ℕ → Option M)
    (write_lowered : Lowered A → ℕ → Option M) where
  -- `cpmd_config_to_params_bytes` on a message that was read; the inner `none` is `*out == NULL`.
  unfoldable pub config_to_params :
      Arm A → Option (Common A) → Result OverlayError (Option (M × Option (Overrides A)))
  config_to_params (cpmd_arm none) common = err empty_arm
  config_to_params (cpmd_arm (some arm)) none =
      write_growing grants (write_arm arm) 16 4096 >>= λ message. ok (some (message, none))
  config_to_params (cpmd_arm (some arm)) (some common) =
      merge_common_into_arm r arm common >>= λ overrides.
      write_growing grants (write_arm arm) 16 4096 >>= λ message. ok (some (message, overrides))
  config_to_params no_arm none = ok none
  config_to_params no_arm (some common) = common_to_params r common >>= λ lowered.
      write_growing grants (write_lowered lowered) 8 4096 >>= λ message. ok (some (message, none))
  config_to_params other_arm common = err other_backend

  -- `cpmdc_session_create_from_config`
  unfoldable pub session_create_from_config :
      {D : Type 0}
      → (M → Bool)
      → Bool
      → (M → Option (Overrides A) → Option D)
      → Bool
      → Arm A
      → Option (Common A)
      → Option (Session A (Knob A M D))
  session_create_from_config is_empty granted apply ready arm common =
      elim (config_to_params arm common) [
        | err why ↦ none
        | ok none ↦ none
        | ok (some (message, overrides)) ↦ install is_empty granted apply ready message overrides
      ]
