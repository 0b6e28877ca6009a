-- ===== src/Session/Params.antt =====
-- src/cpmdc.c: `cpmdc_session_create`, `cpmdc_session_set_params_ov` and
-- `cpmdc_session_select_orbitals`. The message, the overrides and the deck are of any types; the
-- buffers of `functional`, `cutoff_ry` and the like are written with the deck and not read here.
use cpmdc.Base.{ℕ, Bool, true, Option, none, some, if◌then◌else◌}
use cpmdc.Session.{Session}

pub record Params (M O D : Type 0) : Type 0 where
  pub message : M
  pub overrides : Option O
  pub deck : D

-- The messages of `cpmdc_store_error`; `not_applied` is that of `apply_params_buffer`.
pub data ParamsStatus : Type 0 where
  applied empty_buffer topology_is_fixed out_of_memory not_applied not_available : ParamsStatus

module _ {A M O D : Type 0} (is_empty : M → Bool) (granted : Bool) (apply : M → Option O → Option D)
    (ready : Bool) where
  -- `ready` is whether `configure_embed_from_session` succeeds; its answer is not used here.
  unfoldable pub session_create : M → Option (Session A (Params M O D))
  session_create message =
      if is_empty message
      then none
      else if granted
      then elim (apply message none) [
        | none ↦ none
        | some deck ↦ some (record {
          params = record { message = message; overrides = none; deck = deck };
          topology = none;
          cached_n_atoms = 0;
          cached = none;
          configured = ready;
          orbital_key = none;
        })
      ]
      else none

  -- The overrides are written before the message is applied, and stay where it is not.
  unfoldable pub session_set_params :
      Session A (Params M O D) → M → Option O → ParamsStatus × Session A (Params M O D)
  session_set_params session message overrides = elim session.topology [
    | some fixed ↦
        if is_empty message then (empty_buffer, session) else (topology_is_fixed, session)
    | none ↦
        if is_empty message
        then (empty_buffer, session)
        else if granted
        then elim (apply message overrides) [
          | none ↦ (
            not_applied,
            record session { params = record session.params { overrides = overrides } },
          )
          | some deck ↦
              let params : Params M O D = record {
                message = message;
                overrides = overrides;
                deck = deck;
              } in
              if ready
              then (applied, record session { params = params; configured = true })
              else (not_available, record session { params = params })
        ]
        else (out_of_memory, session)
  ]

  unfoldable pub session_select_orbitals : Session A (Params M O D) → ℕ → Session A (Params M O D)
  session_select_orbitals session key = record session { orbital_key = some key }
