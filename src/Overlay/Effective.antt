-- ===== src/Overlay/Effective.antt =====
-- src/cpmdc_params.c: the scalars of a `CPMDParams` message, as they are reported. A `double` is a
-- value of a type A with the operations `Reals`; an `int` is its bit pattern. The fields that only
-- the deck reads are not part of the record. A section of another kind than &SYSTEM and &DFT, a raw
-- one among them, is `other_section`: no scalar is read from it.
use cpmdc.Base.{
  ℕ, ◌-◌, Bool, true, false, not, ◌&&◌, ◌==◌, Option, none, some, List, [], ◌∷◌, if◌then◌else◌,
  Text, codes, take, is_negative,
}
use cpmdc.Base.Reals.{Reals}
use cpmdc.Force.{Pointer, null, other, items}

-- `x > 0` of an `int`.
abbrev pub is_positive : ℕ → Bool
is_positive u = not (u == 0) && not (is_negative u)

-- The sections whose scalars are read, with the fields that are.
pub data Section (A : Type 0) : Type 0 where
  system_section : A → ℕ → ℕ → Section A
  dft_section : Text → Section A
  other_section : Section A

-- CPMDParams
pub record Params (A : Type 0) : Type 0 where
  pub functional : Text
  pub cut_off_ry : A
  pub charge : ℕ
  pub multiplicity : ℕ
  pub input_sections : Pointer (Section A)

-- CPMDCScalarOverrides; a flag and its field are one option, and the null functional is empty.
pub record Overrides (A : Type 0) : Type 0 where
  pub functional : Text
  pub cutoff_ry : A
  pub charge : Option ℕ
  pub multiplicity : Option ℕ

-- The four results of `cpmdc_params_effective_config`.
pub record Config (A : Type 0) : Type 0 where
  pub functional : Text
  pub cutoff_ry : A
  pub charge : ℕ
  pub multiplicity : ℕ

abbrev pub is_set : Text → Bool
is_set [] = false
is_set (c ∷ cs) = true

-- `copy_capn_text_or`: what stands in a buffer of that size.
unfoldable pub copy_text_or : Text → Text → ℕ → Text
copy_text_or text fallback size = take (size - 1) (if is_set text then text else fallback)

abbrev pub at_least_one : ℕ → ℕ
at_least_one m = if is_positive m then m else 1

abbrev pub override_with : {B : Type 0} → Option B → (B → B) → B → B
override_with none f b = b
override_with (some own) f b = f own

-- Sections of other kinds.
abbrev pub IsOther : {A : Type 0} → Section A → Type 0
IsOther (system_section cutoff charge multiplicity) = ⊥
IsOther (dft_section functional) = ⊥
IsOther other_section = Unit

module _ {A : Type 0} (r : Reals A) where
  -- The loop over the sections.
  unfoldable pub read_sections : ℕ → List (Section A) → Config A → Config A
  read_sections size [] config = config
  read_sections size (system_section cutoff charge multiplicity ∷ rest) config =
      read_sections size rest (record config {
        cutoff_ry = if r.positive cutoff then cutoff else config.cutoff_ry;
        charge = charge;
        multiplicity = if is_positive multiplicity then multiplicity else config.multiplicity;
      })
  read_sections size (dft_section functional ∷ rest) config =
      read_sections size rest (record config {
        functional =
            if is_set functional
            then copy_text_or functional (codes "BLYP") size
            else config.functional;
      })
  read_sections size (other_section ∷ rest) config = read_sections size rest config

  abbrev pub base_config : ℕ → Params A → Config A
  base_config size params = record {
    functional = copy_text_or params.functional (codes "BLYP") size;
    cutoff_ry = if r.positive params.cut_off_ry then params.cut_off_ry else r.decimal 70 0;
    charge = params.charge;
    multiplicity = at_least_one params.multiplicity;
  }

  -- `cpmdc_params_effective_config` with a buffer of `size` bytes for the functional.
  unfoldable pub effective_config : ℕ → Params A → Option (Config A)
  effective_config size params = elim params.input_sections [
    | null ↦ some (base_config size params)
    | other ↦ none
    | items sections ↦ some (read_sections size sections (base_config size params))
  ]

  -- The overrides over the scalars, for a functional buffer of `size` bytes.
  unfoldable pub apply_overrides : ℕ → Option (Overrides A) → Config A → Config A
  apply_overrides size none config = config
  apply_overrides size (some o) config = record {
    functional = if is_set o.functional then take (size - 1) o.functional else config.functional;
    cutoff_ry = if r.positive o.cutoff_ry then o.cutoff_ry else config.cutoff_ry;
    charge = override_with o.charge (λ c. c) config.charge;
    multiplicity = override_with o.multiplicity at_least_one config.multiplicity;
  }

  unfoldable pub effective_config_ov : ℕ → Params A → Option (Overrides A) → Option (Config A)
  effective_config_ov size params overrides = elim (effective_config size params) [
    | none ↦ none
    | some config ↦ some (apply_overrides size overrides config)
  ]
