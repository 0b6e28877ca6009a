-- ===== src/Overlay.antt =====
-- src/cpmdc.c: the common method overlay of a `PotentialConfig` message, lowered into parameters or
-- merged over a native CPMD arm. A `double` is a value of a type A with the operations `Reals`, an
-- `int` is its bit pattern, and a missing text is empty.
pub mod Token
pub mod Order
pub mod Names
pub mod Effective
pub mod Lower
pub mod Merge
pub mod Resolve
pub mod Install
mod Tests
use cpmdc.Base.{
  ℕ, ◌≡◌, Bool, true, false, not, ◌&&◌, ◌||◌, ◌==◌, ltb, Option, none, some, List, [], ◌∷◌, ◌++◌,
  map, length, if◌then◌else◌, Text, codes, text_eq, to_lower,
}
use cpmdc.Base.Reals.{Reals}
use cpmdc.Base.Results.{Result, ok, err, ◌>>=◌, ◌>>◌, refuse_if, or_fail}
use cpmdc.Force.{Pointer, null, other, items, list_len, contents}
use cpmdc.Overlay.Token.{to_upper, common_xc_token}
use cpmdc.Overlay.Effective.{
  Params, Overrides, Config, Section, is_positive, is_set, effective_config,
}

-- `cpmd_text_equals_ci`
unfoldable pub text_equals_ci : Text → Text → Bool
text_equals_ci text lit = text_eq (map to_upper text) (map to_upper lit)

pub data SmearingKind : Type 0 where
  no_smearing fermi unmapped_kind : SmearingKind

-- CommonMethodSpec; `smearing` is `none` where its pointer is not a struct.
pub record Common (A : Type 0) : Type 0 where
  pub xc_functionals : Pointer Text
  pub basis_set : Text
  pub planewave_cutoff_ev : A
  pub charge : ℕ
  pub spin_multiplicity : ℕ
  pub scf_energy_tolerance_ev : A
  pub scf_max_iterations : ℕ
  pub k_mesh : Pointer ℕ
  pub smearing : Option (SmearingKind × A)
  pub van_der_waals_method : Text
  pub van_der_waals_s6 : A
  pub relativity_method : Text

-- The messages of `cpmdc_store_error`.
pub data OverlayError : Type 0 where
  unmapped_van_der_waals no_relativity smearing_width unmapped_smearing not_planewave : OverlayError
  unmapped_functionals k_mesh_divisions not_mergeable no_lowering arm_not_readable : OverlayError
  serialization out_of_memory empty_buffer parse_failed empty_arm other_backend : OverlayError

-- The sections that a lowered overlay has, in their order: the SCF controls with the electron
-- temperature, the dispersion correction, the mesh.
pub record Scf (A : Type 0) : Type 0 where
  pub tolerance : Option A
  pub max_iter : ℕ
  pub temperature : Option A

pub record Lowered (A : Type 0) : Type 0 where
  pub functional : Text
  pub cut_off_ry : A
  pub charge : ℕ
  pub multiplicity : ℕ
  pub scf : Option (Scf A)
  pub grimme : Option (Text × Option A)
  pub mesh : Option (List ℕ)

unfoldable pub grimme_token : Text → Option Text
grimme_token method =
    if text_equals_ci method (codes "DFT-D2")
    then some (codes "D2")
    else if text_equals_ci method (codes "DFT-D3")
    then some (codes "D3")
    else if text_equals_ci method (codes "DFT-D3(BJ)")
    then some (codes "D3BJ")
    else none

unfoldable pub van_der_waals : Text → Result OverlayError (Option Text)
van_der_waals method =
    if is_set method
    then elim (grimme_token method) [
      | none ↦ err unmapped_van_der_waals
      | some token ↦ ok (some token)
    ]
    else ok none

unfoldable pub basis_ok : Text → Bool
basis_ok basis = not (is_set basis) || text_eq (map to_lower basis) (codes "planewave")

unfoldable pub xc_token : Pointer Text → Result OverlayError Text
xc_token null = ok []
xc_token other = ok []
xc_token (items []) = ok []
xc_token (items (x ∷ xs)) = or_fail (common_xc_token (items (x ∷ xs))) unmapped_functionals

unfoldable pub mesh_of : Pointer ℕ → Result OverlayError (Option (List ℕ))
mesh_of null = ok none
mesh_of other = err k_mesh_divisions
mesh_of (items divisions) =
    if length divisions == 0
    then ok none
    else if length divisions == 3
    then ok (some divisions)
    else err k_mesh_divisions

abbrev pub is_some : {B : Type 0} → Option B → Bool
is_some none = false
is_some (some b) = true

abbrev pub is_null_or_empty : Pointer ℕ → Bool
is_null_or_empty null = true
is_null_or_empty other = false
is_null_or_empty (items divisions) = length divisions == 0

-- The functional of the overlay, where the arm has the default.
unfoldable pub merge_functional : Pointer Text → Text → Result OverlayError Text
merge_functional names base = if text_eq base (codes "BLYP") then xc_token names else ok []

module _ {A : Type 0} (r : Reals A) where
  abbrev pub when_positive : A → Option A
  when_positive x = if r.positive x then some x else none

  -- `smear_temperature_k`, where it is not 0.
  unfoldable pub temperature : Option (SmearingKind × A) → Result OverlayError (Option A)
  temperature none = ok none
  temperature (some (no_smearing, width)) = ok none
  temperature (some (unmapped_kind, width)) = err unmapped_smearing
  temperature (some (fermi, width)) =
      if r.at_most_zero width
      then err smearing_width
      else ok (when_positive (r.div width (r.decimal 8617333262 14)))

  unfoldable pub scf_of : Common A → Option A → Option (Scf A)
  scf_of c kelvin =
      if is_positive c.scf_max_iterations || r.positive c.scf_energy_tolerance_ev || is_some kelvin
      then some (record {
        tolerance =
            if r.positive c.scf_energy_tolerance_ev
            then some (r.div c.scf_energy_tolerance_ev (r.decimal 27211386245988 12))
            else none;
        max_iter = c.scf_max_iterations;
        temperature = kelvin;
      })
      else none

  -- `cpmd_common_to_params` up to the writing of the message.
  unfoldable pub common_to_params : Common A → Result OverlayError (Lowered A)
  common_to_params c = van_der_waals c.van_der_waals_method >>= λ grimme.
      refuse_if (is_set c.relativity_method) no_relativity
      >> (temperature c.smearing >>= λ kelvin.
          refuse_if (not (basis_ok c.basis_set)) not_planewave
          >> (xc_token c.xc_functionals >>= λ functional. mesh_of c.k_mesh >>= λ mesh. ok (record {
            functional = functional;
            cut_off_ry =
                if r.positive c.planewave_cutoff_ev
                then r.div c.planewave_cutoff_ev (r.decimal 13605693122994 12)
                else r.decimal 70 0;
            charge = c.charge;
            multiplicity = if is_positive c.spin_multiplicity then c.spin_multiplicity else 1;
            scf = scf_of c kelvin;
            grimme = elim grimme [
              | none ↦ none
              | some token ↦ some (token, when_positive c.van_der_waals_s6)
            ];
            mesh = mesh;
          })))

  abbrev sets_cutoff : Common A → Config A → Bool
  sets_cutoff c base = r.positive c.planewave_cutoff_ev && r.same base.cutoff_ry (r.decimal 70 0)

  abbrev sets_charge : Common A → Config A → Bool
  sets_charge c base = not (c.charge == 0) && base.charge == 0

  abbrev sets_multiplicity : Common A → Config A → Bool
  sets_multiplicity c base =
      is_positive c.spin_multiplicity && not (c.spin_multiplicity == 1) && base.multiplicity == 1

  -- `*has_ov`
  unfoldable pub has_overrides : Common A → Config A → Text → Bool
  has_overrides c base functional =
      is_set functional || sets_cutoff c base || sets_charge c base || sets_multiplicity c base

  -- The overrides that `cpmd_merge_common_into_arm` fills behind its refusals.
  unfoldable pub merge_scalars : Common A → Config A → Text → Overrides A
  merge_scalars c base functional = record {
    functional = functional;
    cutoff_ry =
        if sets_cutoff c base
        then r.div c.planewave_cutoff_ev (r.decimal 13605693122994 12)
        else r.decimal 0 0;
    charge = if sets_charge c base then some c.charge else none;
    multiplicity = if sets_multiplicity c base then some c.spin_multiplicity else none;
  }

  unfoldable pub merge_common_into_arm :
      Params A → Common A → Result OverlayError (Option (Overrides A))
  merge_common_into_arm arm c =
      refuse_if
        (not (is_null_or_empty c.k_mesh)
          || is_positive c.scf_max_iterations
          || r.positive c.scf_energy_tolerance_ev)
        not_mergeable
      >> (refuse_if (is_set c.van_der_waals_method || is_set c.relativity_method) no_lowering
          >> (or_fail (effective_config r 64 arm) arm_not_readable >>= λ base.
              merge_functional c.xc_functionals base.functional >>= λ functional. ok (
                if has_overrides c base functional
                then some (merge_scalars c base functional)
                else none)))
