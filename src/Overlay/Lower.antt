-- ===== src/Overlay/Lower.antt =====
-- src/cpmdc.c: which overlays `cpmd_common_to_params` lowers, and to what.
use cpmdc.Base.{
  ℕ, ◌≡◌, ◌≢◌, ◌⊎◌, false, Option, none, some, List, [], map, Text, codes, to_lower, if◌then◌else◌,
}
use cpmdc.Base.Reals.{Reals}
use cpmdc.Force.{Pointer, list_len, contents}
use cpmdc.Overlay.Token.{to_upper, common_xc_token}
use cpmdc.Overlay.Effective.{is_positive}
use cpmdc.Overlay.{Common, Lowered, SmearingKind, no_smearing, fermi, unmapped_kind, scf_of}

-- A dispersion method and its token: unset, or one of three names in any case.
abbrev pub IsGrimme : Text → Option Text → Type 0
IsGrimme method token =
    ((method ≡ []) × (token ≡ none))
    ⊎ ((map to_upper method ≡ codes "DFT-D2") × (token ≡ some (codes "D2")))
    ⊎ ((map to_upper method ≡ codes "DFT-D3") × (token ≡ some (codes "D3")))
    ⊎ ((map to_upper method ≡ codes "DFT-D3(BJ)") × (token ≡ some (codes "D3BJ")))

-- An unset basis set, or "planewave" in any case.
abbrev pub IsPlanewave : Text → Type 0
IsPlanewave basis = (basis ≡ []) ⊎ (map to_lower basis ≡ codes "planewave")

-- No list of functionals and no token, or the token that the list has.
abbrev pub IsToken : Pointer Text → Text → Type 0
IsToken names token =
    ((contents names ≡ []) × (token ≡ []))
    ⊎ ((contents names ≢ []) × (common_xc_token names ≡ some token))

-- No divisions, or three.
abbrev pub IsMesh : Pointer ℕ → Option (List ℕ) → Type 0
IsMesh mesh divisions =
    ((list_len mesh ≡ some 0) × (divisions ≡ none))
    ⊎ ((list_len mesh ≡ some 3) × (divisions ≡ some (contents mesh)))

module _ {A : Type 0} (r : Reals A) where
  -- No smearing and no temperature, or Fermi smearing of a width that is not at most 0, with the
  -- temperature of that width where it is positive.
  abbrev pub IsTemperature : Option (SmearingKind × A) → Option A → Type 0
  IsTemperature none kelvin = kelvin ≡ none
  IsTemperature (some (no_smearing, width)) kelvin = kelvin ≡ none
  IsTemperature (some (fermi, width)) kelvin =
      (r.at_most_zero width ≡ false)
      × (kelvin ≡ (
          if r.positive (r.div width (r.decimal 8617333262 14))
          then some (r.div width (r.decimal 8617333262 14))
          else none))
  IsTemperature (some (unmapped_kind, width)) kelvin = ⊥

  abbrev pub with_scale : A → Option Text → Option (Text × Option A)
  with_scale scale found = elim found as (λ _. Option (Text × Option A)) [
    | none ↦ none
    | some token ↦ some (token, if r.positive scale then some scale else none)
  ]

  -- The parameters that an overlay is lowered to.
  pub record IsLowering (c : Common A) (l : Lowered A) : Type 0 where
    pub token : Option Text
    pub kelvin : Option A
    pub dispersion : IsGrimme c.van_der_waals_method token
    pub no_relativity_method : c.relativity_method ≡ []
    pub smearing : IsTemperature c.smearing kelvin
    pub basis : IsPlanewave c.basis_set
    pub functionals : IsToken c.xc_functionals l.functional
    pub divisions : IsMesh c.k_mesh l.mesh
    pub fields : l ≡ record {
      functional = l.functional;
      cut_off_ry =
          if r.positive c.planewave_cutoff_ev
          then r.div c.planewave_cutoff_ev (r.decimal 13605693122994 12)
          else r.decimal 70 0;
      charge = c.charge;
      multiplicity = if is_positive c.spin_multiplicity then c.spin_multiplicity else 1;
      scf = scf_of r c kelvin;
      grimme = with_scale c.van_der_waals_s6 token;
      mesh = l.mesh;
    }
