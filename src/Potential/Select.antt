-- ===== src/Potential/Select.antt =====
-- src/cpmdc_params.c: which numbers of a snapshot `cpmdc_potential_result_write` takes, and what it
-- puts in their place where the snapshot has none.
use cpmdc.Base.{
  ℕ, ◌&&◌, Option, none, some, List, [], ◌∷◌, ◌++◌, map, length, ltb, leb, if◌then◌else◌, take,
  replicate, at,
}
use cpmdc.Base.Reals.{Reals}

-- `count` and `values` of CPMDCMultiStateEnergies and CPMDCMDTrajectoryRow.
pub record Counted (A : Type 0) : Type 0 where
  pub count : ℕ
  pub values : List A

-- CPMDCPropertySnapshot
pub record Snapshot (A : Type 0) : Type 0 where
  pub hessian : Counted A
  pub dipole : Counted A
  pub polarizability : Counted A

-- The snapshots of CPMDCEmbedImage.
pub record Image (A : Type 0) : Type 0 where
  pub energy : Option (List A)
  pub charge : Option (List A)
  pub multi : Option (Counted A)
  pub md : Option (Counted A)
  pub prop : Option (Snapshot A)
  pub stress : Option (List A)

-- The gradient, dipole and polarizability that go into the message.
pub record Properties (A : Type 0) : Type 0 where
  pub gradient : List A
  pub dipole : List A
  pub polarizability : List A

unfoldable pub snapshot_count : ℕ → ℕ → ℕ
snapshot_count n cap = if ltb cap n then cap else n

abbrev pub counted : {A : Type 0} → Counted A → ℕ → List A
counted snapshot cap = take (snapshot_count snapshot.count cap) snapshot.values

unfoldable pub select_components : {A : Type 0} → Option (Image A) → Option (List A)
select_components none = none
select_components (some image) = image.energy

abbrev pub counted_of : {A : Type 0} → Option (Counted A) → ℕ → Option (List A)
counted_of none cap = none
counted_of (some snapshot) cap = some (counted snapshot cap)

-- The numbers of a valid snapshot, or with valid energies what stands for them.
abbrev pub or_default :
    {A : Type 0} → Option (List A) → Option (List A) → (List A → List A) → Option (List A)
or_default (some own) energy make = some own
or_default none none make = none
or_default none (some comps) make = some (make comps)

abbrev pub gradient_of : {A : Type 0} → Option (Properties A) → Option (List A)
gradient_of none = none
gradient_of (some p) = some p.gradient

abbrev pub dipole_of : {A : Type 0} → Option (Properties A) → Option (List A)
dipole_of none = none
dipole_of (some p) = some p.dipole

abbrev pub polarizability_of : {A : Type 0} → Option (Properties A) → Option (List A)
polarizability_of none = none
polarizability_of (some p) = some p.polarizability

-- The stress tensor of a valid snapshot.
abbrev pub stress_of : {A : Type 0} → Option (Image A) → Option (List A)
stress_of none = none
stress_of (some image) = image.stress

module _ {A : Type 0} (r : Reals A) where
  abbrev zero_real : A
  zero_real = r.decimal 0 0

  unfoldable pub select_charge : Option (Image A) → Option (List A)
  select_charge none = none
  select_charge (some image) = or_default image.charge image.energy (λ comps. replicate 4 zero_real)

  unfoldable pub select_multi : Option (Image A) → Option (List A)
  select_multi none = none
  select_multi (some image) =
      or_default (counted_of image.multi 64) image.energy
        (λ comps. at zero_real comps 0 ∷ replicate 5 zero_real)

  unfoldable pub select_md : Option (Image A) → Option (List A)
  select_md none = none
  select_md (some image) =
      or_default (counted_of image.md 32) image.energy
        (λ comps. map (at zero_real comps) (0 ∷ 1 ∷ 2 ∷ 3 ∷ 4 ∷ 8 ∷ []) ++ replicate 6 zero_real)

  abbrev pub or_zeros : ℕ → List A → List A
  or_zeros n [] = replicate n zero_real
  or_zeros n (x ∷ xs) = x ∷ xs

  -- Where the snapshot has no gradient, it is made of the forces.
  unfoldable pub or_negated : List A → List A → List A
  or_negated [] forces =
      if ltb 0 (length forces) && leb (length forces) 4096 then map r.negate forces else []
  or_negated (x ∷ xs) forces = x ∷ xs

  unfoldable pub select_properties : Option (Image A) → List A → Option (Properties A)
  select_properties none forces = none
  select_properties (some image) forces = elim image.prop [
    | some snapshot ↦ some (record {
      gradient = or_negated (counted snapshot.hessian 4096) forces;
      dipole = or_zeros 3 (counted snapshot.dipole 3);
      polarizability = or_zeros 9 (counted snapshot.polarizability 9);
    })
    | none ↦ elim image.energy [
      | none ↦ none
      | some comps ↦ some (record {
        gradient = or_negated [] forces;
        dipole = replicate 3 zero_real;
        polarizability = replicate 9 zero_real;
      })
    ]
  ]

  unfoldable pub scale_stress : A → Option (List A) → Option (List A)
  scale_stress factor none = none
  scale_stress factor (some values) =
      let sf = if r.same factor (r.decimal 0 0) then r.decimal 1 0 else factor in
      some (map (λ v. r.mul v sf) values)
