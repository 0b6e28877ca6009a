-- ===== src/Potential/Size.antt =====
-- src/cpmdc_params.c: how much the lists of a `PotentialResult` take of its flat size.
use cpmdc.Base.{
  if◌then◌else◌, int_max, ge→ltb, false, ◌/◌, ◌-◌, ◌^◌, ℕ, zero, suc, ◌+◌, ◌*◌, ◌≤◌, ◌≡◌, refl,
  ◌&&◌, Option, none, some, List, [], ◌∷◌, map, length, ltb, leb, take, arith, Bool-cases,
  Option-cases, length-replicate, inl, inr, subst,
}
use cpmdc.Base.Reals.{Reals}
use cpmdc.Potential.Select.{
  Image, Counted, Snapshot, snapshot_count, counted, select_charge, select_multi, select_md,
  select_properties, or_negated, or_zeros, or_default, counted_of, gradient_of, dipole_of,
  polarizability_of, scale_stress, select_components,
}
use cpmdc.Potential.{
  Builder, Field, force, components, charge, multi, md, dipole, polarizability, gradient, stress,
  PotentialResult, new_list, new_counted, potential_result, potential_result_flat_size,
}

abbrev pub list_size : {A : Type 0} → Option (List A) → ℕ
list_size none = 0
list_size (some xs) = length xs

-- The bytes of the elements of all lists.
unfoldable pub payload : {A : Type 0} → PotentialResult A → ℕ
payload m =
    8
    * (list_size m.force_list
        + list_size m.energy_components
        + list_size m.charge_integrals
        + list_size m.multi_state_energies
        + list_size m.md_trajectory_row
        + list_size m.dipole_list
        + list_size m.polarizability_list
        + list_size m.gradient_list
        + list_size m.stress_list)

abbrev AtMost : {A : Type 0} → ℕ → Option (List A) → Type 0
AtMost n xs = list_size xs ≤ n

abbrev gradient_count : {A : Type 0} → Option (Snapshot A) → ℕ
gradient_count none = 0
gradient_count (some s) = s.hessian.count

-- The arrays of an image have the sizes they are declared with, and the stored gradient has at most
-- n numbers.
pub record IsImage {A : Type 0} (n : ℕ) (image : Image A) : Type 0 where
  pub energy_size : AtMost 24 image.energy
  pub charge_size : AtMost 4 image.charge
  pub stress_size : AtMost 9 image.stress
  pub gradient_size : gradient_count image.prop ≤ n

length-map : {A B : Type 0} (f : A → B) (xs : List A) → length (map f xs) ≡ length xs
length-map f [] = refl
length-map f (x ∷ xs) = omega (arith, length-map f xs)

length-take_le : {A : Type 0} (n : ℕ) (xs : List A) → length (take n xs) ≤ n
length-take_le zero xs = omega arith
length-take_le (suc n) [] = omega arith
length-take_le (suc n) (x ∷ xs) = omega (arith, length-take_le n xs)

counted_le : {A : Type 0} (s : Counted A) (cap : ℕ) → length (counted s cap) ≤ cap
unfolding snapshot_count
counted_le s cap = ground (arith, length-take_le (snapshot_count s.count cap) s.values)

counted_le_count : {A : Type 0} (s : Counted A) (cap : ℕ) → length (counted s cap) ≤ s.count
unfolding snapshot_count
counted_le_count s cap = ground (arith, length-take_le (snapshot_count s.count cap) s.values)

module _ {A : Type 0} (r : Reals A) where
  or_zeros_le : (n : ℕ) (xs : List A) → length xs ≤ n → length (or_zeros r n xs) ≤ n
  or_zeros_le n [] h = omega (arith, length-replicate n (r.decimal 0 0))
  or_zeros_le n (x ∷ xs) h = h

  or_negated_le :
      (xs forces : List A)
      → length xs ≤ length forces
      → length (or_negated r xs forces) ≤ length forces
  unfolding or_negated
  or_negated_le [] forces h =
      elim (Bool-cases (ltb 0 (length forces) && leb (length forces) 4096)) [
        | inl holds ↦ rw holds (omega (arith, length-map r.negate forces))
        | inr fails ↦ rw fails (omega arith)
      ]
  or_negated_le (x ∷ xs) forces h = h

  or_default_le :
      (n : ℕ) (own energy : Option (List A)) (make : List A → List A)
      → AtMost n own
      → ((comps : List A) → length (make comps) ≤ n)
      → AtMost n (or_default own energy make)
  or_default_le n (some own) energy make h k = h
  or_default_le n none none make h k = omega arith
  or_default_le n none (some comps) make h k = k comps

  counted_of_le : (s : Option (Counted A)) (cap : ℕ) → AtMost cap (counted_of s cap)
  counted_of_le none cap = omega arith
  counted_of_le (some s) cap = counted_le s cap

  charge_le : (image : Image A) → AtMost 4 image.charge → AtMost 4 (select_charge r (some image))
  unfolding select_charge
  charge_le image h = or_default_le 4 image.charge image.energy _ h (λ comps. omega arith)

  multi_le : (image : Image A) → AtMost 64 (select_multi r (some image))
  unfolding select_multi
  multi_le image =
      or_default_le 64 (counted_of image.multi 64) image.energy _ (counted_of_le image.multi 64)
        (λ comps. omega arith)

  md_le : (image : Image A) → AtMost 32 (select_md r (some image))
  unfolding select_md
  md_le image =
      or_default_le 32 (counted_of image.md 32) image.energy _ (counted_of_le image.md 32)
        (λ comps. omega arith)

  properties_le :
      (image : Image A) (forces : List A)
      → gradient_count image.prop ≤ length forces
      → AtMost (length forces) (gradient_of (select_properties r (some image) forces))
        × AtMost 3 (dipole_of (select_properties r (some image) forces))
        × AtMost 9 (polarizability_of (select_properties r (some image) forces))
  unfolding select_properties
  properties_le image forces h = elim (Option-cases image.prop) [
    | inl e ↦ elim (Option-cases image.energy) [
      | inl fails ↦ rw (e, fails) (omega arith, omega arith, omega arith)
      | inr (comps, holds) ↦
          rw (e, holds) (or_negated_le [] forces (omega arith), omega arith, omega arith)
    ]
    | inr (s, e) ↦
        let few : s.hessian.count ≤ length forces =
          subst (λ o. gradient_count o ≤ length forces) e h in
        rw e (
          or_negated_le (counted s.hessian 4096) forces
              (omega (arith, few, counted_le_count s.hessian 4096)),
          or_zeros_le 3 (counted s.dipole 3) (counted_le s.dipole 3),
          or_zeros_le 9 (counted s.polarizability 9) (counted_le s.polarizability 9),
        )
  ]

module _ {A : Type 0} (r : Reals A) (b : Builder A) where
  new_list_le :
      (field : Field) (n : ℕ) (xs : Option (List A))
      → AtMost n xs
      → AtMost n (new_list r b field xs)
  unfolding new_list
  new_list_le field n none h = h
  new_list_le field n (some xs) h = ground arith

  new_counted_le :
      (field : Field) (n : ℕ) (xs : Option (List A))
      → AtMost n xs
      → AtMost n (new_counted r b field xs)
  unfolding new_counted
  new_counted_le field n none h = h
  new_counted_le field n (some []) h = h
  new_counted_le field n (some (x ∷ xs)) h = ground arith

  scale_stress_le :
      (factor : A) (values : Option (List A))
      → AtMost 9 values
      → AtMost 9 (scale_stress r factor values)
  unfolding scale_stress
  scale_stress_le factor none h = h
  scale_stress_le factor (some values) h = omega (
    arith,
    length-map (λ v. r.mul v (if r.same factor (r.decimal 0 0) then r.decimal 1 0 else factor))
        values,
  )

  -- Where the arrays of the snapshots have their declared sizes, the stored gradient has at most as
  -- many numbers as there are forces, and there are at most INT_MAX forces, the lists of the message
  -- take 888 bytes less than the size that the caller's buffer must have, for any answers of the
  -- Cap'n Proto library.
  pub payload-potential_result_le :
      (energy : A) (forces : List A) (stress_factor : A) (image : Image A)
      → IsImage (length forces) image
      → length forces ≤ int_max
      → payload (potential_result r b energy forces stress_factor (some image)) + 888
        ≤ potential_result_flat_size (length forces)
  unfolding payload potential_result potential_result_flat_size select_components
  payload-potential_result_le energy forces stress_factor image sizes few =
      let small : ltb ((2 ^ 64 - 1 - 2048) / 16) (length forces) ≡ false =
        ge→ltb ((2 ^ 64 - 1 - 2048) / 16) (length forces) (omega (arith, few)) in
      let prop = select_properties r (some image) forces in
      let (gradients, dipoles, polars) = properties_le r image forces sizes.gradient_size in
      let force_bound = new_list_le force (length forces) (some forces) (omega arith) in
      let energy_bound = new_list_le components 24 image.energy sizes.energy_size in
      let charge_bound =
        new_list_le charge 4 (select_charge r (some image)) (charge_le r image sizes.charge_size) in
      let multi_bound = new_counted_le multi 64 (select_multi r (some image)) (multi_le r image) in
      let md_bound = new_counted_le md 32 (select_md r (some image)) (md_le r image) in
      let dipole_bound = new_counted_le dipole 3 (dipole_of prop) dipoles in
      let polar_bound = new_counted_le polarizability 9 (polarizability_of prop) polars in
      let gradient_bound = new_counted_le gradient (length forces) (gradient_of prop) gradients in
      let stress_bound =
        new_list_le stress 9 (scale_stress r stress_factor image.stress)
          (scale_stress_le stress_factor image.stress sizes.stress_size) in
      rw small (
        omega (
          arith, force_bound, energy_bound, charge_bound, multi_bound, md_bound, dipole_bound,
          polar_bound, gradient_bound, stress_bound,
        ))
