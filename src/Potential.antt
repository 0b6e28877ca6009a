-- ===== src/Potential.antt =====
-- src/cpmdc_params.c: the `PotentialResult` message of an evaluation.
-- A `double` is a value of a type A with the operations `Reals`. A `valid` flag and the fields it
-- guards are one option, and an array is the list of its elements. The Cap'n Proto library is
-- `Builder`: whether the arena has a root and takes the root pointer, whether it grants a list, and
-- how many bytes it writes of a message.
pub mod Select
pub mod Size
pub mod Write
pub mod Complete
mod Tests
use cpmdc.Base.{
  ℕ, ◌+◌, ◌-◌, ◌*◌, ◌/◌, ◌^◌, Bool, true, false, not, ◌&&◌, ◌||◌, Option, none, some, List, [], ◌∷◌,
  map, length, ltb, ◌==◌, if◌then◌else◌, int_max, is_negative,
}
use cpmdc.Base.Reals.{Reals}
use cpmdc.Potential.Select.{
  Image, select_components, select_charge, select_multi, select_md, select_properties, Properties,
  gradient_of, dipole_of, polarizability_of, stress_of, scale_stress,
}

-- 0 where the sum does not fit a `size_t`.
unfoldable pub potential_result_flat_size : ℕ → ℕ
potential_result_flat_size force_count =
    if ltb ((2 ^ 64 - 1 - 2048) / 16) force_count then 0 else 2048 + force_count * 16

-- The lists of a message, of which each is made once.
pub data Field : Type 0 where
  force components charge multi md dipole polarizability gradient stress : Field

-- `struct PotentialResult`; `none` is the null pointer.
pub record PotentialResult (A : Type 0) : Type 0 where
  pub energy : A
  pub force_list : Option (List A)
  pub energy_components : Option (List A)
  pub components_valid : Bool
  pub charge_integrals : Option (List A)
  pub charge_valid : Bool
  pub multi_state_energies : Option (List A)
  pub multi_state_valid : Bool
  pub md_trajectory_row : Option (List A)
  pub md_trajectory_valid : Bool
  pub dipole_list : Option (List A)
  pub polarizability_list : Option (List A)
  pub gradient_list : Option (List A)
  pub stress_list : Option (List A)

pub record Builder (A : Type 0) : Type 0 where
  pub has_root : Bool
  pub grants : Field → Bool
  pub takes_root : Bool
  -- `capn_write_mem`; the `int` that it returns is its bit pattern.
  pub write_mem : PotentialResult A → ℕ → ℕ

abbrev is_some : {A : Type 0} → Option A → Bool
is_some none = false
is_some (some a) = true

module _ {A : Type 0} (r : Reals A) (b : Builder A) where
  -- A list that is written where the arena grants it.
  unfoldable pub new_list : Field → Option (List A) → Option (List A)
  new_list field none = none
  new_list field (some xs) = if b.grants field then some xs else none

  -- A list of no elements is not made.
  unfoldable pub new_counted : Field → Option (List A) → Option (List A)
  new_counted field none = none
  new_counted field (some []) = none
  new_counted field (some (x ∷ xs)) = if b.grants field then some (x ∷ xs) else none

  -- The flag beside a list of that kind: an empty one leaves it set.
  unfoldable pub counted_valid : Field → Option (List A) → Bool
  counted_valid field none = false
  counted_valid field (some []) = true
  counted_valid field (some (x ∷ xs)) = b.grants field

  unfoldable pub potential_result : A → List A → A → Option (Image A) → PotentialResult A
  potential_result energy forces stress_factor image =
      let comps = select_components image in
      let ch = select_charge r image in
      let ms = select_multi r image in
      let row = select_md r image in
      let prop = select_properties r image forces in
      record {
        energy = energy;
        force_list = new_list force (some forces);
        energy_components = new_list components comps;
        components_valid = is_some (new_list components comps);
        charge_integrals = new_list charge ch;
        charge_valid = is_some (new_list charge ch);
        multi_state_energies = new_counted multi ms;
        multi_state_valid = counted_valid multi ms;
        md_trajectory_row = new_counted md row;
        md_trajectory_valid = counted_valid md row;
        dipole_list = new_counted dipole (dipole_of prop);
        polarizability_list = new_counted polarizability (polarizability_of prop);
        gradient_list = new_counted gradient (gradient_of prop);
        stress_list = new_list stress (scale_stress r stress_factor (stress_of image));
      }

  -- The message that was written, `none` for the return of -1, and the size that is reported.
  unfoldable pub potential_result_write :
      A → List A → A → Option (Image A) → ℕ → ℕ → Option (PotentialResult A) × ℕ
  potential_result_write energy forces stress_factor image capacity size =
      let required = potential_result_flat_size (length forces) in
      let message = potential_result energy forces stress_factor image in
      if ltb int_max (length forces)
      then (none, size)
      else if required == 0 || ltb capacity required
      then (none, required)
      else if not b.has_root || (ltb 0 (length forces) && not (b.grants force))
      then (none, required)
      else if not b.takes_root
      then (none, required)
      else let wrote = b.write_mem message capacity in
        if is_negative wrote || ltb capacity wrote then (none, required) else (some message, wrote)
