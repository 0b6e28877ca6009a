-- ===== src/Potential/Tests.antt =====
-- src/cpmdc_params.c: messages on an image with energies only, with whole numbers for reals.
use cpmdc.Base.{
  int_max, ℕ, ◌+◌, ◌-◌, ◌^◌, ◌≤◌, ◌≡◌, refl, true, none, some, List, [], ◌∷◌, ltb, if◌then◌else◌,
  replicate, arith, length,
}
use cpmdc.Base.Sample.{whole}
use cpmdc.Potential.Select.{
  Image, select_charge, select_multi, select_md, select_properties, select_components, or_negated,
  scale_stress,
}
use cpmdc.Potential.{
  Builder, PotentialResult, potential_result, potential_result_flat_size, potential_result_write,
  new_list, new_counted, counted_valid,
}
use cpmdc.Potential.Size.{IsImage, payload, payload-potential_result_le}
use cpmdc.Potential.Write.{potential_result_write-eq-some}
use cpmdc.Potential.Complete.{IsComplete, potential_result-IsComplete}

abbrev energies : List ℕ
energies = replicate 24 7

abbrev image : Image ℕ
image = record {
  energy = some energies;
  charge = none;
  multi = none;
  md = none;
  prop = none;
  stress = none;
}

abbrev three_forces : List ℕ
three_forces = 1 ∷ 2 ∷ 3 ∷ []

-- A library that writes a message with a frame of 800 bytes, and returns -1 where that does not fit.
abbrev frame : PotentialResult ℕ → ℕ → ℕ
frame m capacity = if ltb capacity (payload m + 800) then 2 ^ 32 - 1 else payload m + 800

abbrev library : Builder ℕ
library = record { has_root = true; grants = λ field. true; takes_root = true; write_mem = frame }

image-IsImage : IsImage 3 image
image-IsImage = record {
  energy_size = omega arith;
  charge_size = omega arith;
  stress_size = omega arith;
  gradient_size = omega arith;
}

negated_forces :
    (potential_result whole library 5 three_forces 1 (some image)).gradient_list
    ≡ some (999 ∷ 998 ∷ 997 ∷ [])
unfolding potential_result select_properties or_negated new_counted
negated_forces = refl

payload-potential_result_le_example :
    payload (potential_result whole library 5 three_forces 1 (some image)) + 888
    ≤ potential_result_flat_size (length three_forces)
payload-potential_result_le_example =
    payload-potential_result_le whole library 5 three_forces 1 image image-IsImage (omega arith)

run :
    potential_result_write whole library 5 three_forces 1 (some image) 4000 0
    ≡ (some (potential_result whole library 5 three_forces 1 (some image)), 1312)
unfolding potential_result_write potential_result_flat_size potential_result select_properties
    select_charge select_multi select_md select_components scale_stress or_negated new_list
    new_counted counted_valid payload
run = refl

potential_result_write-eq-some_example :
    (potential_result whole library 5 three_forces 1 (some image)
      ≡ potential_result whole library 5 three_forces 1 (some image))
    × (potential_result_flat_size (length three_forces) ≤ 4000)
    × (1312 ≤ 4000)
    × (1312 ≤ int_max)
potential_result_write-eq-some_example =
    potential_result_write-eq-some whole library 5 three_forces 1 (some image) 4000 0 1312
      (potential_result whole library 5 three_forces 1 (some image)) run

potential_result-IsComplete_example :
    IsComplete whole library image energies three_forces
      (potential_result whole library 5 three_forces 1 (some image))
potential_result-IsComplete_example =
    potential_result-IsComplete whole library 5 three_forces 1 image energies refl (λ field. refl)
      (omega arith) (omega arith) (λ e. absurd cc) (λ e. absurd cc)
