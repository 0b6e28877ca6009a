-- ===== src/Step/Tests.antt =====
-- src/cpmdc.c: steps on a message of two atoms, with whole numbers for reals and for the states.
use cpmdc.Base.{
  ◌≢◌, ◌≤◌, ℕ, suc, ◌≡◌, ◌⊎◌, refl, Bool, true, false, ◌==◌, Option, none, some, List, [], ◌∷◌,
  arith, replicate, length-replicate, int_max, ◌/◌,
}
use cpmdc.Base.Sample.{whole}
use cpmdc.Base.Results.{ok, err}
use cpmdc.Force.{ForceInput, null, items, list_len}
use cpmdc.Force.Geometry.{IsShape}
use cpmdc.Force.Units.{length_factor}
use cpmdc.Force.Written.{IsGeometry}
use cpmdc.Session.{Session, Position, Atom}
use cpmdc.Potential.{Builder}
use cpmdc.Potential.Select.{Image}
use cpmdc.Step.{Scratch, finish_call, calculate_forces, calculate_result, negated}
use cpmdc.Step.Forces.{Grants, energy_call, calculate_forces-eq}
use cpmdc.Potential.{potential_result_flat_size}
use cpmdc.Force.{atom_count}
use cpmdc.Step.{buffer_too_small}
use cpmdc.Step.Room.{size_for_force_input, calculate_result-ne_too_small}
use cpmdc.Step.Refused.{IsCalled, calculate_result-Kept}

abbrev same : ℕ → ℕ → Bool
same x y = x == y

abbrev memory : ℕ → Bool
memory n = true

abbrev start_engine : ℕ → ℕ → ℕ × Bool
start_engine e p = (e, true)

abbrev zeros : ℕ → List ℕ
zeros n = replicate n 0

abbrev select_key : ℕ → ℕ → ℕ
select_key e key = e

abbrev run_engine : ℕ → List (Atom ℕ) → Option (List ℕ) → ℕ × Option (ℕ × List (Position ℕ))
run_engine e atoms cell = (suc e, some (7, []))

abbrev new_session : Session ℕ ℕ
new_session = record {
  params = 5;
  topology = none;
  cached_n_atoms = 0;
  cached = none;
  configured = true;
  orbital_key = none;
}

abbrev two_atoms : ForceInput ℕ
two_atoms = record {
  pos = items (1 ∷ 2 ∷ 3 ∷ 4 ∷ 5 ∷ 6 ∷ []);
  atmnrs = items (1 ∷ 8 ∷ []);
  box = null;
  length_unit = [];
  energy_unit = [];
}

-- A session that was created has no scratch memory.
abbrev scratch : Scratch ℕ
scratch = record { positions = []; numbers = []; capacity = 0 }

shape : IsShape two_atoms 2 false
unfolding list_len
shape = record {
  atoms = refl;
  places = refl;
  cell = refl;
  some_atoms = omega arith;
  in_range = omega arith;
}

angstrom : length_factor whole [] ≡ some 1
unfolding length_factor
angstrom = refl

abbrev two_geometry : IsGeometry whole two_atoms (int_max / 3)
two_geometry = record {
  atoms = 2;
  has_cell = false;
  factor = 1;
  shape = shape;
  fits = omega arith;
  unit = angstrom;
}

all_memory : Grants whole memory zeros zeros same true start_engine select_key run_engine
all_memory = record {
  granted = λ bytes. refl;
  doubles = λ n. length-replicate n 0;
  ints = λ n. length-replicate n 0;
}

calculate_forces-eq_example :
    ((calculate_forces whole memory zeros zeros same true start_engine select_key run_engine 0 true
        new_session scratch two_atoms 6).answer
      ≡ finish_call
          (energy_call whole memory zeros zeros same true start_engine select_key run_engine 0 true
            new_session two_atoms two_geometry).0
          (λ energy rows. ok (
            energy,
            negated whole memory zeros zeros same true start_engine select_key run_engine rows,
          )))
    × ((calculate_forces whole memory zeros zeros same true start_engine select_key run_engine 0
          true new_session scratch two_atoms 6).session
        ≡ (energy_call whole memory zeros zeros same true start_engine select_key run_engine 0 true
            new_session two_atoms two_geometry).1)
    × ((calculate_forces whole memory zeros zeros same true start_engine select_key run_engine 0
          true new_session scratch two_atoms 6).engine
        ≡ (energy_call whole memory zeros zeros same true start_engine select_key run_engine 0 true
            new_session two_atoms two_geometry).2)
calculate_forces-eq_example =
    calculate_forces-eq whole memory zeros zeros same true start_engine select_key run_engine 0 true
      new_session scratch two_atoms 6 two_geometry all_memory (omega arith, omega arith)
      (omega arith)

abbrev builder : Builder ℕ
builder = record {
  has_root = true;
  grants = λ field. true;
  takes_root = true;
  write_mem = λ m capacity. 900;
}

abbrev no_image : ℕ → Image ℕ
no_image e = record {
  energy = none;
  charge = none;
  multi = none;
  md = none;
  prop = none;
  stress = none;
}

calculate_result-Kept_example :
    IsCalled
      (calculate_result whole memory zeros zeros same true start_engine select_key run_engine
        builder no_image 0 true new_session scratch two_atoms 100).answer
    ⊎ (((calculate_result whole memory zeros zeros same true start_engine select_key run_engine
            builder no_image 0 true new_session scratch two_atoms 100).session
          ≡ new_session)
        × ((calculate_result whole memory zeros zeros same true start_engine select_key run_engine
              builder no_image 0 true new_session scratch two_atoms 100).engine
            ≡ 0))
calculate_result-Kept_example =
    calculate_result-Kept whole memory zeros zeros same true start_engine select_key run_engine
      builder no_image 0 true new_session scratch two_atoms 100

size_fits : size_for_force_input two_atoms ≤ 4000
unfolding size_for_force_input atom_count list_len potential_result_flat_size
size_fits = omega arith

calculate_result-ne_too_small_example :
    (calculate_result whole memory zeros zeros same true start_engine select_key run_engine builder
      no_image 0 true new_session scratch two_atoms 4000).answer
    ≢ err buffer_too_small
calculate_result-ne_too_small_example =
    calculate_result-ne_too_small whole memory zeros zeros same true start_engine select_key
      run_engine builder no_image 0 true new_session scratch two_atoms 4000 size_fits
