-- ===== src/Force/Tests.antt =====
-- src/cpmdc_params.c: a message of two atoms, with whole numbers for reals.
use cpmdc.Base.{
  ℕ, ◌≡◌, ◌↔◌, refl, true, false, some, [], ◌∷◌, ◌++◌, drop, codes, text_eq_ci, ◌*◌, arith,
}
use cpmdc.Base.Sample.{whole}
use cpmdc.Force.{null, items, ForceInput, Buffers, list_len, contents, atom_count, copy_geometry}
use cpmdc.Force.Units.{length_factor}
use cpmdc.Force.Geometry.{IsShape, atom_count_iff}
use cpmdc.Force.Written.{IsGeometry, copy_geometry-eq, copy_geometry_refused, scaled, cell_of}

abbrev two_atoms : ForceInput ℕ
two_atoms = record {
  pos = items (1 ∷ 2 ∷ 3 ∷ 4 ∷ 5 ∷ 6 ∷ []);
  atmnrs = items (1 ∷ 8 ∷ []);
  box = null;
  length_unit = codes "NM";
  energy_unit = codes "Ry";
}

abbrev one_short : ForceInput ℕ
one_short = record two_atoms { pos = items (1 ∷ 2 ∷ 3 ∷ 4 ∷ 5 ∷ []) }

abbrev room : Buffers ℕ
room = record {
  positions = 90 ∷ 91 ∷ 92 ∷ 93 ∷ 94 ∷ 95 ∷ 96 ∷ [];
  numbers = 70 ∷ 71 ∷ 72 ∷ [];
  cell = 80 ∷ 81 ∷ 82 ∷ 83 ∷ 84 ∷ 85 ∷ 86 ∷ 87 ∷ 88 ∷ [];
  has_cell = true;
}

counts : atom_count two_atoms ≡ some (2, false)
unfolding atom_count list_len
counts = refl

two_atoms-IsShape : IsShape two_atoms 2 false
unfolding list_len
two_atoms-IsShape = record {
  atoms = refl;
  places = refl;
  cell = refl;
  some_atoms = omega arith;
  in_range = omega arith;
}

nanometers : length_factor whole two_atoms.length_unit ≡ some 10
unfolding length_factor text_eq_ci
nanometers = refl

abbrev geometry_of_two : IsGeometry whole two_atoms 2
geometry_of_two = record {
  atoms = 2;
  has_cell = false;
  factor = 10;
  shape = two_atoms-IsShape;
  fits = omega arith;
  unit = nanometers;
}

atom_count_iff_example : (atom_count two_atoms ≡ some (2, false)) ↔ IsShape two_atoms 2 false
atom_count_iff_example = atom_count_iff two_atoms 2 false

copy_geometry-eq_example : copy_geometry whole two_atoms room 2 ≡ (
  true,
  record {
    positions =
        scaled whole (contents two_atoms.pos) geometry_of_two.factor ++ drop 6 room.positions;
    numbers = contents two_atoms.atmnrs ++ drop 2 room.numbers;
    cell = cell_of whole false null geometry_of_two.factor ++ drop 9 room.cell;
    has_cell = false;
  },
)
copy_geometry-eq_example =
    copy_geometry-eq whole two_atoms room 2 geometry_of_two (omega arith) (omega arith)
      (omega arith)

short_has_none : ¬ (IsGeometry whole one_short 2)
unfolding list_len
short_has_none g =
    let five : some 5 ≡ some (g.atoms * 3) = g.shape.places in
    let two : some 2 ≡ some g.atoms = g.shape.atoms in ground (arith, five, two)

copy_geometry_refused_example : copy_geometry whole one_short room 2 ≡ (false, room)
copy_geometry_refused_example = copy_geometry_refused whole one_short room 2 short_has_none
