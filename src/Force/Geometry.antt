-- ===== src/Force/Geometry.antt =====
-- src/cpmdc_params.c: which messages `cpmdc_force_input_atom_count` and
-- `cpmdc_force_input_copy_geometry` accept.
use cpmdc.Base.{
  ℕ, ◌*◌, ◌/◌, ◌≤◌, ◌<◌, ◌≡◌, ◌↔◌, refl, Bool, true, false, not, Option, none, some, ltb, ◌==◌,
  if◌then◌else◌, int_max, arith, ◌&&◌,
}
use cpmdc.Base.Options.{◌>>=◌, ◌>>◌, stop_if}
use cpmdc.Force.{ForceInput, list_len, atom_count}

-- The lists of a message have the sizes of n atoms, with a cell or without.
pub record IsShape {A : Type 0} (input : ForceInput A) (n : ℕ) (has_cell : Bool) : Type 0 where
  pub atoms : list_len input.atmnrs ≡ some n
  pub places : list_len input.pos ≡ some (n * 3)
  pub cell : list_len input.box ≡ some (if has_cell then 9 else 0)
  pub some_atoms : 0 < n
  pub in_range : n ≤ int_max / 3

-- The guards once the three lengths are known.
guards : ℕ → ℕ → ℕ → Option (ℕ × Bool)
guards n_pos n_z n_box =
    stop_if (n_z == 0)
    >> stop_if (ltb (int_max / 3) n_z)
    >> stop_if (not (n_pos == n_z * 3))
    >> stop_if (not (n_box == 0) && not (n_box == 9))
    >> some (n_z, n_box == 9)

guards-eq-some :
    (p z b n : ℕ) (c : Bool)
    → guards p z b ≡ some (n, c)
    → (z ≡ n) × (p ≡ n * 3) × (b ≡ (if c then 9 else 0)) × (0 < n) × (n ≤ int_max / 3)
unfolding guards
guards-eq-some p z b n c e = ground arith

guards_complete :
    (n : ℕ) (c : Bool)
    → 0 < n
    → n ≤ int_max / 3
    → guards (n * 3) n (if c then 9 else 0) ≡ some (n, c)
unfolding guards
guards_complete n true h k = ground arith
guards_complete n false h k = ground arith

lengths : Option ℕ → Option ℕ → Option ℕ → Option (ℕ × Bool)
lengths p z b = p >>= λ n_pos. z >>= λ n_z. b >>= λ n_box. guards n_pos n_z n_box

lengths-eq-some :
    (p z b : Option ℕ) (n : ℕ) (c : Bool)
    → lengths p z b ≡ some (n, c)
    → (z ≡ some n)
      × (p ≡ some (n * 3))
      × (b ≡ some (if c then 9 else 0))
      × (0 < n)
      × (n ≤ int_max / 3)
unfolding lengths
lengths-eq-some none z b n c e = absurd cc
lengths-eq-some (some p) none b n c e = absurd cc
lengths-eq-some (some p) (some z) none n c e = absurd cc
lengths-eq-some (some p) (some z) (some b) n c e =
    let (ze, pe, be, lo, hi) = guards-eq-some p z b n c e in
    (rw ze refl, rw pe refl, rw be refl, lo, hi)

atom_count-IsShape :
    {A : Type 0} (input : ForceInput A) (n : ℕ) (c : Bool)
    → atom_count input ≡ some (n, c)
    → IsShape input n c
unfolding atom_count guards lengths
atom_count-IsShape input n c e =
    let (ze, pe, be, lo, hi) =
      lengths-eq-some (list_len input.pos) (list_len input.atmnrs) (list_len input.box) n c e in
    record { atoms = ze; places = pe; cell = be; some_atoms = lo; in_range = hi }

atom_count_complete :
    {A : Type 0} (input : ForceInput A) (n : ℕ) (c : Bool)
    → IsShape input n c
    → atom_count input ≡ some (n, c)
unfolding atom_count guards
atom_count_complete input n c s =
    rw (s.places, s.atoms, s.cell) (guards_complete n c s.some_atoms s.in_range)

-- A message of n atoms is counted as n with its cell flag exactly where the list of atomic numbers
-- has n elements, n is from 1 to INT_MAX / 3, the list of positions has 3 * n elements and that of
-- the cell has 9 elements with the flag set or none with it clear, each a list or a null pointer.
pub atom_count_iff :
    {A : Type 0} (input : ForceInput A) (n : ℕ) (c : Bool)
    → (atom_count input ≡ some (n, c)) ↔ IsShape input n c
atom_count_iff input n c = (atom_count-IsShape input n c, atom_count_complete input n c)
