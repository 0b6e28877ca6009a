-- ===== src/Force.antt =====
-- src/cpmdc_params.c: a `ForceInput` message, its units and its geometry.
-- A `double` is a value of a type A with the operations `Reals`. A text that is missing or empty
-- is the empty list, and an `int32_t` is its bit pattern.
pub mod Units
pub mod Geometry
pub mod Written
mod Tests
use cpmdc.Base.{
  ℕ, ◌*◌, ◌/◌, Bool, true, false, not, ◌||◌, ◌&&◌, Option, none, some, List, [], ◌∷◌, length, ltb,
  ◌==◌, if◌then◌else◌, int_max, Text, at, fill,
}
use cpmdc.Base.Options.{◌>>=◌, ◌>>◌, stop_if}
use cpmdc.Base.Reals.{Reals}
use cpmdc.Force.Units.{length_factor}

-- A list pointer of a message: null, a pointer to anything else, or a list with its elements.
pub data Pointer (A : Type 0) : Type 0 where
  null other : Pointer A
  items : List A → Pointer A

unfoldable pub list_len : {A : Type 0} → Pointer A → Option ℕ
list_len null = some 0
list_len other = none
list_len (items xs) = some (length xs)

abbrev pub contents : {A : Type 0} → Pointer A → List A
contents null = []
contents other = []
contents (items xs) = xs

-- `struct ForceInput` as `read_ForceInput` fills it.
pub record ForceInput (A : Type 0) : Type 0 where
  pub pos : Pointer A
  pub atmnrs : Pointer ℕ
  pub box : Pointer A
  pub length_unit : Text
  pub energy_unit : Text

-- The number of atoms and whether there is a cell; `none` is the return of -1.
unfoldable pub atom_count : {A : Type 0} → ForceInput A → Option (ℕ × Bool)
atom_count input = list_len input.pos >>= λ n_pos. list_len input.atmnrs >>= λ n_z.
    list_len input.box >>= λ n_box.
    stop_if (n_z == 0)
    >> stop_if (ltb (int_max / 3) n_z)
    >> stop_if (not (n_pos == n_z * 3))
    >> stop_if (not (n_box == 0) && not (n_box == 9))
    >> some (n_z, n_box == 9)

-- What the caller of the copy passes for writing.
pub record Buffers (A : Type 0) : Type 0 where
  pub positions : List A
  pub numbers : List ℕ
  pub cell : List A
  pub has_cell : Bool

module _ {A : Type 0} (r : Reals A) where
  -- The two loops over positions and cell, and the flag.
  unfoldable pub copy_places : ForceInput A → A → ℕ → Bool → Buffers A → Buffers A
  copy_places input factor n has_cell buffers =
      let zero_real = r.decimal 0 0 in
      record buffers {
        positions =
            fill (λ i. r.mul (at zero_real (contents input.pos) i) factor) 0 (n * 3)
              buffers.positions;
        cell =
            fill
              (λ i.
                if has_cell then r.mul (at zero_real (contents input.box) i) factor else zero_real)
              0 9 buffers.cell;
        has_cell = has_cell;
      }

  -- Whether the return is 0, and the buffers then.
  unfoldable pub copy_geometry : ForceInput A → Buffers A → ℕ → Bool × Buffers A
  copy_geometry input buffers capacity = elim (atom_count input) [
    | none ↦ (false, buffers)
    | some (n, has_cell) ↦
        if ltb capacity n then (false, buffers) else elim (length_factor r input.length_unit) [
          | none ↦ (false, buffers)
          | some factor ↦
              let numbered = record buffers {
                numbers = fill (λ i. at 0 (contents input.atmnrs) i) 0 n buffers.numbers;
              } in
              if ltb (int_max / 3) n
              then (false, numbered)
              else (true, copy_places input factor n has_cell numbered)
        ]
  ]
