-- ===== src/Host/Order.antt =====
-- src/cpmdc_embed_host.c: `cpmdc_species_order_map` and `cpmdc_scatter_species_gradient`.
-- An `int` is its bit pattern. `species_z` and `species_count` are one list of pairs, and `used` is
-- the list of its flags. A gradient is a list of rows of three doubles, of any type.
pub mod Permutation
pub mod Complete
pub mod Scatter
use cpmdc.Base.{
  ℕ, zero, suc, ◌+◌, ◌-◌, ◌*◌, Bool, true, false, not, ◌||◌, Option, none, some, List, [], ◌∷◌,
  ◌++◌, length, set, replicate, ltb, leb, ◌==◌, if◌then◌else◌, is_negative, int_max,
}
use cpmdc.Base.Options.{◌>>=◌, ◌>>◌, stop_if}

-- `for (j = 0; j < n_atoms && taken < species_count[s]; ++j)` from atom j on, with the atoms still
-- wanted: the flags after it, and what is written to `map_out`.
unfoldable pub pick : ℕ → ℕ → ℕ → List ℕ → List Bool → List Bool × List ℕ
pick zero z j numbers used = (used, [])
pick (suc wanted) z j [] used = (used, [])
pick (suc wanted) z j (a ∷ numbers) [] = ([], [])
pick (suc wanted) z j (a ∷ numbers) (u ∷ used) = elim (u || not (a == z)) [
  | true ↦ let (used', slots) = pick (suc wanted) z (suc j) numbers used in (u ∷ used', slots)
  | false ↦ let (used', slots) = pick wanted z (suc j) numbers used in (true ∷ used', j ∷ slots)
]

-- `for (s = 0; s < n_species; ++s)` of the second loop.
unfoldable pub pick_all : List (ℕ × ℕ) → List ℕ → List Bool → Option (List ℕ)
pick_all [] numbers used = some []
pick_all ((z, count) ∷ species) numbers used =
    let (used', slots) = pick count z 0 numbers used in
    do
      stop_if (not (length slots == count))
      rest ← pick_all species numbers used'
      some (slots ++ rest)

-- The first loop, from the atoms needed so far.
unfoldable pub sum_counts : ℕ → List (ℕ × ℕ) → Option ℕ
sum_counts need [] = some need
sum_counts need ((z, count) ∷ species) = do
  stop_if (is_negative count || ltb (int_max - count) need)
  sum_counts (need + count) species

-- `grants size` is whether `calloc` gives a block of that many bytes.
unfoldable pub species_order_map : (ℕ → Bool) → List ℕ → List (ℕ × ℕ) → Option (List ℕ)
species_order_map grants numbers species = do
  stop_if (length numbers == 0 || length species == 0)
  need ← sum_counts 0 species
  stop_if (not (need == length numbers))
  stop_if (not (grants (length numbers * 4)))
  slots ← pick_all species numbers (replicate (length numbers) false)
  stop_if (not (length slots == length numbers))
  some slots

-- The loop over the slots; an atom that is negative or past the end is skipped.
unfoldable pub scatter {ℓ} : {A : Type ℓ} → List ℕ → List A → List A → List A
scatter [] rows grad = grad
scatter (atom ∷ map) [] grad = grad
scatter (atom ∷ map) (row ∷ rows) grad =
    scatter map rows
      (if is_negative atom || leb (length grad) atom then grad else set grad atom row)
