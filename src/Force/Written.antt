-- ===== src/Force/Written.antt =====
-- src/cpmdc_params.c: what `cpmdc_force_input_copy_geometry` writes.
use cpmdc.Base.{
  ℕ, ◌*◌, ◌/◌, ◌≤◌, ◌≡◌, ◌⊎◌, inl, inr, refl, Bool, true, false, some, List, [], ◌∷◌, ◌++◌, map,
  length, ltb, if◌then◌else◌, int_max, Option-cases, Bool-cases, ltb→ge, ge→ltb, drop, replicate,
  fill, fill-eq, reads, reads-map, at, ap, subst,
}
use cpmdc.Base.Reals.{Reals}
use cpmdc.Force.{
  null, other, items, Pointer, ForceInput, Buffers, list_len, contents, atom_count, copy_geometry,
  copy_places,
}
use cpmdc.Force.Units.{length_factor}
use cpmdc.Force.Geometry.{IsShape, atom_count_iff}

pub length-contents :
    {A : Type 0} (p : Pointer A) (n : ℕ) → list_len p ≡ some n → length (contents p) ≡ n
unfolding list_len
length-contents null n e = cc
length-contents other n e = absurd cc
length-contents (items xs) n e = cc

module _ {A : Type 0} (r : Reals A) where
  abbrev zero_real : A
  zero_real = r.decimal 0 0

  -- What a message has for the atoms of a buffer of `capacity`.
  pub record IsGeometry (input : ForceInput A) (capacity : ℕ) : Type 0 where
    pub atoms : ℕ
    pub has_cell : Bool
    pub factor : A
    pub shape : IsShape input atoms has_cell
    pub fits : atoms ≤ capacity
    pub unit : length_factor r input.length_unit ≡ some factor

  -- The list, each number times a factor, before what a buffer holds behind it.
  abbrev pub scaled : List A → A → List A
  scaled xs factor = map (λ x. r.mul x factor) xs

  abbrev pub cell_of : Bool → Pointer A → A → List A
  cell_of true box factor = scaled (contents box) factor
  cell_of false box factor = replicate 9 (r.decimal 0 0)

  fill-list :
      {B C : Type 0} (f : B → C) (d : B) (xs : List B) (n : ℕ) (buf : List C)
      → length xs ≡ n
      → n ≤ length buf
      → fill (λ i. f (at d xs i)) 0 n buf ≡ map f xs ++ drop n buf
  fill-list f d xs n buf e h =
      let filled = fill-eq (λ i. f (at d xs i)) n buf h in
      let read : reads (λ i. f (at d xs i)) 0 n ≡ map f xs =
        subst (λ k. reads (λ i. f (at d xs i)) 0 k ≡ map f xs) e (reads-map f d xs) in
      rw (filled, read) refl

  map-id : {B : Type 0} (xs : List B) → map (λ x. x) xs ≡ xs
  map-id [] = refl
  map-id (x ∷ xs) = ap (◌∷◌ x) (map-id xs)

  fill-cell :
      (c : Bool) (box : Pointer A) (factor : A) (buf : List A)
      → list_len box ≡ some (if c then 9 else 0)
      → 9 ≤ length buf
      → fill (λ i. if c then r.mul (at zero_real (contents box) i) factor else zero_real) 0 9 buf
        ≡ cell_of c box factor ++ drop 9 buf
  fill-cell true box factor buf e h =
      fill-list (λ x. r.mul x factor) zero_real (contents box) 9 buf (length-contents box 9 e) h
  fill-cell false box factor buf e h = fill-eq (λ i. zero_real) 9 buf h

  -- For a message that is counted as n atoms, where n is at most the capacity, the length unit has a
  -- factor, and the three buffers have room for n, 3 * n and 9 values, the copy succeeds: the numbers
  -- are the list of atomic numbers, the positions are the list of positions and the cell is the list
  -- of the cell, or nine zeros where there is none, each but the zeros times the factor, and what
  -- the buffers hold behind that stays.
  pub copy_geometry-eq :
      (input : ForceInput A) (buffers : Buffers A) (capacity : ℕ) (g : IsGeometry input capacity)
      → g.atoms ≤ length buffers.numbers
      → g.atoms * 3 ≤ length buffers.positions
      → 9 ≤ length buffers.cell
      → copy_geometry r input buffers capacity ≡ (
        true,
        record {
          positions = scaled (contents input.pos) g.factor ++ drop (g.atoms * 3) buffers.positions;
          numbers = contents input.atmnrs ++ drop g.atoms buffers.numbers;
          cell = cell_of g.has_cell input.box g.factor ++ drop 9 buffers.cell;
          has_cell = g.has_cell;
        },
      )
  unfolding copy_geometry copy_places
  copy_geometry-eq input buffers capacity g hn hp hc =
      let s = g.shape in
      let counted = (atom_count_iff input g.atoms g.has_cell).1 s in
      let roomy = ge→ltb capacity g.atoms g.fits in
      let few = ge→ltb (int_max / 3) g.atoms s.in_range in
      let numbers =
        fill-list (λ x. x) 0 (contents input.atmnrs) g.atoms buffers.numbers
          (length-contents input.atmnrs g.atoms s.atoms) hn in
      let same = map-id (contents input.atmnrs) in
      let positions =
        fill-list (λ x. r.mul x g.factor) zero_real (contents input.pos) (g.atoms * 3)
          buffers.positions (length-contents input.pos (g.atoms * 3) s.places) hp in
      let cell = fill-cell g.has_cell input.box g.factor buffers.cell s.cell hc in
      rw (counted, copy_geometry, roomy, g.unit, few, numbers, same, positions, cell) refl

  -- Either a message has the geometry, or the copy stops with the buffers as they are.
  geometry_or_refused :
      (input : ForceInput A) (buffers : Buffers A) (capacity : ℕ)
      → IsGeometry input capacity ⊎ (copy_geometry r input buffers capacity ≡ (false, buffers))
  unfolding copy_geometry
  geometry_or_refused input buffers capacity = elim (Option-cases (atom_count input)) [
    | inl e ↦ inr (rw (e, copy_geometry) refl)
    | inr ((n, c), e) ↦ elim (Bool-cases (ltb capacity n)) [
      | inl full ↦ inr (rw (e, copy_geometry, full) refl)
      | inr fits ↦ elim (Option-cases (length_factor r input.length_unit)) [
        | inl unknown ↦ inr (rw (e, copy_geometry, fits, unknown) refl)
        | inr (factor, known) ↦ inl (record {
          atoms = n;
          has_cell = c;
          factor = factor;
          shape = (atom_count_iff input n c).0 e;
          fits = ltb→ge capacity n fits;
          unit = known;
        })
      ]
    ]
  ]

  -- Where a message has no such geometry, the copy refuses it and writes to no buffer.
  pub copy_geometry_refused :
      (input : ForceInput A) (buffers : Buffers A) (capacity : ℕ)
      → ¬ (IsGeometry input capacity)
      → copy_geometry r input buffers capacity ≡ (false, buffers)
  copy_geometry_refused input buffers capacity none_such =
      elim (geometry_or_refused input buffers capacity) [ inl g ↦ absurd (none_such g) | inr e ↦ e ]
