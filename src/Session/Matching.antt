-- ===== src/Session/Matching.antt =====
-- A stored gradient is handed out atom by atom: each atom gets the row of its own stored atom.
use cpmdc.Base.{
  one_if, count, flag, flag-replicate, ℕ, zero, suc, ◌+◌, ◌≤◌, ◌≡◌, refl, subst, Bool, true, false,
  not, ◌||◌, inl, inr, Option, some, List, [], ◌∷◌, length, get_elem?, replicate, ◌==◌, ==_iff,
  Bool-cases, Option-cases, arith,
}
use cpmdc.Session.{
  Position, Atom, Stored, Cached, Session, coords_differ, cell_differs, find, copy_loop,
  session_copy_cached_gradient,
}

-- A flag list holds flags of 0 or 1.
flag-le : (us : List Bool) (k : ℕ) → flag us k ≤ 1
flag-le [] k = omega arith
flag-le (true ∷ us) zero = omega arith
flag-le (false ∷ us) zero = omega arith
flag-le (u ∷ us) (suc k) = flag-le us k

module _ {A : Type 0} (near : A → A → Bool) where
  -- Stored atom j has the element and, within the tolerance, the place of an atom, and this row.
  pub record Agrees (stored : List (Stored A)) (atom : Atom A) (row : Position A) (j : ℕ)
      : Type 0 where
    pub entry : Stored A
    pub here : get_elem? stored j ≡ some entry
    pub element : entry.atom.number ≡ atom.number
    pub place : coords_differ near entry.atom.place atom.place ≡ false
    pub its_row : row ≡ entry.row

  -- Atom by atom, with the index of the stored atom.
  pub data Matches (stored : List (Stored A))
      : List (Atom A) → List (Position A) → List ℕ → Type 0 where
    no_atoms : Matches stored [] [] []
    next_atom :
        {atom : Atom A} {row : Position A} {j : ℕ} {atoms : List (Atom A)}
        {rows : List (Position A)} {indices : List ℕ}
        → Agrees stored atom row j
        → Matches stored atoms rows indices
        → Matches stored (atom ∷ atoms) (row ∷ rows) (j ∷ indices)

  record Finds (wanted : Atom A) (stored : List (Stored A)) (used used' : List Bool)
      (row : Position A) : Type 0 where
    pub index : ℕ
    pub agrees : Agrees stored wanted row index
    pub newly_used : (k : ℕ) → flag used' k ≡ flag used k + one_if (index == k)

  Finds-later :
      (wanted : Atom A) (s : Stored A) (stored : List (Stored A)) (u : Bool)
      (used used' : List Bool) (row : Position A)
      → Finds wanted stored used used' row
      → Finds wanted (s ∷ stored) (u ∷ used) (u ∷ used') row
  Finds-later wanted s stored u used used' row f = record {
    index = suc f.index;
    agrees = record {
      entry = f.agrees.entry;
      here = f.agrees.here;
      element = f.agrees.element;
      place = f.agrees.place;
      its_row = f.agrees.its_row;
    };
    newly_used = flags;
  }
    where
      flags : (k : ℕ) → flag (u ∷ used') k ≡ flag (u ∷ used) k + one_if (suc f.index == k)
      flags zero = ground arith
      flags (suc k) = ground (arith, f.newly_used k)

  Finds-here :
      (wanted : Atom A) (s : Stored A) (stored : List (Stored A)) (used : List Bool)
      → s.atom.number ≡ wanted.number
      → coords_differ near s.atom.place wanted.place ≡ false
      → Finds wanted (s ∷ stored) (false ∷ used) (true ∷ used) s.row
  Finds-here wanted s stored used element place = record {
    index = 0;
    agrees = record { entry = s; here = refl; element = element; place = place; its_row = refl };
    newly_used = flags;
  }
    where
      flags : (k : ℕ) → flag (true ∷ used) k ≡ flag (false ∷ used) k + one_if (zero == k)
      flags zero = ground arith
      flags (suc k) = ground arith

  find-Finds :
      (wanted : Atom A) (stored : List (Stored A)) (used : List Bool) (x : Position A × List Bool)
      → find near wanted stored used ≡ some x
      → Finds wanted stored used x.1 x.0
  unfolding find
  find-Finds wanted [] used x e = absurd cc
  find-Finds wanted (s ∷ stored) [] x e = absurd cc
  find-Finds wanted (s ∷ stored) (u ∷ used) x e =
      elim (Bool-cases (
        u
        || not (s.atom.number == wanted.number)
        || coords_differ near s.atom.place wanted.place)) [
          | inl skip ↦ elim (Option-cases (find near wanted stored used)) [
            | inl stuck ↦ absurd (ground arith)
            | inr (y, found) ↦
                let same : (y.0, u ∷ y.1) ≡ x = ground arith in
                subst (λ (z : Position A × List Bool). Finds wanted (s ∷ stored) (u ∷ used) z.1 z.0)
                  same
                  (Finds-later wanted s stored u used y.1 y.0
                    (find-Finds wanted stored used y found))
          ]
          | inr go ↦
              let same : (s.row, true ∷ used) ≡ x = ground arith in
              let unused : u ≡ false = ground arith in
              let element : (s.atom.number == wanted.number) ≡ true = ground arith in
              let place : coords_differ near s.atom.place wanted.place ≡ false = ground arith in
              subst (λ (z : Position A × List Bool). Finds wanted (s ∷ stored) (u ∷ used) z.1 z.0)
                same
                (rw unused (
                  Finds-here wanted s stored used ((==_iff s.atom.number wanted.number).0 element)
                    place))
        ]

  -- The rows of the atoms, with the flags that they leave.
  record Copied (stored : List (Stored A)) (used : List Bool) (atoms : List (Atom A))
      (rows : List (Position A)) : Type 0 where
    pub indices : List ℕ
    pub used' : List Bool
    pub matches : Matches stored atoms rows indices
    pub flags : (k : ℕ) → flag used' k ≡ flag used k + count k indices

  copy_loop-Copied :
      (atoms : List (Atom A)) (stored : List (Stored A)) (used : List Bool)
      (rows : List (Position A))
      → copy_loop near atoms stored used ≡ some rows
      → Copied stored used atoms rows
  unfolding copy_loop
  copy_loop-Copied [] stored used rows e =
      let same : [] ≡ rows = cc in
      subst (Copied stored used []) same
        (record { indices = []; used' = used; matches = no_atoms; flags = λ k. omega arith })
  copy_loop-Copied (atom ∷ atoms) stored used rows e =
      elim (Option-cases (find near atom stored used)) [
        | inl stuck ↦ absurd (ground arith)
        | inr (x, found) ↦ elim (Option-cases (copy_loop near atoms stored x.1)) [
          | inl stuck ↦ absurd (ground arith)
          | inr (rest, copied) ↦
              let f = find-Finds atom stored used x found in
              let c = copy_loop-Copied atoms stored x.1 rest copied in
              let same : x.0 ∷ rest ≡ rows = ground arith in
              subst (Copied stored used (atom ∷ atoms)) same (record {
                indices = f.index ∷ c.indices;
                used' = c.used';
                matches = next_atom f.agrees c.matches;
                flags = λ k. omega (arith, f.newly_used k, c.flags k);
              })
        ]
      ]

  -- A gradient that is copied from the stored result.
  pub record FromStored {P : Type 0} (session : Session A P) (atoms : List (Atom A))
      (cell : Option (List A)) (energy : A) (rows : List (Position A)) : Type 0 where
    pub cached : Cached A
    pub stored_result : session.cached ≡ some cached
    pub same_energy : energy ≡ cached.energy
    pub same_size : length cached.stored ≡ length atoms
    pub same_cell : cell_differs near cached.cell cell ≡ false
    pub indices : List ℕ
    pub matches : Matches cached.stored atoms rows indices
    pub no_atom_twice : (k : ℕ) → count k indices ≤ 1

  -- What is handed out is the stored energy, for a cell that agrees, and for each atom the row of a
  -- stored atom of its element and place; no stored atom serves two atoms.
  pub session_copy_cached_gradient-FromStored :
      {P : Type 0} (grants : ℕ → Bool) (session : Session A P) (atoms : List (Atom A))
      (cell : Option (List A)) (energy : A) (rows : List (Position A))
      → session_copy_cached_gradient near grants session atoms cell ≡ some (energy, rows)
      → FromStored session atoms cell energy rows
  unfolding session_copy_cached_gradient
  session_copy_cached_gradient-FromStored grants session atoms cell energy rows e =
      elim (Option-cases session.cached) [
        | inl empty ↦ absurd (ground arith)
        | inr (cached, has) ↦
            elim (Option-cases
              (copy_loop near atoms cached.stored (replicate (length atoms) false))) [
                | inl stuck ↦ absurd (ground arith)
                | inr (found, copied) ↦
                    let c =
                      copy_loop-Copied atoms cached.stored (replicate (length atoms) false) found
                        copied in
                    let same : found ≡ rows = ground arith in
                    record {
                      cached = cached;
                      stored_result = has;
                      same_energy = ground arith;
                      same_size = ground arith;
                      same_cell = ground arith;
                      indices = c.indices;
                      matches = subst (λ r. Matches cached.stored atoms r c.indices) same c.matches;
                      no_atom_twice = λ k.
                          omega
                            (arith, c.flags k, flag-le c.used' k, flag-replicate (length atoms) k);
                    }
              ]
      ]
