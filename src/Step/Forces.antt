-- ===== src/Step/Forces.antt =====
-- src/cpmdc.c: the forces of a step are those of its message's atoms.
use cpmdc.Base.{
  ℕ, zero, suc, ◌*◌, ◌/◌, ◌≤◌, ◌<◌, ◌≡◌, refl, ap, Bool, true, false, ◌||◌, ◌==◌, Option, none,
  some, List, [], ◌∷◌, ◌++◌, length, ltb, if◌then◌else◌, int_max, drop, arith, leb→le, ge→ltb, leb,
  ◌^◌, ◌-◌, replicate, fill, length-fill, at, Bool-cases, inl, inr,
}
use cpmdc.Base.Reals.{Reals}
use cpmdc.Base.Results.{ok}
use cpmdc.Force.{ForceInput, Buffers, contents}
use cpmdc.Force.Geometry.{atom_count_iff}
use cpmdc.Force.Written.{IsGeometry, copy_geometry-eq, scaled, cell_of, length-contents}
use cpmdc.Session.{Session, Position, Atom, Answer, session_energy_gradient_cell}
use cpmdc.Step.{
  Scratch, atoms_of, negated, reserve_step_atoms, read_step, finish_call, run_step, after_read,
  step, calculate_forces,
}

atoms_of-append :
    {A : Type 0} (n : ℕ) (ks more : List ℕ) (xs rest : List A)
    → length ks ≡ n
    → length xs ≡ n * 3
    → atoms_of n (ks ++ more) (xs ++ rest) ≡ atoms_of n ks xs
atoms_of-append zero ks more xs rest e f = refl
atoms_of-append (suc n) [] more xs rest e f = absurd (omega (arith, e))
atoms_of-append (suc n) (k ∷ ks) more [] rest e f = absurd (omega (arith, f))
atoms_of-append (suc n) (k ∷ ks) more (a ∷ []) rest e f = absurd (omega (arith, f))
atoms_of-append (suc n) (k ∷ ks) more (a ∷ b ∷ []) rest e f = absurd (omega (arith, f))
atoms_of-append (suc n) (k ∷ ks) more (a ∷ b ∷ c ∷ xs) rest e f =
    ap (◌∷◌ (record { number = k; place = record { x = a; y = b; z = c } }))
      (atoms_of-append n ks more xs rest (omega (arith, e)) (omega (arith, f)))

guard_passes :
    (n forces_len : ℕ)
    → 0 < n
    → n ≤ int_max / 3
    → n * 3 ≤ forces_len
    → (n == 0 || ltb (int_max / 3) n || ltb forces_len (n * 3)) ≡ false
guard_passes n forces_len h k l = ground arith

append-nil : {A : Type 0} (xs : List A) → xs ++ [] ≡ xs
append-nil [] = refl
append-nil (x ∷ xs) = ap (◌∷◌ x) (append-nil xs)

length-scaled :
    {A : Type 0} (r : Reals A) (xs : List A) (factor : A) → length (scaled r xs factor) ≡ length xs
length-scaled r [] factor = refl
length-scaled r (x ∷ xs) factor = ap suc (length-scaled r xs factor)

module _ {A P E : Type 0} (r : Reals A) (grants : ℕ → Bool) (fresh : ℕ → List A)
    (fresh_numbers : ℕ → List ℕ) (near : A → A → Bool) (agree : Bool) (configure : E → P → E × Bool)
    (select : E → ℕ → E)
    (evaluate : E → List (Atom A) → Option (List A) → E × Option (A × List (Position A))) where
  -- The atoms and the cell of a message, in Angstrom.
  abbrev pub message_atoms :
      (input : ForceInput A) {capacity : ℕ} → IsGeometry r input capacity → List (Atom A)
  message_atoms input g =
      atoms_of g.atoms (contents input.atmnrs) (scaled r (contents input.pos) g.factor)

  abbrev pub message_cell :
      (input : ForceInput A) {capacity : ℕ} → IsGeometry r input capacity → Option (List A)
  message_cell input g = if g.has_cell then some (cell_of r g.has_cell input.box g.factor) else none

  -- The energy call of a session on a message.
  abbrev pub energy_call :
      E
      → Bool
      → Session A P
      → (input : ForceInput A) {capacity : ℕ} → IsGeometry r input capacity
      → Answer A × Session A P × E × Bool
  energy_call engine active session input g =
      session_energy_gradient_cell near grants agree configure select evaluate engine active session
        (message_atoms input g) (message_cell input g) true

  -- What the copy leaves of a message.
  abbrev buffers_of :
      Scratch A → (input : ForceInput A) {capacity : ℕ} → IsGeometry r input capacity → Buffers A
  buffers_of scratch input g = record {
    positions = scaled r (contents input.pos) g.factor ++ drop (g.atoms * 3) scratch.positions;
    numbers = contents input.atmnrs ++ drop g.atoms scratch.numbers;
    cell = cell_of r g.has_cell input.box g.factor ++ [];
    has_cell = g.has_cell;
  }

  -- The arrays hold what the capacity says.
  abbrev pub IsScratch : Scratch A → Type 0
  IsScratch scratch =
      (scratch.capacity ≤ length scratch.numbers)
      × (scratch.capacity * 3 ≤ length scratch.positions)

  -- `malloc` grants what it is asked for, and grants that much.
  pub record Grants : Type 0 where
    pub granted : (bytes : ℕ) → grants bytes ≡ true
    pub doubles : (n : ℕ) → length (fresh n) ≡ n
    pub ints : (n : ℕ) → length (fresh_numbers n) ≡ n

  reserve_step_atoms-some :
      (scratch : Scratch A) (n : ℕ)
      → Grants
      → IsScratch scratch
      → n ≤ int_max / 3
      → (s : Scratch A) × (reserve_step_atoms r grants fresh fresh_numbers scratch n ≡ some s)
        × (n ≤ s.capacity)
        × IsScratch s
  unfolding reserve_step_atoms
  reserve_step_atoms-some scratch n memory held few = elim (Bool-cases (leb n scratch.capacity)) [
    | inl roomy ↦
        (scratch, rw (roomy, reserve_step_atoms) refl, leb→le n scratch.capacity roomy, held)
    | inr short ↦
        let small : ltb ((2 ^ 64 - 1) / 24) n ≡ false =
          ge→ltb ((2 ^ 64 - 1) / 24) n (omega (arith, few)) in
        let numbers = length-fill (at 0 scratch.numbers) 0 scratch.capacity (fresh_numbers n) in
        let positions =
          length-fill (at (r.decimal 0 0) scratch.positions) 0 (scratch.capacity * 3)
            (fresh (n * 3)) in
        (
          record {
            positions =
                fill (at (r.decimal 0 0) scratch.positions) 0 (scratch.capacity * 3)
                  (fresh (n * 3));
            numbers = fill (at 0 scratch.numbers) 0 scratch.capacity (fresh_numbers n);
            capacity = n;
          },
          rw (short, reserve_step_atoms, small, memory.granted (n * 24), memory.granted (n * 4))
              refl,
          omega arith,
          (omega (arith, numbers, memory.ints n), omega (arith, positions, memory.doubles (n * 3))),
        )
  ]

  -- What a message has for a buffer that has room for it.
  narrow :
      (input : ForceInput A) (g : IsGeometry r input (int_max / 3)) (capacity : ℕ)
      → g.atoms ≤ capacity
      → IsGeometry r input capacity
  narrow input g capacity h = record {
    atoms = g.atoms;
    has_cell = g.has_cell;
    factor = g.factor;
    shape = g.shape;
    fits = h;
    unit = g.unit;
  }

  -- The scratch memory behind the copy of a message.
  abbrev filled :
      Scratch A → (input : ForceInput A) {capacity : ℕ} → IsGeometry r input capacity → Scratch A
  filled s input g = record s {
    positions = (buffers_of s input g).positions;
    numbers = (buffers_of s input g).numbers;
  }

  read_step-eq :
      (scratch s : Scratch A) (input : ForceInput A) (g : IsGeometry r input (int_max / 3))
      → reserve_step_atoms r grants fresh fresh_numbers scratch g.atoms ≡ some s
      → g.atoms ≤ s.capacity
      → IsScratch s
      → read_step r grants fresh fresh_numbers input scratch g.atoms
        ≡ (filled s input g, ok (buffers_of s input g))
  unfolding read_step narrow
  read_step-eq scratch s input g reserved fits (hn, hp) =
      let buffers : Buffers A = record {
        positions = s.positions;
        numbers = s.numbers;
        cell = replicate 9 (r.decimal 0 0);
        has_cell = false;
      } in
      let copied =
        copy_geometry-eq r input buffers s.capacity (narrow input g s.capacity fits)
          (omega (arith, fits, hn)) (omega (arith, fits, hp)) (omega arith) in
      rw (reserved, copied, read_step) refl

  calculate_forces-run :
      (engine : E) (active : Bool) (session : Session A P) (scratch : Scratch A)
      (input : ForceInput A) (forces_len : ℕ) (g : IsGeometry r input (int_max / 3))
      → Grants
      → IsScratch scratch
      → g.atoms * 3 ≤ forces_len
      → (s : Scratch A) × (calculate_forces r grants fresh fresh_numbers near agree configure select
            evaluate engine active session scratch input forces_len
          ≡ run_step r grants fresh fresh_numbers near agree configure select evaluate engine active
              session
              (filled s input g)
              g.atoms
              (buffers_of s input g)
              (λ left energy rows. ok (
                energy,
                negated r grants fresh fresh_numbers near agree configure select evaluate rows,
              )))
  unfolding calculate_forces step after_read
  calculate_forces-run engine active session scratch input forces_len g memory held hf =
      let s = g.shape in
      let counted = (atom_count_iff input g.atoms g.has_cell).1 s in
      let in_range : (g.atoms == 0 || ltb (int_max / 3) g.atoms || ltb forces_len (g.atoms * 3))
          ≡ false =
        guard_passes g.atoms forces_len s.some_atoms s.in_range hf in
      let (t, reserved, fits, kept) = reserve_step_atoms-some scratch g.atoms memory held g.fits in
      let read = read_step-eq scratch t input g reserved fits kept in
      (t, rw (counted, calculate_forces, in_range, read, step) refl)

  -- For a message with a geometry, scratch memory of any capacity whose arrays hold what it says,
  -- memory that is granted where the scratch has to grow, and room for the forces: the answer of the
  -- step is that of the session's energy call on the atoms and the cell of the message, with the
  -- rows of the gradient negated, and the session and the engine are as that call leaves them.
  pub calculate_forces-eq :
      (engine : E) (active : Bool) (session : Session A P) (scratch : Scratch A)
      (input : ForceInput A) (forces_len : ℕ) (g : IsGeometry r input (int_max / 3))
      → Grants
      → IsScratch scratch
      → g.atoms * 3 ≤ forces_len
      → ((calculate_forces r grants fresh fresh_numbers near agree configure select evaluate engine
            active session scratch input forces_len).answer
          ≡ finish_call (energy_call engine active session input g).0 (λ energy rows. ok (
            energy,
            negated r grants fresh fresh_numbers near agree configure select evaluate rows,
          )))
        × ((calculate_forces r grants fresh fresh_numbers near agree configure select evaluate
              engine active session scratch input forces_len).session
            ≡ (energy_call engine active session input g).1)
        × ((calculate_forces r grants fresh fresh_numbers near agree configure select evaluate
              engine active session scratch input forces_len).engine
            ≡ (energy_call engine active session input g).2)
  unfolding run_step
  calculate_forces-eq engine active session scratch input forces_len g memory held hf =
      let (t, forward) =
        calculate_forces-run engine active session scratch input forces_len g memory held hf in
      let s = g.shape in
      let atoms =
        atoms_of-append g.atoms (contents input.atmnrs) (drop g.atoms t.numbers)
          (scaled r (contents input.pos) g.factor) (drop (g.atoms * 3) t.positions)
          (length-contents input.atmnrs g.atoms s.atoms)
          (omega (
            arith,
            length-scaled r (contents input.pos) g.factor,
            length-contents input.pos (g.atoms * 3) s.places,
          )) in
      let cell = append-nil (cell_of r g.has_cell input.box g.factor) in
      rw (forward, atoms, cell) (refl, refl, refl)
