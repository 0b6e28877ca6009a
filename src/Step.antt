-- ===== src/Step.antt =====
-- src/cpmdc.c: the steps of a session on a `ForceInput` message, `cpmdc_session_calculate_forces` and
-- `cpmdc_session_calculate_result`, on the operations of Force, Session and Potential.
-- The message has been read; `fresh` is what stands in memory that `malloc` grants, and `image_of`
-- is the image of the session after a call of the embed layer in state E.
pub mod Forces
pub mod Refused
pub mod Room
mod Tests
use cpmdc.Base.{
  ℕ, zero, suc, ◌*◌, ◌/◌, ◌-◌, ◌^◌, Bool, true, false, not, ◌&&◌, ◌||◌, ◌==◌, Option, none, some,
  List, [], ◌∷◌, ◌++◌, map, ltb, leb, if◌then◌else◌, int_max, at, fill, length, replicate,
}
use cpmdc.Base.Reals.{Reals}
use cpmdc.Base.Results.{Result, ok, err, ◌>>=◌, ◌>>◌, refuse_if, or_fail}
use cpmdc.Force.{ForceInput, Buffers, atom_count, copy_geometry}
use cpmdc.Force.Units.{result_factors, stress_result_factors}
use cpmdc.Session.{
  Session, Position, Atom, CallError, Answer, energy_of, failed, session_energy_gradient_cell,
}
use cpmdc.Potential.{Builder, PotentialResult, potential_result_flat_size, potential_result_write}
use cpmdc.Potential.Select.{Image}

-- `step_positions_ang`, `step_atomic_numbers` and `step_atom_capacity`.
pub record Scratch (A : Type 0) : Type 0 where
  pub positions : List A
  pub numbers : List ℕ
  pub capacity : ℕ

-- The messages of `fail_msg`.
pub data StepError : Type 0 where
  geometry result_units stress_units buffer_too_small no_memory write_failed : StepError
  call : CallError → StepError

-- The atoms of two arrays, as the embed layer and the stored result index them.
abbrev pub atoms_of : {A : Type 0} → ℕ → List ℕ → List A → List (Atom A)
atoms_of (suc n) (k ∷ ks) (a ∷ b ∷ c ∷ rest) =
    record { number = k; place = record { x = a; y = b; z = c } } ∷ atoms_of n ks rest
atoms_of n ks rest = []

abbrev pub flat : {A : Type 0} → List (Position A) → List A
flat [] = []
flat (p ∷ ps) = p.x ∷ p.y ∷ p.z ∷ flat ps

module _ {A : Type 0} (r : Reals A) (grants : ℕ → Bool) (fresh : ℕ → List A)
    (fresh_numbers : ℕ → List ℕ) where
  -- `session_reserve_step_atoms`
  unfoldable pub reserve_step_atoms : Scratch A → ℕ → Option (Scratch A)
  reserve_step_atoms s n =
      if leb n s.capacity
      then some s
      else if ltb ((2 ^ 64 - 1) / 24) n || not (grants (n * 24) && grants (n * 4))
      then none
      else some (record {
        positions = fill (at (r.decimal 0 0) s.positions) 0 (s.capacity * 3) (fresh (n * 3));
        numbers = fill (at 0 s.numbers) 0 s.capacity (fresh_numbers n);
        capacity = n;
      })

  abbrev pub nine_zeros : List A
  nine_zeros = replicate 9 (r.decimal 0 0)

  -- The reserve and the copy, whose buffers are the scratch arrays and the cell of the caller.
  unfoldable pub read_step : ForceInput A → Scratch A → ℕ → Scratch A × Result StepError (Buffers A)
  read_step input scratch n = elim (reserve_step_atoms scratch n) [
    | none ↦ (scratch, err no_memory)
    | some s ↦
        let (done, buffers) =
          copy_geometry r input
            (record {
              positions = s.positions;
              numbers = s.numbers;
              cell = nine_zeros;
              has_cell = false;
            })
            s.capacity in
        (
          record s { positions = buffers.positions; numbers = buffers.numbers },
          if done then ok buffers else err geometry,
        )
  ]

-- `if (r.ok)`
unfoldable pub finish_call :
    {A B : Type 0} → Answer A → (A → List (Position A) → Result StepError B) → Result StepError B
finish_call (energy_of energy rows) finish = finish energy rows
finish_call (failed why) finish = err (call why)

unfoldable pub written_answer : {M : Type 0} → Option M → ℕ → Result StepError (M × ℕ)
written_answer none reported = err write_failed
written_answer (some message) reported = ok (message, reported)

module _ {A P E : Type 0} (r : Reals A) (grants : ℕ → Bool) (fresh : ℕ → List A)
    (fresh_numbers : ℕ → List ℕ) (near : A → A → Bool) (agree : Bool) (configure : E → P → E × Bool)
    (select : E → ℕ → E)
    (evaluate : E → List (Atom A) → Option (List A) → E × Option (A × List (Position A))) where
  -- What a step leaves: the answer and the state.
  pub record Done (B : Type 0) : Type 0 where
    pub answer : Result StepError B
    pub session : Session A P
    pub scratch : Scratch A
    pub engine : E

  abbrev pub negated : List (Position A) → List A
  negated rows = map r.negate (flat rows)

  -- The call of the engine on the atoms that were read, and the answer made of its energy and rows.
  unfoldable pub run_step :
      {B : Type 0}
      → E
      → Bool
      → Session A P
      → Scratch A
      → ℕ
      → Buffers A
      → (E → A → List (Position A) → Result StepError B)
      → Done B
  run_step engine active session scratch n buffers finish =
      let (answer, after, left, now_active) =
        session_energy_gradient_cell near grants agree configure select evaluate engine active
          session (atoms_of n buffers.numbers buffers.positions)
          (if buffers.has_cell then some buffers.cell else none) true in
      record {
        answer = finish_call answer (finish left);
        session = after;
        scratch = scratch;
        engine = left;
      }

  -- Behind the copy. `memory` is whether the array of the forces is granted.
  unfoldable pub after_read :
      {B : Type 0}
      → E
      → Bool
      → Session A P
      → Scratch A
      → ℕ
      → Bool
      → (E → A → List (Position A) → Result StepError B)
      → Result StepError (Buffers A)
      → Done B
  after_read engine active session s n memory finish (err why) = record {
    answer = err why;
    session = session;
    scratch = s;
    engine = engine;
  }
  after_read engine active session s n memory finish (ok buffers) =
      if memory
      then run_step engine active session s n buffers finish
      else record { answer = err no_memory; session = session; scratch = s; engine = engine }

  -- A message that was counted: the reserve, the copy and the call.
  unfoldable pub step :
      {B : Type 0}
      → E
      → Bool
      → Session A P
      → Scratch A
      → ForceInput A
      → ℕ
      → Bool
      → (E → A → List (Position A) → Result StepError B)
      → Done B
  step engine active session scratch input n memory finish =
      let (s, read) = read_step r grants fresh fresh_numbers input scratch n in
      after_read engine active session s n memory finish read

  -- `cpmdc_session_calculate_forces`, with room for `forces_len` numbers: the energy and the forces.
  unfoldable pub calculate_forces :
      E → Bool → Session A P → Scratch A → ForceInput A → ℕ → Done (A × List A)
  calculate_forces engine active session scratch input forces_len =
      let refused : Done (A × List A) = record {
        answer = err geometry;
        session = session;
        scratch = scratch;
        engine = engine;
      } in
      elim (atom_count input) [
        | none ↦ refused
        | some (n, has_cell) ↦
            if n == 0 || ltb (int_max / 3) n || ltb forces_len (n * 3)
            then refused
            else step engine active session scratch input n true
                (λ left energy rows. ok (energy, negated rows))
      ]

  module _ (b : Builder A) (image_of : E → Image A) where
    -- The forces in the units of the message, and the message of the result with its size.
    unfoldable pub write_result :
        A × A → A → ℕ → ℕ → E → A → List (Position A) → Result StepError (PotentialResult A × ℕ)
    write_result factors stress_factor capacity size left energy rows =
        let (written, reported) =
          potential_result_write r b (r.mul energy factors.0)
            (map (λ f. r.mul f factors.1) (negated rows)) stress_factor (some (image_of left))
            capacity size in
        written_answer written reported

    -- `cpmdc_session_calculate_result` into a buffer of `capacity` bytes.
    unfoldable pub calculate_result :
        E → Bool → Session A P → Scratch A → ForceInput A → ℕ → Done (PotentialResult A × ℕ)
    calculate_result engine active session scratch input capacity =
        let refuse : StepError → Done (PotentialResult A × ℕ) = λ why. record {
          answer = err why;
          session = session;
          scratch = scratch;
          engine = engine;
        } in
        elim (atom_count input) [
          | none ↦ refuse geometry
          | some (n, has_cell) ↦
              let required = potential_result_flat_size (n * 3) in
              if ltb int_max n || required == 0 || ltb int_max (n * 3)
              then refuse geometry
              else elim (result_factors r input.length_unit input.energy_unit) [
                | none ↦ refuse result_units
                | some factors ↦
                    elim (stress_result_factors r input.length_unit input.energy_unit) [
                      | none ↦ refuse stress_units
                      | some (energy_factor, stress_factor) ↦
                          if ltb capacity required
                          then refuse buffer_too_small
                          else step engine active session scratch input n (grants (n * 24))
                              (write_result factors stress_factor capacity required)
                    ]
              ]
        ]
