-- ===== src/Step/Room.antt =====
-- src/cpmdc.c: `cpmdc_potential_result_size_for_force_input`, and the buffers that it asks for.
use cpmdc.Base.{
  ℕ, ◌*◌, ◌≤◌, ◌≡◌, ◌≢◌, inl, inr, refl, Bool, true, false, ◌||◌, ◌==◌, Option, none, some, List,
  ltb, if◌then◌else◌, int_max, Option-cases, Bool-cases, ge→ltb, map, replicate,
}
use cpmdc.Base.Reals.{Reals}
use cpmdc.Base.Results.{Result, ok, err}
use cpmdc.Force.{ForceInput, Buffers, atom_count, copy_geometry}
use cpmdc.Force.Units.{result_factors, stress_result_factors}
use cpmdc.Session.{Session, Position, Atom, Answer, energy_of, failed, session_energy_gradient_cell}
use cpmdc.Potential.{Builder, potential_result_flat_size, potential_result_write}
use cpmdc.Potential.Select.{Image}
use cpmdc.Step.{
  Scratch, StepError, call, write_failed, geometry, result_units, stress_units, buffer_too_small,
  no_memory, atoms_of, negated, finish_call, written_answer, read_step, reserve_step_atoms,
  run_step, after_read, step, write_result, calculate_result,
}

-- `cpmdc_potential_result_size_for_force_input`; 0 is a message that is refused.
unfoldable pub size_for_force_input : {A : Type 0} → ForceInput A → ℕ
size_for_force_input input = elim (atom_count input) [
  | none ↦ 0
  | some (n, has_cell) ↦
      if ltb int_max n || ltb int_max (n * 3) then 0 else potential_result_flat_size (n * 3)
]

-- An answer other than the refusal of the buffer.
abbrev IsRoomy : {B : Type 0} → Result StepError B → Type 0
IsRoomy (ok answer) = Unit
IsRoomy (err buffer_too_small) = ⊥
IsRoomy (err geometry) = Unit
IsRoomy (err result_units) = Unit
IsRoomy (err stress_units) = Unit
IsRoomy (err no_memory) = Unit
IsRoomy (err write_failed) = Unit
IsRoomy (err (call why)) = Unit

finish_call-IsRoomy :
    {A B : Type 0} (answer : Answer A) (finish : A → List (Position A) → Result StepError B)
    → ((energy : A) (rows : List (Position A)) → IsRoomy (finish energy rows))
    → IsRoomy (finish_call answer finish)
unfolding finish_call
finish_call-IsRoomy (energy_of energy rows) finish h = h energy rows
finish_call-IsRoomy (failed why) finish h = tt

written_answer-IsRoomy :
    {M : Type 0} (written : Option M) (reported : ℕ) → IsRoomy (written_answer written reported)
unfolding written_answer
written_answer-IsRoomy none reported = tt
written_answer-IsRoomy (some message) reported = tt

IsRoomy-ne :
    {B : Type 0} (answer : Result StepError B) → IsRoomy answer → answer ≢ err buffer_too_small
IsRoomy-ne (ok answer) h e = cc
IsRoomy-ne (err buffer_too_small) h e = absurd h
IsRoomy-ne (err geometry) h e = cc
IsRoomy-ne (err result_units) h e = cc
IsRoomy-ne (err stress_units) h e = cc
IsRoomy-ne (err no_memory) h e = cc
IsRoomy-ne (err write_failed) h e = cc
IsRoomy-ne (err (call why)) h e = cc

size-eq :
    {A : Type 0} (input : ForceInput A) (n : ℕ) (c : Bool)
    → atom_count input ≡ some (n, c)
    → (ltb int_max n || potential_result_flat_size (n * 3) == 0 || ltb int_max (n * 3)) ≡ false
    → size_for_force_input input ≡ potential_result_flat_size (n * 3)
unfolding size_for_force_input
size-eq input n c e fits =
    rw (e, size_for_force_input)
      (guards_of (ltb int_max n) (potential_result_flat_size (n * 3) == 0) (ltb int_max (n * 3))
        (potential_result_flat_size (n * 3)) fits)
  where
    guards_of :
        (t u v : Bool) (size : ℕ) → (t || u || v) ≡ false → (if t || v then 0 else size) ≡ size
    guards_of true u v size e = absurd cc
    guards_of false true v size e = absurd cc
    guards_of false false true size e = absurd cc
    guards_of false false false size e = refl

module _ {A P E : Type 0} (r : Reals A) (grants : ℕ → Bool) (fresh : ℕ → List A)
    (fresh_numbers : ℕ → List ℕ) (near : A → A → Bool) (agree : Bool) (configure : E → P → E × Bool)
    (select : E → ℕ → E)
    (evaluate : E → List (Atom A) → Option (List A) → E × Option (A × List (Position A))) where
  read_step-IsRoomy :
      (input : ForceInput A) (scratch : Scratch A) (n : ℕ)
      → IsRoomy (read_step r grants fresh fresh_numbers input scratch n).1
  unfolding read_step
  read_step-IsRoomy input scratch n =
      elim (Option-cases (reserve_step_atoms r grants fresh fresh_numbers scratch n)) [
        | inl e ↦ rw (e, read_step) tt
        | inr (s, e) ↦
            let buffers : Buffers A = record {
              positions = s.positions;
              numbers = s.numbers;
              cell = replicate 9 (r.decimal 0 0);
              has_cell = false;
            } in
            elim (Bool-cases (copy_geometry r input buffers s.capacity).0) [
              | inl done ↦ rw (e, read_step, done) tt
              | inr undone ↦ rw (e, read_step, undone) tt
            ]
      ]

  after_read-IsRoomy :
      {B : Type 0} (engine : E) (active : Bool) (session : Session A P) (s : Scratch A) (n : ℕ)
      (memory : Bool) (finish : E → A → List (Position A) → Result StepError B)
      (read : Result StepError (Buffers A))
      → IsRoomy read
      → ((left : E) (energy : A) (rows : List (Position A)) → IsRoomy (finish left energy rows))
      → IsRoomy
          (after_read r grants fresh fresh_numbers near agree configure select evaluate engine
            active session s n memory finish read).answer
  unfolding after_read run_step
  after_read-IsRoomy engine active session s n memory finish (err geometry) g h = tt
  after_read-IsRoomy engine active session s n memory finish (err result_units) g h = tt
  after_read-IsRoomy engine active session s n memory finish (err stress_units) g h = tt
  after_read-IsRoomy engine active session s n memory finish (err no_memory) g h = tt
  after_read-IsRoomy engine active session s n memory finish (err write_failed) g h = tt
  after_read-IsRoomy engine active session s n memory finish (err (call why)) g h = tt
  after_read-IsRoomy engine active session s n memory finish (err buffer_too_small) g h = absurd g
  after_read-IsRoomy engine active session s n false finish (ok buffers) g h = tt
  after_read-IsRoomy engine active session s n true finish (ok buffers) g h =
      let (answer, after, left, now_active) =
        session_energy_gradient_cell near grants agree configure select evaluate engine active
          session (atoms_of n buffers.numbers buffers.positions)
          (if buffers.has_cell then some buffers.cell else none) true in
      finish_call-IsRoomy answer (finish left) (h left)

  write_result-IsRoomy :
      (b : Builder A) (image_of : E → Image A) (factors : A × A) (stress_factor : A)
      (capacity size : ℕ) (left : E) (energy : A) (rows : List (Position A))
      → IsRoomy (
          write_result r grants fresh fresh_numbers near agree configure select evaluate b image_of
            factors stress_factor capacity size left energy rows)
  unfolding write_result
  write_result-IsRoomy b image_of factors stress_factor capacity size left energy rows =
      let (written, reported) =
        potential_result_write r b (r.mul energy factors.0)
          (map (λ f. r.mul f factors.1)
            (negated r grants fresh fresh_numbers near agree configure select evaluate rows))
          stress_factor (some (image_of left)) capacity size in
      written_answer-IsRoomy written reported

  step-IsRoomy :
      {B : Type 0} (engine : E) (active : Bool) (session : Session A P) (scratch : Scratch A)
      (input : ForceInput A) (n : ℕ) (memory : Bool)
      (finish : E → A → List (Position A) → Result StepError B)
      → ((left : E) (energy : A) (rows : List (Position A)) → IsRoomy (finish left energy rows))
      → IsRoomy
          (step r grants fresh fresh_numbers near agree configure select evaluate engine active
            session scratch input n memory finish).answer
  unfolding step
  step-IsRoomy engine active session scratch input n memory finish h =
      let (s, read) = read_step r grants fresh fresh_numbers input scratch n in
      after_read-IsRoomy engine active session s n memory finish read
        (read_step-IsRoomy input scratch n) h

  calculate_result-IsRoomy :
      (b : Builder A) (image_of : E → Image A) (engine : E) (active : Bool) (session : Session A P)
      (scratch : Scratch A) (input : ForceInput A) (capacity : ℕ)
      → size_for_force_input input ≤ capacity
      → IsRoomy
          (calculate_result r grants fresh fresh_numbers near agree configure select evaluate b
            image_of engine active session scratch input capacity).answer
  unfolding calculate_result
  calculate_result-IsRoomy b image_of engine active session scratch input capacity h =
      elim (Option-cases (atom_count input)) [
        | inl e ↦ rw (e, calculate_result) tt
        | inr ((n, c), e) ↦
            let required = potential_result_flat_size (n * 3) in
            elim (Bool-cases (ltb int_max n || required == 0 || ltb int_max (n * 3))) [
              | inl big ↦ rw (e, calculate_result, big) tt
              | inr fits ↦
                  let roomy : ltb capacity required ≡ false =
                    ge→ltb capacity required (rw (size-eq input n c e fits) at h) in
                  elim (Option-cases (result_factors r input.length_unit input.energy_unit)) [
                    | inl f ↦ rw (e, calculate_result, fits, f) tt
                    | inr (factors, f) ↦
                        elim (Option-cases
                          (stress_result_factors r input.length_unit input.energy_unit)) [
                            | inl g ↦ rw (e, calculate_result, fits, f, g) tt
                            | inr ((x, stress), g) ↦
                                rw (e, calculate_result, fits, f, g, roomy)
                                  (step-IsRoomy engine active session scratch input n
                                    (grants (n * 24)) _
                                    (write_result-IsRoomy b image_of factors stress capacity
                                      required))
                          ]
                  ]
            ]
      ]

  -- A buffer of the size that is reported for a message, or a larger one, is never refused as too
  -- small by a step on that message, for any session, scratch memory and engine.
  pub calculate_result-ne_too_small :
      (b : Builder A) (image_of : E → Image A) (engine : E) (active : Bool) (session : Session A P)
      (scratch : Scratch A) (input : ForceInput A) (capacity : ℕ)
      → size_for_force_input input ≤ capacity
      → (calculate_result r grants fresh fresh_numbers near agree configure select evaluate b
          image_of engine active session scratch input capacity).answer
        ≢ err buffer_too_small
  calculate_result-ne_too_small b image_of engine active session scratch input capacity h =
      IsRoomy-ne
        (calculate_result r grants fresh fresh_numbers near agree configure select evaluate b
          image_of engine active session scratch input capacity).answer
        (calculate_result-IsRoomy b image_of engine active session scratch input capacity h)
