-- ===== src/Step/Refused.antt =====
-- src/cpmdc.c: a step that is refused in front of the call leaves the session alone.
use cpmdc.Base.{
  ℕ, ◌*◌, ◌≡◌, ◌⊎◌, inl, inr, refl, Bool, true, false, ◌||◌, ◌==◌, Option, none, some, List, ltb,
  if◌then◌else◌, int_max, Option-cases, Bool-cases, map,
}
use cpmdc.Base.Reals.{Reals}
use cpmdc.Base.Results.{Result, ok, err}
use cpmdc.Force.{ForceInput, Buffers, atom_count}
use cpmdc.Force.Units.{result_factors, stress_result_factors}
use cpmdc.Session.{Session, Position, Atom, Answer, energy_of, failed, session_energy_gradient_cell}
use cpmdc.Potential.{potential_result_write, Builder, potential_result_flat_size}
use cpmdc.Potential.Select.{Image}
use cpmdc.Step.{
  finish_call, written_answer, after_read, atoms_of, negated, Scratch, StepError, call,
  write_failed, geometry, result_units, stress_units, buffer_too_small, no_memory, Done, read_step,
  run_step, step, write_result, calculate_result,
}

-- An answer that only the call of the engine, or what follows it, can give.
abbrev pub IsCalled : {B : Type 0} → Result StepError B → Type 0
IsCalled (ok answer) = Unit
IsCalled (err (call why)) = Unit
IsCalled (err write_failed) = Unit
IsCalled (err geometry) = ⊥
IsCalled (err result_units) = ⊥
IsCalled (err stress_units) = ⊥
IsCalled (err buffer_too_small) = ⊥
IsCalled (err no_memory) = ⊥

finish_call-IsCalled :
    {A B : Type 0} (answer : Answer A) (finish : A → List (Position A) → Result StepError B)
    → ((energy : A) (rows : List (Position A)) → IsCalled (finish energy rows))
    → IsCalled (finish_call answer finish)
unfolding finish_call
finish_call-IsCalled (energy_of energy rows) finish h = h energy rows
finish_call-IsCalled (failed why) finish h = tt

written_answer-IsCalled :
    {M : Type 0} (written : Option M) (reported : ℕ) → IsCalled (written_answer written reported)
unfolding written_answer
written_answer-IsCalled none reported = tt
written_answer-IsCalled (some message) reported = tt

module _ {A P E : Type 0} (r : Reals A) (grants : ℕ → Bool) (fresh : ℕ → List A)
    (fresh_numbers : ℕ → List ℕ) (near : A → A → Bool) (agree : Bool) (configure : E → P → E × Bool)
    (select : E → ℕ → E)
    (evaluate : E → List (Atom A) → Option (List A) → E × Option (A × List (Position A))) where
  abbrev Kept :
      {B : Type 0}
      → Session A P
      → E
      → Done r grants fresh fresh_numbers near agree configure select evaluate B
      → Type 0
  Kept session engine d = IsCalled d.answer ⊎ ((d.session ≡ session) × (d.engine ≡ engine))

  abbrev Finish : Type 0 → Type 0
  Finish B = E → A → List (Position A) → Result StepError B

  abbrev Finishes : {B : Type 0} → Finish B → Type 0
  Finishes finish =
      (left : E) (energy : A) (rows : List (Position A)) → IsCalled (finish left energy rows)

  run_step-IsCalled :
      {B : Type 0} (engine : E) (active : Bool) (session : Session A P) (scratch : Scratch A)
      (n : ℕ) (buffers : Buffers A) (finish : Finish B)
      → Finishes finish
      → IsCalled
          (run_step r grants fresh fresh_numbers near agree configure select evaluate engine active
            session scratch n buffers finish).answer
  unfolding run_step
  run_step-IsCalled engine active session scratch n buffers finish h =
      let (answer, after, left, now_active) =
        session_energy_gradient_cell near grants agree configure select evaluate engine active
          session (atoms_of n buffers.numbers buffers.positions)
          (if buffers.has_cell then some buffers.cell else none) true in
      finish_call-IsCalled answer (finish left) (h left)

  after_read-Kept :
      {B : Type 0} (engine : E) (active : Bool) (session : Session A P) (s : Scratch A) (n : ℕ)
      (memory : Bool) (finish : Finish B) (read : Result StepError (Buffers A))
      → Finishes finish
      → Kept session engine (
          after_read r grants fresh fresh_numbers near agree configure select evaluate engine active
            session s n memory finish read)
  unfolding after_read
  after_read-Kept engine active session s n memory finish (err why) h = inr (refl, refl)
  after_read-Kept engine active session s n true finish (ok buffers) h =
      inl (run_step-IsCalled engine active session s n buffers finish h)
  after_read-Kept engine active session s n false finish (ok buffers) h = inr (refl, refl)

  step-Kept :
      {B : Type 0} (engine : E) (active : Bool) (session : Session A P) (scratch : Scratch A)
      (input : ForceInput A) (n : ℕ) (memory : Bool) (finish : Finish B)
      → Finishes finish
      → Kept session engine (
          step r grants fresh fresh_numbers near agree configure select evaluate engine active
            session scratch input n memory finish)
  unfolding step
  step-Kept engine active session scratch input n memory finish h =
      let (s, read) = read_step r grants fresh fresh_numbers input scratch n in
      after_read-Kept engine active session s n memory finish read h

  write_result-IsCalled :
      (b : Builder A) (image_of : E → Image A) (factors : A × A) (stress_factor : A)
      (capacity size : ℕ) (left : E) (energy : A) (rows : List (Position A))
      → IsCalled (
          write_result r grants fresh fresh_numbers near agree configure select evaluate b image_of
            factors stress_factor capacity size left energy rows)
  unfolding write_result
  write_result-IsCalled b image_of factors stress_factor capacity size left energy rows =
      let (written, reported) =
        potential_result_write r b (r.mul energy factors.0)
          (map (λ f. r.mul f factors.1)
            (negated r grants fresh fresh_numbers near agree configure select evaluate rows))
          stress_factor (some (image_of left)) capacity size in
      written_answer-IsCalled written reported

  -- A step that writes a result message is refused with the session and the engine as they were, or
  -- its answer is that of the call or of the writing behind it: for every message, scratch memory and
  -- capacity of the buffer.
  pub calculate_result-Kept :
      (b : Builder A) (image_of : E → Image A) (engine : E) (active : Bool) (session : Session A P)
      (scratch : Scratch A) (input : ForceInput A) (capacity : ℕ)
      → Kept session engine (
          calculate_result r grants fresh fresh_numbers near agree configure select evaluate b
            image_of engine active session scratch input capacity)
  unfolding calculate_result
  calculate_result-Kept b image_of engine active session scratch input capacity =
      elim (Option-cases (atom_count input)) [
        | inl e ↦ rw (e, calculate_result) (inr (refl, refl))
        | inr ((n, c), e) ↦
            let required = potential_result_flat_size (n * 3) in
            elim (Bool-cases (ltb int_max n || required == 0 || ltb int_max (n * 3))) [
              | inl big ↦ rw (e, calculate_result, big) (inr (refl, refl))
              | inr fits ↦
                  elim (Option-cases (result_factors r input.length_unit input.energy_unit)) [
                    | inl f ↦ rw (e, calculate_result, fits, f) (inr (refl, refl))
                    | inr (factors, f) ↦
                        elim (Option-cases
                          (stress_result_factors r input.length_unit input.energy_unit)) [
                            | inl g ↦ rw (e, calculate_result, fits, f, g) (inr (refl, refl))
                            | inr ((x, stress), g) ↦ elim (Bool-cases (ltb capacity required)) [
                              | inl small ↦
                                  rw (e, calculate_result, fits, f, g, small) (inr (refl, refl))
                              | inr roomy ↦
                                  rw (e, calculate_result, fits, f, g, roomy)
                                    (step-Kept engine active session scratch input n
                                      (grants (n * 24)) _
                                      (write_result-IsCalled b image_of factors stress capacity
                                        required))
                            ]
                          ]
                  ]
            ]
      ]
