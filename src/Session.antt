-- ===== src/Session.antt =====
-- src/cpmdc.c: `struct CPMDCSession` with its topology check and its stored result.
-- A `double` is a value of a type A, on which `near x y` says that x and y differ by no more than
-- 1.0e-8. A flag and the fields it guards are one option. P is what the session holds of its
-- parameters: the message, the overrides, the input deck. E is the state of the embed layer, which
-- `configure` gives the parameters of a session, `select` an orbital key, and `evaluate` atoms and a
-- cell. A call returns its answer, the session, that state, and whether the session is
-- `g_active_session`.
pub mod Elements
pub mod Matching
pub mod Params
pub mod Topology
pub mod Ended
pub mod Steps
mod Tests
use cpmdc.Base.{
  ℕ, zero, suc, ◌+◌, ◌-◌, ◌*◌, ◌/◌, Bool, true, false, not, ◌&&◌, ◌||◌, Option, none, some, List,
  [], ◌∷◌, map, length, replicate, ltb, ◌==◌, if◌then◌else◌, int_max,
}
use cpmdc.Session.Elements.{element_counts_match}

pub record Position (A : Type 0) : Type 0 where
  pub x : A
  pub y : A
  pub z : A

pub record Atom (A : Type 0) : Type 0 where
  pub number : ℕ
  pub place : Position A

-- An atom of the stored result and its row of the gradient: `cached_atomic_numbers`,
-- `cached_positions_ang` and `cached_grad_h_bohr` at one index.
pub record Stored (A : Type 0) : Type 0 where
  pub atom : Atom A
  pub row : Position A

-- The fields that `result_cached` guards. `cached_has_cell` and the nine numbers are one option.
pub record Cached (A : Type 0) : Type 0 where
  pub stored : List (Stored A)
  pub energy : A
  pub cell : Option (List A)

pub record Session (A P : Type 0) : Type 0 where
  pub params : P
  pub topology : Option (List ℕ)
  pub cached_n_atoms : ℕ
  pub cached : Option (Cached A)
  pub configured : Bool
  pub orbital_key : Option ℕ

-- The messages of `fail_msg`; `engine` is that of the evaluation.
pub data CallError : Type 0 where
  invalid_arguments topology_change not_available engine : CallError

pub data Answer (A : Type 0) : Type 0 where
  energy_of : A → List (Position A) → Answer A
  failed : CallError → Answer A

module _ {A : Type 0} (near : A → A → Bool) where
  abbrev pub coords_differ : Position A → Position A → Bool
  coords_differ left right = not (near left.x right.x && near left.y right.y && near left.z right.z)

  unfoldable pub all_near : List A → List A → Bool
  all_near [] [] = true
  all_near [] (y ∷ ys) = false
  all_near (x ∷ xs) [] = false
  all_near (x ∷ xs) (y ∷ ys) = near x y && all_near xs ys

  unfoldable pub cell_differs : Option (List A) → Option (List A) → Bool
  cell_differs none none = false
  cell_differs none (some right) = true
  cell_differs (some left) none = true
  cell_differs (some left) (some right) = not (all_near left right)

  -- `for (j = 0; j < n_atoms; ++j)`: the row of the first atom that is unused and agrees, and the
  -- flags with its own set.
  unfoldable pub find : Atom A → List (Stored A) → List Bool → Option (Position A × List Bool)
  find wanted [] used = none
  find wanted (s ∷ stored) [] = none
  find wanted (s ∷ stored) (u ∷ used) =
      let rest = find wanted stored used in
      if u || not (s.atom.number == wanted.number) || coords_differ s.atom.place wanted.place
      then elim rest [ none ↦ none | some (row, used') ↦ some (row, u ∷ used') ]
      else some (s.row, true ∷ used)

  unfoldable pub copy_loop :
      List (Atom A) → List (Stored A) → List Bool → Option (List (Position A))
  copy_loop [] stored used = some []
  copy_loop (atom ∷ atoms) stored used = elim (find atom stored used) [
    | none ↦ none
    | some (row, used') ↦ elim (copy_loop atoms stored used') [
      | none ↦ none
      | some rows ↦ some (row ∷ rows)
    ]
  ]

  -- `none` is the return of 0; what the caller's gradient holds then is overwritten or not used.
  unfoldable pub session_copy_cached_gradient :
      {P : Type 0}
      → (ℕ → Bool)
      → Session A P
      → List (Atom A)
      → Option (List A)
      → Option (A × List (Position A))
  session_copy_cached_gradient grants session atoms cell = elim session.cached [
    | none ↦ none
    | some cached ↦
        if not (length cached.stored == length atoms)
          || cell_differs cached.cell cell
          || not (grants (length atoms))
        then none
        else elim (copy_loop atoms cached.stored (replicate (length atoms) false)) [
          | none ↦ none
          | some rows ↦ some (cached.energy, rows)
        ]
  ]

-- `none` is the return of -1.
unfoldable pub session_accept_topology :
    {A P : Type 0} → (ℕ → Bool) → Session A P → List ℕ → Option (Session A P)
session_accept_topology grants session numbers =
    let accepted = some (record session { topology = some numbers }) in
    if length numbers == 0 then none else elim session.topology [
      | none ↦ if grants (length numbers * 4) then accepted else none
      | some fixed ↦
          if not (length fixed == length numbers) || not (element_counts_match fixed numbers)
          then none
          else accepted
    ]

unfoldable pub join : {A : Type 0} → List (Atom A) → List (Position A) → List (Stored A)
join [] rows = []
join (atom ∷ atoms) [] = []
join (atom ∷ atoms) (row ∷ rows) = record { atom = atom; row = row } ∷ join atoms rows

-- `none` for the fields that `result_cached` guards is the 0 that the caller writes on failure.
unfoldable pub session_store_cache :
    {A P : Type 0}
    → (ℕ → Bool)
    → Session A P
    → List (Atom A)
    → List (Position A)
    → A
    → Option (List A)
    → Session A P
session_store_cache grants session atoms rows energy cell =
    let n = length atoms in
    if not (session.cached_n_atoms == n) && not (grants (n * 24) && grants (n * 4))
    then record session { cached = none }
    else record session {
      cached_n_atoms = n;
      cached = some (record { stored = join atoms rows; energy = energy; cell = cell });
    }

abbrev pub drop_result : {A P : Type 0} → Session A P → Session A P
drop_result session = record session { cached = none }

unfoldable pub grad_len_from_atoms : ℕ → Option ℕ
grad_len_from_atoms n = if n == 0 || ltb (int_max / 3) n then none else some (n * 3)

module _ {A P E : Type 0} (near : A → A → Bool) (grants : ℕ → Bool) (agree : Bool)
    (configure : E → P → E × Bool) (select : E → ℕ → E)
    (evaluate : E → List (Atom A) → Option (List A) → E × Option (A × List (Position A))) where
  abbrev pub select_key : E → Option ℕ → E
  select_key engine_state none = engine_state
  select_key engine_state (some key) = select engine_state key

  -- The call on the engine, which is configured for the session, and what the session keeps of its
  -- answer. Without room for a gradient it is refused behind the selection of the orbitals.
  unfoldable pub evaluate_session :
      E → Session A P → List (Atom A) → Option (List A) → Bool → Answer A × Session A P × E × Bool
  evaluate_session engine_state session atoms cell has_grad =
      let selected = select_key engine_state session.orbital_key in
      let (after, answer) = evaluate selected atoms cell in
      if has_grad
      then elim answer [
        | none ↦ (failed engine, drop_result session, after, true)
        | some (energy, rows) ↦ (
          energy_of energy rows,
          session_store_cache grants session atoms rows energy cell,
          after,
          true,
        )
      ]
      else (failed invalid_arguments, drop_result session, selected, true)

  -- The configuration of the embed layer, where it is not this session's, and the evaluation.
  unfoldable pub configured_session :
      E
      → Bool
      → Session A P
      → List (Atom A)
      → Option (List A)
      → Bool
      → Answer A × Session A P × E × Bool
  configured_session engine_state active session atoms cell has_grad =
      if session.configured && active
      then evaluate_session engine_state session atoms cell has_grad
      else let (after, ready) = configure engine_state session.params in
        if ready
        then evaluate_session after (record session { configured = true }) atoms cell has_grad
        else (failed not_available, session, after, active)

  -- `session_energy_gradient_cell` from the test of the cache on. `active` is whether the session
  -- is `g_active_session`, and `agree` is whether the
  -- other ranks found their rows too, the answer of `rank_consensus_all` where this one did.
  unfoldable pub answer_session :
      E
      → Bool
      → Session A P
      → List (Atom A)
      → Option (List A)
      → Bool
      → Answer A × Session A P × E × Bool
  answer_session engine_state active session atoms cell has_grad =
      let copied =
        if has_grad then session_copy_cached_gradient near grants session atoms cell else none in
      elim copied [
        | some (energy, rows) ↦
            if agree
            then (energy_of energy rows, session, engine_state, active)
            else configured_session engine_state active session atoms cell has_grad
        | none ↦ configured_session engine_state active session atoms cell has_grad
      ]

  unfoldable pub session_energy_gradient_cell :
      E
      → Bool
      → Session A P
      → List (Atom A)
      → Option (List A)
      → Bool
      → Answer A × Session A P × E × Bool
  session_energy_gradient_cell engine_state active session atoms cell has_grad =
      elim (grad_len_from_atoms (length atoms)) [
        | none ↦ (failed invalid_arguments, session, engine_state, active)
        | some n3 ↦
            elim (session_accept_topology grants session (map (λ (a : Atom A). a.number) atoms)) [
              | none ↦ (failed topology_change, session, engine_state, active)
              | some accepted ↦ answer_session engine_state active accepted atoms cell has_grad
            ]
      ]
