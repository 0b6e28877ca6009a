-- ===== src/Session/Tests.antt =====
-- src/cpmdc.c: a session on two hydrogen atoms, with numbers for the reals.
use cpmdc.Base.{
  ap, count, ℕ, suc, ◌+◌, ◌≡◌, ◌↔◌, refl, Bool, true, false, Option, none, some, List, [], ◌∷◌,
  ◌==◌,
}
use cpmdc.Session.{
  Session, Position, Atom, find, copy_loop, session_copy_cached_gradient, session_accept_topology,
  session_store_cache, join, grad_len_from_atoms, evaluate_session, configured_session,
  answer_session, session_energy_gradient_cell, all_near, cell_differs,
}
use cpmdc.Session.Elements.{SameElements, element_counts_match, element_counts_match_iff}
use cpmdc.Session.Params.{Params, session_create}
use cpmdc.Session.Matching.{FromStored, session_copy_cached_gradient-FromStored}
use cpmdc.Session.Steps.{
  World, left_by, attempt, create, IsSound, IsCurrent, Steps, CleanStep, CleanSteps, create-IsSound,
  Steps-Keeps, energy_call, other_calls, no_call, one_more,
}

abbrev near_test : ℕ → ℕ → Bool
near_test x y = x == y

abbrev has_memory : ℕ → Bool
has_memory n = true

abbrev point : ℕ → Position ℕ
point n = record { x = n; y = 0; z = 0 }

abbrev first : Atom ℕ
first = record { number = 1; place = point 10 }

abbrev second : Atom ℕ
second = record { number = 1; place = point 20 }

abbrev two_atoms : List (Atom ℕ)
two_atoms = first ∷ second ∷ []

abbrev swapped_atoms : List (Atom ℕ)
swapped_atoms = second ∷ first ∷ []

abbrev two_rows : List (Position ℕ)
two_rows = point 1 ∷ point 2 ∷ []

abbrev Knobs : Type 0
Knobs = Params ℕ ℕ ℕ

abbrev start_engine : ℕ → Knobs → ℕ × Bool
start_engine e p = (e, true)

abbrev select_key : ℕ → ℕ → ℕ
select_key e key = e

abbrev run_engine : ℕ → List (Atom ℕ) → Option (List ℕ) → ℕ × Option (ℕ × List (Position ℕ))
run_engine e atoms cell = (suc e, some (7, two_rows))

abbrev empty_message : ℕ → Bool
empty_message m = m == 0

abbrev render : ℕ → Option ℕ → Option ℕ
render m ov = some (m + 100)

abbrev new_session : Session ℕ Knobs
new_session = record {
  params = record { message = 5; overrides = none; deck = 105 };
  topology = none;
  cached_n_atoms = 0;
  cached = none;
  configured = true;
  orbital_key = none;
}

created : session_create empty_message true render true 5 ≡ some new_session
unfolding session_create
created = refl

abbrev W : Type 0
W = World near_test has_memory start_engine select_key run_engine empty_message render

abbrev new_world : W
new_world = record { session = new_session; engine = 0; active = true }

created_world :
    create near_test has_memory start_engine select_key run_engine empty_message render 0 true 5
    ≡ some new_world
unfolding create attempt session_create
created_world = refl

abbrev called_session : Session ℕ Knobs
called_session = record {
  params = record { message = 5; overrides = none; deck = 105 };
  topology = some (1 ∷ 1 ∷ []);
  cached_n_atoms = 2;
  cached = some (record {
    stored = record { atom = first; row = point 1 } ∷ record { atom = second; row = point 2 } ∷ [];
    energy = 7;
    cell = none;
  });
  configured = true;
  orbital_key = none;
}

abbrev called : W
called = left_by near_test has_memory start_engine select_key run_engine empty_message render (
    session_energy_gradient_cell near_test has_memory true start_engine select_key run_engine 0 true
      new_session two_atoms none true)

called_lem : called ≡ record { session = called_session; engine = 1; active = true }
unfolding session_energy_gradient_cell answer_session configured_session evaluate_session
    session_copy_cached_gradient session_accept_topology session_store_cache grad_len_from_atoms
    join
called_lem = refl

abbrev one_call :
    Steps near_test has_memory start_engine select_key run_engine empty_message render new_world
      called
one_call =
    one_more new_world called called (energy_call new_world true true two_atoms none)
      (no_call called)

one_call-CleanSteps :
    CleanSteps near_test has_memory start_engine select_key run_engine empty_message render one_call
unfolding CleanSteps CleanStep
one_call-CleanSteps = (tt, tt)

-- Another session that takes the engine.
abbrev taken : W
taken = record { session = called.session; engine = 9; active = false }

another_call :
    Steps near_test has_memory start_engine select_key run_engine empty_message render called taken
another_call = one_more called taken taken (other_calls called 9 false) (no_call taken)

create-IsSound_example :
    IsSound near_test has_memory start_engine select_key run_engine empty_message render
      called.session
    × IsCurrent near_test has_memory start_engine select_key run_engine empty_message render
        called.session called.engine called.active
create-IsSound_example =
    create-IsSound near_test has_memory start_engine select_key run_engine empty_message render 0
      true 5 new_world called created_world one_call one_call-CleanSteps

called_topology : called.session.topology ≡ some (1 ∷ 1 ∷ [])
called_topology = ap (λ (w : W). w.session.topology) called_lem

Steps-Keeps_example :
    (now : List ℕ) × (taken.session.topology ≡ some now)
    × ((k : ℕ) → count k (1 ∷ 1 ∷ []) ≡ count k now)
Steps-Keeps_example =
    Steps-Keeps near_test has_memory start_engine select_key run_engine empty_message render called
      taken another_call (1 ∷ 1 ∷ []) called_topology

-- The atoms in the other order get their own rows.
copied_swapped :
    session_copy_cached_gradient near_test has_memory called_session swapped_atoms none
    ≡ some (7, point 2 ∷ point 1 ∷ [])
unfolding session_copy_cached_gradient copy_loop find cell_differs all_near
copied_swapped = refl

session_copy_cached_gradient-FromStored_example :
    FromStored near_test called_session swapped_atoms none 7 (point 2 ∷ point 1 ∷ [])
session_copy_cached_gradient-FromStored_example =
    session_copy_cached_gradient-FromStored near_test has_memory called_session swapped_atoms none 7
      (point 2 ∷ point 1 ∷ []) copied_swapped

element_counts_match_iff_example :
    (element_counts_match (8 ∷ 1 ∷ 1 ∷ []) (1 ∷ 8 ∷ 1 ∷ []) ≡ true)
    ↔ SameElements (8 ∷ 1 ∷ 1 ∷ []) (1 ∷ 8 ∷ 1 ∷ [])
element_counts_match_iff_example = element_counts_match_iff (8 ∷ 1 ∷ 1 ∷ []) (1 ∷ 8 ∷ 1 ∷ []) refl
