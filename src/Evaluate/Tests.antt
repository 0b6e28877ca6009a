-- ===== src/Evaluate/Tests.antt =====
-- src/cpmdc.c: two ranks, with whole numbers for the reals and for the states of the embed layer.
use cpmdc.Base.{
  ℕ, suc, ◌+◌, ◌-◌, ◌≡◌, refl, Bool, true, false, ltb, none, some, List, [], ◌∷◌, ◌||◌,
}
use cpmdc.Session.{grad_len_from_atoms}
use cpmdc.Stop.{Stop, stop_arm}
use cpmdc.Evaluate.{Collectives, energy_gradient_cell}
use cpmdc.Evaluate.Group.{Joins, common, outcome_of, energy_gradient_cell-Joins}

abbrev distance : ℕ → ℕ → ℕ
distance x y = (x - y) + (y - x)

abbrev greater : ℕ → ℕ → Bool
greater x y = ltb y x

-- The embed call of a rank: its state counts the calls, and the image is the state.
abbrev run_embed : ℕ → ℕ → Stop → ℕ × Stop × Bool × ℕ × List ℕ × ℕ
run_embed engine image stop = (suc engine, stop, true, engine, engine ∷ 2 ∷ 3 ∷ [], engine)

abbrev reset : ℕ → ℕ → ℕ × ℕ
reset engine image = (0, 0)

-- The group of rank 0 with energy 5, where another rank was stopped or none was.
abbrev group : Bool → Collectives ℕ ℕ
group stopping = record {
  has_comm = true;
  comm_size = some 2;
  granted = true;
  reduce_flags = λ failing own. some (failing, own || stopping);
  cast_values = λ energy grad. some (5, 5 ∷ 2 ∷ 3 ∷ []);
  cast_image = λ image. some 5;
  reduce_spread = λ x y. some (x, y);
}

abbrev idle : Stop
idle = record { code = 0; catching = false; hooked = false }

range : grad_len_from_atoms 1 ≡ some 3
unfolding grad_len_from_atoms
range = refl

stopped-Joins :
    Joins
      (group true)
      (outcome_of distance greater 0 run_embed reset 7 0 idle)
      false
      true
      (5, 5 ∷ 2 ∷ 3 ∷ [])
unfolding stop_arm
stopped-Joins = record {
  comm = refl;
  size = 2;
  sized = refl;
  reduced = refl;
  own_failing = λ e. e;
  own_stopping = λ e. refl;
  values = refl;
  image = 5;
  image_cast = refl;
  spread = λ x y. (x, y);
  spread_reduced = λ x y. refl;
}

energy_gradient_cell-Joins_example :
    ((energy_gradient_cell distance greater 0 true run_embed reset
        (group true)
        1
        7
        0
        idle
        none).answer
      ≡ common false true (5, 5 ∷ 2 ∷ 3 ∷ []))
    × ((energy_gradient_cell distance greater 0 true run_embed reset
          (group true)
          1
          7
          0
          idle
          none).engine
        ≡ 0)
energy_gradient_cell-Joins_example =
    energy_gradient_cell-Joins distance greater 0 run_embed reset (group true) 1 3 7 0 idle none
      false true (5, 5 ∷ 2 ∷ 3 ∷ []) range stopped-Joins
