-- ===== src/Evaluate/Group.antt =====
-- src/cpmdc.c: the ranks of one calculator come to the same answer.
use cpmdc.Base.{
  ℕ, ◌≡◌, ◌==◌, refl, ◌∙◌, Bool, true, false, not, ◌&&◌, ◌||◌, Option, some, List, if◌then◌else◌,
  Bool-cases, inl, inr,
}
use cpmdc.Base.Results.{Result, ok, err}
use cpmdc.Session.{grad_len_from_atoms}
use cpmdc.Stop.{Stop, stop_arm, stop_disarm}
use cpmdc.Evaluate.{
  Collectives, Spread, Outcome, Agreed, EvalError, stopgm, not_converged, largest, take_root,
  rank_consensus, conclude, settle, energy_gradient_cell,
}

-- What MPI gives a rank with an outcome of its own: the collectives succeed, the two reduced flags
-- are set where those of the rank are, and the values are those of rank 0.
pub record Joins {A I : Type 0} (c : Collectives A I) (own : Outcome A I) (failing stopping : Bool)
    (root : A × List A) : Type 0 where
  pub comm : c.has_comm ≡ true
  pub size : ℕ
  pub sized : c.comm_size ≡ some size
  pub reduced :
      c.reduce_flags (not own.fine || not c.granted) own.stopped ≡ some (failing, stopping)
  pub own_failing : (not own.fine || not c.granted) ≡ true → failing ≡ true
  pub own_stopping : own.stopped ≡ true → stopping ≡ true
  pub values : c.cast_values own.energy own.grad ≡ some root
  pub image : I
  pub image_cast : c.cast_image own.image ≡ some image
  pub spread : A → A → A × A
  pub spread_reduced : (x y : A) → c.reduce_spread x y ≡ some (spread x y)

abbrev answer_of : {A I : Type 0} → Agreed A I → Result EvalError (A × List A)
answer_of (image, err why) = err why
answer_of (image, ok (o, spread)) =
    if o.stopped then err stopgm else if o.fine then ok (o.energy, o.grad) else err not_converged

-- The answer of every rank, by the reduced flags.
abbrev pub common : {A : Type 0} → Bool → Bool → A × List A → Result EvalError (A × List A)
common failing true root = err stopgm
common true false root = err not_converged
common false false root = ok root

or-true : (t : Bool) → (t || true) ≡ true
or-true true = refl
or-true false = refl

or-false : (t : Bool) → (t || false) ≡ t
or-false true = refl
or-false false = refl

and-false : (t : Bool) → (t && false) ≡ false
and-false true = refl
and-false false = refl

-- What is not set in the reduced flag is not set on the rank.
clear : (t s : Bool) → (t ≡ true → s ≡ true) → s ≡ false → t ≡ false
clear true s h e = let bad = h refl in absurd cc
clear false s h e = refl

fine_of : (t g : Bool) → (not t || not g) ≡ false → t ≡ true
fine_of true g e = refl
fine_of false g e = absurd cc

module _ {A I : Type 0} (differ : A → A → A) (greater : A → A → Bool) (zero_real : A) where
  consensus_lem :
      (c : Collectives A I) (own : Outcome A I) (failing stopping : Bool) (root : A × List A)
      → Joins c own failing stopping root
      → answer_of (rank_consensus differ greater zero_real c own) ≡ common failing stopping root
  unfolding rank_consensus take_root
  consensus_lem c own true true root j = rw (j.comm, j.sized, j.reduced, or-true own.stopped) refl
  consensus_lem c own false true root j = rw (j.comm, j.sized, j.reduced, or-true own.stopped) refl
  consensus_lem c own true false root j =
      let running = clear own.stopped false j.own_stopping refl in
      rw (j.comm, j.sized, j.reduced, running, and-false own.fine) refl
  consensus_lem c own false false root j =
      let running = clear own.stopped false j.own_stopping refl in
      let fine =
        fine_of own.fine c.granted
          (clear (not own.fine || not c.granted) false j.own_failing refl) in
      let deviation = largest differ greater zero_real own.grad root.1 in
      rw
        (
          j.comm,
          j.sized,
          j.reduced,
          j.values,
          j.image_cast,
          j.spread_reduced (differ own.energy root.0) deviation,
          running,
          fine,
        )
        refl

module _ {A I E : Type 0} (differ : A → A → A) (greater : A → A → Bool) (zero_real : A)
    (embed : E → I → Stop → E × Stop × Bool × A × List A × I) (reset_state : E → I → E × I) where
  -- What the embed call of a rank gave.
  abbrev pub outcome_of : E → I → Stop → Outcome A I
  outcome_of engine image stop =
      let (ran, recorded, fine, energy, grad, after) = embed engine image (stop_arm stop) in
      record {
        fine = fine;
        stopped = not (recorded.code == 0);
        energy = energy;
        grad = grad;
        image = after;
      }

  conclude-answer :
      (engine : E) (stop : Stop) (o : Outcome A I) (spread : Option (Spread A)) (image : I)
      → (conclude differ greater zero_real true embed reset_state engine stop o spread).answer
        ≡ answer_of (image, ok (o, spread))
  unfolding conclude
  conclude-answer engine stop o spread image = elim (Bool-cases o.stopped) [
    | inl e ↦ rw e refl
    | inr e ↦ rw e refl
  ]

  settle-answer :
      (engine : E) (stop : Stop) (agreed : Agreed A I)
      → (settle differ greater zero_real true embed reset_state engine stop agreed).answer
        ≡ answer_of agreed
  unfolding settle
  settle-answer engine stop (image, err why) = refl
  settle-answer engine stop (image, ok (o, spread)) = conclude-answer engine stop o spread image

  energy_gradient_cell-common :
      (c : Collectives A I) (n n3 : ℕ) (engine : E) (image : I) (stop : Stop)
      (spread : Option (Spread A)) (failing stopping : Bool) (root : A × List A)
      → grad_len_from_atoms n ≡ some n3
      → Joins c (outcome_of engine image stop) failing stopping root
      → (energy_gradient_cell differ greater zero_real true embed reset_state c n engine image stop
          spread).answer
        ≡ common failing stopping root
  unfolding energy_gradient_cell
  energy_gradient_cell-common c n n3 engine image stop spread failing stopping root e j =
      let (ran, recorded, fine, energy, grad, after) = embed engine image (stop_arm stop) in
      let disarmed = stop_disarm recorded in
      let own = outcome_of engine image stop in
      let agreed =
        consensus_lem differ greater zero_real c (outcome_of engine image stop) failing stopping
          root j in
      let settled = settle-answer ran disarmed (rank_consensus differ greater zero_real c own) in
      rw (e, energy_gradient_cell) (settled ∙ agreed)

  settle-engine :
      (ran : E) (disarmed : Stop) (c : Collectives A I) (own : Outcome A I)
      (failing stopping : Bool) (root : A × List A)
      → Joins c own failing stopping root
      → (settle differ greater zero_real true embed reset_state ran disarmed
          (rank_consensus differ greater zero_real c own)).engine
        ≡ (if stopping then (reset_state ran own.image).0 else ran)
  unfolding settle conclude rank_consensus take_root
  settle-engine ran disarmed c own true true root j =
      rw (j.comm, j.sized, j.reduced, or-true own.stopped) refl
  settle-engine ran disarmed c own false true root j =
      rw (j.comm, j.sized, j.reduced, or-true own.stopped) refl
  settle-engine ran disarmed c own true false root j =
      let running = clear own.stopped false j.own_stopping refl in
      rw (j.comm, j.sized, j.reduced, running) refl
  settle-engine ran disarmed c own false false root j =
      let running = clear own.stopped false j.own_stopping refl in
      let deviation = largest differ greater zero_real own.grad root.1 in
      rw
        (
          j.comm,
          j.sized,
          j.reduced,
          j.values,
          j.image_cast,
          j.spread_reduced (differ own.energy root.0) deviation,
          running,
        )
        refl

  -- On a rank that joins its group, an evaluation of n atoms, a number in range, with the embed layer
  -- there, answers by what the group reduced: a stop on any rank, else a failure on any rank, else
  -- the energy and the gradient of rank 0. With a stop on any rank it leaves the embed layer reset,
  -- else as its own call left it.
  pub energy_gradient_cell-Joins :
      (c : Collectives A I) (n n3 : ℕ) (engine : E) (image : I) (stop : Stop)
      (spread : Option (Spread A)) (failing stopping : Bool) (root : A × List A)
      → grad_len_from_atoms n ≡ some n3
      → Joins c (outcome_of engine image stop) failing stopping root
      → ((energy_gradient_cell differ greater zero_real true embed reset_state c n engine image stop
            spread).answer
          ≡ common failing stopping root)
        × ((energy_gradient_cell differ greater zero_real true embed reset_state c n engine image
              stop spread).engine
            ≡ (if stopping
                then (reset_state
                    (embed engine image (stop_arm stop)).0
                    (outcome_of engine image stop).image).0
                else (embed engine image (stop_arm stop)).0))
  unfolding energy_gradient_cell
  energy_gradient_cell-Joins c n n3 engine image stop spread failing stopping root e j =
      let (ran, recorded, fine, energy, grad, after) = embed engine image (stop_arm stop) in
      let left =
        settle-engine ran (stop_disarm recorded) c (outcome_of engine image stop) failing stopping
          root j in
      (
        energy_gradient_cell-common c n n3 engine image stop spread failing stopping root e j,
        rw (e, energy_gradient_cell) left,
      )
