-- ===== src/Evaluate.antt =====
-- src/cpmdc.c: `energy_gradient_cell_with_params` and the consensus of the ranks of one calculator.
-- A `double` is a value of a type A, I is the image of the embed layer and E its state. The embed
-- layer and the collectives of MPI are parameters: what they return on this rank.
pub mod Group
mod Tests
use cpmdc.Base.{
  ℕ, ◌*◌, ◌==◌, Bool, true, false, not, ◌&&◌, ◌||◌, Option, none, some, List, [], ◌∷◌,
  if◌then◌else◌,
}
use cpmdc.Base.Results.{Result, ok, err, ◌>>=◌, ◌>>◌, refuse_if, or_fail}
use cpmdc.Session.{grad_len_from_atoms}
use cpmdc.Stop.{Stop, stop_arm, stop_disarm}

-- The results of the calls that `rank_consensus` makes; `none` is a call that fails.
pub record Collectives (A I : Type 0) : Type 0 where
  -- `rank_consensus_comm`: whether consensus is on and MPI is running.
  pub has_comm : Bool
  pub comm_size : Option ℕ
  -- `malloc` of the buffer for the values of rank 0.
  pub granted : Bool
  -- MPI_Allreduce of the two flags.
  pub reduce_flags : Bool → Bool → Option (Bool × Bool)
  -- MPI_Bcast from rank 0 of the energy with the gradient, and of the image.
  pub cast_values : A → List A → Option (A × List A)
  pub cast_image : I → Option I
  -- MPI_Allreduce of the two deviations.
  pub reduce_spread : A → A → Option (A × A)

-- CPMDCRankSpread
pub record Spread (A : Type 0) : Type 0 where
  pub ranks : ℕ
  pub energy_h : A
  pub gradient_h_bohr : A

-- `*ok`, `*stop != 0`, and the results of an embed call.
pub record Outcome (A I : Type 0) : Type 0 where
  pub fine : Bool
  pub stopped : Bool
  pub energy : A
  pub grad : List A
  pub image : I

-- The messages of `fail_msg`.
pub data EvalError : Type 0 where
  invalid_arguments not_available collective_failed stopgm not_converged : EvalError

-- `for (i = 0; i < n3; ++i)`: the largest difference from rank 0.
unfoldable pub largest : {A : Type 0} → (A → A → A) → (A → A → Bool) → A → List A → List A → A
largest differ greater top (x ∷ xs) (y ∷ ys) =
    let d = differ x y in largest differ greater (if greater d top then d else top) xs ys
largest differ greater top [] ys = top
largest differ greater top (x ∷ xs) [] = top

-- The image as it is left, and the outcome with the spread where no collective fails.
abbrev pub Agreed : Type 0 → Type 0 → Type 0
Agreed A I = I × Result EvalError (Outcome A I × Option (Spread A))

module _ {A I : Type 0} (differ : A → A → A) (greater : A → A → Bool) (zero_real : A) where
  -- With both flags clear: the values of rank 0, and the spread.
  unfoldable pub take_root : Collectives A I → ℕ → Outcome A I → Agreed A I
  take_root c size own = elim (c.cast_values own.energy own.grad) [
    | none ↦ (own.image, err collective_failed)
    | some root ↦ elim (c.cast_image own.image) [
      | none ↦ (own.image, err collective_failed)
      | some image ↦
          let deviation = largest differ greater zero_real own.grad root.1 in
          elim (c.reduce_spread (differ own.energy root.0) deviation) [
            | none ↦ (image, err collective_failed)
            | some spread ↦ (
              image,
              ok (
                record own { energy = root.0; grad = root.1; image = image },
                some (record { ranks = size; energy_h = spread.0; gradient_h_bohr = spread.1 }),
              ),
            )
          ]
    ]
  ]

  -- `rank_consensus`
  unfoldable pub rank_consensus : Collectives A I → Outcome A I → Agreed A I
  rank_consensus c own = if not c.has_comm then (own.image, ok (own, none)) else elim c.comm_size [
    | none ↦ (own.image, err collective_failed)
    | some size ↦ elim (c.reduce_flags (not own.fine || not c.granted) own.stopped) [
      | none ↦ (own.image, err collective_failed)
      | some flags ↦
          if flags.0 || flags.1
          then (
            own.image,
            ok (
              record own { fine = own.fine && not flags.0; stopped = own.stopped || flags.1 },
              none,
            ),
          )
          else take_root c size own
    ]
  ]

module _ {A I E : Type 0} (differ : A → A → A) (greater : A → A → Bool) (zero_real : A)
    (available : Bool) (embed : E → I → Stop → E × Stop × Bool × A × List A × I)
    (reset_state : E → I → E × I) where
  -- What a call leaves behind: its answer, the embed layer, the image, the stop record, the spread.
  pub record Call : Type 0 where
    pub answer : Result EvalError (A × List A)
    pub engine : E
    pub image : I
    pub stop : Stop
    pub spread : Option (Spread A)

  -- The answer where the consensus gave an outcome.
  unfoldable pub conclude : E → Stop → Outcome A I → Option (Spread A) → Call
  conclude engine stop o spread =
      let (reset_engine, reset_image) = reset_state engine o.image in
      if o.stopped
      then record {
        answer = err stopgm;
        engine = reset_engine;
        image = reset_image;
        stop = stop;
        spread = spread;
      }
      else record {
        answer = if o.fine then ok (o.energy, o.grad) else err not_converged;
        engine = engine;
        image = o.image;
        stop = stop;
        spread = spread;
      }

  -- From the consensus on: a collective that failed, or the outcome.
  unfoldable pub settle : E → Stop → Agreed A I → Call
  settle engine stop (left_image, err why) = record {
    answer = err why;
    engine = engine;
    image = left_image;
    stop = stop;
    spread = none;
  }
  settle engine stop (left_image, ok (outcome, found)) = conclude engine stop outcome found

  -- `energy_gradient_cell_with_params` for n atoms. Null pointers are not values of the model.
  unfoldable pub energy_gradient_cell :
      Collectives A I → ℕ → E → I → Stop → Option (Spread A) → Call
  energy_gradient_cell c n engine image stop spread =
      let refuse : EvalError → Call = λ why. record {
        answer = err why;
        engine = engine;
        image = image;
        stop = stop;
        spread = spread;
      } in
      let (ran, recorded, fine, energy, grad, after) = embed engine image (stop_arm stop) in
      let disarmed = stop_disarm recorded in
      let own : Outcome A I = record {
        fine = fine;
        stopped = not (recorded.code == 0);
        energy = energy;
        grad = grad;
        image = after;
      } in
      elim (grad_len_from_atoms n) [
        | none ↦ refuse invalid_arguments
        | some n3 ↦
            if available
            then settle ran disarmed (rank_consensus differ greater zero_real c own)
            else refuse not_available
      ]
