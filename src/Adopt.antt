-- ===== src/Adopt.antt =====
-- src/cpmdc_adopt.c with MPI, and `cpmdc_adopt_calculator_comm` of src/cpmdc.c.
-- A communicator is the list of its members. The answers of MPI and of the embed layer are
-- parameters; -1 of `cpmdc_adopt_resolve` is an error with its message.
pub mod Block
mod Tests
use cpmdc.Base.{
  ℕ, ◌+◌, ◌-◌, ◌/◌, ◌%◌, Bool, true, false, not, ◌&&◌, ◌||◌, Option, none, some, List, length, ltb,
  ◌==◌, if◌then◌else◌, is_negative,
}
use cpmdc.Base.Results.{Result, ok, err, ◌>>=◌, ◌>>◌, refuse_if, or_fail}

-- A process: its rank in MPI_COMM_WORLD, and whether it holds a live session.
pub record Member : Type 0 where
  pub world_rank : ℕ
  pub live : Bool

-- The three maxima of `MPI_Allreduce`, the first with its sign undone.
pub record Reduced : Type 0 where
  pub lo : ℕ
  pub hi : ℕ
  pub any_live : Bool

-- `refused` is the message "CPMD calculator bind refused".
pub data AdoptError : Type 0 where
  refused size_differs session_is_live not_a_block : AdoptError

-- `usable` is whether the pointer, its size and the communicator are good, MPI is initialized and
-- answers the queries of rank and size.
unfoldable pub adopt_resolve :
    (List Member → Option Reduced) → Bool → List Member → ℕ → Result AdoptError ℕ
adopt_resolve allreduce usable comm ranks_per_calc = do
  let size = length comm
  refuse_if (not usable || size == 0) refused
  refuse_if
      (not (is_negative ranks_per_calc) && ltb 0 ranks_per_calc && not (size == ranks_per_calc))
      size_differs
  v ← or_fail (allreduce comm) refused
  refuse_if v.any_live session_is_live
  refuse_if (not (v.hi - v.lo + 1 == size) || not (v.lo % size == 0)) not_a_block
  ok (v.lo / size)

-- The block under `CPMDC_HAS_CPMD` and `cpmdc_adopt_commit`.
unfoldable pub adopt_commit :
    Bool → ℕ → List Member → Option (List Member) → Result AdoptError ℕ × Option (List Member)
adopt_commit true index comm adopted = (ok index, some comm)
adopt_commit false index comm adopted = (err refused, adopted)

-- `g_have` and `g_comm` are one option. `stores` is whether the embed layer takes the communicator.
unfoldable pub adopt_calculator_comm :
    (List Member → Option Reduced)
    → Bool
    → Bool
    → Option (List Member)
    → List Member
    → ℕ
    → Result AdoptError ℕ × Option (List Member)
adopt_calculator_comm allreduce usable stores adopted comm ranks_per_calc =
    elim (adopt_resolve allreduce usable comm ranks_per_calc) [
      | err e ↦ (err e, adopted)
      | ok index ↦ adopt_commit stores index comm adopted
    ]
