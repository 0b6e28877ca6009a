-- ===== src/Adopt/Tests.antt =====
-- src/cpmdc_adopt.c: the second pair of four processes.
use cpmdc.Base.{
  ◌≡◌, refl, true, false, Option, none, some, List, [], ◌∷◌, ltb, ◌||◌, if◌then◌else◌, arith,
}
use cpmdc.Base.Results.{ok, err}
use cpmdc.Adopt.{Member, Reduced, AdoptError, adopt_resolve, adopt_calculator_comm}
use cpmdc.Adopt.Block.{
  Distinct, IsBlock, IsReduction, HoldsBlock, adopt_resolve-IsBlock, adopt_resolve-accepts,
  adopt_calculator_comm-HoldsBlock,
}

abbrev rank_2 : Member
rank_2 = record { world_rank = 2; live = false }

abbrev rank_3 : Member
rank_3 = record { world_rank = 3; live = false }

abbrev pair : List Member
pair = rank_2 ∷ rank_3 ∷ []

abbrev pair_reduced : Reduced
pair_reduced = record { lo = 2; hi = 3; any_live = false }

-- An MPI of the one communicator `pair`.
abbrev reduce_pair : List Member → Option Reduced
reduce_pair [] = none
reduce_pair (m ∷ []) = none
reduce_pair (m ∷ n ∷ []) = some (record {
  lo = if ltb m.world_rank n.world_rank then m.world_rank else n.world_rank;
  hi = if ltb m.world_rank n.world_rank then n.world_rank else m.world_rank;
  any_live = m.live || n.live;
})
reduce_pair (m ∷ n ∷ o ∷ comm) = none

reduce_pair-IsReduction :
    (comm : List Member) (r : Reduced) → reduce_pair comm ≡ some r → IsReduction comm r
reduce_pair-IsReduction [] r e = absurd cc
reduce_pair-IsReduction (m ∷ []) r e = absurd cc
reduce_pair-IsReduction (m ∷ n ∷ o ∷ comm) r e = absurd cc
reduce_pair-IsReduction (m ∷ n ∷ []) r e =
    let lo : r.lo ≡ (if ltb m.world_rank n.world_rank then m.world_rank else n.world_rank) =
      ground arith in
    let hi : r.hi ≡ (if ltb m.world_rank n.world_rank then n.world_rank else m.world_rank) =
      ground arith in
    let any : r.any_live ≡ (m.live || n.live) = ground arith in
    record {
      lowest = ground arith;
      highest = ground arith;
      between = ((ground arith, ground arith), ((ground arith, ground arith), tt));
      quiet = (λ h. (ground arith, (ground arith, tt)), λ h. ground (arith, h.0, h.1));
    }

pair_resolved : adopt_resolve reduce_pair true pair 2 ≡ ok 1
unfolding adopt_resolve
pair_resolved = refl

pair-Distinct : Distinct pair
pair-Distinct k = ground arith

adopt_resolve-IsBlock_example : IsBlock pair 1
adopt_resolve-IsBlock_example =
    adopt_resolve-IsBlock reduce_pair reduce_pair-IsReduction true pair 2 1 pair-Distinct
      pair_resolved

pair-IsBlock : IsBlock pair 1
pair-IsBlock = record {
  every_rank = λ k h l. ground arith;
  no_other = ((omega arith, omega arith), ((omega arith, omega arith), tt));
  none_live = (refl, (refl, tt));
}

adopt_resolve-accepts_example : adopt_resolve reduce_pair true pair 2 ≡ ok 1
adopt_resolve-accepts_example =
    adopt_resolve-accepts reduce_pair reduce_pair-IsReduction pair 1 pair_reduced pair-IsBlock
      (omega arith) refl

adopt_calculator_comm-HoldsBlock_example :
    HoldsBlock (adopt_calculator_comm reduce_pair true true none pair 2).1
    × ((e : AdoptError)
        → (adopt_calculator_comm reduce_pair true true none pair 2).0 ≡ err e
        → (adopt_calculator_comm reduce_pair true true none pair 2).1 ≡ none)
adopt_calculator_comm-HoldsBlock_example =
    adopt_calculator_comm-HoldsBlock reduce_pair reduce_pair-IsReduction true true none pair 2
      pair-Distinct tt
