-- ===== src/Overlay/Merge.antt =====
-- src/cpmdc.c: `cpmd_merge_common_into_arm` leaves alone what the arm sets in its own fields.
use cpmdc.Base.{take, All, ◌≡◌, ◌⊎◌, true, false, [], codes, text_eq}
use cpmdc.Base.Reals.{Reals}
use cpmdc.Force.{Pointer, null, other, items}
use cpmdc.Overlay.Effective.{Params, Config, Section, IsOther, is_positive}

-- The message has no sections, or sections of which none is &SYSTEM or &DFT.
abbrev pub OthersOnly : {A : Type 0} → Pointer (Section A) → Type 0
OthersOnly null = Unit
OthersOnly other = ⊥
OthersOnly (items sections) = All IsOther sections

module _ {A : Type 0} (r : Reals A) where
  -- A reported scalar of the arm is at its default, or the merged one is the same.
  record Unreplaced (arm merged : Config A) : Type 0 where
    pub functional :
        (text_eq arm.functional (codes "BLYP") ≡ true) ⊎ (merged.functional ≡ arm.functional)
    pub cutoff : (r.same arm.cutoff_ry (r.decimal 70 0) ≡ true) ⊎ (merged.cutoff_ry ≡ arm.cutoff_ry)
    pub charge : (arm.charge ≡ 0) ⊎ (merged.charge ≡ arm.charge)
    pub multiplicity : (arm.multiplicity ≡ 1) ⊎ (merged.multiplicity ≡ arm.multiplicity)

  -- A field of the arm is unset or at its default, or it is the merged scalar.
  pub record ArmWins (arm : Params A) (merged : Config A) : Type 0 where
    pub functional :
        (arm.functional ≡ [])
        ⊎ (text_eq (take 63 arm.functional) (codes "BLYP") ≡ true)
        ⊎ (merged.functional ≡ take 63 arm.functional)
    pub cutoff :
        (r.positive arm.cut_off_ry ≡ false)
        ⊎ (r.same arm.cut_off_ry (r.decimal 70 0) ≡ true)
        ⊎ (merged.cutoff_ry ≡ arm.cut_off_ry)
    pub charge : (arm.charge ≡ 0) ⊎ (merged.charge ≡ arm.charge)
    pub multiplicity :
        (is_positive arm.multiplicity ≡ false)
        ⊎ (arm.multiplicity ≡ 1)
        ⊎ (merged.multiplicity ≡ arm.multiplicity)
