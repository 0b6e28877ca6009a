-- ===== src/Potential/Write.antt =====
-- src/cpmdc_params.c: when `cpmdc_potential_result_write` writes a message.
use cpmdc.Base.{
  ℕ, ◌≤◌, ◌≡◌, refl, Bool, true, false, not, ◌&&◌, ◌||◌, ◌==◌, is_negative, Option, none, some,
  List, length, ltb, if◌then◌else◌, int_max, arith, ltb→ge,
}
use cpmdc.Base.Reals.{Reals}
use cpmdc.Potential.Select.{Image}
use cpmdc.Potential.{
  Builder, force, PotentialResult, potential_result, potential_result_flat_size,
  potential_result_write,
}

not_negative : (wrote w : ℕ) → wrote ≡ w → is_negative wrote ≡ false → w ≤ int_max
not_negative wrote w e h = ground arith

module _ {A : Type 0} (r : Reals A) (b : Builder A) where
  or_false : (t u : Bool) → (t || u) ≡ false → u ≡ false
  or_false true u e = absurd cc
  or_false false u e = e

  or_false_first : (t u : Bool) → (t || u) ≡ false → t ≡ false
  or_false_first true u e = absurd cc
  or_false_first false u e = refl

  -- The guards in front of a message that was written had passed.
  passed :
      (t : Bool) (s : ℕ) (rest : Option (PotentialResult A) × ℕ) {m : PotentialResult A} {w : ℕ}
      → (if t then (none, s) else rest) ≡ (some m, w)
      → (t ≡ false) × (rest ≡ (some m, w))
  passed true s rest e = absurd cc
  passed false s rest e = (refl, e)

  written :
      (wrote s capacity : ℕ) {made m : PotentialResult A} {w : ℕ}
      → ◌≡◌ {A = Option (PotentialResult A) × ℕ}
          (if is_negative wrote || ltb capacity wrote then (none, s) else (some made, wrote))
          (some m, w)
      → (m ≡ made) × (w ≤ capacity) × (w ≤ int_max)
  written wrote s capacity {made = made} {w = w} e =
      let (open_end, same) =
        passed (is_negative wrote || ltb capacity wrote) s (some made, wrote) e in
      let size : wrote ≡ w = cc in
      let small = or_false_first (is_negative wrote) (ltb capacity wrote) open_end in
      let fits =
        ltb→ge capacity wrote (or_false (is_negative wrote) (ltb capacity wrote) open_end) in
      (cc, omega (arith, size, fits), not_negative wrote w size small)

  -- A message is written into a buffer of the flat size or more only, it is the selected one, and
  -- the size that is reported lies within the buffer and is that of an `int`.
  pub potential_result_write-eq-some :
      (energy : A) (forces : List A) (stress_factor : A) (image : Option (Image A))
      (capacity size wrote : ℕ) (message : PotentialResult A)
      → potential_result_write r b energy forces stress_factor image capacity size
        ≡ (some message, wrote)
      → (message ≡ potential_result r b energy forces stress_factor image)
        × (potential_result_flat_size (length forces) ≤ capacity)
        × (wrote ≤ capacity)
        × (wrote ≤ int_max)
  unfolding potential_result_write
  potential_result_write-eq-some energy forces stress_factor image capacity size wrote message e =
      let required = potential_result_flat_size (length forces) in
      let (_, in_range) = passed (ltb int_max (length forces)) size _ e in
      let (roomy, sized) = passed (required == 0 || ltb capacity required) required _ in_range in
      let (_, rooted) =
        passed (not b.has_root || (ltb 0 (length forces) && not (b.grants force))) required _
          sized in
      let (_, taken) = passed (not b.takes_root) required _ rooted in
      let (same, within, small) =
        written (b.write_mem (potential_result r b energy forces stress_factor image) capacity)
          required capacity taken in
      (
        same,
        ltb→ge capacity required (or_false (required == 0) (ltb capacity required) roomy),
        within,
        small,
      )
