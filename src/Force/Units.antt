-- ===== src/Force/Units.antt =====
-- src/cpmdc_params.c: the unit names of a `ForceInput` and the factors of a result.
use cpmdc.Base.{
  ◌≡◌, refl, Bool, true, false, ◌||◌, Option, none, some, [], ◌∷◌, map, if◌then◌else◌, Text, codes,
  to_lower, text_eq_ci, text_eq_ci-map,
}
use cpmdc.Base.Options.{◌>>=◌}
use cpmdc.Base.Reals.{Reals}

-- `!unit.str || unit.len <= 0`
abbrev is_missing : Text → Bool
is_missing [] = true
is_missing (c ∷ cs) = false

module _ {A : Type 0} (r : Reals A) where
  -- CPMDC_BOHR_TO_ANGSTROM
  abbrev pub bohr : A
  bohr = r.decimal 529177210903 12

  unfoldable pub length_factor : Text → Option A
  length_factor unit =
      if is_missing unit
        || text_eq_ci unit (codes "angstrom")
        || text_eq_ci unit (codes "angstroms")
        || text_eq_ci unit (codes "a")
        || text_eq_ci unit (codes "aa")
      then some (r.decimal 1 0)
      else if text_eq_ci unit (codes "bohr")
          || text_eq_ci unit (codes "au")
          || text_eq_ci unit (codes "a.u.")
          || text_eq_ci unit (codes "atomic")
      then some bohr
      else if text_eq_ci unit (codes "nm") || text_eq_ci unit (codes "nanometer")
      then some (r.decimal 10 0)
      else none

  unfoldable pub energy_factor : Text → Option A
  energy_factor unit =
      if is_missing unit
        || text_eq_ci unit (codes "hartree")
        || text_eq_ci unit (codes "ha")
        || text_eq_ci unit (codes "au")
        || text_eq_ci unit (codes "a.u.")
      then some (r.decimal 1 0)
      else if text_eq_ci unit (codes "ev") || text_eq_ci unit (codes "electronvolt")
      then some (r.decimal 27211386245988 12)
      else if text_eq_ci unit (codes "ry") || text_eq_ci unit (codes "rydberg")
      then some (r.decimal 2 0)
      else if text_eq_ci unit (codes "kj/mol") || text_eq_ci unit (codes "kjmol")
      then some (r.decimal 2625499639479 9)
      else if text_eq_ci unit (codes "kcal/mol") || text_eq_ci unit (codes "kcalmol")
      then some (r.decimal 6275094740631 10)
      else none

  -- The factors of the energy and of the forces; `none` is the return of -1.
  unfoldable pub result_factors : Text → Text → Option (A × A)
  result_factors length_unit energy_unit = length_factor length_unit >>= λ per_length.
      energy_factor energy_unit >>= λ energy. some (energy, r.div (r.mul energy per_length) bohr)

  unfoldable pub stress_result_factors : Text → Text → Option (A × A)
  stress_result_factors length_unit energy_unit = length_factor length_unit >>= λ per_length.
      energy_factor energy_unit >>= λ energy.
      let scale = r.div per_length bohr in
      some (energy, r.mul (r.mul (r.mul energy scale) scale) scale)

  is_missing-map : (a b : Text) → map to_lower a ≡ map to_lower b → is_missing a ≡ is_missing b
  is_missing-map [] [] e = refl
  is_missing-map [] (y ∷ ys) e = absurd cc
  is_missing-map (x ∷ xs) [] e = absurd cc
  is_missing-map (x ∷ xs) (y ∷ ys) e = refl

  length_factor-map :
      (a b : Text) → map to_lower a ≡ map to_lower b → length_factor a ≡ length_factor b
  unfolding length_factor
  length_factor-map a b e =
      let eq : (lit : Text) → text_eq_ci a lit ≡ text_eq_ci b lit =
        λ lit. text_eq_ci-map a b lit e in
      rw
        (
          is_missing-map a b e,
          eq (codes "angstrom"),
          eq (codes "angstroms"),
          eq (codes "a"),
          eq (codes "aa"),
          eq (codes "bohr"),
          eq (codes "au"),
          eq (codes "a.u."),
          eq (codes "atomic"),
          eq (codes "nm"),
          eq (codes "nanometer"),
        )
        refl

  energy_factor-map :
      (a b : Text) → map to_lower a ≡ map to_lower b → energy_factor a ≡ energy_factor b
  unfolding energy_factor
  energy_factor-map a b e =
      let eq : (lit : Text) → text_eq_ci a lit ≡ text_eq_ci b lit =
        λ lit. text_eq_ci-map a b lit e in
      rw
        (
          is_missing-map a b e,
          eq (codes "hartree"),
          eq (codes "ha"),
          eq (codes "au"),
          eq (codes "a.u."),
          eq (codes "ev"),
          eq (codes "electronvolt"),
          eq (codes "ry"),
          eq (codes "rydberg"),
          eq (codes "kj/mol"),
          eq (codes "kjmol"),
          eq (codes "kcal/mol"),
          eq (codes "kcalmol"),
        )
        refl

  -- The energy factor of a pair.
  abbrev pub first_of : Option (A × A) → Option A
  first_of none = none
  first_of (some (energy, other)) = some energy

  first_of-result_factors :
      (a b : Text) → first_of (result_factors a b) ≡ first_of (stress_result_factors a b)
  unfolding result_factors stress_result_factors
  first_of-result_factors a b = first_of-both (length_factor a) (energy_factor b)
    where
      first_of-both :
          (l e : Option A)
          → first_of (
              l >>= λ per_length.
              e >>= λ energy. some (energy, r.div (r.mul energy per_length) bohr))
            ≡ first_of (
                l >>= λ per_length. e >>= λ energy.
                let scale = r.div per_length bohr in
                some (energy, r.mul (r.mul (r.mul energy scale) scale) scale))
      first_of-both none e = refl
      first_of-both (some l) none = refl
      first_of-both (some l) (some e) = refl

  -- For unit names that differ at most in case, for length and for energy, both functions give the
  -- factors of the other names; and for any names the stress factors are defined exactly where the
  -- force factors are, with the same energy factor.
  pub result_factors-map :
      (a b e f : Text)
      → map to_lower a ≡ map to_lower b
      → map to_lower e ≡ map to_lower f
      → (result_factors a e ≡ result_factors b f)
        × (stress_result_factors a e ≡ stress_result_factors b f)
        × (first_of (result_factors a e) ≡ first_of (stress_result_factors b f))
  unfolding result_factors stress_result_factors
  result_factors-map a b e f same_length same_energy =
      let place = length_factor-map a b same_length in
      let work = energy_factor-map e f same_energy in
      (rw (place, work) refl, rw (place, work) refl, rw (place, work) (first_of-result_factors b f))
