-- ===== src/Potential/Complete.antt =====
-- src/cpmdc_params.c: what stands in a message of `cpmdc_potential_result_write`.
use cpmdc.Base.{
  ◌≢◌, ◌≤◌, ◌<◌, ◌⊎◌, ◌∙◌, sym, subst, length, lt→ltb, le→leb, arith, replicate, at, map, ◌++◌, suc,
  [], ◌∷◌, Option-cases, inl, inr, ℕ, ◌≡◌, refl, true, Option, none, some, List,
}
use cpmdc.Base.Reals.{Reals}
use cpmdc.Potential.Select.{
  Image, Snapshot, Counted, select_charge, select_multi, select_md, select_properties, or_negated,
  or_zeros, or_default, counted, counted_of, select_components,
}
use cpmdc.Potential.{
  Builder, Field, force, components, charge, multi, md, dipole, polarizability, gradient,
  PotentialResult, new_list, new_counted, counted_valid, potential_result,
}

some_inj : {B : Type 0} {a b : B} → ◌≡◌ {A = Option B} (some a) (some b) → a ≡ b
some_inj e = cc

none-some : {B : Type 0} {o : Option B} {b : B} → o ≡ none → o ≡ some b → ⊥
none-some e f = absurd cc

module _ {A : Type 0} (r : Reals A) (b : Builder A) where
  abbrev zero_real : A
  zero_real = r.decimal 0 0

  -- The numbers of the property snapshot, or where it is missing or has none, the negated forces.
  abbrev pub IsGradient : Image A → List A → List A → Type 0
  IsGradient image forces gradients =
      ((gradients ≡ map r.negate forces)
        × ((s : Snapshot A) → image.prop ≡ some s → counted s.hessian 4096 ≡ []))
      ⊎ ((s : Snapshot A) × (image.prop ≡ some s) × (gradients ≡ counted s.hessian 4096))

  -- The list of a valid snapshot is not empty.
  abbrev pub HasNumbers : Option (Counted A) → ℕ → Type 0
  HasNumbers snapshot cap = counted_of snapshot cap ≢ some []

  -- The sections that a message has after an evaluation with valid energies.
  pub record IsComplete (image : Image A) (comps forces : List A) (m : PotentialResult A)
      : Type 0 where
    pub forces_stand : m.force_list ≡ some forces
    pub energies_stand : m.energy_components ≡ some comps
    pub energies_flag : m.components_valid ≡ true
    pub charge_flag : m.charge_valid ≡ true
    pub charge_stands : m.charge_integrals ≢ none
    pub multi_flag : m.multi_state_valid ≡ true
    pub multi_stands : m.multi_state_energies ≢ none
    pub md_flag : m.md_trajectory_valid ≡ true
    pub md_stands : m.md_trajectory_row ≢ none
    pub gradient_stands :
        (gradients : List A) × (m.gradient_list ≡ some gradients)
        × IsGradient image forces gradients
    pub dipole_stands : m.dipole_list ≢ none
    pub polarizability_stands : m.polarizability_list ≢ none

  new_list_granted :
      (field : Field) (xs : List A) → b.grants field ≡ true → new_list r b field (some xs) ≡ some xs
  unfolding new_list
  new_list_granted field xs e = rw e refl

  counted_valid_granted :
      (field : Field) (xs : List A)
      → b.grants field ≡ true
      → counted_valid r b field (some xs) ≡ true
  unfolding counted_valid
  counted_valid_granted field [] e = refl
  counted_valid_granted field (x ∷ xs) e = e

  new_counted_granted :
      (field : Field) (n : ℕ) (xs : List A)
      → b.grants field ≡ true
      → new_counted r b field (some (or_zeros r (suc n) xs)) ≢ none
  unfolding new_counted
  new_counted_granted field n [] e h = absurd cc
  new_counted_granted field n (x ∷ xs) e h = absurd cc

  or_default-some :
      (own energy : Option (List A)) (make : List A → List A) (comps : List A)
      → energy ≡ some comps
      → (xs : List A) × (or_default own energy make ≡ some xs)
  or_default-some (some own) energy make comps e = (own, refl)
  or_default-some none none make comps e = absurd cc
  or_default-some none (some found) make comps e = (make found, refl)

  new_counted_made :
      (field : Field) (xs : List A)
      → b.grants field ≡ true
      → xs ≢ []
      → new_counted r b field (some xs) ≡ some xs
  unfolding new_counted
  new_counted_made field [] e h = absurd (h refl)
  new_counted_made field (x ∷ xs) e h = rw e refl

  or_default-filled :
      (own energy : Option (List A)) (make : List A → List A) (comps xs : List A)
      → energy ≡ some comps
      → own ≢ some []
      → ((cs : List A) → make cs ≢ [])
      → or_default own energy make ≡ some xs
      → xs ≢ []
  or_default-filled (some own) energy make comps xs e h k f = λ g. h cc
  or_default-filled none none make comps xs e h k f = absurd cc
  or_default-filled none (some found) make comps xs e h k f = λ g. k found cc

  or_negated-cases :
      (xs forces : List A)
      → 0 < length forces
      → length forces ≤ 4096
      → (or_negated r xs forces ≢ [])
        × (((or_negated r xs forces ≡ map r.negate forces) × (xs ≡ []))
            ⊎ (or_negated r xs forces ≡ xs))
  unfolding or_negated
  or_negated-cases (x ∷ xs) forces few many = (λ e. absurd cc, inr refl)
  or_negated-cases [] [] few many = absurd (omega arith)
  or_negated-cases [] (f ∷ forces) few many =
      let fits = le→leb (length (f ∷ forces)) 4096 many in
      let some_forces = lt→ltb 0 (length (f ∷ forces)) few in
      rw (some_forces, fits) (λ e. absurd cc, inl (refl, refl))

  -- How the gradient of a snapshot becomes that of the message.
  snapshot-IsGradient :
      (image : Image A) (s : Snapshot A) (forces : List A)
      → image.prop ≡ some s
      → 0 < length forces
      → length forces ≤ 4096
      → (or_negated r (counted s.hessian 4096) forces ≢ [])
        × IsGradient image forces (or_negated r (counted s.hessian 4096) forces)
  snapshot-IsGradient image s forces e few many =
      let (filled, which) = or_negated-cases (counted s.hessian 4096) forces few many in
      (
        filled,
        elim which [
          | inl (negated, none_stored) ↦ inl (
            negated,
            λ t f.
                let same : t ≡ s = some_inj (sym f ∙ e) in
                subst (λ u. counted u.hessian 4096 ≡ []) (sym same) none_stored,
          )
          | inr stored ↦ inr (s, e, stored)
        ],
      )

  negated_forces :
      (forces : List A)
      → 0 < length forces
      → length forces ≤ 4096
      → or_negated r [] forces ≡ map r.negate forces
  negated_forces forces few many = elim (or_negated-cases [] forces few many).1 [
    | inl (e, h) ↦ e
    | inr e ↦ absurd ((or_negated-cases [] forces few many).0 e)
  ]

  select_properties-some :
      (image : Image A) (comps forces : List A)
      → image.energy ≡ some comps
      → 0 < length forces
      → length forces ≤ 4096
      → (gradients dipoles polars : List A) × (gradients ≢ [])
        × IsGradient image forces gradients
        × (select_properties r (some image) forces
            ≡ some (record {
              gradient = gradients;
              dipole = or_zeros r 3 dipoles;
              polarizability = or_zeros r 9 polars;
            }))
  unfolding select_properties
  select_properties-some image comps forces e few many = elim (Option-cases image.prop) [
    | inl missing ↦ (
      or_negated r [] forces,
      [],
      [],
      (or_negated-cases [] forces few many).0,
      inl (negated_forces forces few many, λ s f. absurd (none-some missing f)),
      rw (missing, e) refl,
    )
    | inr (s, found) ↦
        let (filled, made) = snapshot-IsGradient image s forces found few many in
        (
          or_negated r (counted s.hessian 4096) forces,
          counted s.dipole 3,
          counted s.polarizability 9,
          filled,
          made,
          rw found refl,
        )
  ]

  -- With valid energies in the image, every list granted, 1 to 4096 forces, and at least one number
  -- in each valid snapshot of the states and of the trajectory: the message carries the forces and
  -- the energies as they are, a list of charge integrals, of states and of the trajectory with their
  -- flags set, a dipole, a polarizability, and as gradient the numbers of the property snapshot, or
  -- the negated forces where that is not valid or has no number.
  pub potential_result-IsComplete :
      (energy : A) (forces : List A) (stress_factor : A) (image : Image A) (comps : List A)
      → image.energy ≡ some comps
      → ((field : Field) → b.grants field ≡ true)
      → 0 < length forces
      → length forces ≤ 4096
      → HasNumbers image.multi 64
      → HasNumbers image.md 32
      → IsComplete image comps forces
          (potential_result r b energy forces stress_factor (some image))
  unfolding potential_result select_components select_charge select_multi select_md
  potential_result-IsComplete energy forces stress_factor image comps e granted few many states_in
        row_in =
      let (charges, ce) =
        or_default-some image.charge image.energy (λ cs. replicate 4 zero_real) comps e in
      let make_states : List A → List A = λ cs. at zero_real cs 0 ∷ replicate 5 zero_real in
      let (states, me) =
        or_default-some (counted_of image.multi 64) image.energy make_states comps e in
      let make_row : List A → List A =
        λ cs. map (at zero_real cs) (0 ∷ 1 ∷ 2 ∷ 3 ∷ 4 ∷ 8 ∷ []) ++ replicate 6 zero_real in
      let (row, re) = or_default-some (counted_of image.md 32) image.energy make_row comps e in
      let (gradients, dipoles, polars, filled, made, pe) =
        select_properties-some image comps forces e few many in
      let charged = new_list_granted charge charges (granted charge) in
      let named = new_list_granted components comps (granted components) in
      let states_made = new_counted_made multi states (granted multi) (
        or_default-filled (counted_of image.multi 64) image.energy make_states comps states e
          states_in (λ cs g. absurd cc) me) in
      let row_made = new_counted_made md row (granted md) (
        or_default-filled (counted_of image.md 32) image.energy make_row comps row e row_in
          (λ cs g. absurd cc) re) in
      let gradient_made = new_counted_made gradient gradients (granted gradient) filled in
      record {
        forces_stand = new_list_granted force forces (granted force);
        energies_stand = rw e named;
        energies_flag = rw (e, named) refl;
        charge_flag = rw (ce, charged) refl;
        charge_stands = rw (ce, charged) (λ h. absurd cc);
        multi_flag = rw me (counted_valid_granted multi states (granted multi));
        multi_stands = rw (me, states_made) (λ h. absurd cc);
        md_flag = rw re (counted_valid_granted md row (granted md));
        md_stands = rw (re, row_made) (λ h. absurd cc);
        gradient_stands = (gradients, rw pe gradient_made, made);
        dipole_stands = rw pe (new_counted_granted dipole 2 dipoles (granted dipole));
        polarizability_stands =
            rw pe (new_counted_granted polarizability 8 polars (granted polarizability));
      }
