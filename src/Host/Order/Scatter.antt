-- ===== src/Host/Order/Scatter.antt =====
-- The gradient in species order is put back into the order of the atoms.
use cpmdc.Base.{
  one_if, count, ℕ, zero, suc, ◌≤◌, ◌<◌, ◌≡◌, ◌≢◌, refl, sym, ap, ◌∙◌, subst, Bool, false, ◌||◌,
  inl, inr, some, List, [], ◌∷◌, length, get_elem?, set, length-set, get_elem?-set_self,
  get_elem?-set_ne, leb, ◌==◌, ==_iff, ==_refl, if◌then◌else◌, Bool-cases, arith, int_max,
  is_negative,
}
use cpmdc.Host.Order.{species_order_map, scatter}
use cpmdc.Host.Order.Permutation.{species_order_map-OrderMap}

count-find :
    (k : ℕ) (xs : List ℕ) → 1 ≤ count k xs → (s : ℕ) × (s < length xs) × (get_elem? xs s ≡ some k)
count-find k [] h = absurd (omega arith)
count-find k (x ∷ xs) h = elim (Bool-cases (x == k)) [
  | inl same ↦ (0, omega arith, ap some ((==_iff x k).0 same))
  | inr other ↦ let (s, inside, e) = count-find k xs (ground arith) in (suc s, omega arith, e)
]

get_elem?-count : (k s : ℕ) (xs : List ℕ) → get_elem? xs s ≡ some k → 1 ≤ count k xs
get_elem?-count k s [] e = absurd cc
get_elem?-count k zero (x ∷ xs) e = let same : x ≡ k = cc in rw (same, ==_refl k) (omega arith)
get_elem?-count k (suc s) (x ∷ xs) e = omega (arith, get_elem?-count k s xs e)

module _ {ℓ} {A : Type ℓ} where
  -- One turn of the loop.
  step : ℕ → A → List A → List A
  step atom row grad =
      if is_negative atom || leb (length grad) atom then grad else set grad atom row

  length-step : (atom : ℕ) (row : A) (grad : List A) → length (step atom row grad) ≡ length grad
  unfolding step
  length-step atom row grad = elim (Bool-cases (is_negative atom || leb (length grad) atom)) [
    | inl skip ↦ rw skip refl
    | inr go ↦ rw go (length-set grad atom row)
  ]

  step-same :
      (atom : ℕ) (row : A) (grad : List A)
      → atom < length grad
      → atom ≤ int_max
      → get_elem? (step atom row grad) atom ≡ some row
  unfolding step
  step-same atom row grad h small =
      let go : (is_negative atom || leb (length grad) atom) ≡ false = ground arith in
      rw go (get_elem?-set_self grad atom row h)

  step-other :
      (atom k : ℕ) (row : A) (grad : List A)
      → atom ≢ k
      → get_elem? (step atom row grad) k ≡ get_elem? grad k
  unfolding step
  step-other atom k row grad h = elim (Bool-cases (is_negative atom || leb (length grad) atom)) [
    | inl skip ↦ rw skip refl
    | inr go ↦ rw go (get_elem?-set_ne grad atom k row h)
  ]

  scatter-other :
      (k : ℕ) (slots : List ℕ) (rows grad : List A)
      → count k slots ≡ 0
      → get_elem? (scatter slots rows grad) k ≡ get_elem? grad k
  unfolding scatter step
  scatter-other k [] rows grad h = refl
  scatter-other k (atom ∷ slots) [] grad h = refl
  scatter-other k (atom ∷ slots) (row ∷ rows) grad h =
      scatter-other k slots rows (step atom row grad) (omega arith)
      ∙ step-other atom k row grad (λ same. ground (arith, ==_iff atom k))

  scatter-slot :
      (k s : ℕ) (slots : List ℕ) (rows grad : List A)
      → count k slots ≡ 1
      → get_elem? slots s ≡ some k
      → s < length rows
      → k < length grad
      → k ≤ int_max
      → get_elem? (scatter slots rows grad) k ≡ get_elem? rows s
  unfolding scatter step
  scatter-slot k s [] rows grad once e inside h small = absurd cc
  scatter-slot k s (atom ∷ slots) [] grad once e inside h small = absurd (omega arith)
  scatter-slot k zero (atom ∷ slots) (row ∷ rows) grad once e inside h small =
      let same : atom ≡ k = cc in
      let no_more : count k slots ≡ 0 =
        omega (arith, ap one_if (ap (λ a. a == k) same), ap one_if (==_refl k)) in
      scatter-other k slots rows (step atom row grad) no_more
      ∙ subst (λ a. get_elem? (step a row grad) k ≡ some row) (sym same)
          (step-same k row grad h small)
  scatter-slot k (suc s) (atom ∷ slots) (row ∷ rows) grad once e inside h small =
      let rest : count k slots ≡ 1 = omega (arith, get_elem?-count k s slots e) in
      scatter-slot k s slots rows (step atom row grad) rest e (omega arith)
        (omega (arith, length-step atom row grad)) small

  -- With the map of a successful call, for gradients of a row for each atom: every row of the result
  -- is the species-order row of the slot that holds the atom, so no row of the old gradient is left.
  pub scatter-species_order_map :
      (grants : ℕ → Bool) (numbers : List ℕ) (species : List (ℕ × ℕ)) (slots : List ℕ)
      (rows grad : List A)
      → species_order_map grants numbers species ≡ some slots
      → length numbers ≤ int_max
      → length rows ≡ length numbers
      → length grad ≡ length numbers
      → (k : ℕ) → k < length numbers
      → (s : ℕ) × (get_elem? slots s ≡ some k)
        × (get_elem? (scatter slots rows grad) k ≡ get_elem? rows s)
  scatter-species_order_map grants numbers species slots rows grad h small r g k inside =
      let m = species_order_map-OrderMap grants numbers species slots h in
      let once = m.atom_once k inside in
      let (s, slot, e) = count-find k slots (omega arith) in
      (
        s,
        e,
        scatter-slot k s slots rows grad once e (omega (arith, m.one_slot_each)) (omega arith)
            (omega arith),
      )
