-- ===== src/Host/Order/Permutation.antt =====
-- Every atom has exactly one slot, and each slot holds an atom of the element of its species.
use cpmdc.Base.{
  flag, flag-replicate, one_if, count, count-append, ℕ, zero, suc, ◌+◌, ◌≤◌, ◌<◌, ◌≡◌, refl, sym,
  ap, ◌∙◌, Bool, true, false, inl, inr, Option, some, List, [], ◌∷◌, ◌++◌, map, map-append, subst,
  length, get_elem?, replicate, length-append, length-replicate, ◌==◌, ==_iff, Bool-cases,
  Option-cases, arith,
}
use cpmdc.Host.Order.{pick, pick_all, species_order_map}

abbrev pub trues : List Bool → ℕ
trues [] = 0
trues (u ∷ us) = one_if u + trues us

-- The atomic numbers of the slots, in the order of the species.
abbrev pub expand : List (ℕ × ℕ) → List ℕ
expand [] = []
expand ((z, n) ∷ species) = replicate n z ++ expand species

-- Slots that a turn adds to the flags before it: the flags of the atoms from j on, and the others.
record Picked (j : ℕ) (used used' : List Bool) (slots : List ℕ) : Type 0 where
  pub same_length : length used' ≡ length used
  pub from_j : (k : ℕ) → flag used' k ≡ flag used k + count (j + k) slots
  pub before_j : (k : ℕ) → k < j → count k slots ≡ 0
  pub added : trues used' ≡ trues used + length slots

Picked-nothing : (j : ℕ) (used : List Bool) → Picked j used used []
Picked-nothing j used = record {
  same_length = refl;
  from_j = λ k. omega arith;
  before_j = λ k h. refl;
  added = omega arith;
}

Picked-skip :
    (j : ℕ) (u : Bool) (used used' : List Bool) (slots : List ℕ)
    → Picked (suc j) used used' slots
    → Picked j (u ∷ used) (u ∷ used') slots
Picked-skip j u used used' slots p = record {
  same_length = ap suc p.same_length;
  from_j = step;
  before_j = λ k h. p.before_j k (omega arith);
  added = omega (arith, p.added);
}
  where
    step : (k : ℕ) → flag (u ∷ used') k ≡ flag (u ∷ used) k + count (j + k) slots
    step zero = omega (arith, p.before_j j (omega arith))
    step (suc k) = p.from_j k ∙ ap (λ i. flag used k + count i slots) (omega arith)

Picked-take :
    (j : ℕ) (used used' : List Bool) (slots : List ℕ)
    → Picked (suc j) used used' slots
    → Picked j (false ∷ used) (true ∷ used') (j ∷ slots)
Picked-take j used used' slots p = record {
  same_length = ap suc p.same_length;
  from_j = step;
  before_j = λ k h. ground (arith, p.before_j k (omega arith));
  added = omega (arith, p.added);
}
  where
    step : (k : ℕ) → flag (true ∷ used') k ≡ flag (false ∷ used) k + count (j + k) (j ∷ slots)
    step zero = ground (arith, p.before_j j (omega arith))
    step (suc k) = ground (arith, p.from_j k)

pick-Picked :
    (wanted z j : ℕ) (numbers : List ℕ) (used : List Bool)
    → length used ≡ length numbers
    → Picked j used (pick wanted z j numbers used).0 (pick wanted z j numbers used).1
unfolding pick
pick-Picked zero z j numbers used n = Picked-nothing j used
pick-Picked (suc wanted) z j [] used n = Picked-nothing j used
pick-Picked (suc wanted) z j (a ∷ numbers) [] n = Picked-nothing j []
pick-Picked (suc wanted) z j (a ∷ numbers) (true ∷ used) n =
    Picked-skip j true used _ _ (pick-Picked (suc wanted) z (suc j) numbers used (omega arith))
pick-Picked (suc wanted) z j (a ∷ numbers) (false ∷ used) n = elim (Bool-cases (a == z)) [
  | inl same ↦
      rw (same, pick)
        (Picked-take j used _ _ (pick-Picked wanted z (suc j) numbers used (omega arith)))
  | inr other ↦
      rw (other, pick)
        (Picked-skip j false used _ _
          (pick-Picked (suc wanted) z (suc j) numbers used (omega arith)))
]

module _ (all : List ℕ) where
  From : ℕ → List ℕ → Type 0
  From j numbers = (k : ℕ) → get_elem? all (j + k) ≡ get_elem? numbers k

  From-next : (j a : ℕ) (numbers : List ℕ) → From j (a ∷ numbers) → From (suc j) numbers
  unfolding From
  From-next j a numbers h k = ap (get_elem? all) (omega arith) ∙ h (suc k)

  -- The atoms of the slots have the atomic number that was looked for.
  pick-number :
      (wanted z j : ℕ) (numbers : List ℕ) (used : List Bool)
      → From j numbers
      → map (get_elem? all) (pick wanted z j numbers used).1
        ≡ map some (replicate (length (pick wanted z j numbers used).1) z)
  unfolding pick From
  pick-number zero z j numbers used h = refl
  pick-number (suc wanted) z j [] used h = refl
  pick-number (suc wanted) z j (a ∷ numbers) [] h = refl
  pick-number (suc wanted) z j (a ∷ numbers) (true ∷ used) h =
      pick-number (suc wanted) z (suc j) numbers used (From-next j a numbers h)
  pick-number (suc wanted) z j (a ∷ numbers) (false ∷ used) h = elim (Bool-cases (a == z)) [
    | inl same ↦
        let here : get_elem? all j ≡ some z =
          ap (get_elem? all) (omega arith) ∙ h 0 ∙ ap some ((==_iff a z).0 same) in
        rw (same, pick, here)
          (ap (◌∷◌ (some z)) (pick-number wanted z (suc j) numbers used (From-next j a numbers h)))
    | inr other ↦
        rw (other, pick) (pick-number (suc wanted) z (suc j) numbers used (From-next j a numbers h))
  ]

From-all : (numbers : List ℕ) → From numbers 0 numbers
unfolding From
From-all numbers k = ap (get_elem? numbers) (omega arith)

Picked-flags :
    (used used' : List Bool) (slots : List ℕ)
    → Picked 0 used used' slots
    → (k : ℕ) → flag used' k ≡ flag used k + count k slots
Picked-flags used used' slots p k = p.from_j k ∙ ap (λ i. flag used k + count i slots) (omega arith)

-- The slots of all species, with the flags that they leave.
record Filled (numbers : List ℕ) (used : List Bool) (species : List (ℕ × ℕ)) (slots : List ℕ)
    : Type 0 where
  pub used' : List Bool
  pub same_length : length used' ≡ length used
  pub flags : (k : ℕ) → flag used' k ≡ flag used k + count k slots
  pub added : trues used' ≡ trues used + length slots
  pub elements : map (get_elem? numbers) slots ≡ map some (expand species)

Filled-join :
    (us vs : List (Option ℕ)) (xs ys : List ℕ)
    → us ≡ map some xs
    → vs ≡ map some ys
    → us ++ vs ≡ map some (xs ++ ys)
Filled-join us vs xs ys e f = rw (e, f) (sym (map-append some xs ys))

Filled-step :
    (numbers : List ℕ) (used : List Bool) (z n : ℕ) (species : List (ℕ × ℕ)) (rest : List ℕ)
    → length used ≡ length numbers
    → length (pick n z 0 numbers used).1 ≡ n
    → Filled numbers (pick n z 0 numbers used).0 species rest
    → Filled numbers used ((z, n) ∷ species) ((pick n z 0 numbers used).1 ++ rest)
Filled-step numbers used z n species rest e taken f =
    let p = pick-Picked n z 0 numbers used e in
    let slots = (pick n z 0 numbers used).1 in
    record {
      used' = f.used';
      same_length = f.same_length ∙ p.same_length;
      flags =
          λ k. omega (arith, f.flags k, Picked-flags used _ slots p k, count-append k slots rest);
      added = omega (arith, f.added, p.added, length-append slots rest);
      elements =
          map-append (get_elem? numbers) slots rest
          ∙ Filled-join (map (get_elem? numbers) slots) (map (get_elem? numbers) rest)
              (replicate n z) (expand species)
              (subst (λ w. map (get_elem? numbers) slots ≡ map some (replicate w z)) taken
                (pick-number numbers n z 0 numbers used (From-all numbers)))
              f.elements;
    }

pick_all-Filled :
    (numbers : List ℕ) (species : List (ℕ × ℕ)) (used : List Bool) (slots : List ℕ)
    → length used ≡ length numbers
    → pick_all species numbers used ≡ some slots
    → Filled numbers used species slots
unfolding pick_all
pick_all-Filled numbers [] used slots e h =
    let none_left : [] ≡ slots = cc in
    subst (Filled numbers used []) none_left (record {
      used' = used;
      same_length = refl;
      flags = λ k. omega arith;
      added = omega arith;
      elements = refl;
    })
pick_all-Filled numbers ((z, n) ∷ species) used slots e h =
    let p = pick-Picked n z 0 numbers used e in
    elim (Option-cases (pick_all species numbers (pick n z 0 numbers used).0)) [
      | inl stuck ↦ absurd (ground arith)
      | inr (rest, found) ↦
          let taken : length (pick n z 0 numbers used).1 ≡ n = ground arith in
          let whole : (pick n z 0 numbers used).1 ++ rest ≡ slots = ground arith in
          subst (Filled numbers used ((z, n) ∷ species)) whole (
            Filled-step numbers used z n species rest e taken (
              pick_all-Filled numbers species (pick n z 0 numbers used).0 rest (p.same_length ∙ e)
                found))
    ]

trues-le : (us : List Bool) → trues us ≤ length us
trues-le [] = omega arith
trues-le (true ∷ us) = omega (arith, trues-le us)
trues-le (false ∷ us) = omega (arith, trues-le us)

flag-trues : (us : List Bool) (k : ℕ) → trues us ≡ length us → k < length us → flag us k ≡ 1
flag-trues [] k e h = absurd (omega arith)
flag-trues (true ∷ us) zero e h = refl
flag-trues (false ∷ us) zero e h = absurd (omega (arith, trues-le us))
flag-trues (true ∷ us) (suc k) e h = flag-trues us k (omega arith) (omega arith)
flag-trues (false ∷ us) (suc k) e h = absurd (omega (arith, trues-le us))

flag-past : (us : List Bool) (k : ℕ) → length us ≤ k → flag us k ≡ 0
flag-past [] k h = refl
flag-past (u ∷ us) zero h = absurd (omega arith)
flag-past (u ∷ us) (suc k) h = flag-past us k (omega arith)

trues-replicate : (n : ℕ) → trues (replicate n false) ≡ 0
trues-replicate zero = refl
trues-replicate (suc n) = omega (arith, trues-replicate n)

-- What a successful call returns for the atomic numbers `numbers`.
pub record OrderMap (numbers : List ℕ) (species : List (ℕ × ℕ)) (slots : List ℕ) : Type 0 where
  pub one_slot_each : length slots ≡ length numbers
  pub atom_once : (k : ℕ) → k < length numbers → count k slots ≡ 1
  pub no_other : (k : ℕ) → length numbers ≤ k → count k slots ≡ 0
  pub elements : map (get_elem? numbers) slots ≡ map some (expand species)

Filled-OrderMap :
    (numbers : List ℕ) (species : List (ℕ × ℕ)) (slots : List ℕ)
    → length slots ≡ length numbers
    → Filled numbers (replicate (length numbers) false) species slots
    → OrderMap numbers species slots
Filled-OrderMap numbers species slots e f =
    let n = length numbers in
    let size = length-replicate n false in
    let none = trues-replicate n in
    record {
      one_slot_each = e;
      atom_once = λ k h. omega (
        arith,
        f.flags k,
        flag-replicate n k,
        flag-trues f.used' k (omega (arith, f.added, f.same_length)) (omega (arith, f.same_length)),
      );
      no_other = λ k h. omega (
        arith,
        f.flags k,
        flag-replicate n k,
        flag-past f.used' k (omega (arith, f.same_length)),
      );
      elements = f.elements;
    }

species_order_map-parts :
    (grants : ℕ → Bool) (numbers : List ℕ) (species : List (ℕ × ℕ)) (slots : List ℕ)
    → species_order_map grants numbers species ≡ some slots
    → (pick_all species numbers (replicate (length numbers) false) ≡ some slots)
      × (length slots ≡ length numbers)
unfolding species_order_map
species_order_map-parts grants numbers species slots h = ground arith

-- A map that is returned is a permutation of the atoms: slots and atoms are equally many, each atom
-- has exactly one slot, and no slot holds anything else. Slot by slot the atoms have the atomic
-- numbers of the species, each repeated as its count says.
pub species_order_map-OrderMap :
    (grants : ℕ → Bool) (numbers : List ℕ) (species : List (ℕ × ℕ)) (slots : List ℕ)
    → species_order_map grants numbers species ≡ some slots
    → OrderMap numbers species slots
species_order_map-OrderMap grants numbers species slots h =
    let (found, all) = species_order_map-parts grants numbers species slots h in
    Filled-OrderMap numbers species slots all (
      pick_all-Filled numbers species (replicate (length numbers) false) slots
        (length-replicate (length numbers) false) found)
