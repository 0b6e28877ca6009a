-- ===== src/Host/Order/Complete.antt =====
-- The map is found whenever the species and the atoms have the same elements.
use cpmdc.Base.{
  one_if, count, count-append, ℕ, zero, suc, ◌+◌, ◌-◌, ◌*◌, ◌≤◌, ◌≡◌, refl, ap, ◌∙◌, Bool, true,
  false, ◌||◌, inl, inr, some, List, [], ◌∷◌, ◌++◌, length, replicate, length-append,
  length-replicate, ltb, ◌==◌, ==_iff, ==_refl, Bool-cases, arith, int_max, is_negative,
}
use cpmdc.Host.Order.{pick, pick_all, sum_counts, species_order_map}
use cpmdc.Host.Order.Permutation.{expand}

-- How many atoms of an element are not used yet.
available : ℕ → List ℕ → List Bool → ℕ
available y [] used = 0
available y (a ∷ numbers) [] = 0
available y (a ∷ numbers) (true ∷ used) = available y numbers used
available y (a ∷ numbers) (false ∷ used) = one_if (a == y) + available y numbers used

record Served (wanted z j : ℕ) (numbers : List ℕ) (used : List Bool) : Type 0 where
  pub all_taken : length (pick wanted z j numbers used).1 ≡ wanted
  pub left :
      (y : ℕ)
      → available y numbers (pick wanted z j numbers used).0 + wanted * one_if (z == y)
        ≡ available y numbers used

pick-Served :
    (wanted z j : ℕ) (numbers : List ℕ) (used : List Bool)
    → wanted ≤ available z numbers used
    → Served wanted z j numbers used
unfolding pick available
pick-Served zero z j numbers used h = record { all_taken = refl; left = λ y. omega arith }
pick-Served (suc wanted) z j [] used h = absurd (omega arith)
pick-Served (suc wanted) z j (a ∷ numbers) [] h = absurd (omega arith)
pick-Served (suc wanted) z j (a ∷ numbers) (true ∷ used) h =
    let s = pick-Served (suc wanted) z (suc j) numbers used h in
    record { all_taken = s.all_taken; left = s.left }
pick-Served (suc wanted) z j (a ∷ numbers) (false ∷ used) h = elim (Bool-cases (a == z)) [
  | inl same ↦
      let s = pick-Served wanted z (suc j) numbers used (ground arith) in
      let e : a ≡ z = (==_iff a z).0 same in
      record {
        all_taken = rw (same, pick) (ap suc s.all_taken);
        left = λ y. rw (same, pick, e) (omega (arith, s.left y));
      }
  | inr other ↦
      let s = pick-Served (suc wanted) z (suc j) numbers used (ground arith) in
      record {
        all_taken = rw (other, pick) s.all_taken;
        left = λ y. rw (other, pick) (omega (arith, s.left y));
      }
]

count-replicate : (y n z : ℕ) → count y (replicate n z) ≡ n * one_if (z == y)
count-replicate y zero z = omega arith
count-replicate y (suc n) z = omega (arith, count-replicate y n z)

count-replicate_self : (n z : ℕ) → count z (replicate n z) ≡ n
count-replicate_self zero z = refl
count-replicate_self (suc n) z = omega (arith, count-replicate_self n z, ap one_if (==_refl z))

pick_all-cons :
    (z n : ℕ) (species : List (ℕ × ℕ)) (numbers : List ℕ) (used : List Bool) (rest : List ℕ)
    → length (pick n z 0 numbers used).1 ≡ n
    → pick_all species numbers (pick n z 0 numbers used).0 ≡ some rest
    → pick_all ((z, n) ∷ species) numbers used ≡ some ((pick n z 0 numbers used).1 ++ rest)
unfolding pick_all
pick_all-cons z n species numbers used rest taken found = rw (taken, ==_refl n, found) refl

pick_all_complete :
    (species : List (ℕ × ℕ)) (numbers : List ℕ) (used : List Bool)
    → ((y : ℕ) → count y (expand species) ≤ available y numbers used)
    → (slots : List ℕ) × (pick_all species numbers used ≡ some slots)
      × (length slots ≡ length (expand species))
unfolding pick_all
pick_all_complete [] numbers used h = ([], refl, refl)
pick_all_complete ((z, n) ∷ species) numbers used h =
    let enough : n ≤ available z numbers used =
      omega
        (arith, h z, count-append z (replicate n z) (expand species), count-replicate_self n z) in
    let s = pick-Served n z 0 numbers used enough in
    let (rest, found, size) = pick_all_complete species numbers (pick n z 0 numbers used).0 (λ y.
      omega (
        arith,
        h y,
        s.left y,
        count-append y (replicate n z) (expand species),
        count-replicate y n z,
      )) in
    let slots = (pick n z 0 numbers used).1 in
    (
      slots ++ rest,
      pick_all-cons z n species numbers used rest s.all_taken found,
      omega (
        arith,
        s.all_taken,
        size,
        length-append slots rest,
        length-append (replicate n z) (expand species),
        length-replicate n z,
      ),
    )

sum_counts_lem :
    (species : List (ℕ × ℕ)) (need : ℕ)
    → need + length (expand species) ≤ int_max
    → sum_counts need species ≡ some (need + length (expand species))
unfolding sum_counts
sum_counts_lem [] need h = ap some (omega arith)
sum_counts_lem ((z, n) ∷ species) need h =
    let size : length (expand ((z, n) ∷ species)) ≡ n + length (expand species) =
      omega (arith, length-append (replicate n z) (expand species), length-replicate n z) in
    let go : (is_negative n || ltb (int_max - n) need) ≡ false = ground arith in
    rw go (sum_counts_lem species (need + n) (omega arith) ∙ ap some (omega arith))

available-fresh :
    (y : ℕ) (numbers : List ℕ)
    → available y numbers (replicate (length numbers) false) ≡ count y numbers
unfolding available
available-fresh y [] = refl
available-fresh y (a ∷ numbers) = omega (arith, available-fresh y numbers)

order_map_succeeds :
    (grants : ℕ → Bool) (granted : (n : ℕ) → grants n ≡ true) (numbers : List ℕ)
    (species : List (ℕ × ℕ)) (slots : List ℕ)
    → 1 ≤ length numbers
    → length numbers ≤ int_max
    → length (expand species) ≡ length numbers
    → pick_all species numbers (replicate (length numbers) false) ≡ some slots
    → length slots ≡ length (expand species)
    → species_order_map grants numbers species ≡ some slots
unfolding species_order_map
order_map_succeeds grants granted numbers [] slots some_atom small size found all =
    absurd (omega arith)
order_map_succeeds grants granted numbers (kind ∷ species) slots some_atom small size found all =
    let sum : sum_counts 0 (kind ∷ species) ≡ some (length numbers) =
      sum_counts_lem (kind ∷ species) 0 (omega arith) ∙ ap some (omega arith) in
    let some_atoms : (length numbers == 0) ≡ false = ground arith in
    let some_kinds : (suc (length species) == 0) ≡ false = ground arith in
    let filled : (length slots == length numbers) ≡ true =
      (==_iff (length slots) (length numbers)).1 (all ∙ size) in
    rw
      (
        some_atoms,
        some_kinds,
        sum,
        ==_refl (length numbers),
        granted (length numbers * 4),
        found,
        filled,
      )
      refl

-- For at least one atom, and no more than `int` can count: where the species, each repeated as its
-- count says, have each atomic number as often as the atoms have it, the call returns a map.
pub species_order_map_complete :
    (grants : ℕ → Bool) (numbers : List ℕ) (species : List (ℕ × ℕ))
    → ((n : ℕ) → grants n ≡ true)
    → 1 ≤ length numbers
    → length numbers ≤ int_max
    → length (expand species) ≡ length numbers
    → ((y : ℕ) → count y (expand species) ≡ count y numbers)
    → (slots : List ℕ) × (species_order_map grants numbers species ≡ some slots)
species_order_map_complete grants numbers species granted some_atom small size same =
    let (slots, found, all) =
      pick_all_complete species numbers (replicate (length numbers) false)
        (λ y. omega (arith, same y, available-fresh y numbers)) in
    (slots, order_map_succeeds grants granted numbers species slots some_atom small size found all)
