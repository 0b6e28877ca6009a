-- ===== src/Session/Elements.antt =====
-- src/cpmdc.c: `element_counts_match`.
use cpmdc.Base.{
  one_if, count, ℕ, zero, suc, ◌+◌, ◌≤◌, ◌<◌, ◌≡◌, ◌↔◌, refl, sym, ap, subst, ◌∙◌, Bool, true,
  false, ◌&&◌, inl, inr, Option, none, some, List, [], ◌∷◌, length, replicate, All, ltb, leb, ◌==◌,
  ==_refl, if◌then◌else◌, Bool-cases, Option-cases, arith,
}

-- `z < 1 || z > 118` is refused; a negative `int` is a pattern past 118 too.
abbrev pub is_element : ℕ → Bool
is_element z = ltb 0 z && leb z 118

-- `counts[z] += 1`
unfoldable pub add_one : ℕ → List ℕ → List ℕ
add_one k [] = []
add_one zero (c ∷ counts) = suc c ∷ counts
add_one (suc k) (c ∷ counts) = c ∷ add_one k counts

-- `counts[z] -= 1`, and none where it falls below 0.
unfoldable pub take_one : ℕ → List ℕ → Option (List ℕ)
take_one k [] = none
take_one zero (zero ∷ counts) = none
take_one zero (suc c ∷ counts) = some (c ∷ counts)
take_one (suc k) (c ∷ counts) = elim (take_one k counts) [
  | none ↦ none
  | some rest ↦ some (c ∷ rest)
]

-- The first loop.
unfoldable pub add_all : List ℕ → List ℕ → Option (List ℕ)
add_all [] counts = some counts
add_all (z ∷ zs) counts = if is_element z then add_all zs (add_one z counts) else none

-- The second loop.
unfoldable pub take_all : List ℕ → List ℕ → Option (List ℕ)
take_all [] counts = some counts
take_all (z ∷ zs) counts =
    if is_element z
    then elim (take_one z counts) [ none ↦ none | some rest ↦ take_all zs rest ]
    else none

unfoldable pub element_counts_match : List ℕ → List ℕ → Bool
element_counts_match left right = elim (add_all left (replicate 119 0)) [
  | none ↦ false
  | some counts ↦ elim (take_all right counts) [ none ↦ false | some rest ↦ true ]
]

abbrev pub at : List ℕ → ℕ → ℕ
at [] k = 0
at (c ∷ counts) zero = c
at (c ∷ counts) (suc k) = at counts k

abbrev pub sum : List ℕ → ℕ
sum [] = 0
sum (c ∷ counts) = c + sum counts

abbrev pub IsElement : ℕ → Type 0
IsElement z = is_element z ≡ true

record Added (z : ℕ) (before after : List ℕ) : Type 0 where
  pub same_length : length after ≡ length before
  pub one_more : (k : ℕ) → at after k ≡ at before k + one_if (z == k)
  pub total : sum after ≡ sum before + 1

add_one-Added : (z : ℕ) (counts : List ℕ) → z < length counts → Added z counts (add_one z counts)
unfolding add_one
add_one-Added z [] h = absurd (omega arith)
add_one-Added zero (c ∷ counts) h = record {
  same_length = refl;
  one_more = here;
  total = omega arith;
}
  where
    here : (k : ℕ) → at (suc c ∷ counts) k ≡ at (c ∷ counts) k + one_if (zero == k)
    here zero = ground arith
    here (suc k) = ground arith
add_one-Added (suc z) (c ∷ counts) h =
    let a = add_one-Added z counts (omega arith) in
    record {
      same_length = ap suc a.same_length;
      one_more = there a;
      total = omega (arith, a.total);
    }
  where
    there :
        Added z counts (add_one z counts)
        → (k : ℕ) → at (c ∷ add_one z counts) k ≡ at (c ∷ counts) k + one_if (suc z == k)
    there a zero = ground arith
    there a (suc k) = ground (arith, a.one_more k)

-- Taking one away is the reverse.
take_one-Added :
    (z : ℕ) (counts rest : List ℕ) → take_one z counts ≡ some rest → Added z rest counts
unfolding take_one
take_one-Added z [] rest e = absurd cc
take_one-Added zero (zero ∷ counts) rest e = absurd cc
take_one-Added zero (suc c ∷ counts) rest e =
    let same : c ∷ counts ≡ rest = cc in
    subst (λ r. Added zero r (suc c ∷ counts)) same
      (unfold add_one in add_one-Added zero (c ∷ counts) (omega arith))
take_one-Added (suc z) (c ∷ counts) rest e = elim (Option-cases (take_one z counts)) [
  | inl stuck ↦ absurd (ground arith)
  | inr (less, found) ↦
      let a = take_one-Added z counts less found in
      let same : c ∷ less ≡ rest = ground arith in
      subst (λ r. Added (suc z) r (c ∷ counts)) same
        (record {
          same_length = ap suc a.same_length;
          one_more = there less a;
          total = omega (arith, a.total);
        })
]
  where
    there :
        (less : List ℕ)
        → Added z less counts
        → (k : ℕ) → at (c ∷ counts) k ≡ at (c ∷ less) k + one_if (suc z == k)
    there less a zero = ground arith
    there less a (suc k) = ground (arith, a.one_more k)

-- What a list adds to the counts.
record Tally (zs before after : List ℕ) : Type 0 where
  pub elements : All IsElement zs
  pub each : (k : ℕ) → at after k ≡ at before k + count k zs
  pub total : sum after ≡ sum before + length zs

Tally-cons :
    (z : ℕ) (zs a b c : List ℕ) → IsElement z → Added z a b → Tally zs b c → Tally (z ∷ zs) a c
Tally-cons z zs a b c h add t = record {
  elements = (h, t.elements);
  each = λ k. omega (arith, add.one_more k, t.each k);
  total = omega (arith, add.total, t.total);
}

add_all-Tally :
    (zs before after : List ℕ)
    → length before ≡ 119
    → add_all zs before ≡ some after
    → Tally zs before after
unfolding add_all
add_all-Tally [] before after n e =
    let same : before ≡ after = cc in
    subst (Tally [] before) same
      (record { elements = tt; each = λ k. omega arith; total = omega arith })
add_all-Tally (z ∷ zs) before after n e = elim (Bool-cases (is_element z)) [
  | inl good ↦
      let add = add_one-Added z before (ground arith) in
      let rest : add_all zs (add_one z before) ≡ some after = ground arith in
      Tally-cons z zs before (add_one z before) after good add
        (add_all-Tally zs (add_one z before) after (add.same_length ∙ n) rest)
  | inr bad ↦ absurd (ground arith)
]

add_all-total :
    (zs before : List ℕ) → All IsElement zs → (after : List ℕ) × (add_all zs before ≡ some after)
unfolding add_all
add_all-total [] before h = (before, refl)
add_all-total (z ∷ zs) before (good, h) =
    let (after, e) = add_all-total zs (add_one z before) h in (after, rw good e)

take_all-Tally :
    (zs before after : List ℕ) → take_all zs before ≡ some after → Tally zs after before
unfolding take_all
take_all-Tally [] before after e =
    let same : before ≡ after = cc in
    subst (Tally [] after) (sym same)
      (record { elements = tt; each = λ k. omega arith; total = omega arith })
take_all-Tally (z ∷ zs) before after e = elim (Bool-cases (is_element z)) [
  | inr bad ↦ absurd (ground arith)
  | inl good ↦ elim (Option-cases (take_one z before)) [
    | inl stuck ↦ absurd (ground arith)
    | inr (less, found) ↦
        let a = take_one-Added z before less found in
        let t = take_all-Tally zs less after (ground arith) in
        record {
          elements = (good, t.elements);
          each = λ k. omega (arith, a.one_more k, t.each k);
          total = omega (arith, a.total, t.total);
        }
  ]
]

take_one-some :
    (z : ℕ) (counts : List ℕ) → 1 ≤ at counts z → (rest : List ℕ) × (take_one z counts ≡ some rest)
unfolding take_one
take_one-some z [] h = absurd (omega arith)
take_one-some zero (zero ∷ counts) h = absurd (omega arith)
take_one-some zero (suc c ∷ counts) h = (c ∷ counts, refl)
take_one-some (suc z) (c ∷ counts) h =
    let (rest, e) = take_one-some z counts h in (c ∷ rest, rw e refl)

take_all-total :
    (zs before : List ℕ)
    → All IsElement zs
    → ((k : ℕ) → count k zs ≤ at before k)
    → (after : List ℕ) × (take_all zs before ≡ some after)
unfolding take_all
take_all-total [] before h enough = (before, refl)
take_all-total (z ∷ zs) before (good, h) enough =
    let (less, found) = take_one-some z before (omega (arith, enough z, ap one_if (==_refl z))) in
    let a = take_one-Added z before less found in
    let (after, e) = take_all-total zs less h (λ k. omega (arith, enough k, a.one_more k)) in
    (after, rw (good, found) e)

at-le-sum : (counts : List ℕ) (k : ℕ) → at counts k ≤ sum counts
at-le-sum [] k = omega arith
at-le-sum (c ∷ counts) zero = omega arith
at-le-sum (c ∷ counts) (suc k) = omega (arith, at-le-sum counts k)

at-replicate : (n k : ℕ) → at (replicate n 0) k ≡ 0
at-replicate zero k = refl
at-replicate (suc n) zero = refl
at-replicate (suc n) (suc k) = at-replicate n k

sum-replicate : (n : ℕ) → sum (replicate n 0) ≡ 0
sum-replicate zero = refl
sum-replicate (suc n) = omega (arith, sum-replicate n)

-- The same elements, each as often.
pub record SameElements (left right : List ℕ) : Type 0 where
  pub elements : All IsElement left × All IsElement right
  pub as_often : (k : ℕ) → count k left ≡ count k right

element_counts_match_sound :
    (left right : List ℕ)
    → length left ≡ length right
    → element_counts_match left right ≡ true
    → SameElements left right
unfolding element_counts_match
element_counts_match_sound left right n e = elim (Option-cases (add_all left (replicate 119 0))) [
  | inl stuck ↦ absurd (ground arith)
  | inr (counts, added) ↦ elim (Option-cases (take_all right counts)) [
    | inl stuck ↦ absurd (ground arith)
    | inr (rest, taken) ↦
        let a = add_all-Tally left (replicate 119 0) counts refl added in
        let t = take_all-Tally right counts rest taken in
        record {
          elements = (a.elements, t.elements);
          as_often = λ k. omega (
            arith,
            a.each k,
            t.each k,
            at-replicate 119 k,
            at-le-sum rest k,
            a.total,
            t.total,
            sum-replicate 119,
          );
        }
  ]
]

element_counts_match_complete :
    (left right : List ℕ) → SameElements left right → element_counts_match left right ≡ true
unfolding element_counts_match
element_counts_match_complete left right same =
    let (counts, added) = add_all-total left (replicate 119 0) same.elements.0 in
    let a = add_all-Tally left (replicate 119 0) counts refl added in
    let (rest, taken) =
      take_all-total right counts same.elements.1
        (λ k. omega (arith, same.as_often k, a.each k, at-replicate 119 k)) in
    ground (arith, added, taken)

-- On as many atoms on both sides, the check accepts exactly the atoms of the same elements, 1 to
-- 118, each as often: the order of the atoms does not matter.
pub element_counts_match_iff :
    (left right : List ℕ)
    → length left ≡ length right
    → (element_counts_match left right ≡ true) ↔ SameElements left right
element_counts_match_iff left right n =
    (element_counts_match_sound left right n, element_counts_match_complete left right)
