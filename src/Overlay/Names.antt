-- ===== src/Overlay/Names.antt =====
-- src/cpmdc.c: the token of a list of functionals does not depend on their order.
use cpmdc.Base.{
  suc, ◌≡◌, refl, ap, ◌||◌, ◌==◌, Option, none, some, List, [], ◌∷◌, length, ltb, if◌then◌else◌,
  Text, Option-cases, inl, inr, ◌∙◌,
}
use mathlib.Core.List.{Perm}
use mathlib.Core.List.Perm
use mathlib.Core.List.Permᴰ.{Permᴰ}
use mathlib.Core.List.Permᴰ
use mathlib.Core.Option
use mathlib.Core.List
use native.Mathlib.Nat.{ℕ_set}
use mathlib.Core.Logic.{∥∥₁_elim}
use cpmdc.Force.{items}
use cpmdc.Overlay.Token.{
  upper_name, upper_names, exchange_sort, join_plus, lookup, xc_map, common_xc_token,
}
use cpmdc.Overlay.Order.{exchange_sort-eq_of_perm}

-- Both have names, the same up to order, or neither has.
SameNames : Option (List Text) → Option (List Text) → Type 0
SameNames none none = Unit
SameNames none (some ys) = ⊥
SameNames (some xs) none = ⊥
SameNames (some xs) (some ys) = Perm xs ys

-- The names with one more in front, where it has an upper case.
abbrev put : Option Text → Option (List Text) → Option (List Text)
put none names = none
put (some name) none = none
put (some name) (some names) = some (name ∷ names)

upper_names-put :
    (x : Text) (xs : List Text) → upper_names (x ∷ xs) ≡ put (upper_name x) (upper_names xs)
unfolding upper_names
upper_names-put x xs = put-both (upper_name x) (upper_names xs)
  where
    put-both :
        (name : Option Text) (names : Option (List Text))
        → (elim name as (λ _. Option (List Text)) [
          | none ↦ none
          | some n ↦ elim names [ none ↦ none | some ns ↦ some (n ∷ ns) ]
        ])
          ≡ put name names
    put-both none names = refl
    put-both (some n) none = refl
    put-both (some n) (some ns) = refl

SameNames-refl : (o : Option (List Text)) → SameNames o o
unfolding SameNames
SameNames-refl none = tt
SameNames-refl (some xs) = Perm.rfl

SameNames-put :
    (x : Option Text) (xs ys : Option (List Text))
    → SameNames xs ys
    → SameNames (put x xs) (put x ys)
unfolding SameNames
SameNames-put none xs ys h = tt
SameNames-put (some x) none none h = tt
SameNames-put (some x) none (some ys) h = absurd h
SameNames-put (some x) (some xs) none h = absurd h
SameNames-put (some x) (some xs) (some ys) h = Perm.cons x h

SameNames-swap :
    (x y : Option Text) (names : Option (List Text))
    → SameNames (put x (put y names)) (put y (put x names))
unfolding SameNames
SameNames-swap none none names = tt
SameNames-swap none (some y) none = tt
SameNames-swap none (some y) (some names) = tt
SameNames-swap (some x) none names = tt
SameNames-swap (some x) (some y) none = tt
SameNames-swap (some x) (some y) (some names) = Perm.swap y x names

SameNames-trans :
    (xs ys zs : Option (List Text)) → SameNames xs ys → SameNames ys zs → SameNames xs zs
unfolding SameNames
SameNames-trans none none zs h k = k
SameNames-trans none (some ys) zs h k = absurd h
SameNames-trans (some xs) none zs h k = absurd h
SameNames-trans (some xs) (some ys) none h k = absurd k
SameNames-trans (some xs) (some ys) (some zs) h k = Perm.trans h k

upper_names-perm :
    (xs ys : List Text)
    → Permᴰ xs ys
    → (length xs ≡ length ys) × SameNames (upper_names xs) (upper_names ys)
upper_names-perm _ _ Permᴰ.nil = (refl, SameNames-refl (upper_names []))
upper_names-perm _ _ (Permᴰ.cons {a = x} {b = y} {l₁ = xs} {l₂ = ys} e d) =
    let (lengths, names) = upper_names-perm xs ys d in
    (
      ap suc lengths,
      rw (e, upper_names-put y xs, upper_names-put y ys)
          (SameNames-put (upper_name y) (upper_names xs) (upper_names ys) names),
    )
upper_names-perm _ _ (Permᴰ.swap {a = x} {b = y} {a' = y'} {b' = x'} {l = l} e f) = (
  refl,
  rw
      (
        e,
        f,
        upper_names-put x' (y' ∷ l),
        upper_names-put y' (x' ∷ l),
        upper_names-put x' l,
        upper_names-put y' l,
      )
      (SameNames-swap (upper_name x') (upper_name y') (upper_names l)),
)
upper_names-perm _ _ (Permᴰ.trans {l₁ = xs} {l₂ = ys} {l₃ = zs} d e) =
    let (first, left) = upper_names-perm xs ys d in
    let (second, right) = upper_names-perm ys zs e in
    (first ∙ second, SameNames-trans (upper_names xs) (upper_names ys) (upper_names zs) left right)

-- What is looked up of names that are the same up to order.
token_of : Option (List Text) → Option Text
token_of none = none
token_of (some names) = lookup xc_map (join_plus (exchange_sort (length names) names))

token_of-SameNames : (xs ys : Option (List Text)) → SameNames xs ys → token_of xs ≡ token_of ys
unfolding SameNames token_of
token_of-SameNames none none h = refl
token_of-SameNames none (some ys) h = absurd h
token_of-SameNames (some xs) none h = absurd h
token_of-SameNames (some xs) (some ys) h =
    ap (λ names. lookup xc_map (join_plus names)) (exchange_sort-eq_of_perm xs ys h).0

common_xc_token-token_of :
    (xs : List Text)
    → common_xc_token (items xs)
      ≡ (if length xs == 0 || ltb 4 (length xs) then none else token_of (upper_names xs))
unfolding common_xc_token token_of
common_xc_token-token_of xs = elim (Option-cases (upper_names xs)) [
  | inl e ↦ rw e refl
  | inr (names, e) ↦ rw e refl
]

common_xc_token-perm_d :
    (xs ys : List Text) → Permᴰ xs ys → common_xc_token (items xs) ≡ common_xc_token (items ys)
common_xc_token-perm_d xs ys d =
    let (lengths, names) = upper_names-perm xs ys d in
    let same = token_of-SameNames (upper_names xs) (upper_names ys) names in
    rw (common_xc_token-token_of xs, common_xc_token-token_of ys, lengths, same) refl

-- Any two orders of a list of functional names give the same token, or none for both.
pub common_xc_token-eq_of_perm :
    (xs ys : List Text) → Perm xs ys → common_xc_token (items xs) ≡ common_xc_token (items ys)
common_xc_token-eq_of_perm xs ys p =
    let set = Option.is_set (List.is_set ℕ_set) in
    ∥∥₁_elim p (set (common_xc_token (items xs)) (common_xc_token (items ys)))
      (common_xc_token-perm_d xs ys)
