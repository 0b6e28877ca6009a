-- ===== src/Overlay/Order.antt =====
-- src/cpmdc.c: `strcmp` as an order, and the exchange sort of `cpmd_common_xc_token`.
use cpmdc.Base.{
  ℕ, zero, suc, ◌≡◌, refl, ap, true, false, List, [], ◌∷◌, length, Text, arith, Bool-cases, inl,
  inr,
}
use mathlib.Core.List.{Mem, Perm, mem-cons_self, forall_mem-cons, not-mem-nil}
use mathlib.Core.List.Perm
use mathlib.Core.Bool.{Bool-set}
use cpmdc.Overlay.Token.{text_gt, exchange, exchange_sort}

-- The order that the sort keeps.
abbrev NotGt : Text → Text → Type 0
NotGt a b = text_gt a b ≡ false

NotGt-refl : (a : Text) → NotGt a a
unfolding text_gt
NotGt-refl [] = refl
NotGt-refl (c ∷ cs) = ground (arith, NotGt-refl cs)

text_gt-asymm : (a b : Text) → text_gt a b ≡ true → NotGt b a
unfolding text_gt
text_gt-asymm [] b h = absurd cc
text_gt-asymm (c ∷ cs) [] h = refl
text_gt-asymm (c ∷ cs) (d ∷ ds) h = ground (arith, text_gt-asymm cs ds)

NotGt-trans : (a b c : Text) → NotGt a b → NotGt b c → NotGt a c
unfolding text_gt
NotGt-trans [] b c h k = refl
NotGt-trans (x ∷ xs) [] c h k = absurd cc
NotGt-trans (x ∷ xs) (y ∷ ys) [] h k = absurd cc
NotGt-trans (x ∷ xs) (y ∷ ys) (z ∷ zs) h k = ground (arith, NotGt-trans xs ys zs)

NotGt-antisymm : (a b : Text) → NotGt a b → NotGt b a → a ≡ b
unfolding text_gt
NotGt-antisymm [] [] h k = refl
NotGt-antisymm [] (d ∷ ds) h k = absurd cc
NotGt-antisymm (c ∷ cs) [] h k = absurd cc
NotGt-antisymm (c ∷ cs) (d ∷ ds) h k = ground (arith, NotGt-antisymm cs ds)

abbrev Below : Text → List Text → Type 0
Below a names = (b : Text) → Mem b names → NotGt a b

Below-cons :
    (a : Text) {b : Text} {names : List Text} → NotGt a b → Below a names → Below a (b ∷ names)
Below-cons a h k = (forall_mem-cons (λ c. Bool-set (text_gt a c) false)).1 (h, k)

-- What one round of the inner loop does with the two names that it compares.
exchange-step :
    (x y : Text) {m : Text} {ys rest : List Text} (least other_name : Text)
    → Perm (least ∷ other_name ∷ ys) (x ∷ y ∷ ys)
    → Perm (m ∷ rest) (least ∷ ys)
    → Perm (m ∷ other_name ∷ rest) (x ∷ y ∷ ys)
exchange-step x y {m} {ys} {rest} least other_name p q =
    Perm.trans (Perm.swap other_name m rest)
      (Perm.trans (Perm.cons other_name q) (Perm.trans (Perm.swap least other_name ys) p))

exchange-perm : (x : Text) (xs : List Text) → Perm ((exchange x xs).0 ∷ (exchange x xs).1) (x ∷ xs)
unfolding exchange
exchange-perm x [] = Perm.rfl
exchange-perm x (y ∷ ys) = elim (Bool-cases (text_gt x y)) [
  | inl e ↦ rw e (exchange-step x y y x (Perm.swap x y ys) (exchange-perm y ys))
  | inr e ↦ rw e (exchange-step x y x y Perm.rfl (exchange-perm x ys))
]

exchange_le :
    (x : Text) (xs : List Text)
    → NotGt (exchange x xs).0 x × Below (exchange x xs).0 (exchange x xs).1
unfolding exchange
exchange_le x [] = (NotGt-refl x, λ b m. absurd (not-mem-nil m))
exchange_le x (y ∷ ys) = elim (Bool-cases (text_gt x y)) [
  | inl e ↦
      let (le, below) = exchange_le y ys in
      let whole = NotGt-trans (exchange y ys).0 y x le (text_gt-asymm x y e) in
      rw e (whole, Below-cons (exchange y ys).0 whole below)
  | inr e ↦
      let (le, below) = exchange_le x ys in
      rw e (le, Below-cons (exchange x ys).0 (NotGt-trans (exchange x ys).0 x y le e) below)
]

-- No name stands in front of a lesser one.
pub data IsSorted : List Text → Type 0 where
  none_left : IsSorted []
  one_more : {a : Text} {names : List Text} → Below a names → IsSorted names → IsSorted (a ∷ names)

length-exchange : (x : Text) (xs : List Text) → length (exchange x xs).1 ≡ length xs
unfolding exchange
length-exchange x [] = refl
length-exchange x (y ∷ ys) = elim (Bool-cases (text_gt x y)) [
  | inl e ↦ rw e (ap suc (length-exchange y ys))
  | inr e ↦ rw e (ap suc (length-exchange x ys))
]

exchange_sort-perm : (n : ℕ) (names : List Text) → Perm (exchange_sort n names) names
unfolding exchange_sort
exchange_sort-perm zero names = Perm.rfl
exchange_sort-perm (suc n) [] = Perm.rfl
exchange_sort-perm (suc n) (x ∷ xs) =
    Perm.trans (Perm.cons (exchange x xs).0 (exchange_sort-perm n (exchange x xs).1))
      (exchange-perm x xs)

Below-perm : (a : Text) {xs ys : List Text} → Perm xs ys → Below a ys → Below a xs
Below-perm a p h b m = h b ((Perm.mem_iff p).0 m)

exchange_sort-IsSorted :
    (n : ℕ) (names : List Text) → length names ≡ n → IsSorted (exchange_sort n names)
unfolding exchange_sort
exchange_sort-IsSorted zero [] e = none_left
exchange_sort-IsSorted zero (x ∷ xs) e = absurd (omega (arith, e))
exchange_sort-IsSorted (suc n) [] e = none_left
exchange_sort-IsSorted (suc n) (x ∷ xs) e =
    one_more
      (Below-perm (exchange x xs).0 (exchange_sort-perm n (exchange x xs).1) (exchange_le x xs).1)
      (exchange_sort-IsSorted n (exchange x xs).1 (omega (arith, length-exchange x xs, e)))

head_le : {a b : Text} {xs ys : List Text} → IsSorted (a ∷ xs) → Perm (b ∷ ys) (a ∷ xs) → NotGt a b
head_le {a} {b} (one_more below sorted) p =
    Below-cons a (NotGt-refl a) below b ((Perm.mem_iff p).0 mem-cons_self)

tail_of : {a : Text} {names : List Text} → IsSorted (a ∷ names) → IsSorted names
tail_of (one_more below sorted) = sorted

pub IsSorted-unique : (xs ys : List Text) → IsSorted xs → IsSorted ys → Perm xs ys → xs ≡ ys
IsSorted-unique [] ys s t p = Perm.nil-eq p
IsSorted-unique (x ∷ xs) [] s t p = Perm.eq-nil p
IsSorted-unique (x ∷ xs) (y ∷ ys) s t p =
    let same = NotGt-antisymm x y (head_le s (Perm.symm p)) (head_le t p) in
    let tails = Perm.cons_inv (Perm.trans p (Perm.symm (Perm.cons' same Perm.rfl))) in
    rw same (ap (◌∷◌ y) (IsSorted-unique xs ys (tail_of s) (tail_of t) tails))

-- The sort of names gives the same list for any two orders of the names: the one order in which no
-- name stands in front of a lesser one.
pub exchange_sort-eq_of_perm :
    (xs ys : List Text)
    → Perm xs ys
    → (exchange_sort (length xs) xs ≡ exchange_sort (length ys) ys)
      × IsSorted (exchange_sort (length xs) xs)
exchange_sort-eq_of_perm xs ys p =
    let left = exchange_sort-IsSorted (length xs) xs refl in
    let right = exchange_sort-IsSorted (length ys) ys refl in
    (
      IsSorted-unique (exchange_sort (length xs) xs) (exchange_sort (length ys) ys) left right (
          Perm.trans (exchange_sort-perm (length xs) xs)
            (Perm.trans p (Perm.symm (exchange_sort-perm (length ys) ys)))),
      left,
    )
