-- ===== src/Base/Fill.antt =====
-- The loop `for (i = 0; i < n; ++i) dst[i] = get(i);` on a buffer.
use Prim.Native.Nat.{ℕ, zero, suc, ◌≤◌}
use mathlib.Core.Path.{◌≡◌, refl, ap, subst}
use mathlib.Core.List.{map, List, [], ◌∷◌, ◌++◌}
use native.Mathlib.Omega.{arith}
use cpmdc.Base.Lists.{length, set, drop, length-set}

module _ {ℓ} {A : Type ℓ} where
  -- The element of a list, or what the list gives out of bounds.
  abbrev pub at : A → List A → ℕ → A
  at d [] i = d
  at d (x ∷ xs) zero = x
  at d (x ∷ xs) (suc i) = at d xs i

  abbrev pub fill : (ℕ → A) → ℕ → ℕ → List A → List A
  fill get i zero buf = buf
  fill get i (suc k) buf = fill get (suc i) k (set buf i (get i))

  abbrev pub reads : (ℕ → A) → ℕ → ℕ → List A
  reads get i zero = []
  reads get i (suc k) = get i ∷ reads get (suc i) k

  set-append_length :
      (done rest : List A) (r v : A)
      → set (done ++ r ∷ rest) (length done) v ≡ (done ++ v ∷ []) ++ rest
  set-append_length [] rest r v = refl
  set-append_length (x ∷ done) rest r v = ap (◌∷◌ x) (set-append_length done rest r v)

  length-append_one : (done : List A) (v : A) → length (done ++ v ∷ []) ≡ suc (length done)
  length-append_one [] v = refl
  length-append_one (x ∷ done) v = ap suc (length-append_one done v)

  append_one : (done : List A) (v : A) (rest : List A) → (done ++ v ∷ []) ++ rest ≡ done ++ v ∷ rest
  append_one [] v rest = refl
  append_one (x ∷ done) v rest = ap (◌∷◌ x) (append_one done v rest)

  fill-append :
      (get : ℕ → A) (done rest : List A) (i k : ℕ)
      → length done ≡ i
      → k ≤ length rest
      → fill get i k (done ++ rest) ≡ done ++ (reads get i k ++ drop k rest)
  fill-append get done rest i zero e h = refl
  fill-append get done [] i (suc k) e h = absurd (omega arith)
  fill-append get done (r ∷ rest) i (suc k) e h =
      let here : set (done ++ r ∷ rest) i (get i) ≡ (done ++ get i ∷ []) ++ rest =
        subst (λ j. set (done ++ r ∷ rest) j (get i) ≡ (done ++ get i ∷ []) ++ rest) e
          (set-append_length done rest r (get i)) in
      let more =
        fill-append get (done ++ get i ∷ []) rest (suc i) k
          (omega (arith, length-append_one done (get i), e)) (omega arith) in
      rw (here, more) (append_one done (get i) (reads get (suc i) k ++ drop k rest))

  pub fill-eq :
      (get : ℕ → A) (k : ℕ) (buf : List A)
      → k ≤ length buf
      → fill get 0 k buf ≡ reads get 0 k ++ drop k buf
  fill-eq get k buf h = fill-append get [] buf 0 k refl h

  pub length-fill : (get : ℕ → A) (i k : ℕ) (buf : List A) → length (fill get i k buf) ≡ length buf
  length-fill get i zero buf = refl
  length-fill get i (suc k) buf =
      omega (arith, length-fill get (suc i) k (set buf i (get i)), length-set buf i (get i))

  pub length-reads : (get : ℕ → A) (i k : ℕ) → length (reads get i k) ≡ k
  length-reads get i zero = refl
  length-reads get i (suc k) = ap suc (length-reads get (suc i) k)

-- Reading a list index by index and using each element is a map.
reads-shift :
    {A B : Type 0} (f : A → B) (d x : A) (xs : List A) (i k : ℕ)
    → reads (λ j. f (at d (x ∷ xs) j)) (suc i) k ≡ reads (λ j. f (at d xs j)) i k
reads-shift f d x xs i zero = refl
reads-shift f d x xs i (suc k) = ap (◌∷◌ (f (at d xs i))) (reads-shift f d x xs (suc i) k)

pub reads-map :
    {A B : Type 0} (f : A → B) (d : A) (xs : List A)
    → reads (λ j. f (at d xs j)) 0 (length xs) ≡ map f xs
reads-map f d [] = refl
reads-map f d (x ∷ xs) = ap (◌∷◌ (f x)) (rw (reads-shift f d x xs 0 (length xs)) (reads-map f d xs))
