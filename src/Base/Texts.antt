-- ===== src/Base/Texts.antt =====
-- Texts xs bytes, literals, and the comparison without case of src/cpmdc_params.c.
use Prim.Native.Nat.{ℕ, ◌+◌}
use Prim.Native.Char.{code}
use Prim.Native.String.{String}
use mathlib.Core.Path.{◌≡◌, refl}
use mathlib.Core.Logic.{◌↔◌, inl, inr}
use mathlib.Core.Bool.{Bool, true, false, ◌&&◌}
use mathlib.Core.List.{List, [], ◌∷◌, map}
use cpmdc.Base.Tests.{leb, ◌==◌, ==_iff, Bool-cases, if◌then◌else◌}

abbrev pub Text : Type 0
Text = List ℕ

-- The bytes of a literal.
abbrev pub codes : String → Text
codes String.[] = []
codes (String.◌∷◌ c s) = code c ∷ codes s

-- `tolower` of the C locale.
abbrev pub to_lower : ℕ → ℕ
to_lower c = if leb 65 c && leb c 90 then c + 32 else c

-- `text_eq_ci`
unfoldable pub text_eq_ci : Text → Text → Bool
text_eq_ci [] [] = true
text_eq_ci [] (d ∷ ds) = false
text_eq_ci (c ∷ cs) [] = false
text_eq_ci (c ∷ cs) (d ∷ ds) = to_lower c == to_lower d && text_eq_ci cs ds

-- `strcmp(a, b) == 0`
unfoldable pub text_eq : Text → Text → Bool
text_eq [] [] = true
text_eq [] (d ∷ ds) = false
text_eq (c ∷ cs) [] = false
text_eq (c ∷ cs) (d ∷ ds) = c == d && text_eq cs ds

-- The comparison sees a text only through its lower case.
pub text_eq_ci-map :
    (a b lit : Text) → map to_lower a ≡ map to_lower b → text_eq_ci a lit ≡ text_eq_ci b lit
unfolding text_eq_ci
text_eq_ci-map [] [] lit e = refl
text_eq_ci-map [] (b ∷ ys) lit e = absurd cc
text_eq_ci-map (a ∷ xs) [] lit e = absurd cc
text_eq_ci-map (a ∷ xs) (b ∷ ys) [] e = refl
text_eq_ci-map (a ∷ xs) (b ∷ ys) (l ∷ lit) e =
    let head : to_lower a ≡ to_lower b = cc in
    let tail : map to_lower xs ≡ map to_lower ys = cc in
    rw (head, text_eq_ci-map xs ys lit tail) refl

pub text_eq_iff : (a b : Text) → (text_eq a b ≡ true) ↔ (a ≡ b)
unfolding text_eq
text_eq_iff [] [] = (λ e. refl, λ e. refl)
text_eq_iff [] (d ∷ ds) = (λ e. absurd cc, λ e. absurd cc)
text_eq_iff (c ∷ cs) [] = (λ e. absurd cc, λ e. absurd cc)
text_eq_iff (c ∷ cs) (d ∷ ds) = elim (Bool-cases (c == d)) [
  | inl e ↦
      let same = (==_iff c d).0 e in
      let (there, back) = text_eq_iff cs ds in rw e (λ f. rw (same, there f) refl, λ f. back cc)
  | inr e ↦ rw e (λ f. absurd cc, λ f. let same = (==_iff c d).1 cc in absurd cc)
]
