-- ===== src/Deck/Sets.antt =====
-- A set directive is split at its first dot, and the directives of a section are written once.
use cpmdc.Base.{
  count, one_if, ℕ, ◌+◌, ◌≤◌, ◌<◌, ◌≡◌, ◌↔◌, refl, sym, ap, subst, ◌∙◌, Bool, true, false, not,
  ◌||◌, inl, inr, some, List, [], ◌∷◌, ◌++◌, length, length-append, leb, ◌==◌, ==_iff,
  if◌then◌else◌, Bool-cases, Option-cases, arith,
}
use mathlib.Core.List.{append_assoc, append-nil}
use cpmdc.Base.Results.{Result, ok, ◌>>=◌}
use cpmdc.Deck.{
  Text, Refusal, SetDirective, append_text, append_capn_text, append_slice, split_dot,
  init_render_set, section_name_equals, append_set_payload, append_set_directives_for_section,
}

-- A key of a section name without a dot, a dot, and a keyword.
pub record IsKey (key section keyword : Text) : Type 0 where
  pub parts : key ≡ section ++ (46 ∷ keyword)
  pub first_dot : count 46 section ≡ 0
  pub some_section : 1 ≤ length section
  pub some_keyword : 1 ≤ length keyword

split_dot-parts :
    (key : Text) (x : Text × Text)
    → split_dot key ≡ some x
    → (key ≡ x.0 ++ (46 ∷ x.1)) × (count 46 x.0 ≡ 0)
unfolding split_dot
split_dot-parts [] x e = absurd cc
split_dot-parts (c ∷ cs) x e = elim (Bool-cases (c == 46)) [
  | inl dot ↦
      let same : ([], cs) ≡ x = ground arith in
      let is_dot = (==_iff c 46).0 dot in
      subst (λ (y : Text × Text). (c ∷ cs ≡ y.0 ++ (46 ∷ y.1)) × (count 46 y.0 ≡ 0)) same
        (ap (λ d. d ∷ cs) is_dot, refl)
  | inr other ↦ elim (Option-cases (split_dot cs)) [
    | inl stuck ↦ absurd (ground arith)
    | inr (y, found) ↦
        let same : (c ∷ y.0, y.1) ≡ x = ground arith in
        let (parts, none_before) = split_dot-parts cs y found in
        subst (λ (z : Text × Text). (c ∷ cs ≡ z.0 ++ (46 ∷ z.1)) × (count 46 z.0 ≡ 0)) same
          (ap (◌∷◌ c) parts, omega (arith, ap one_if other))
  ]
]

split_dot-append :
    (section keyword : Text)
    → count 46 section ≡ 0
    → split_dot (section ++ (46 ∷ keyword)) ≡ some (section, keyword)
unfolding split_dot
split_dot-append [] keyword h = refl
split_dot-append (c ∷ section) keyword h =
    let other : (c == 46) ≡ false = ground arith in
    rw (other, split_dot-append section keyword (ground arith)) refl

-- A directive is accepted exactly where its key is a section name without a dot, a dot and a keyword,
-- neither of them empty; then these are its parts, and it is not rendered yet.
pub init_render_set_iff :
    (key value section keyword : Text)
    → (init_render_set key value
        ≡ some (record { section = section; keyword = keyword; value = value; rendered = false }))
      ↔ IsKey key section keyword
unfolding init_render_set
init_render_set_iff key value section keyword = (parts, built)
  where
    parts :
        init_render_set key value
          ≡ some (record { section = section; keyword = keyword; value = value; rendered = false })
        → IsKey key section keyword
    parts e = elim (Option-cases (split_dot key)) [
      | inl stuck ↦ absurd (ground arith)
      | inr (x, found) ↦
          let (whole, first) = split_dot-parts key x found in
          let s : x.0 ≡ section = ground arith in
          let k : x.1 ≡ keyword = ground arith in
          record {
            parts = rw (← s, ← k) whole;
            first_dot = rw (← s) first;
            some_section = ground arith;
            some_keyword = ground arith;
          }
    ]

    built :
        IsKey key section keyword
        → init_render_set key value
          ≡ some (record { section = section; keyword = keyword; value = value; rendered = false })
    built k =
        let found : split_dot key ≡ some (section, keyword) =
          ap split_dot k.parts ∙ split_dot-append section keyword k.first_dot in
        let long : leb (length key) 2 ≡ false = ground (
          arith,
          ap length k.parts,
          length-append section (46 ∷ keyword),
          k.some_section,
          k.some_keyword,
        ) in
        let named : (length section == 0 || length keyword == 0) ≡ false =
          ground (arith, k.some_section, k.some_keyword) in
        rw (long, found, named) refl

-- The line of a keyword, and that of its value.
abbrev pub payload : SetDirective → Text
payload set =
    (32 ∷ [])
    ++ (set.keyword
        ++ ((10 ∷ [])
            ++ (if length set.value == 0 then [] else (32 ∷ 32 ∷ []) ++ (set.value ++ (10 ∷ [])))))

abbrev pub is_pending : Text → SetDirective → Bool
is_pending section set = not (set.rendered || not (section_name_equals set.section section))

-- What the directives of a section add to the deck, and how they are left.
abbrev pub payloads : Text → List SetDirective → Text
payloads section [] = []
payloads section (set ∷ sets) =
    if is_pending section set then payload set ++ payloads section sets else payloads section sets

abbrev pub marked : Text → List SetDirective → List SetDirective
marked section [] = []
marked section (set ∷ sets) =
    (if is_pending section set then record set { rendered = true } else set) ∷ marked section sets

-- A write of a text: it goes behind what is there, where it and a NUL fit.
Writes : ℕ → Text → Text → Result Refusal Text → Type 0
Writes cap dst s r = length dst + length s < cap → r ≡ ok (dst ++ s)

append_text-Writes : (cap : ℕ) (dst s : Text) → Writes cap dst s (append_text cap dst s)
unfolding append_text Writes
append_text-Writes cap dst s h = ground arith

nothing-Writes : (cap : ℕ) (dst : Text) → Writes cap dst [] (ok dst)
unfolding Writes
nothing-Writes cap dst h = ap ok (sym (append-nil dst))

append_slice-Writes : (cap : ℕ) (dst s : Text) → Writes cap dst s (append_slice cap dst s)
unfolding append_slice Writes
append_slice-Writes cap dst [] h = ap ok (sym (append-nil dst))
append_slice-Writes cap dst (c ∷ s) h = ground arith

append_capn_text-Writes : (cap : ℕ) (dst s : Text) → Writes cap dst s (append_capn_text cap dst s)
unfolding append_capn_text Writes
append_capn_text-Writes cap dst [] h = ap ok (sym (append-nil dst))
append_capn_text-Writes cap dst (c ∷ s) h = ground arith

Writes-then :
    (cap : ℕ) (dst s t : Text) (r : Result Refusal Text) (k : Text → Result Refusal Text)
    → Writes cap dst s r
    → Writes cap (dst ++ s) t (k (dst ++ s))
    → Writes cap dst (s ++ t) (r >>= k)
unfolding Writes
Writes-then cap dst s t r k first next h =
    let e : r ≡ ok (dst ++ s) = first (omega (arith, length-append s t)) in
    rw e
      (next (omega (arith, length-append s t, length-append dst s)) ∙ ap ok (append_assoc dst s t))

append_set_payload-Writes :
    (cap : ℕ) (dst : Text) (set : SetDirective)
    → Writes cap dst (payload set) (append_set_payload cap dst set)
unfolding append_set_payload
append_set_payload-Writes cap dst set =
    Writes-then cap dst (32 ∷ []) _ (append_text cap dst (32 ∷ [])) _
      (append_text-Writes cap dst (32 ∷ []))
      (Writes-then cap (dst ++ (32 ∷ [])) set.keyword _
        (append_slice cap (dst ++ (32 ∷ [])) set.keyword) _
        (append_slice-Writes cap (dst ++ (32 ∷ [])) set.keyword)
        (Writes-then cap ((dst ++ (32 ∷ [])) ++ set.keyword) (10 ∷ []) _
          (append_text cap ((dst ++ (32 ∷ [])) ++ set.keyword) (10 ∷ [])) _
          (append_text-Writes cap ((dst ++ (32 ∷ [])) ++ set.keyword) (10 ∷ []))
          (value_line (((dst ++ (32 ∷ [])) ++ set.keyword) ++ (10 ∷ [])))))
  where
    value_line :
        (c : Text)
        → Writes cap c
            (if length set.value == 0 then [] else (32 ∷ 32 ∷ []) ++ (set.value ++ (10 ∷ [])))
            (if length set.value == 0 then ok c else (do
              d ← append_text cap c (32 ∷ 32 ∷ [])
              e ← append_capn_text cap d set.value
              append_text cap e (10 ∷ [])))
    value_line c = elim (Bool-cases (length set.value == 0)) [
      | inl empty ↦ rw empty (nothing-Writes cap c)
      | inr given ↦ rw given (
          Writes-then cap c (32 ∷ 32 ∷ []) _ (append_text cap c (32 ∷ 32 ∷ [])) _
            (append_text-Writes cap c (32 ∷ 32 ∷ []))
            (Writes-then cap (c ++ (32 ∷ 32 ∷ [])) set.value _
              (append_capn_text cap (c ++ (32 ∷ 32 ∷ [])) set.value) _
              (append_capn_text-Writes cap (c ++ (32 ∷ 32 ∷ [])) set.value)
              (append_text-Writes cap ((c ++ (32 ∷ 32 ∷ [])) ++ set.value) (10 ∷ []))))
    ]

-- Where the deck has room for them and a NUL: the directives of the section that are not rendered yet
-- are written behind the deck in their order, a line for the keyword and one for a value that is not
-- empty. They and no others are marked as rendered.
pub append_set_directives_for_section_lem :
    (cap : ℕ) (dst : Text) (sets : List SetDirective) (section : Text)
    → length dst + length (payloads section sets) < cap
    → append_set_directives_for_section cap dst sets section
      ≡ ok (dst ++ payloads section sets, marked section sets)
unfolding append_set_directives_for_section Writes
append_set_directives_for_section_lem cap dst [] section h =
    ap (λ d. ok (d, [])) (sym (append-nil dst))
append_set_directives_for_section_lem cap dst (set ∷ sets) section h =
    elim (Bool-cases (set.rendered || not (section_name_equals set.section section))) [
      | inl skip ↦
          rw (skip, append_set_directives_for_section_lem cap dst sets section (rw skip at h)) refl
      | inr go ↦
          let room : length dst + length (payload set ++ payloads section sets) < cap =
            rw go at h in
          let size = length-append (payload set) (payloads section sets) in
          let written = append_set_payload-Writes cap dst set (omega (arith, size)) in
          let rest =
            append_set_directives_for_section_lem cap (dst ++ payload set) sets section
              (omega (arith, size, length-append dst (payload set))) in
          rw (go, written, rest, append_assoc dst (payload set) (payloads section sets)) refl
    ]
