-- ===== src/Deck.antt =====
-- src/cpmdc_params.c: text appended to the deck buffer, and the SECTION.KEYWORD set directives.
-- A text is its bytes; a slice of a text is a text. `cap` is the size of the buffer.
pub mod Sets
mod Tests
use cpmdc.Base.{
  ℕ, zero, suc, ◌+◌, ◌-◌, ◌*◌, Bool, true, false, not, ◌&&◌, ◌||◌, Option, none, some, List, [],
  ◌∷◌, ◌++◌, length, ltb, leb, ◌==◌, if◌then◌else◌,
}
use cpmdc.Base.Results.{Result, ok, err, ◌>>=◌, ◌>>◌, refuse_if, or_fail}

abbrev pub Text : Type 0
Text = List ℕ

-- The return of -1, with `g_deck_overflow` set or not.
pub data Refusal : Type 0 where
  overflow refused : Refusal

module _ (cap : ℕ) where
  -- `append_text`: `append_fmt` with "%s".
  unfoldable pub append_text : Text → Text → Result Refusal Text
  append_text dst s =
      if leb cap (length dst) || leb (cap - length dst) (length s)
      then err overflow
      else ok (dst ++ s)

  unfoldable pub append_capn_text : Text → Text → Result Refusal Text
  append_capn_text dst s =
      if length s == 0
      then ok dst
      else if leb cap (length dst) || ltb (cap - length dst - 1) (length s)
      then err overflow
      else ok (dst ++ s)

  unfoldable pub append_slice : Text → Text → Result Refusal Text
  append_slice dst s =
      if length s == 0
      then ok dst
      else if leb cap (length dst) || ltb (cap - length dst - 1) (length s)
      then err refused
      else ok (dst ++ s)

pub record SetDirective : Type 0 where
  pub section : Text
  pub keyword : Text
  pub value : Text
  pub rendered : Bool

abbrev pub ascii_upper : ℕ → ℕ
ascii_upper c = if leb 97 c && leb c 122 then c - 32 else c

-- `section_name_equals`, and `set_sections_equal` on two sections.
unfoldable pub section_name_equals : Text → Text → Bool
section_name_equals [] [] = true
section_name_equals [] (d ∷ ds) = false
section_name_equals (c ∷ cs) [] = false
section_name_equals (c ∷ cs) (d ∷ ds) = ascii_upper c == ascii_upper d && section_name_equals cs ds

unfoldable pub slice_starts_ci : Text → Text → Bool
slice_starts_ci text [] = true
slice_starts_ci [] (p ∷ ps) = false
slice_starts_ci (c ∷ cs) (p ∷ ps) = ascii_upper c == ascii_upper p && slice_starts_ci cs ps

-- `memchr(key, '.', len)`: the text before the first dot, and behind it.
unfoldable pub split_dot : Text → Option (Text × Text)
split_dot [] = none
split_dot (c ∷ cs) =
    let rest = split_dot cs in
    if c == 46
    then some ([], cs)
    else elim rest [ none ↦ none | some (section, keyword) ↦ some (c ∷ section, keyword) ]

unfoldable pub init_render_set : Text → Text → Option SetDirective
init_render_set key value = if leb (length key) 2 then none else elim (split_dot key) [
  | none ↦ none
  | some (section, keyword) ↦
      if length section == 0 || length keyword == 0
      then none
      else some (record { section = section; keyword = keyword; value = value; rendered = false })
]

-- `CPMDC_MAX_SET_DIRECTIVES`
abbrev pub max_set_directives : ℕ
max_set_directives = 128

-- The sections of the input that are set directives, as pairs of key and value, from `len` on.
unfoldable pub collect_set_directives : ℕ → List (Text × Text) → Option (List SetDirective)
collect_set_directives len [] = some []
collect_set_directives len ((key, value) ∷ sections) =
    if leb max_set_directives len then none else elim (init_render_set key value) [
      | none ↦ none
      | some set ↦ elim (collect_set_directives (suc len) sections) [
        | none ↦ none
        | some sets ↦ some (set ∷ sets)
      ]
    ]

unfoldable pub set_directives_have_prefix : List SetDirective → Text → Text → Bool
set_directives_have_prefix [] section prefix = false
set_directives_have_prefix (set ∷ sets) section prefix =
    (not (set.rendered || not (section_name_equals set.section section))
      && slice_starts_ci set.keyword prefix)
    || set_directives_have_prefix sets section prefix

module _ (cap : ℕ) where
  unfoldable pub append_set_payload : Text → SetDirective → Result Refusal Text
  append_set_payload dst set = do
    a ← append_text cap dst (32 ∷ [])
    b ← append_slice cap a set.keyword
    c ← append_text cap b (10 ∷ [])
    if length set.value == 0 then ok c else do
      d ← append_text cap c (32 ∷ 32 ∷ [])
      e ← append_capn_text cap d set.value
      append_text cap e (10 ∷ [])

  -- The directives of a section that are not rendered yet, each marked when it is.
  unfoldable pub append_set_directives_for_section :
      Text → List SetDirective → Text → Result Refusal (Text × List SetDirective)
  append_set_directives_for_section dst [] section = ok (dst, [])
  append_set_directives_for_section dst (set ∷ sets) section =
      if set.rendered || not (section_name_equals set.section section)
      then (do
        (dst', sets') ← append_set_directives_for_section dst sets section
        ok (dst', set ∷ sets'))
      else (do
        dst' ← append_set_payload dst set
        (dst'', sets') ← append_set_directives_for_section dst' sets section
        ok (dst'', record set { rendered = true } ∷ sets'))
