-- ===== src/Deck/Tests.antt =====
-- src/cpmdc_params.c: one directive, and a deck of six bytes.
use cpmdc.Base.{◌+◌, ◌<◌, ◌≡◌, ◌↔◌, refl, false, some, [], ◌∷◌, length, arith}
use cpmdc.Base.Results.{ok, err}
use cpmdc.Deck.{
  Text, refused, SetDirective, init_render_set, section_name_equals,
  append_set_directives_for_section, append_slice,
}
use cpmdc.Deck.Sets.{
  IsKey, init_render_set_iff, payloads, marked, append_set_directives_for_section_lem,
}

-- "A.B"
abbrev key_text : Text
key_text = 65 ∷ 46 ∷ 66 ∷ []

abbrev directive : SetDirective
directive = record { section = 65 ∷ []; keyword = 66 ∷ []; value = 49 ∷ []; rendered = false }

init_render_set_iff_example :
    (init_render_set key_text (49 ∷ [])
      ≡ some (record { section = 65 ∷ []; keyword = 66 ∷ []; value = 49 ∷ []; rendered = false }))
    ↔ IsKey key_text (65 ∷ []) (66 ∷ [])
init_render_set_iff_example = init_render_set_iff key_text (49 ∷ []) (65 ∷ []) (66 ∷ [])

-- The section is named in lower case.
payloads_fit : 0 + length (payloads (97 ∷ []) (directive ∷ [])) < 16
unfolding section_name_equals
payloads_fit = omega arith

append_set_directives_for_section_lem_example :
    append_set_directives_for_section 16 [] (directive ∷ []) (97 ∷ [])
    ≡ ok (payloads (97 ∷ []) (directive ∷ []), marked (97 ∷ []) (directive ∷ []))
append_set_directives_for_section_lem_example =
    append_set_directives_for_section_lem 16 [] (directive ∷ []) (97 ∷ []) payloads_fit

-- A slice that does not fit is refused without the mark of an overflow.
slice_refused : append_slice 3 (1 ∷ 2 ∷ []) (3 ∷ []) ≡ err refused
unfolding append_slice
slice_refused = refl
