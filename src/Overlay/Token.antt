-- ===== src/Overlay/Token.antt =====
-- src/cpmdc.c: the token of a list of exchange-correlation functionals, `cpmd_common_xc_token`.
-- `strcmp` orders texts by their bytes, and a text ends at its first byte 0.
use cpmdc.Base.{
  ℕ, zero, suc, ◌-◌, Bool, true, false, ◌&&◌, ◌||◌, Option, none, some, List, [], ◌∷◌, ◌++◌, map,
  length, ltb, leb, ◌==◌, if◌then◌else◌, Text, codes, text_eq,
}
use cpmdc.Force.{Pointer, null, other, items}

abbrev pub to_upper : ℕ → ℕ
to_upper c = if leb 97 c && leb c 122 then c - 32 else c

-- What the C library sees of the bytes of a buffer.
abbrev pub c_string : Text → Text
c_string [] = []
c_string (c ∷ cs) = if c == 0 then [] else c ∷ c_string cs

-- `strcmp(a, b) > 0`
unfoldable pub text_gt : Text → Text → Bool
text_gt [] b = false
text_gt (c ∷ cs) [] = true
text_gt (c ∷ cs) (d ∷ ds) = if ltb d c then true else if ltb c d then false else text_gt cs ds

-- `for (j = i + 1; j < n; ++j)`: what stands at i after the loop, and the names behind it.
unfoldable pub exchange : Text → List Text → Text × List Text
exchange x [] = (x, [])
exchange x (y ∷ ys) =
    let least = if text_gt x y then y else x in
    let other_name = if text_gt x y then x else y in
    let (m, rest) = exchange least ys in (m, other_name ∷ rest)

-- `for (i = 0; i < n; ++i)`, with one round per name.
unfoldable pub exchange_sort : ℕ → List Text → List Text
exchange_sort zero names = names
exchange_sort (suc n) [] = []
exchange_sort (suc n) (x ∷ xs) = let (m, rest) = exchange x xs in m ∷ exchange_sort n rest

-- `%s%s` with a plus sign in front of each name but the first.
abbrev pub join_plus : List Text → Text
join_plus [] = []
join_plus (x ∷ []) = x
join_plus (x ∷ y ∷ ys) = x ++ codes "+" ++ join_plus (y ∷ ys)

-- `k_cpmd_common_xc_map`
abbrev pub xc_map : List (Text × Text)
xc_map =
    (codes "PBE", codes "PBE")
    ∷ (codes "GGA_C_PBE+GGA_X_PBE", codes "PBE")
    ∷ (codes "PBE0", codes "PBE0")
    ∷ (codes "HYB_GGA_XC_PBEH", codes "PBE0")
    ∷ (codes "BLYP", codes "BLYP")
    ∷ (codes "GGA_C_LYP+GGA_X_B88", codes "BLYP")
    ∷ (codes "B3LYP", codes "B3LYP")
    ∷ (codes "HYB_GGA_XC_B3LYP", codes "B3LYP")
    ∷ (codes "LDA", codes "LDA")
    ∷ (codes "LDA_C_VWN+LDA_X", codes "LDA")
    ∷ []

unfoldable pub lookup : List (Text × Text) → Text → Option Text
lookup [] key = none
lookup ((name, token) ∷ rest) key = if text_eq name key then some token else lookup rest key

-- The name in upper case; `none` for an empty name and for one that does not fit 64 bytes.
unfoldable pub upper_name : Text → Option Text
upper_name entry =
    if length entry == 0 || leb 64 (length entry)
    then none
    else some (c_string (map to_upper entry))

unfoldable pub upper_names : List Text → Option (List Text)
upper_names [] = some []
upper_names (entry ∷ entries) = elim (upper_name entry) [
  | none ↦ none
  | some name ↦ elim (upper_names entries) [ none ↦ none | some names ↦ some (name ∷ names) ]
]

-- `none` is the return of -1. The names fit the key: 4 * 63 bytes and three signs are less than 280.
unfoldable pub common_xc_token : Pointer Text → Option Text
common_xc_token null = none
common_xc_token other = none
common_xc_token (items entries) =
    if length entries == 0 || ltb 4 (length entries) then none else elim (upper_names entries) [
      | none ↦ none
      | some names ↦ lookup xc_map (join_plus (exchange_sort (length names) names))
    ]
