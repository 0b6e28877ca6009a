-- ===== src/Host/Directory.antt =====
-- src/cpmdc_embed_host.c: `cpmdc_pseudopotential_directory`.
-- A C string is its bytes without the NUL. The environment and `stat` are parameters.
use cpmdc.Base.{
  ℕ, zero, suc, ◌-◌, ◌≤◌, ◌<◌, ◌≡◌, ◌⊎◌, inl, inr, refl, sym, ap, ◌∙◌, subst, length-append, Bool,
  true, false, not, ◌&&◌, ◌||◌, Option, none, some, List, [], ◌∷◌, ◌++◌, length, take, All, ltb,
  leb, ◌==◌, if◌then◌else◌, Bool-cases, Option-cases, arith,
}
use cpmdc.Base.Results.{Result, ok, ◌>>=◌, ◌>>◌, refuse_if, or_fail}

abbrev pub Text : Type 0
Text = List ℕ

-- '/' or ' '
abbrev pub is_separator : ℕ → Bool
is_separator c = c == 47 || c == 32

unfoldable pub bounded_len : Text → ℕ → ℕ
bounded_len [] cap = 0
bounded_len (c ∷ cs) zero = 0
bounded_len (c ∷ cs) (suc cap) = suc (bounded_len cs cap)

unfoldable pub trim_separators : Text → Text
trim_separators [] = []
trim_separators (c ∷ cs) =
    let rest = trim_separators cs in if length rest == 0 && is_separator c then [] else c ∷ rest

-- `while (n > 1 && …) dst[--n] = '\0'`: the first byte stays.
unfoldable pub trim_dir : Text → Text
trim_dir [] = []
trim_dir (c ∷ cs) = c ∷ trim_separators cs

unfoldable pub copy_trimmed_dir : Text → ℕ → Option Text
copy_trimmed_dir src cap =
    let n = bounded_len src cap in
    if ltb cap 2 || n == 0 || leb cap n then none else some (trim_dir (take n src))

-- The messages in the buffer; `small_buffer` leaves none.
pub data DirectoryError : Type 0 where
  small_buffer unset unusable not_directory : DirectoryError

-- The value of a variable that is set and not empty.
abbrev pub non_empty : Option Text → Option Text
non_empty none = none
non_empty (some []) = none
non_empty (some (c ∷ cs)) = some (c ∷ cs)

-- `CPMDC_PSEUDO_DIR`, else `CPMD_PP_LIBRARY_PATH`.
abbrev pub first_set : Option Text → Option Text → Option Text
first_set own shared = elim (non_empty own) [ none ↦ non_empty shared | some dir ↦ some dir ]

unfoldable pub pseudopotential_directory :
    (Text → Bool) → Option Text → Option Text → ℕ → Result DirectoryError Text
pseudopotential_directory is_dir own shared cap = do
  refuse_if (ltb cap 8) small_buffer
  dir ← or_fail (first_set own shared) unset
  trimmed ← or_fail (copy_trimmed_dir dir 1024) unusable
  refuse_if (length trimmed == 0 || not (is_dir trimmed)) not_directory
  ok (take (cap - 1) trimmed)

bounded_len-le :
    (src : Text) (cap : ℕ) → (cap ≤ bounded_len src cap) ⊎ (bounded_len src cap ≡ length src)
unfolding bounded_len
bounded_len-le [] cap = inr refl
bounded_len-le (c ∷ cs) zero = inl (omega arith)
bounded_len-le (c ∷ cs) (suc cap) = elim (bounded_len-le cs cap) [
  | inl h ↦ inl (omega arith)
  | inr e ↦ inr (ap suc e)
]

take-all : (xs : Text) → take (length xs) xs ≡ xs
take-all [] = refl
take-all (x ∷ xs) = ap (◌∷◌ x) (take-all xs)

abbrev pub IsSeparator : ℕ → Type 0
IsSeparator c = is_separator c ≡ true

-- No separator at the end.
abbrev pub EndsInName : Text → Type 0
EndsInName [] = Unit {0}
EndsInName (c ∷ []) = is_separator c ≡ false
EndsInName (c ∷ d ∷ cs) = EndsInName (d ∷ cs)

pub record Trimmed (text kept : Text) : Type 0 where
  pub tail : Text
  pub parts : text ≡ kept ++ tail
  pub only_separators : All IsSeparator tail
  pub named : EndsInName kept

trim_separators-Trimmed : (text : Text) → Trimmed text (trim_separators text)
unfolding trim_separators
trim_separators-Trimmed [] = record { tail = []; parts = refl; only_separators = tt; named = tt }
trim_separators-Trimmed (c ∷ cs) = after c cs (trim_separators cs) (trim_separators-Trimmed cs)
  where
    after :
        (c : ℕ) (cs rest : Text)
        → Trimmed cs rest
        → Trimmed (c ∷ cs) (if length rest == 0 && is_separator c then [] else c ∷ rest)
    after c cs [] t = elim (Bool-cases (is_separator c)) [
      | inl sep ↦ rw sep (record {
        tail = c ∷ t.tail;
        parts = ap (◌∷◌ c) t.parts;
        only_separators = (sep, t.only_separators);
        named = tt;
      })
      | inr name ↦ rw name (record {
        tail = t.tail;
        parts = ap (◌∷◌ c) t.parts;
        only_separators = t.only_separators;
        named = name;
      })
    ]
    after c cs (d ∷ rest) t =
        let more : (suc (length rest) == 0) ≡ false = ground arith in
        rw more (record {
          tail = t.tail;
          parts = ap (◌∷◌ c) t.parts;
          only_separators = t.only_separators;
          named = t.named;
        })

-- A directory name of a byte at least, cut behind the last byte that is no separator.
pub IsCut : Text → Text → Type 0
IsCut [] path = path ≡ []
IsCut (c ∷ text) path = (kept : Text) × (path ≡ c ∷ kept) × Trimmed text kept

trim_dir-IsCut : (src : Text) → IsCut src (trim_dir src) × (length (trim_dir src) ≤ length src)
unfolding trim_dir IsCut
trim_dir-IsCut [] = (refl, omega arith)
trim_dir-IsCut (c ∷ cs) =
    let t = trim_separators-Trimmed cs in
    (
      (trim_separators cs, refl, t),
      omega (arith, ap length t.parts, length-append (trim_separators cs) t.tail),
    )

copy_trimmed_dir-parts :
    (src path : Text) (cap : ℕ)
    → copy_trimmed_dir src cap ≡ some path
    → (1 ≤ length src) × (length src < cap) × (trim_dir src ≡ path)
unfolding copy_trimmed_dir
copy_trimmed_dir-parts src path cap e = elim (bounded_len-le src cap) [
  | inl long ↦ absurd (ground arith)
  | inr fits ↦
      let full : take (bounded_len src cap) src ≡ src = rw fits (take-all src) in
      (ground arith, ground arith, ap trim_dir (sym full) ∙ ground arith)
]

take-short : (n : ℕ) (xs : Text) → length xs ≤ n → take n xs ≡ xs
take-short zero [] h = refl
take-short zero (x ∷ xs) h = absurd (omega arith)
take-short (suc n) [] h = refl
take-short (suc n) (x ∷ xs) h = ap (◌∷◌ x) (take-short n xs (omega arith))

-- What a call that returns a path has found out.
pub record Found (is_dir : Text → Bool) (own shared : Option Text) (path : Text) : Type 0 where
  pub dir : Text
  pub chosen : first_set own shared ≡ some dir
  pub short : length dir < 1024
  pub cut : IsCut dir path
  pub is_directory : is_dir path ≡ true

-- With a buffer of 1024 bytes or more, the path that is returned is the value of the first variable
-- that is set and not empty, shorter than 1024 bytes and without the '/' and ' ' at its end, its
-- first byte kept; and `stat` calls it a directory.
pub pseudopotential_directory-Found :
    (is_dir : Text → Bool) (own shared : Option Text) (cap : ℕ) (path : Text)
    → 1024 ≤ cap
    → pseudopotential_directory is_dir own shared cap ≡ ok path
    → Found is_dir own shared path
unfolding pseudopotential_directory
pseudopotential_directory-Found is_dir own shared cap path large e =
    elim (Option-cases (first_set own shared)) [
      | inl none_set ↦ absurd (ground arith)
      | inr (dir, chosen) ↦ elim (Option-cases (copy_trimmed_dir dir 1024)) [
        | inl too_long ↦ absurd (ground arith)
        | inr (trimmed, copied) ↦
            let (some_byte, short, cut) = copy_trimmed_dir-parts dir trimmed 1024 copied in
            let t = trim_dir-IsCut dir in
            let fits : length trimmed ≤ cap - 1 = omega (arith, t.1, ap length cut) in
            let whole = take-short (cap - 1) trimmed fits in
            let same : trimmed ≡ path = ground arith in
            record {
              dir = dir;
              chosen = chosen;
              short = short;
              cut = subst (IsCut dir) (cut ∙ same) t.0;
              is_directory = ground arith;
            }
      ]
    ]
