-- ===== src/Restart/Bytes.antt =====
-- src/cpmdc_restart.c: integers and reals at an offset of a record, and the two growing buffers.
-- A byte is a number; an `int32_t` is its bit pattern below 2 ^ 32, in the byte order of the
-- little-endian hosts that write these files. A `double` is its eight bytes: it is only copied.
pub mod Growth
use cpmdc.Base.{
  int_max, int32_min, is_negative, magnitude, ℕ, zero, suc, ◌+◌, ◌-◌, ◌*◌, ◌/◌, ◌%◌, ◌^◌, Bool,
  ◌||◌, not, Option, none, some, List, [], ◌∷◌, ◌++◌, length, take, drop, ltb, leb, ◌==◌,
  if◌then◌else◌,
}

abbrev pub Bytes : Type 0
Bytes = List ℕ

abbrev pub size_max : ℕ
size_max = 2 ^ 64 - 1

-- The first four bytes as a pattern, and what follows them.
unfoldable pub take_word : Bytes → Option (ℕ × Bytes)
take_word (a ∷ b ∷ c ∷ d ∷ rest) = some (a + 256 * b + 65536 * c + 16777216 * d, rest)
take_word _ = none

-- The four bytes of a pattern.
unfoldable pub word_bytes : ℕ → Bytes
word_bytes u = u % 256 ∷ u / 256 % 256 ∷ u / 65536 % 256 ∷ u / 16777216 % 256 ∷ []

-- `field_fits`: `off > len || len - off < width` is refused.
unfoldable pub field_fits : Bytes → ℕ → ℕ → Bool
field_fits r off width = not (ltb (length r) off || ltb (length r - off) width)

unfoldable pub read_i32 : Bytes → ℕ → Option ℕ
unfolding field_fits take_word
read_i32 r off =
    if field_fits r off 4
    then elim (take_word (drop off r)) [ none ↦ none | some (u, _) ↦ some u ]
    else none

unfoldable pub read_f64 : Bytes → ℕ → Option Bytes
unfolding field_fits
read_f64 r off = if field_fits r off 8 then some (take 8 (drop off r)) else none

-- A heap buffer: what was written to it, and its allocated size.
pub record Buffer : Type 0 where
  pub bytes : Bytes
  pub cap : ℕ

abbrev pub no_buffer : Buffer
no_buffer = record { bytes = []; cap = 0 }

-- The vector of records that `push_rec` grows.
pub record Records : Type 0 where
  pub items : List Bytes
  pub cap : ℕ

abbrev pub no_records : Records
no_records = record { items = []; cap = 0 }

-- `while (ncap < need) { if (ncap > SIZE_MAX / 2) return -1; ncap *= 2; }`
unfoldable pub grow_cap : ℕ → ℕ → ℕ → Option ℕ
grow_cap zero ncap need = if ltb ncap need then none else some ncap
grow_cap (suc fuel) ncap need =
    let more = grow_cap fuel (ncap * 2) need in
    if ltb ncap need then (if ltb (size_max / 2) ncap then none else more) else some ncap

-- The next capacity of the vector, 0 where doubling it would wrap; `sizeof(struct rec)` is 16.
unfoldable pub grown_records : ℕ → ℕ
grown_records cap = if cap == 0 then 64 else if ltb (size_max / 2) cap then 0 else cap * 2

-- `grants size` is whether `realloc` gives a block of that many bytes.
module _ (grants : ℕ → Bool) where
  unfoldable pub append_bytes : Buffer → Bytes → Option Buffer
  append_bytes buf src =
      let need = length buf.bytes + length src in
      if ltb (need % 2 ^ 64) (length buf.bytes)
      then none
      else if ltb buf.cap need
      then elim (grow_cap 64 (if buf.cap == 0 then 256 else buf.cap) need) [
        | none ↦ none
        | some ncap ↦
            if grants ncap then some (record { bytes = buf.bytes ++ src; cap = ncap }) else none
      ]
      else some (record { bytes = buf.bytes ++ src; cap = buf.cap })

  unfoldable pub push_rec : Records → Bytes → Option Records
  push_rec recs payload =
      let items = recs.items ++ (payload ∷ []) in
      let ncap = grown_records recs.cap in
      if length recs.items == recs.cap
      then (if ncap == 0 || ltb (size_max / 16) ncap
          then none
          else if grants (ncap * 16)
          then some (record { items = items; cap = ncap })
          else none)
      else some (record { items = items; cap = recs.cap })
