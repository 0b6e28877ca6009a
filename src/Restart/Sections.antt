-- ===== src/Restart/Sections.antt =====
-- src/cpmdc_restart.c: `index_sections` and `rec_at`.
-- `sec_start` and `sec_nrec` are one list of spans: its n-th entry is section n + 1. A section past
-- the end of the list is the one whose `sec_start` is -1 and whose `sec_nrec` is 0.
pub mod Tiles
pub mod Agree
use cpmdc.Base.{
  int_max, int32_min, magnitude, ℕ, zero, suc, ◌+◌, ◌-◌, ◌≤◌, ◌<◌, ◌≡◌, Bool, true, false, not,
  ◌&&◌, ◌||◌, Option, none, some, List, [], ◌∷◌, ◌++◌, length, get_elem?, take, drop, ltb, leb,
  ◌==◌, if◌then◌else◌,
}
use cpmdc.Base.Results.{Result, ok, err, ◌>>=◌, ◌>>◌, refuse_if, or_fail}
use cpmdc.Restart.Bytes.{Bytes, read_i32}

pub record Span : Type 0 where
  pub start : ℕ
  pub nrec : ℕ

-- The messages of `set_err`. `out_of_bounds` is none of them: it is a read past the records.
pub data IndexError : Type 0 where
  no_records not_header short_header count_range past_records span_range records_remain : IndexError
  out_of_bounds : IndexError

-- `CPMDC_RESTART_MAX_SECTIONS`
abbrev pub max_sections : ℕ
max_sections = 99

-- `strncmp(p, q, strlen(q)) == 0`
unfoldable pub starts_with : Bytes → Bytes → Bool
starts_with text [] = true
starts_with [] (p ∷ ps) = false
starts_with (c ∷ cs) (p ∷ ps) = c == p && starts_with cs ps

-- `memmem(text, pattern) != NULL`
unfoldable pub contains : Bytes → Bytes → Bool
contains [] pattern = starts_with [] pattern
contains (c ∷ cs) pattern = starts_with (c ∷ cs) pattern || contains cs pattern

-- "STUTTGART VERSION 3.0" and "STREAM"
abbrev pub version_text : Bytes
version_text =
    83 ∷ 84 ∷ 85 ∷ 84 ∷ 84 ∷ 71 ∷ 65 ∷ 82 ∷ 84 ∷ 32 ∷ 86 ∷ 69 ∷ 82 ∷ 83 ∷ 73 ∷ 79 ∷ 78 ∷ 32 ∷ 51
    ∷ 46 ∷ 48 ∷ []

abbrev pub stream_text : Bytes
stream_text = 83 ∷ 84 ∷ 82 ∷ 69 ∷ 65 ∷ 77 ∷ []

-- `while (hlen > 0 && (h[hlen - 1] == ' ' || h[hlen - 1] == '\0')) hlen--`
unfoldable pub trim_end : Bytes → Bytes
trim_end [] = []
trim_end (c ∷ cs) =
    let rest = trim_end cs in if length rest == 0 && (c == 32 || c == 0) then [] else c ∷ rest

-- A C string ends at its first NUL.
unfoldable pub c_string : Bytes → Bytes
c_string [] = []
c_string (c ∷ cs) = if c == 0 then [] else c ∷ c_string cs

-- What `file->header[96]` holds of the first record.
unfoldable pub header_text : Bytes → Bytes
header_text h = trim_end (take 95 h)

-- The turn of the loop that looks at record i, the header of the next section.
unfoldable pub span_at : List Bytes → ℕ → Result IndexError Span
span_at recs i = do
  header ← or_fail (get_elem? recs i) out_of_bounds
  count ← or_fail (read_i32 header 0) short_header
  refuse_if (count == int32_min) count_range
  refuse_if (ltb (length recs - i - 1) (magnitude count)) past_records
  refuse_if (ltb int_max i || ltb (int_max - 1) (magnitude count)) span_range
  ok (record { start = i; nrec = 1 + magnitude count })

-- `for (s = 2; s <= 99 && i < nrecs; s++)`: the sections left to fill, the record reached, and the
-- spans found. The result is the record reached and the spans from here on.
unfoldable pub index_loop : ℕ → List Bytes → ℕ → Result IndexError (ℕ × List Span)
index_loop zero recs i = ok (i, [])
index_loop (suc left) recs i =
    let next = do
      span ← span_at recs i
      (reached, spans) ← index_loop left recs (i + span.nrec)
      ok (reached, span ∷ spans)
    in if ltb i (length recs) then next else ok (i, [])

pub record Index : Type 0 where
  pub header : Bytes
  pub stream : Bool
  pub spans : List Span

-- The checks of the first record.
unfoldable pub read_header : List Bytes → Result IndexError Bytes
read_header [] = err no_records
read_header (h ∷ rest) = if contains h version_text then ok (header_text h) else err not_header

unfoldable pub index_sections : List Bytes → Result IndexError Index
index_sections recs = do
  header ← read_header recs
  (reached, spans) ← index_loop (max_sections - 1) recs 1
  refuse_if (not (reached == length recs)) records_remain
  ok (record {
    header = header;
    stream = contains (c_string header) stream_text;
    spans = record { start = 0; nrec = 1 } ∷ spans;
  })

-- `sec_nrec[s]`, and the span of a section that the file has.
unfoldable pub span_of : List Span → ℕ → Option Span
span_of spans zero = none
span_of spans (suc s) = get_elem? spans s

unfoldable pub sec_nrec : List Span → ℕ → ℕ
unfolding span_of
sec_nrec spans s = elim (span_of spans s) [ none ↦ 0 | some span ↦ span.nrec ]

-- The spans hold sections 1 to 99, so `span_of` also makes the test of the section number.
unfoldable pub rec_at : List Bytes → List Span → ℕ → ℕ → Option Bytes
rec_at recs spans section offset = elim (span_of spans section) [
  | none ↦ none
  | some span ↦ get_elem? recs (span.start + offset)
]
