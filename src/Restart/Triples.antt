-- ===== src/Restart/Triples.antt =====
-- src/cpmdc_restart.c: the accessors of sections 4 to 6 and of the cell, with the functions behind
-- them. An array of `n3` doubles is a list of that length.
pub mod Patch
pub mod ReadBack
pub mod SetCell
use cpmdc.Base.{
  int_max, ℕ, zero, suc, ◌+◌, ◌-◌, ◌*◌, ◌/◌, ◌≤◌, ◌<◌, ◌≡◌, Bool, true, false, not, ◌&&◌, ◌||◌,
  Option, none, some, List, [], ◌∷◌, ◌++◌, length, get_elem?, set, take, drop, replicate, ltb, leb,
  ◌==◌, if◌then◌else◌,
}
use cpmdc.Base.Options.{◌>>=◌, ◌>>◌, stop_if}
use cpmdc.Restart.Bytes.{Bytes, read_i32, read_f64}
use cpmdc.Restart.Sections.{Span, sec_nrec, span_of, rec_at, max_sections}
use cpmdc.Restart.File.{restart_species, File, Cell}

-- 0 is `done` and -1 is `refused`, and so with a value `given` and `denied`. `fault` and `stray` are
-- no returns: an index ran past the records.
pub data Status : Type 0 where
  done refused fault : Status

pub data Answer (A : Type 0) : Type 0 where
  given : A → Answer A
  denied stray : Answer A

-- `triples_span`: how many triples a section has, and the first of their records.
-- `sec_start` is -1 exactly where the section is absent, and then `sec_nrec` is 0.
unfoldable pub triples_span : Option Span → Option (ℕ × ℕ)
triples_span none = none
triples_span (some span) =
    let n = span.nrec - 1 in
    do
      stop_if (ltb span.nrec 1)
      stop_if (ltb (int_max / 3) n)
      stop_if (ltb 0 n && ltb (int_max - n) span.start)
      some (n, if ltb 0 n then span.start + 1 else 0)

-- `read_f64` of the three reals of a record.
unfoldable pub read_triple : Bytes → Option (List Bytes)
read_triple r = do x ← read_f64 r 0; y ← read_f64 r 8; z ← read_f64 r 16; some (x ∷ y ∷ z ∷ [])

unfoldable pub copy_loop : ℕ → ℕ → List Bytes → Answer (List Bytes)
copy_loop zero i recs = given []
copy_loop (suc n) i recs = elim (get_elem? recs i) [
  | none ↦ stray
  | some r ↦ if not (length r == 24) then denied else elim (read_triple r) [
    | none ↦ denied
    | some xyz ↦ elim (copy_loop n (suc i) recs) [
      | given rest ↦ given (xyz ++ rest)
      | denied ↦ denied
      | stray ↦ stray
    ]
  ]
]

unfoldable pub copy_triples : File → ℕ → ℕ → Answer (List Bytes)
copy_triples file section n3 = elim (triples_span (span_of file.spans section)) [
  | none ↦ denied
  | some (n, start) ↦ if not (n3 == n * 3) then denied else copy_loop n start file.recs
]

-- `memcpy(dst, src, n * 8)` of n doubles.
unfoldable pub pack : List Bytes → Bytes
pack [] = []
pack (x ∷ xs) = x ++ pack xs

-- The records that were written before a refusal stay written.
unfoldable pub store_loop : ℕ → ℕ → List Bytes → List Bytes → Status × List Bytes
store_loop zero i xyz recs = (done, recs)
store_loop (suc n) i xyz recs = elim (get_elem? recs i) [
  | none ↦ (fault, recs)
  | some r ↦
      if not (length r == 24)
      then (refused, recs)
      else store_loop n (suc i) (drop 3 xyz) (set recs i (pack (take 3 xyz)))
]

unfoldable pub store_triples : File → ℕ → List Bytes → Status × File
store_triples file section xyz = elim (triples_span (span_of file.spans section)) [
  | none ↦ (refused, file)
  | some (n, start) ↦
      if not (length xyz == n * 3)
      then (refused, file)
      else let (status, recs) = store_loop n start xyz file.recs in
        (status, record file { recs = recs })
]

unfoldable pub coordinates : File → ℕ → Answer (List Bytes)
coordinates file n3 = copy_triples file 4 n3

unfoldable pub velocities : File → ℕ → Answer (List Bytes)
velocities file n3 = copy_triples file 5 n3

unfoldable pub initial_coordinates : File → ℕ → Answer (List Bytes)
initial_coordinates file n3 = copy_triples file 6 n3

unfoldable pub set_coordinates : File → List Bytes → Status × File
set_coordinates file xyz = store_triples file 4 xyz

unfoldable pub set_velocities : File → List Bytes → Status × File
set_velocities file xyz = store_triples file 5 xyz

-- `cpmdc_restart_ncoords`
unfoldable pub ncoords : File → ℕ
ncoords file = sec_nrec file.spans 4 - 1

-- `cpmdc_restart_section`: the record count that the header of a section states.
unfoldable pub section_count : File → ℕ → Option ℕ
section_count file section = do
  span ← span_of file.spans section
  if section == 1 then some 1 else (rec_at file.recs file.spans section 0 >>= λ r. read_i32 r 0)

-- The record that holds the cell, and where it stands.
unfoldable pub set_cell : File → List Bytes → Status × File
set_cell file celldm = elim file.cell [
  | none ↦ (refused, file)
  | some cell ↦
      if not (sec_nrec file.spans 2 == 3) then (refused, file) else elim (span_of file.spans 2) [
        | none ↦ (refused, file)
        | some span ↦ elim (get_elem? file.recs (span.start + 2)) [
          | none ↦ (refused, file)
          | some r ↦ if ltb (length r) 48 then (refused, file) else (
            done,
            record file {
              recs = set file.recs (span.start + 2) (pack celldm ++ drop 48 r);
              cell = some (record cell { celldm = celldm });
            },
          )
        ]
      ]
]

-- `cpmdc_restart_expand_species_symbols`: an absent or empty symbol is the empty text. The loops
-- stop where a symbol is empty or the atoms do not fit; the array holds the symbols written.
unfoldable pub expand_loop : List ℕ → List Bytes → ℕ → Option (List Bytes)
expand_loop [] symbols room = if room == 0 then some [] else none
expand_loop (n ∷ na) [] room = none
expand_loop (n ∷ na) (s ∷ symbols) room =
    if length s == 0 || ltb room n then none else elim (expand_loop na symbols (room - n)) [
      | none ↦ none
      | some rest ↦ some (replicate n s ++ rest)
    ]

unfoldable pub expand_species_symbols : File → List Bytes → ℕ → Option (List Bytes)
expand_species_symbols file symbols n_atoms = elim (restart_species file) [
  | none ↦ none
  | some na ↦
      if length na == 0 || not (length symbols == length na)
      then none
      else expand_loop na symbols n_atoms
]
