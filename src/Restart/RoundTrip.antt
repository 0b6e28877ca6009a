-- ===== src/Restart/RoundTrip.antt =====
-- src/cpmdc_restart.c: a file that was read, patched any number of times and written is read back.
use cpmdc.Base.{ℕ, ◌<◌, ◌≡◌, Bool, true, some, List, [], ◌∷◌, length, All, arith}
use cpmdc.Base.Results.{ok, >>=-eq-ok}
use cpmdc.Restart.Bytes.{Bytes}
use cpmdc.Restart.Bytes.Growth.{file_limit}
use cpmdc.Restart.Records.RoundTrip.{wire_all}
use cpmdc.Restart.Records.Emit.{parse_records-write_records}
use cpmdc.Restart.Records.{parse_records}
use cpmdc.Restart.File.{File, LoadError, read_mem, write_mem, lift_error}
use cpmdc.Restart.File.Load.{IsLoaded, load-IsLoaded}
use cpmdc.Restart.Triples.{set_coordinates, set_velocities, set_cell}
use cpmdc.Restart.Triples.Patch.{store_triples-IsLoaded}
use cpmdc.Restart.Triples.ReadBack.{IsReal}
use cpmdc.Restart.Triples.SetCell.{set_cell-IsLoaded}

-- The calls that change a file.
pub data Patch : Type 0 where
  positions : List Bytes → Patch
  speeds : List Bytes → Patch
  lattice : List Bytes → Patch

-- The caller's array of six doubles.
abbrev pub IsPatch : Patch → Type 0
IsPatch (positions xyz) = Unit {0}
IsPatch (speeds xyz) = Unit {0}
IsPatch (lattice celldm) = (length celldm ≡ 6) × All IsReal celldm

unfoldable pub apply : File → Patch → File
apply file (positions xyz) = (set_coordinates file xyz).1
apply file (speeds xyz) = (set_velocities file xyz).1
apply file (lattice celldm) = (set_cell file celldm).1

unfoldable pub apply_all : File → List Patch → File
apply_all file [] = file
apply_all file (p ∷ ps) = apply_all (apply file p) ps

apply-IsLoaded : (file : File) (p : Patch) → IsPatch p → IsLoaded file → IsLoaded (apply file p)
unfolding apply set_coordinates set_velocities
apply-IsLoaded file (positions xyz) h l =
    store_triples-IsLoaded file 4 xyz (λ e. omega arith) (λ e. omega arith) (λ e. omega arith)
      (λ e. omega arith) l
apply-IsLoaded file (speeds xyz) h l =
    store_triples-IsLoaded file 5 xyz (λ e. omega arith) (λ e. omega arith) (λ e. omega arith)
      (λ e. omega arith) l
apply-IsLoaded file (lattice celldm) (six, reals) l = set_cell-IsLoaded file celldm six reals l

-- On a file in agreement with its records, for cells of six reals of eight bytes: whatever is
-- patched, and whether or not a call is refused, the header, the sections, the species,
-- the cell, the cutoff and the states in memory stay what the records say.
pub apply_all-IsLoaded :
    (file : File) (ps : List Patch) → All IsPatch ps → IsLoaded file → IsLoaded (apply_all file ps)
unfolding apply_all
apply_all-IsLoaded file [] h l = l
apply_all-IsLoaded file (p ∷ ps) (hp, hps) l =
    apply_all-IsLoaded (apply file p) ps hps (apply-IsLoaded file p hp l)

module _ (grants : ℕ → Bool) (all_granted : (n : ℕ) → grants n ≡ true) where
  read_mem-IsLoaded :
      (bytes : Bytes) (file : File) → read_mem grants bytes ≡ ok file → IsLoaded file
  unfolding read_mem
  read_mem-IsLoaded bytes file e =
      let (records, e', f) =
        >>=-eq-ok (lift_error LoadError.parse (parse_records grants bytes)) _ e in
      load-IsLoaded records.items file f

  write-IsLoaded :
      (file : File)
      → IsLoaded file
      → length (wire_all file.recs) < file_limit
      → (bytes : Bytes) × (write_mem grants file ≡ some bytes) × (read_mem grants bytes ≡ ok file)
  unfolding read_mem write_mem
  write-IsLoaded file loaded fits =
      let (bytes, r, written, parsed, items) =
        parse_records-write_records grants all_granted file.recs fits in
      (bytes, written, rw (parsed, items) loaded)

  -- Read a file, patch it with any calls, write it: the bytes read back as the patched file itself,
  -- with all its records and decoded fields, if it takes fewer than 2 ^ 60 bytes, `realloc` does not
  -- fail and each cell is six reals of eight bytes.
  pub read_mem-write_mem :
      (bytes : Bytes) (file : File) (ps : List Patch)
      → read_mem grants bytes ≡ ok file
      → All IsPatch ps
      → length (wire_all (apply_all file ps).recs) < file_limit
      → (out : Bytes) × (write_mem grants (apply_all file ps) ≡ some out)
        × (read_mem grants out ≡ ok (apply_all file ps))
  read_mem-write_mem bytes file ps e valid fits =
      write-IsLoaded (apply_all file ps)
        (apply_all-IsLoaded file ps valid (read_mem-IsLoaded bytes file e)) fits
