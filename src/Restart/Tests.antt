-- ===== src/Restart/Tests.antt =====
-- src/cpmdc_restart.c: the functions on one small file of a cell, two species and three atoms.
use cpmdc.Base.{
  ℕ, ◌+◌, ◌≤◌, ◌<◌, ◌≡◌, ◌≢◌, ◌↔◌, refl, Bool, true, false, none, some, List, [], ◌∷◌, ◌++◌, length,
  replicate, All, arith,
}
use cpmdc.Base.Results.{ok, err}
use cpmdc.Restart.Bytes.{
  Bytes, Records, append_bytes, field_fits, grow_cap, grown_records, push_rec, read_f64, read_i32,
  take_word, word_bytes,
}
use cpmdc.Restart.Bytes.Growth.{file_limit}
use cpmdc.Restart.Records.{ParseError, parse_loop, parse_records, read_record, read_subrecord}
use cpmdc.Restart.Records.Write.{write_records}
use cpmdc.Restart.Records.RoundTrip.{wire, wire_all}
use cpmdc.Restart.Records.Emit.{parse_records-write_records}
use cpmdc.Restart.Records.Total.{parse_records-total}
use cpmdc.Restart.Sections.{
  Index, IndexError, Span, c_string, contains, header_text, index_loop, index_sections,
  max_sections, read_header, rec_at, sec_nrec, span_at, span_of, starts_with, trim_end,
  version_text,
}
use cpmdc.Restart.Sections.Tiles.{Tiles, index_sections-Tiles, index_sections-in_bounds}
use cpmdc.Restart.File.{
  File, any_negative, decode_typed, load, read_cell, read_cutoff, read_ints, read_mem, read_reals,
  read_species, read_states, when_nrec, write_mem,
}
use cpmdc.Restart.File.Load.{IsLoaded}
use cpmdc.Restart.Triples.{
  set_coordinates, set_velocities, pack, Answer, Status, copy_triples, expand_species_symbols,
  set_cell, store_loop, store_triples, triples_span,
}
use cpmdc.Restart.Triples.ReadBack.{copy_triples-store_triples, triples_in_bounds}
use cpmdc.Restart.Species.{expand_species_symbols_lem, IsSymbol, expanded, total}
use cpmdc.Restart.RoundTrip.{
  apply, Patch, IsPatch, apply_all, apply_all-IsLoaded, read_mem-write_mem,
}

abbrev always : ℕ → Bool
always n = true

abbrev all_granted : (n : ℕ) → always n ≡ true
all_granted n = refl

abbrev real : ℕ → Bytes
real b = b ∷ replicate 7 0

abbrev triple : ℕ → Bytes
triple b = real b ++ (real (b + 1) ++ real (b + 2))

abbrev six_reals : List Bytes
six_reals = real 9 ∷ real 1 ∷ real 1 ∷ real 0 ∷ real 0 ∷ real 0 ∷ []

abbrev cell_bytes : Bytes
cell_bytes = replicate 48 7

abbrev word : ℕ → Bytes
word n = n ∷ 0 ∷ 0 ∷ 0 ∷ []

abbrev three_atoms : List Bytes
three_atoms =
    version_text
    ∷ word 2
    ∷ (word 1 ++ word 0)
    ∷ cell_bytes
    ∷ word 2
    ∷ word 2
    ∷ (word 1 ++ word 2)
    ∷ word 3
    ∷ triple 10
    ∷ triple 20
    ∷ triple 30
    ∷ []

abbrev three_atoms_spans : List Span
three_atoms_spans =
    record { start = 0; nrec = 1 }
    ∷ record { start = 1; nrec = 3 }
    ∷ record { start = 4; nrec = 3 }
    ∷ record { start = 7; nrec = 4 }
    ∷ []

abbrev three_atoms_index : Index
three_atoms_index = record { header = version_text; stream = false; spans = three_atoms_spans }

abbrev three_atoms_file : File
three_atoms_file = record {
  recs = three_atoms;
  header = version_text;
  stream = false;
  spans = three_atoms_spans;
  na = some (1 ∷ 2 ∷ []);
  cell = some (record { ibrav = 1; indpg = 0; celldm = replicate 6 (replicate 8 7) });
  cutoff = none;
  states = none;
}

three_atoms_indexed : index_sections three_atoms ≡ ok three_atoms_index
unfolding c_string contains header_text index_loop index_sections read_header read_i32 span_at
    starts_with trim_end
three_atoms_indexed = refl

three_atoms_read : read_mem always (wire_all three_atoms) ≡ ok three_atoms_file
unfolding any_negative append_bytes c_string contains decode_typed field_fits grow_cap grown_records
    header_text index_loop index_sections load parse_loop parse_records push_rec read_cell
    read_cutoff read_f64 read_header read_i32 read_ints read_mem read_reals read_record read_species
    read_states read_subrecord rec_at sec_nrec span_at span_of starts_with take_word trim_end
    when_nrec wire wire_all word_bytes
three_atoms_read = refl

three_atoms-IsLoaded : IsLoaded three_atoms_file
unfolding any_negative c_string contains decode_typed field_fits header_text index_loop
    index_sections load read_cell read_cutoff read_f64 read_header read_i32 read_ints read_reals
    read_species read_states rec_at sec_nrec span_at span_of starts_with take_word trim_end
    when_nrec
three_atoms-IsLoaded = refl

abbrev moved : List Bytes
moved = real 41 ∷ real 42 ∷ real 43 ∷ real 44 ∷ real 45 ∷ real 46 ∷ real 47 ∷ real 48 ∷ real 49 ∷ []

-- Coordinates that are accepted, velocities that are refused, and a cell.
abbrev patches : List Patch
patches = Patch.positions moved ∷ Patch.speeds moved ∷ Patch.lattice six_reals ∷ []

patches_valid : All IsPatch patches
patches_valid = (tt, (tt, ((refl, (refl, (refl, (refl, (refl, (refl, (refl, tt))))))), tt)))

patched_fits : length (wire_all (apply_all three_atoms_file patches).recs) < file_limit
unfolding wire wire_all word_bytes apply apply_all set_coordinates set_velocities set_cell sec_nrec
    store_triples store_loop triples_span span_of pack
patched_fits = omega arith

read_mem-write_mem_example :
    (out : Bytes) × (write_mem always (apply_all three_atoms_file patches) ≡ some out)
    × (read_mem always out ≡ ok (apply_all three_atoms_file patches))
read_mem-write_mem_example =
    read_mem-write_mem always all_granted (wire_all three_atoms) three_atoms_file patches
      three_atoms_read patches_valid patched_fits

apply_all-IsLoaded_example : IsLoaded (apply_all three_atoms_file patches)
apply_all-IsLoaded_example =
    apply_all-IsLoaded three_atoms_file patches patches_valid three_atoms-IsLoaded

three_atoms_fit : length (wire_all three_atoms) < file_limit
unfolding wire_all word_bytes
three_atoms_fit = omega arith

parse_records-write_records_example :
    (bytes : Bytes) × (r : Records) × (write_records always three_atoms ≡ some bytes)
    × (parse_records always bytes ≡ ok r)
    × (r.items ≡ three_atoms)
parse_records-write_records_example =
    parse_records-write_records always all_granted three_atoms three_atoms_fit

parse_records-total_example : parse_records always (1 ∷ 0 ∷ 0 ∷ 0 ∷ []) ≢ err ParseError.out_of_fuel
parse_records-total_example = parse_records-total always (1 ∷ 0 ∷ 0 ∷ 0 ∷ [])

abbrev one_record : Records
one_record = record { items = (7 ∷ []) ∷ []; cap = 64 }

one_record_read : parse_records always (1 ∷ 0 ∷ 0 ∷ 0 ∷ 7 ∷ 1 ∷ 0 ∷ 0 ∷ 0 ∷ []) ≡ ok one_record
unfolding append_bytes grow_cap grown_records parse_loop parse_records push_rec read_record
    read_subrecord take_word
one_record_read = refl

-- A record in two subrecords: the first marker is negative.
continued_read :
    parse_records always
      (255 ∷ 255 ∷ 255 ∷ 255 ∷ 7 ∷ 255 ∷ 255 ∷ 255 ∷ 255 ∷ 1 ∷ 0 ∷ 0 ∷ 0 ∷ 8 ∷ 1 ∷ 0 ∷ 0 ∷ 0 ∷ [])
    ≡ ok (record { items = (7 ∷ 8 ∷ []) ∷ []; cap = 64 })
unfolding append_bytes grow_cap grown_records parse_loop parse_records push_rec read_record
    read_subrecord take_word
continued_read = refl

index_sections-Tiles_example : Tiles 0 three_atoms_spans 11 × (1 ≤ 4) × (4 ≤ max_sections)
index_sections-Tiles_example =
    index_sections-Tiles three_atoms three_atoms_index three_atoms_indexed

index_sections-in_bounds_example : index_sections three_atoms ≢ err IndexError.out_of_bounds
index_sections-in_bounds_example = index_sections-in_bounds three_atoms

abbrev moved_file : File
moved_file = (store_triples three_atoms_file 4 moved).1

moved_stored : store_triples three_atoms_file 4 moved ≡ (Status.done, moved_file)
unfolding span_of store_loop store_triples triples_span
moved_stored = refl

copy_triples-store_triples_example : copy_triples moved_file 4 9 ≡ Answer.given moved
copy_triples-store_triples_example =
    copy_triples-store_triples three_atoms_file moved_file 4 moved
      (refl, (refl, (refl, (refl, (refl, (refl, (refl, (refl, (refl, tt))))))))) moved_stored

triples_in_bounds_example :
    (copy_triples three_atoms_file 4 9 ≢ Answer.stray)
    × ((store_triples three_atoms_file 4 moved).0 ≢ Status.fault)
triples_in_bounds_example = triples_in_bounds three_atoms_file 4 9 moved three_atoms-IsLoaded

abbrev symbols : List Bytes
symbols = (79 ∷ []) ∷ (72 ∷ []) ∷ []

expand_species_symbols_lem_example :
    (((out : List Bytes) × (expand_species_symbols three_atoms_file symbols 3 ≡ some out))
      ↔ (All IsSymbol symbols × (total (1 ∷ 2 ∷ []) ≡ 3)))
    × ((out : List Bytes)
        → expand_species_symbols three_atoms_file symbols 3 ≡ some out
        → out ≡ expanded (1 ∷ 2 ∷ []) symbols)
expand_species_symbols_lem_example =
    expand_species_symbols_lem three_atoms_file (1 ∷ 2 ∷ []) symbols 3 refl (omega arith) refl
