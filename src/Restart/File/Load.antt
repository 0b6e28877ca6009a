-- ===== src/Restart/File/Load.antt =====
-- A file in memory agrees with its records: what was decoded when it was read is what its records
-- say now. `load` is determined by the records, so this is one equation.
use cpmdc.Base.{
  ℕ, ◌+◌, ◌<◌, ◌≡◌, ◌≢◌, refl, sym, ◌∙◌, subst, inl, inr, Option, some, List, ==_iff, Bool-cases,
  arith, ◌==◌,
}
use cpmdc.Base.Results.{Result, ok, err, >>=-eq-ok}
use cpmdc.Restart.Bytes.{Bytes}
use cpmdc.Restart.Sections.{Span, Index, index_sections, sec_nrec, span_of, rec_at}
use cpmdc.Restart.Sections.Agree.{Agree, index_sections-Agree, rec_at-Agree}
use cpmdc.Restart.File.{
  File, Cell, TypedError, LoadError, read_cell, read_species, read_cutoff, read_states, when_nrec,
  decode_typed, load, lift_error,
}

abbrev pub IsLoaded : File → Type 0
IsLoaded file = load file.recs ≡ ok file

abbrev pub index_of : File → Index
index_of file = record { header = file.header; stream = file.stream; spans = file.spans }

-- The parts of a successful `load`.
pub record Loads (recs : List Bytes) (file : File) : Type 0 where
  pub indexed : index_sections recs ≡ ok (index_of file)
  pub cell_read : when_nrec file.spans 2 3 (read_cell recs file.spans) ≡ ok file.cell
  pub na_read : when_nrec file.spans 3 3 (read_species recs file.spans) ≡ ok file.na
  pub cutoff_read : when_nrec file.spans 7 2 (read_cutoff recs file.spans) ≡ ok file.cutoff
  pub states_read : when_nrec file.spans 8 2 (read_states recs file.spans) ≡ ok file.states
  pub same_recs : file.recs ≡ recs

lift_error-eq-ok :
    {E F A : Type 0} (f : E → F) (r : Result E A) {a : A} → lift_error f r ≡ ok a → r ≡ ok a
lift_error-eq-ok f (ok b) e = cc
lift_error-eq-ok f (err b) e = cc

ok_parts : {E A : Type 0} {a b : A} → ◌≡◌ {A = Result E A} (ok a) (ok b) → a ≡ b
ok_parts e = cc

pub load-Loads : (recs : List Bytes) (file : File) → load recs ≡ ok file → Loads recs file
unfolding load decode_typed
load-Loads recs file e =
    let (ix, eix, f) = >>=-eq-ok (lift_error LoadError.index (index_sections recs)) _ e in
    let g = lift_error-eq-ok LoadError.typed (decode_typed recs ix) f in
    let (cell, ec, g2) = >>=-eq-ok (when_nrec ix.spans 2 3 (read_cell recs ix.spans)) _ g in
    let (na, en, g3) = >>=-eq-ok (when_nrec ix.spans 3 3 (read_species recs ix.spans)) _ g2 in
    let (cutoff, eu, g4) = >>=-eq-ok (when_nrec ix.spans 7 2 (read_cutoff recs ix.spans)) _ g3 in
    let (states, es, g5) = >>=-eq-ok (when_nrec ix.spans 8 2 (read_states recs ix.spans)) _ g4 in
    let parts = ok_parts g5 in
    rw (← parts) (record {
      indexed = lift_error-eq-ok LoadError.index (index_sections recs) eix;
      cell_read = ec;
      na_read = en;
      cutoff_read = eu;
      states_read = es;
      same_recs = refl;
    })

-- Reading a file always gives a loaded one.
pub load-IsLoaded : (recs : List Bytes) (file : File) → load recs ≡ ok file → IsLoaded file
load-IsLoaded recs file e =
    let l = load-Loads recs file e in
    subst (λ (r : List Bytes). load r ≡ ok file) (sym l.same_recs) e

pub Loads-load : (recs : List Bytes) (file : File) → Loads recs file → load recs ≡ ok file
unfolding load decode_typed
Loads-load recs file l =
    rw (l.indexed, l.cell_read, l.na_read, l.cutoff_read, l.states_read, ← l.same_recs) refl

when_nrec-agree :
    {A : Type 0} (spans : List Span) (s n : ℕ) (d d' : Result TypedError A)
    → (sec_nrec spans s ≡ n → d' ≡ d)
    → when_nrec spans s n d' ≡ when_nrec spans s n d
unfolding when_nrec
when_nrec-agree spans s n d d' same = elim (Bool-cases (sec_nrec spans s == n)) [
  | inl e ↦ rw (same ((==_iff (sec_nrec spans s) n).0 e))
  | inr e ↦ rw e
]

-- Patching records of section c, which none of the typed fields but the cell are read from.
module _ (file : File) (recs : List Bytes) (c : ℕ) (span : Span) (loaded : IsLoaded file)
    (here : span_of file.spans c ≡ some span)
    (agree : Agree file.recs recs (span.start + 1) (span.start + span.nrec)) where
  parts : Loads file.recs file
  parts = load-Loads file.recs file loaded

  other :
      (section n k : ℕ)
      → section ≢ c
      → k < n
      → sec_nrec file.spans section ≡ n
      → rec_at recs file.spans section k ≡ rec_at file.recs file.spans section k
  other section n k differ h e =
      rec_at-Agree file.recs recs (index_of file) c span section k parts.indexed here agree differ
        (omega arith)

  pub patch_load :
      (cell : Option Cell)
      → c ≢ 3
      → c ≢ 7
      → c ≢ 8
      → when_nrec file.spans 2 3 (read_cell recs file.spans) ≡ ok cell
      → load recs ≡ ok (record file { recs = recs; cell = cell })
  unfolding read_species read_cutoff read_states
  patch_load cell n3 n7 n8 cell_read =
      Loads-load recs (record file { recs = recs; cell = cell })
        (record {
          indexed =
              index_sections-Agree file.recs recs (index_of file) c span parts.indexed here agree;
          cell_read = cell_read;
          na_read = species_same ∙ parts.na_read;
          cutoff_read = cutoff_same ∙ parts.cutoff_read;
          states_read = states_same ∙ parts.states_read;
          same_recs = refl;
        })
    where
      species_same :
          when_nrec file.spans 3 3 (read_species recs file.spans)
          ≡ when_nrec file.spans 3 3 (read_species file.recs file.spans)
      species_same = when_nrec-agree file.spans 3 3 _ _ λ e. rw (
        other 3 3 1 (λ h. n3 (sym h)) (omega arith) e,
        other 3 3 2 (λ h. n3 (sym h)) (omega arith) e,
      )

      cutoff_same :
          when_nrec file.spans 7 2 (read_cutoff recs file.spans)
          ≡ when_nrec file.spans 7 2 (read_cutoff file.recs file.spans)
      cutoff_same =
          when_nrec-agree file.spans 7 2 _ _ λ e. rw (other 7 2 1 (λ h. n7 (sym h)) (omega arith) e)

      states_same :
          when_nrec file.spans 8 2 (read_states recs file.spans)
          ≡ when_nrec file.spans 8 2 (read_states file.recs file.spans)
      states_same =
          when_nrec-agree file.spans 8 2 _ _ λ e. rw (other 8 2 1 (λ h. n8 (sym h)) (omega arith) e)

  pub patch_cell : c ≢ 2 → when_nrec file.spans 2 3 (read_cell recs file.spans) ≡ ok file.cell
  unfolding read_cell
  patch_cell n2 =
      when_nrec-agree file.spans 2 3 _ _ (λ e. rw (
        other 2 3 1 (λ h. n2 (sym h)) (omega arith) e,
        other 2 3 2 (λ h. n2 (sym h)) (omega arith) e,
      ))
      ∙ parts.cell_read
