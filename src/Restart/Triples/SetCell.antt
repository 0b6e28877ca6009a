-- ===== src/Restart/Triples/SetCell.antt =====
-- `cpmdc_restart_set_cell` keeps the record and the decoded cell in agreement.
use mathlib.Core.List.{append_assoc}
use cpmdc.Base.{
  ℕ, zero, suc, ◌+◌, ◌*◌, ◌≤◌, ◌≡◌, refl, sym, ◌∙◌, ◌⊎◌, inl, inr, some, List, [], ◌∷◌, ◌++◌,
  length, get_elem?, set, drop, length-append, All, get_elem?-set_ne, get_elem?-set_self,
  lt-get_elem?, ltb, ltb→ge, ge→ltb, Bool-cases, Option-cases, arith, ◌==◌, ==_iff,
}
use cpmdc.Base.Results.{Result, ok, err}
use cpmdc.Restart.Bytes.{Bytes, read_i32, read_f64}
use cpmdc.Restart.Sections.{Span, span_of, sec_nrec, rec_at}
use cpmdc.Restart.File.{File, Cell, TypedError, read_cell, read_reals, when_nrec}
use cpmdc.Restart.File.Load.{IsLoaded, patch_load, load-Loads}
use cpmdc.Restart.Triples.{done, refused, set_cell, pack}
use cpmdc.Restart.Triples.Patch.{Agree-set}
use cpmdc.Restart.Triples.ReadBack.{IsReal, read_f64-middle}

read_reals-cons :
    (n : ℕ) (r : Bytes) (off : ℕ) (x : Bytes) (xs : List Bytes)
    → read_f64 r off ≡ some x
    → read_reals n r (off + 8) ≡ some xs
    → read_reals (suc n) r off ≡ some (x ∷ xs)
unfolding read_reals
read_reals-cons n r off x xs e f = rw (e, read_reals, f) refl

read_reals-pack :
    (xs : List Bytes) (pre post : Bytes) (off n : ℕ)
    → length pre ≡ off
    → length xs ≡ n
    → All IsReal xs
    → read_reals n (pre ++ (pack xs ++ post)) off ≡ some xs
unfolding read_reals pack
read_reals-pack [] pre post off zero e size reals = refl
read_reals-pack [] pre post off (suc n) e size reals = absurd (omega arith)
read_reals-pack (x ∷ xs) pre post off zero e size reals = absurd (omega arith)
read_reals-pack (x ∷ xs) pre post off (suc n) e size (hx, hxs) =
    read_reals-cons n (pre ++ (pack (x ∷ xs) ++ post)) off x xs
      (rw (append_assoc x (pack xs) post) (read_f64-middle pre x (pack xs ++ post) off e hx))
      (rw (append_assoc x (pack xs) post, ← append_assoc pre x (pack xs ++ post))
        (read_reals-pack xs (pre ++ x) post (off + 8) n (omega (arith, length-append pre x))
          (omega arith) hxs))

length-pack : (xs : List Bytes) → All IsReal xs → length (pack xs) ≡ 8 * length xs
unfolding pack
length-pack [] h = omega arith
length-pack (x ∷ xs) (h, hs) = omega (arith, length-append x (pack xs), length-pack xs hs)

-- What `read_cell` found.
record CellParts (recs : List Bytes) (spans : List Span) (c : Cell) : Type 0 where
  sym_rec : Bytes
  at_sym : rec_at recs spans 2 1 ≡ some sym_rec
  long : 8 ≤ length sym_rec
  ibrav_read : read_i32 sym_rec 0 ≡ some c.ibrav
  indpg_read : read_i32 sym_rec 4 ≡ some c.indpg

read_cell-parts :
    (recs : List Bytes) (spans : List Span) (c : Cell)
    → read_cell recs spans ≡ ok c
    → CellParts recs spans c
unfolding read_cell
read_cell-parts recs spans c e = elim (Option-cases (rec_at recs spans 2 1)) [
  | inl missing ↦ absurd (ground arith)
  | inr (sym_rec, found) ↦ elim (Option-cases (rec_at recs spans 2 2)) [
    | inl missing ↦ absurd (ground arith)
    | inr (cell, found') ↦ record {
      sym_rec = sym_rec;
      at_sym = found;
      long = ground arith;
      ibrav_read = ground arith;
      indpg_read = ground arith;
    }
  ]
]

-- A refusal, or the cell written to the second record of section 2.
set_cell-cases :
    (file : File) (celldm : List Bytes)
    → (set_cell file celldm ≡ (refused, file))
      ⊎ ((c : Cell) × (span : Span) × (r : Bytes) × (file.cell ≡ some c)
          × (sec_nrec file.spans 2 ≡ 3)
          × (span_of file.spans 2 ≡ some span)
          × (get_elem? file.recs (span.start + 2) ≡ some r)
          × (48 ≤ length r)
          × (set_cell file celldm ≡ (
            done,
            record file {
              recs = set file.recs (span.start + 2) (pack celldm ++ drop 48 r);
              cell = some (record c { celldm = celldm });
            },
          )))
unfolding set_cell
set_cell-cases file celldm = elim (Option-cases file.cell) [
  | inl e ↦ inl (ground arith)
  | inr (c, e) ↦ elim (Bool-cases (sec_nrec file.spans 2 == 3)) [
    | inr other ↦ inl (ground arith)
    | inl three ↦ elim (Option-cases (span_of file.spans 2)) [
      | inl f ↦ inl (ground arith)
      | inr (span, f) ↦ elim (Option-cases (get_elem? file.recs (span.start + 2))) [
        | inl g ↦ inl (ground arith)
        | inr (r, g) ↦ elim (Bool-cases (ltb (length r) 48)) [
          | inl short ↦ inl (ground arith)
          | inr long ↦ inr (
            c,
            span,
            r,
            e,
            (==_iff (sec_nrec file.spans 2) 3).0 three,
            f,
            g,
            ltb→ge (length r) 48 long,
            ground arith,
          )
        ]
      ]
    ]
  ]
]

rec_at-span :
    (recs : List Bytes) (spans : List Span) (span : Span) (section k : ℕ)
    → span_of spans section ≡ some span
    → rec_at recs spans section k ≡ get_elem? recs (span.start + k)
unfolding rec_at
rec_at-span recs spans span section k here = rw (here, rec_at)

when_nrec-some :
    {A : Type 0} (spans : List Span) (s n : ℕ) (d : Result TypedError A) (a : A)
    → sec_nrec spans s ≡ n
    → when_nrec spans s n d ≡ ok (some a)
    → d ≡ ok a
unfolding when_nrec
when_nrec-some spans s n (ok b) a e f = ground arith
when_nrec-some spans s n (err x) a e f = ground arith

-- The cell that is stored is the cell that the record now holds.
stored_cell :
    (recs : List Bytes) (spans : List Span) (span : Span) (c : Cell) (r : Bytes)
    (celldm : List Bytes)
    → CellParts recs spans c
    → span_of spans 2 ≡ some span
    → get_elem? recs (span.start + 2) ≡ some r
    → 48 ≤ length r
    → length celldm ≡ 6
    → All IsReal celldm
    → read_cell (set recs (span.start + 2) (pack celldm ++ drop 48 r)) spans
      ≡ ok (record c { celldm = celldm })
unfolding read_cell
stored_cell recs spans span c r celldm parts here found long six reals =
    let cell = pack celldm ++ drop 48 r in
    let inside = lt-get_elem? recs (span.start + 2) r found in
    let sym_at : rec_at (set recs (span.start + 2) cell) spans 2 1 ≡ some parts.sym_rec =
      rec_at-span (set recs (span.start + 2) cell) spans span 2 1 here
      ∙ get_elem?-set_ne recs (span.start + 2) (span.start + 1) cell (λ e. omega arith)
      ∙ sym (rec_at-span recs spans span 2 1 here)
      ∙ parts.at_sym in
    let cell_at : rec_at (set recs (span.start + 2) cell) spans 2 2 ≡ some cell =
      rec_at-span (set recs (span.start + 2) cell) spans span 2 2 here
      ∙ get_elem?-set_self recs (span.start + 2) cell inside in
    rw
      (
        sym_at,
        cell_at,
        ge→ltb (length parts.sym_rec) 8 parts.long,
        ge→ltb (length cell) 48
            (omega (arith, length-append (pack celldm) (drop 48 r), length-pack celldm reals)),
        parts.ibrav_read,
        parts.indpg_read,
        read_reals-pack celldm [] (drop 48 r) 0 6 refl six reals,
      )
      refl

-- Storing a cell of six reals keeps a file loaded, whether it is accepted or refused.
pub set_cell-IsLoaded :
    (file : File) (celldm : List Bytes)
    → length celldm ≡ 6
    → All IsReal celldm
    → IsLoaded file
    → IsLoaded (set_cell file celldm).1
unfolding sec_nrec
set_cell-IsLoaded file celldm six reals loaded = elim (set_cell-cases file celldm) [
  | inl e ↦ rw e loaded
  | inr (c, span, r, has, three, here, found, long, e) ↦
      rw e (patched c span r has three here found long)
]
  where
    patched :
        (c : Cell) (span : Span) (r : Bytes)
        → file.cell ≡ some c
        → sec_nrec file.spans 2 ≡ 3
        → span_of file.spans 2 ≡ some span
        → get_elem? file.recs (span.start + 2) ≡ some r
        → 48 ≤ length r
        → IsLoaded (record file {
          recs = set file.recs (span.start + 2) (pack celldm ++ drop 48 r);
          cell = some (record c { celldm = celldm });
        })
    patched c span r has three here found long =
        let nrec : span.nrec ≡ 3 = rw (here, sec_nrec) at three in
        let old = (load-Loads file.recs file loaded).cell_read in
        let was : read_cell file.recs file.spans ≡ ok c =
          when_nrec-some file.spans 2 3 (read_cell file.recs file.spans) c three (rw has at old) in
        let now =
          stored_cell file.recs file.spans span c r celldm
            (read_cell-parts file.recs file.spans c was) here found long six reals in
        patch_load file (set file.recs (span.start + 2) (pack celldm ++ drop 48 r)) 2 span loaded
          here
          (Agree-set file.recs (span.start + 2) (span.start + 1) (span.start + span.nrec)
            (pack celldm ++ drop 48 r) (omega arith) (omega arith))
          (some (record c { celldm = celldm })) (λ e. omega arith) (λ e. omega arith)
          (λ e. omega arith) (unfold when_nrec in rw (three, now) refl)
