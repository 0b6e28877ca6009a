-- ===== src/Restart/Triples/Patch.antt =====
-- Patching coordinates, velocities or the cell keeps a file in agreement with its records, and
-- changes nothing else.
use cpmdc.Base.{
  ℕ, zero, suc, ◌+◌, ◌*◌, ◌≤◌, ◌<◌, ◌≡◌, ◌≢◌, refl, ◌∙◌, ◌⊎◌, inl, inr, Option, none, some, List,
  length, get_elem?, set, take, drop, length-set, get_elem?-set_ne, Bool-cases, Option-cases, arith,
  ◌==◌, ==_iff,
}
use cpmdc.Restart.Bytes.{Bytes}
use cpmdc.Restart.Sections.{Span, span_of}
use cpmdc.Restart.Sections.Agree.{Agree}
use cpmdc.Restart.File.{File}
use cpmdc.Restart.File.Load.{IsLoaded, patch_load, patch_cell}
use cpmdc.Restart.Triples.{refused, triples_span, store_loop, store_triples, pack}

Agree-refl : (recs : List Bytes) (lo hi : ℕ) → Agree recs recs lo hi
Agree-refl recs lo hi = record { same_length = refl; same = λ j h. refl }

pub Agree-set :
    (recs : List Bytes) (i lo hi : ℕ) (v : Bytes)
    → lo ≤ i
    → i < hi
    → Agree recs (set recs i v) lo hi
Agree-set recs i lo hi v a b = record {
  same_length = length-set recs i v;
  same = λ j h.
      get_elem?-set_ne recs i j v
        (λ e. elim h [ inl below ↦ omega arith | inr above ↦ omega arith ]);
}

Agree-trans :
    {rs ss ts : List Bytes} (lo hi : ℕ) → Agree rs ss lo hi → Agree ss ts lo hi → Agree rs ts lo hi
Agree-trans lo hi a b = record {
  same_length = b.same_length ∙ a.same_length;
  same = λ j h. b.same j h ∙ a.same j h;
}

-- The loop writes its n records and no other.
pub store_loop-Agree :
    (n i lo hi : ℕ) (xyz recs : List Bytes)
    → lo ≤ i
    → i + n ≤ hi
    → Agree recs (store_loop n i xyz recs).1 lo hi
unfolding store_loop
store_loop-Agree zero i lo hi xyz recs a b = Agree-refl recs lo hi
store_loop-Agree (suc n) i lo hi xyz recs a b = elim (Option-cases (get_elem? recs i)) [
  | inl e ↦ rw (e, store_loop) (Agree-refl recs lo hi)
  | inr (r, e) ↦ elim (Bool-cases (length r == 24)) [
    | inl good ↦
        rw (e, store_loop, good)
          (Agree-trans lo hi (Agree-set recs i lo hi (pack (take 3 xyz)) a (omega arith)) (
            store_loop-Agree n (suc i) lo hi (drop 3 xyz) (set recs i (pack (take 3 xyz)))
              (omega arith) (omega arith)))
    | inr bad ↦ rw (e, store_loop, bad) (Agree-refl recs lo hi)
  ]
]

-- Where the triples of a section stand.
pub triples_span-some :
    (o : Option Span) (n start : ℕ)
    → triples_span o ≡ some (n, start)
    → (span : Span) × (o ≡ some span) × (span.nrec ≡ n + 1) × ((n ≡ 0) ⊎ (start ≡ span.start + 1))
unfolding triples_span
triples_span-some none n start e = cc
triples_span-some (some span) n start e = (span, refl, ground arith, ground arith)

-- The section's own records are patched, behind its header.
store_loop-section :
    (file : File) (section n start : ℕ) (xyz : List Bytes)
    → triples_span (span_of file.spans section) ≡ some (n, start)
    → (span : Span) × (span_of file.spans section ≡ some span)
      × Agree file.recs
          (store_loop n start xyz file.recs).1
          (span.start + 1)
          (span.start + span.nrec)
store_loop-section file section n start xyz e =
    place n (triples_span-some (span_of file.spans section) n start e)
  where
    place :
        (n : ℕ)
        → (span : Span) × (span_of file.spans section ≡ some span)
          × (span.nrec ≡ n + 1)
          × ((n ≡ 0) ⊎ (start ≡ span.start + 1))
        → (span : Span) × (span_of file.spans section ≡ some span)
          × Agree file.recs
              (store_loop n start xyz file.recs).1
              (span.start + 1)
              (span.start + span.nrec)
    place zero (span, here, size, first) = (
      span,
      here,
      unfold store_loop in Agree-refl file.recs (span.start + 1) (span.start + span.nrec),
    )
    place (suc n) (span, here, size, first) =
        (span, here, store_loop-Agree (suc n) start _ _ xyz file.recs (omega arith) (omega arith))

-- `store_triples` is refused, or patches records of the section.
pub store_triples-cases :
    (file : File) (section : ℕ) (xyz : List Bytes)
    → (store_triples file section xyz ≡ (refused, file))
      ⊎ ((n : ℕ) × (start : ℕ) × (triples_span (span_of file.spans section) ≡ some (n, start))
          × (length xyz ≡ n * 3)
          × (store_triples file section xyz ≡ (
            (store_loop n start xyz file.recs).0,
            record file { recs = (store_loop n start xyz file.recs).1 },
          )))
unfolding store_triples
store_triples-cases file section xyz =
    elim (Option-cases (triples_span (span_of file.spans section))) [
      | inl e ↦ inl (rw (e, store_triples))
      | inr ((n, start), e) ↦ elim (Bool-cases (length xyz == n * 3)) [
        | inl good ↦
            inr (n, start, e, (==_iff (length xyz) (n * 3)).0 good, rw (e, store_triples, good))
        | inr bad ↦ inl (rw (e, store_triples, bad))
      ]
    ]

-- Patching any section but 2, 3, 7 and 8 keeps the file loaded, also where it is refused midway.
pub store_triples-IsLoaded :
    (file : File) (section : ℕ) (xyz : List Bytes)
    → section ≢ 2
    → section ≢ 3
    → section ≢ 7
    → section ≢ 8
    → IsLoaded file
    → IsLoaded (store_triples file section xyz).1
store_triples-IsLoaded file section xyz n2 n3 n7 n8 loaded =
    elim (store_triples-cases file section xyz) [
      | inl e ↦ rw e loaded
      | inr (n, start, e, size, f) ↦
          let (span, here, agree) = store_loop-section file section n start xyz e in
          rw f (
            patch_load file (store_loop n start xyz file.recs).1 section span loaded here agree
              file.cell n3 n7 n8
              (patch_cell file (store_loop n start xyz file.recs).1 section span loaded here agree
                n2))
    ]
