-- ===== src/Restart/Triples/ReadBack.antt =====
-- What a setter stores, the getter of the same section returns; and no index leaves the records.
use mathlib.Core.List.{append_assoc}
use cpmdc.Base.{
  ℕ, zero, suc, ◌+◌, ◌-◌, ◌*◌, ◌≤◌, ◌<◌, ◌≡◌, ◌≢◌, refl, sym, ap, subst, ◌∙◌, ◌⊎◌, inl, inr, some,
  List, [], ◌∷◌, ◌++◌, length, get_elem?, get_elem?-lt, set, take, drop, length-append,
  take-append_length, drop-append_length, length-set, get_elem?-set_self, lt-get_elem?, All, ge→ltb,
  Bool-cases, Option-cases, arith, ◌==◌, ==_refl,
}
use cpmdc.Restart.Bytes.{Bytes, read_f64, field_fits}
use cpmdc.Restart.Sections.{Span, span_of}
use cpmdc.Restart.Sections.Tiles.{Tiles, Tiles-bounds, index_sections-Tiles}
use cpmdc.Restart.File.{File}
use cpmdc.Restart.File.Load.{IsLoaded, index_of, load-Loads}
use cpmdc.Restart.Triples.{
  Status, done, fault, given, stray, triples_span, read_triple, copy_loop, copy_triples, store_loop,
  store_triples, pack,
}
use cpmdc.Restart.Triples.Patch.{store_loop-Agree, store_triples-cases, triples_span-some}

-- A real is eight bytes.
abbrev pub IsReal : Bytes → Type 0
IsReal x = length x ≡ 8

pub read_f64-middle :
    (pre x post : Bytes) (off : ℕ)
    → length pre ≡ off
    → IsReal x
    → read_f64 (pre ++ (x ++ post)) off ≡ some x
unfolding read_f64 field_fits
read_f64-middle pre x post off e size =
    let total : length (pre ++ (x ++ post)) ≡ off + (8 + length post) =
      omega (arith, length-append pre (x ++ post), length-append x post) in
    rw
      (
        total,
        ge→ltb (off + (8 + length post)) off (omega arith),
        ge→ltb (off + (8 + length post) - off) 8 (omega arith),
        ← e,
        drop-append_length pre (x ++ post),
        ← size,
        take-append_length x post,
      )
      refl

read_triple-pack :
    (a b c : Bytes)
    → IsReal a
    → IsReal b
    → IsReal c
    → read_triple (pack (a ∷ b ∷ c ∷ [])) ≡ some (a ∷ b ∷ c ∷ [])
unfolding read_triple pack
read_triple-pack a b c ha hb hc =
    rw
      (
        read_f64-middle [] a (b ++ (c ++ [])) 0 refl ha,
        read_f64-middle a b (c ++ []) 8 ha hb,
        ← append_assoc a b (c ++ []),
        read_f64-middle (a ++ b) c [] 16 (omega (arith, length-append a b)) hc,
      )
      refl

-- A turn of the store loop that goes on.
store_loop-step :
    (n i : ℕ) (xyz recs recs' : List Bytes)
    → store_loop (suc n) i xyz recs ≡ (done, recs')
    → (i < length recs)
      × (store_loop n (suc i) (drop 3 xyz) (set recs i (pack (take 3 xyz))) ≡ (done, recs'))
unfolding store_loop
store_loop-step n i xyz recs recs' e = elim (Option-cases (get_elem? recs i)) [
  | inl missing ↦ ground arith
  | inr (r, found) ↦ (lt-get_elem? recs i r found, ground arith)
]

length-pack : (a b c : Bytes) → IsReal a → IsReal b → IsReal c → length (pack (a ∷ b ∷ c ∷ [])) ≡ 24
unfolding pack
length-pack a b c ha hb hc =
    omega (arith, length-append a (b ++ (c ++ [])), length-append b (c ++ []), length-append c [])

copy_loop-cons :
    (n i : ℕ) (recs : List Bytes) (a b c : Bytes) (rest : List Bytes)
    → IsReal a
    → IsReal b
    → IsReal c
    → get_elem? recs i ≡ some (pack (a ∷ b ∷ c ∷ []))
    → copy_loop n (suc i) recs ≡ given rest
    → copy_loop (suc n) i recs ≡ given (a ∷ b ∷ c ∷ rest)
unfolding copy_loop
copy_loop-cons n i recs a b c rest ha hb hc found more =
    rw (found, copy_loop, length-pack a b c ha hb hc, read_triple-pack a b c ha hb hc, more) refl

pub copy_loop-store_loop :
    (n i : ℕ) (xyz recs recs' : List Bytes)
    → store_loop n i xyz recs ≡ (done, recs')
    → length xyz ≡ n * 3
    → All IsReal xyz
    → copy_loop n i recs' ≡ given xyz
copy_loop-store_loop zero i [] recs recs' e size reals = unfold copy_loop in refl
copy_loop-store_loop zero i (a ∷ xyz) recs recs' e size reals = absurd (omega arith)
copy_loop-store_loop (suc n) i [] recs recs' e size reals = absurd (omega arith)
copy_loop-store_loop (suc n) i (a ∷ []) recs recs' e size reals = absurd (omega arith)
copy_loop-store_loop (suc n) i (a ∷ b ∷ []) recs recs' e size reals = absurd (omega arith)
copy_loop-store_loop (suc n) i (a ∷ b ∷ c ∷ rest) recs recs' e size (ha, (hb, (hc, more))) =
    let (inside, e') = store_loop-step n i (a ∷ b ∷ c ∷ rest) recs recs' e in
    let written = set recs i (pack (a ∷ b ∷ c ∷ [])) in
    let agree =
      store_loop-Agree n (suc i) (suc i) (suc i + n) rest written (omega arith) (omega arith) in
    let found : get_elem? recs' i ≡ some (pack (a ∷ b ∷ c ∷ [])) =
      rw (e') at (agree.same i (inl (omega arith)))
      ∙ get_elem?-set_self recs i (pack (a ∷ b ∷ c ∷ [])) inside in
    copy_loop-cons n i recs' a b c rest ha hb hc found
      (copy_loop-store_loop n (suc i) rest written recs' e' (omega arith) more)

-- Reals of eight bytes that are stored in a section without refusal are read back: the same in the
-- same order, for an array of as many reals as the section holds.
pub copy_triples-store_triples :
    (file file' : File) (section : ℕ) (xyz : List Bytes)
    → All IsReal xyz
    → store_triples file section xyz ≡ (done, file')
    → copy_triples file' section (length xyz) ≡ given xyz
unfolding copy_triples
copy_triples-store_triples file file' section xyz reals e =
    elim (store_triples-cases file section xyz) [
      | inl f ↦ cc
      | inr (n, start, f, size, g) ↦
          let whole = sym e ∙ g in
          let status : (store_loop n start xyz file.recs).0 ≡ done =
            ap (λ (p : Status × File). p.0) (sym whole) in
          let same : file' ≡ record file { recs = (store_loop n start xyz file.recs).1 } =
            ap (λ (p : Status × File). p.1) whole in
          let stored : store_loop n start xyz file.recs
              ≡ (done, (store_loop n start xyz file.recs).1) =
            ap (λ (s : Status). (s, (store_loop n start xyz file.recs).1)) status in
          subst (λ (g' : File). copy_triples g' section (length xyz) ≡ given xyz) (sym same)
            (rw (f, copy_triples, size, ==_refl (n * 3))
              (copy_loop-store_loop n start xyz file.recs _ stored size reals))
    ]

-- `copy_triples` of a section that the file has reads records of the file only.
copy_loop-in_bounds :
    (n i : ℕ) (recs : List Bytes) → i + n ≤ length recs → copy_loop n i recs ≢ stray
unfolding copy_loop
copy_loop-in_bounds zero i recs h = λ e. cc
copy_loop-in_bounds (suc n) i recs h =
    let (r, found) = get_elem?-lt recs i (omega arith) in
    λ e. ground (arith, copy_loop-in_bounds n (suc i) recs)

store_loop-in_bounds :
    (n i : ℕ) (xyz recs : List Bytes) → i + n ≤ length recs → (store_loop n i xyz recs).0 ≢ fault
unfolding store_loop
store_loop-in_bounds zero i xyz recs h = λ e. cc
store_loop-in_bounds (suc n) i xyz recs h =
    let (r, found) = get_elem?-lt recs i (omega arith) in
    λ e. ground (
      arith,
      length-set recs i (pack (take 3 xyz)),
      store_loop-in_bounds n (suc i) (drop 3 xyz) (set recs i (pack (take 3 xyz))),
    )

span_inside :
    (file : File) (section n start : ℕ)
    → IsLoaded file
    → triples_span (span_of file.spans section) ≡ some (n, start)
    → (n ≡ 0) ⊎ (start + n ≤ length file.recs)
span_inside file section n start loaded e =
    place section (triples_span-some (span_of file.spans section) n start e)
  where
    tiles : Tiles 0 file.spans (length file.recs)
    tiles =
        (index_sections-Tiles file.recs (index_of file)
          (load-Loads file.recs file loaded).indexed).0

    place :
        (section : ℕ)
        → (span : Span) × (span_of file.spans section ≡ some span)
          × (span.nrec ≡ n + 1)
          × ((n ≡ 0) ⊎ (start ≡ span.start + 1))
        → (n ≡ 0) ⊎ (start + n ≤ length file.recs)
    place zero (span, here, size, first) = unfold span_of in cc
    place (suc k) (span, here, size, first) =
        unfold span_of in
        omega (arith, Tiles-bounds 0 file.spans (length file.recs) k span tiles here)

copy_loop-inside :
    (n i : ℕ) (recs : List Bytes) → (n ≡ 0) ⊎ (i + n ≤ length recs) → copy_loop n i recs ≢ stray
unfolding copy_loop
copy_loop-inside zero i recs h = λ e. cc
copy_loop-inside (suc n) i recs h = copy_loop-in_bounds (suc n) i recs (omega arith)

store_loop-inside :
    (n i : ℕ) (xyz recs : List Bytes)
    → (n ≡ 0) ⊎ (i + n ≤ length recs)
    → (store_loop n i xyz recs).0 ≢ fault
unfolding store_loop
store_loop-inside zero i xyz recs h = λ e. cc
store_loop-inside (suc n) i xyz recs h = store_loop-in_bounds (suc n) i xyz recs (omega arith)

-- On a file that was read, the getters and setters of sections 4 to 6 access no record past the end
-- of the record vector, for any array length and any section number.
pub triples_in_bounds :
    (file : File) (section n3 : ℕ) (xyz : List Bytes)
    → IsLoaded file
    → (copy_triples file section n3 ≢ stray) × ((store_triples file section xyz).0 ≢ fault)
unfolding copy_triples
triples_in_bounds file section n3 xyz loaded = (read, written)
  where
    read : copy_triples file section n3 ≢ stray
    read = elim (Option-cases (triples_span (span_of file.spans section))) [
      | inl e ↦ rw (e, copy_triples) (λ f. cc)
      | inr ((n, start), e) ↦ elim (Bool-cases (n3 == n * 3)) [
        | inl good ↦
            rw (e, copy_triples, good)
              (copy_loop-inside n start file.recs (span_inside file section n start loaded e))
        | inr bad ↦ rw (e, copy_triples, bad) (λ f. cc)
      ]
    ]

    written : (store_triples file section xyz).0 ≢ fault
    written = elim (store_triples-cases file section xyz) [
      | inl e ↦ rw e (λ f. cc)
      | inr (n, start, e, size, f) ↦
          rw f (store_loop-inside n start xyz file.recs (span_inside file section n start loaded e))
    ]
