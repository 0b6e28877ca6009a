-- ===== src/Restart/Sections/Agree.antt =====
-- Records that are patched inside one section leave the index and the other sections as they were.
use cpmdc.Base.{
  ℕ, zero, suc, ◌+◌, ◌≤◌, ◌<◌, ◌≡◌, ◌≢◌, refl, sym, ap, ◌∙◌, ◌⊎◌, inl, inr, some, List, [], ◌∷◌,
  length, get_elem?, ltb, ltb→lt, ltb→ge, lt→ltb, ge→ltb, Bool-cases, Option-cases, arith, ==_refl,
}
use cpmdc.Base.Results.{ok}
use cpmdc.Restart.Bytes.{Bytes}
use cpmdc.Restart.Sections.{
  Span, Index, span_at, index_loop, index_sections, read_header, span_of, sec_nrec, rec_at,
}
use cpmdc.Restart.Sections.Tiles.{
  Tiles, span_at-bounds, Tiles-bounds, Tiles-before, index_loop-cases, index_sections-parts,
  index_sections-Tiles, read_header-nonempty,
}
use native.Mathlib.Nat.{add-zero}

-- The two lists differ at the places from `lo` up to `hi` at most.
pub record Agree (recs recs' : List Bytes) (lo hi : ℕ) : Type 0 where
  pub same_length : length recs' ≡ length recs
  pub same : (j : ℕ) → (j < lo) ⊎ (hi ≤ j) → get_elem? recs' j ≡ get_elem? recs j

span_at-agree :
    (recs recs' : List Bytes) (i : ℕ)
    → length recs' ≡ length recs
    → get_elem? recs' i ≡ get_elem? recs i
    → span_at recs' i ≡ span_at recs i
unfolding span_at
span_at-agree recs recs' i n e = rw (n, e)

-- The loop looks at the headers of the sections only.
index_loop-agree :
    (left : ℕ) (recs recs' : List Bytes) (i : ℕ) (x : ℕ × List Span)
    → length recs' ≡ length recs
    → ((k : ℕ) (s : Span)
        → get_elem? x.1 k ≡ some s
        → get_elem? recs' s.start ≡ get_elem? recs s.start)
    → i ≤ length recs
    → index_loop left recs i ≡ ok x
    → index_loop left recs' i ≡ ok x
unfolding index_loop
index_loop-agree zero recs recs' i x n same h e = e
index_loop-agree (suc left) recs recs' i x n same h e = elim (index_loop-cases left recs i x e) [
  | inl (outside, f) ↦ rw (n, ge→ltb i (length recs) outside, f)
  | inr (s, y, inside, es, ey, f) ↦
      let (a, b, c) = span_at-bounds recs i s inside es in
      let head : get_elem? recs' i ≡ get_elem? recs i = rw (← a) (same 0 s (rw f)) in
      let rest =
        index_loop-agree left recs recs' (i + s.nrec) y n (λ k u eu. same (suc k) u (rw f eu)) c
          ey in
      rw (n, lt→ltb i (length recs) inside, span_at-agree recs recs' i n head, es, rest, f)
]

-- The place of a record of another section, or of the header of this one.
outside :
    (spans : List Span) (q a b : ℕ) (s u : Span) (k : ℕ)
    → Tiles 0 spans q
    → get_elem? spans a ≡ some s
    → get_elem? spans b ≡ some u
    → (a ≢ b) ⊎ (k ≡ 0)
    → k < u.nrec
    → (u.start + k < s.start + 1) ⊎ (s.start + s.nrec ≤ u.start + k)
outside spans q a b s u k t ea eb differ h = elim (Bool-cases (ltb a b)) [
  | inl less ↦ inr (omega (arith, Tiles-before 0 spans q a b s u t (ltb→lt a b less) ea eb))
  | inr not_less ↦ elim (Bool-cases (ltb b a)) [
    | inl more ↦ inl (omega (arith, Tiles-before 0 spans q b a u s t (ltb→lt b a more) eb ea))
    | inr equal ↦
        let e : a ≡ b = omega (arith, ltb→ge a b not_less, ltb→ge b a equal) in
        let u-s : some u ≡ some s = sym eb ∙ rw (← e) ea in
        inl (elim differ [ inl ne ↦ absurd (ne e) | inr start ↦ ground arith ])
  ]
]

read_header-agree :
    (recs recs' : List Bytes)
    → length recs' ≡ length recs
    → get_elem? recs' 0 ≡ get_elem? recs 0
    → read_header recs' ≡ read_header recs
unfolding read_header
read_header-agree [] [] n e = refl
read_header-agree [] (r ∷ rs) n e = cc
read_header-agree (r ∷ rs) [] n e = cc
read_header-agree (r ∷ rs) (r' ∷ rs') n e = let same : r' ≡ r = cc in rw same

header_fits :
    (spans : List Span) (q k : ℕ) (u : Span)
    → Tiles 0 spans q
    → get_elem? spans k ≡ some u
    → 0 < u.nrec
header_fits spans q k u t e = omega (arith, Tiles-bounds 0 spans q k u t e)

-- The index of the patched records is the same.
pub index_sections-Agree :
    (recs recs' : List Bytes) (ix : Index) (c : ℕ) (s : Span)
    → index_sections recs ≡ ok ix
    → span_of ix.spans c ≡ some s
    → Agree recs recs' (s.start + 1) (s.start + s.nrec)
    → index_sections recs' ≡ ok ix
unfolding index_sections span_of
index_sections-Agree recs recs' ix zero s e es agree = cc
index_sections-Agree recs recs' ix (suc c) s e es agree =
    let (header, x, eh, ex, all, f) = index_sections-parts recs ix e in
    let (t, n, m) = index_sections-Tiles recs ix e in
    let nonempty : 1 ≤ length recs = read_header-nonempty recs header eh in
    let eh' = read_header-agree recs recs' agree.same_length (agree.same 0 (inl (omega arith))) in
    let ex' =
      index_loop-agree 98 recs recs' 1 x agree.same_length
        (λ k u eu. simp add-zero at (
          agree.same (u.start + 0) (
            outside ix.spans (length recs) c (suc k) s u 0 t es (rw f eu) (inr refl)
              (header_fits ix.spans (length recs) (suc k) u t (rw f eu)))))
        nonempty ex in
    rw (eh', eh, ex', all, agree.same_length, ==_refl (length recs), f) refl

-- A record of another section, read through `rec_at`, is the same.
pub rec_at-Agree :
    (recs recs' : List Bytes) (ix : Index) (c : ℕ) (s : Span) (section k : ℕ)
    → index_sections recs ≡ ok ix
    → span_of ix.spans c ≡ some s
    → Agree recs recs' (s.start + 1) (s.start + s.nrec)
    → section ≢ c
    → k < sec_nrec ix.spans section
    → rec_at recs' ix.spans section k ≡ rec_at recs ix.spans section k
unfolding rec_at sec_nrec
rec_at-Agree recs recs' ix c s section k e es agree differ h =
    elim (Option-cases (span_of ix.spans section)) [
      | inl none_there ↦ rw (none_there, rec_at)
      | inr (u, eu) ↦
          rw (eu, rec_at)
            (agree.same (u.start + k) (places c section es eu differ (rw (eu, sec_nrec) at h)))
    ]
  where
    tiles : Tiles 0 ix.spans (length recs)
    tiles = (index_sections-Tiles recs ix e).0

    places :
        (c section : ℕ) {u : Span}
        → span_of ix.spans c ≡ some s
        → span_of ix.spans section ≡ some u
        → section ≢ c
        → k < u.nrec
        → (u.start + k < s.start + 1) ⊎ (s.start + s.nrec ≤ u.start + k)
    places zero section ec eu ne fits = unfold span_of in cc
    places (suc c) zero ec eu ne fits = unfold span_of in cc
    places (suc c) (suc section) {u = u} ec eu ne fits =
        unfold span_of in
        outside ix.spans (length recs) c section s u k tiles ec eu
          (inl (λ same. ne (ap suc (sym same)))) fits
