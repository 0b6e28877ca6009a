-- ===== src/Restart/Sections/Tiles.antt =====
-- The spans that `index_sections` finds cut the records of the file without gap or overlap.
use cpmdc.Base.{
  ℕ, zero, suc, ◌+◌, ◌≤◌, ◌<◌, ◌≡◌, ◌≢◌, refl, ◌⊎◌, inl, inr, some, List, [], ◌∷◌, length,
  get_elem?, get_elem?-lt, ltb, ltb→lt, ltb→ge, Bool-cases, arith,
}
use cpmdc.Base.Results.{ok, err, >>=-eq-ok, Result-cases}
use cpmdc.Restart.Bytes.{Bytes}
use cpmdc.Restart.Sections.{
  Span, Index, out_of_bounds, max_sections, span_at, index_loop, index_sections, read_header,
  contains, c_string, stream_text,
}

-- The spans follow one another from record p up to record q, and none is empty.
abbrev pub Tiles : ℕ → List Span → ℕ → Type 0
Tiles p [] q = p ≡ q
Tiles p (s ∷ ss) q = (s.start ≡ p) × (1 ≤ s.nrec) × Tiles (p + s.nrec) ss q

pub Tiles-le : (p : ℕ) (ss : List Span) (q : ℕ) → Tiles p ss q → p ≤ q
Tiles-le p [] q t = omega arith
Tiles-le p (s ∷ ss) q t = omega (arith, Tiles-le (p + s.nrec) ss q t.2)

-- Each span lies between the ends.
pub Tiles-bounds :
    (p : ℕ) (ss : List Span) (q k : ℕ) (s : Span)
    → Tiles p ss q
    → get_elem? ss k ≡ some s
    → (p ≤ s.start) × (1 ≤ s.nrec) × (s.start + s.nrec ≤ q)
Tiles-bounds p [] q k s t e = cc
Tiles-bounds p (x ∷ ss) q zero s t e = ground (arith, Tiles-le (p + x.nrec) ss q t.2)
Tiles-bounds p (x ∷ ss) q (suc k) s t e = omega (arith, Tiles-bounds (p + x.nrec) ss q k s t.2 e)

-- A later span begins where an earlier one has ended.
pub Tiles-before :
    (p : ℕ) (ss : List Span) (q j k : ℕ) (s u : Span)
    → Tiles p ss q
    → j < k
    → get_elem? ss j ≡ some s
    → get_elem? ss k ≡ some u
    → s.start + s.nrec ≤ u.start
Tiles-before p [] q j k s u t h e f = cc
Tiles-before p (x ∷ ss) q j zero s u t h e f = absurd (omega arith)
Tiles-before p (x ∷ ss) q zero (suc k) s u t h e f =
    ground (arith, Tiles-bounds (p + x.nrec) ss q k u t.2 f)
Tiles-before p (x ∷ ss) q (suc j) (suc k) s u t h e f =
    Tiles-before (p + x.nrec) ss q j k s u t.2 (omega arith) e f

pub span_at-bounds :
    (recs : List Bytes) (i : ℕ) (s : Span)
    → i < length recs
    → span_at recs i ≡ ok s
    → (s.start ≡ i) × (1 ≤ s.nrec) × (i + s.nrec ≤ length recs)
unfolding span_at
span_at-bounds recs i s h e = ground arith

-- A turn of the loop ends it, or finds a span and goes on behind it.
pub index_loop-cases :
    (left : ℕ) (recs : List Bytes) (i : ℕ) (x : ℕ × List Span)
    → index_loop (suc left) recs i ≡ ok x
    → ((length recs ≤ i) × (x ≡ (i, [])))
      ⊎ ((s : Span) × (y : ℕ × List Span) × (i < length recs)
          × (span_at recs i ≡ ok s)
          × (index_loop left recs (i + s.nrec) ≡ ok y)
          × (x ≡ (y.0, s ∷ y.1)))
unfolding index_loop
index_loop-cases left recs i x e = elim (Bool-cases (ltb i (length recs))) [
  | inl inside ↦
      let (s, es, f) = >>=-eq-ok (span_at recs i) _ (rw inside at e) in
      let (y, ey, g) = >>=-eq-ok (index_loop left recs (i + s.nrec)) _ f in
      inr (s, y, ltb→lt i (length recs) inside, es, ey, cc)
  | inr outside ↦ inl (ltb→ge i (length recs) outside, ground arith)
]

pub index_loop-Tiles :
    (left : ℕ) (recs : List Bytes) (i : ℕ) (x : ℕ × List Span)
    → i ≤ length recs
    → index_loop left recs i ≡ ok x
    → Tiles i x.1 x.0 × (length x.1 ≤ left) × (x.0 ≤ length recs)
index_loop-Tiles zero recs i x h e = unfold index_loop in ground arith
index_loop-Tiles (suc left) recs i x h e = elim (index_loop-cases left recs i x e) [
  | inl (outside, f) ↦ rw f (omega arith)
  | inr (s, y, inside, es, ey, f) ↦
      let (a, b, c) = span_at-bounds recs i s inside es in
      let (t, n, r) = index_loop-Tiles left recs (i + s.nrec) y c ey in
      rw f ((a, b, t), omega arith, r)
]

span_at-in_bounds :
    (recs : List Bytes) (i : ℕ) → i < length recs → span_at recs i ≢ err out_of_bounds
unfolding span_at
span_at-in_bounds recs i h = let (r, e) = get_elem?-lt recs i h in λ f. ground arith

index_loop-in_bounds :
    (left : ℕ) (recs : List Bytes) (i : ℕ) → index_loop left recs i ≢ err out_of_bounds
unfolding index_loop
index_loop-in_bounds zero recs i = λ e. cc
index_loop-in_bounds (suc left) recs i = elim (Bool-cases (ltb i (length recs))) [
  | inl inside ↦ elim (Result-cases (span_at recs i)) [
    | inl (s, es) ↦ elim (Result-cases (index_loop left recs (i + s.nrec))) [
      | inl (y, ey) ↦ λ e. ground arith
      | inr (y, ey) ↦ λ e. ground (arith, index_loop-in_bounds left recs (i + s.nrec))
    ]
    | inr (x, ex) ↦ λ e. ground (arith, span_at-in_bounds recs i (ltb→lt i (length recs) inside))
  ]
  | inr outside ↦ λ e. ground arith
]

-- The parts of a successful `index_sections`.
pub index_sections-parts :
    (recs : List Bytes) (ix : Index)
    → index_sections recs ≡ ok ix
    → (header : Bytes) × (x : ℕ × List Span) × (read_header recs ≡ ok header)
      × (index_loop 98 recs 1 ≡ ok x)
      × (x.0 ≡ length recs)
      × (ix ≡ record {
        header = header;
        stream = contains (c_string header) stream_text;
        spans = record { start = 0; nrec = 1 } ∷ x.1;
      })
unfolding index_sections
index_sections-parts recs ix e =
    let (header, eh, f) = >>=-eq-ok (read_header recs) _ e in
    let (x, ex, g) = >>=-eq-ok (index_loop 98 recs 1) _ f in
    (header, x, eh, ex, ground arith, ground arith)

pub read_header-nonempty :
    (recs : List Bytes) (header : Bytes) → read_header recs ≡ ok header → 1 ≤ length recs
unfolding read_header
read_header-nonempty [] header e = cc
read_header-nonempty (r ∷ rs) header e = omega arith

-- What `index_sections` accepts: the sections are the records from 0 to the last, each once, in
-- the order of their numbers, and there are 1 to 99 of them.
pub index_sections-Tiles :
    (recs : List Bytes) (ix : Index)
    → index_sections recs ≡ ok ix
    → Tiles 0 ix.spans (length recs) × (1 ≤ length ix.spans) × (length ix.spans ≤ max_sections)
index_sections-Tiles recs ix e =
    let (header, x, eh, ex, all, f) = index_sections-parts recs ix e in
    let some_record = read_header-nonempty recs header eh in
    let (t, n, r) = index_loop-Tiles 98 recs 1 x some_record ex in
    rw f ((refl, omega arith, rw (← all) t), omega arith, omega arith)

-- `index_sections` reads no record that the file does not have.
pub index_sections-in_bounds : (recs : List Bytes) → index_sections recs ≢ err out_of_bounds
unfolding index_sections read_header
index_sections-in_bounds [] = λ e. cc
index_sections-in_bounds (r ∷ rs) = elim (Result-cases (index_loop 98 (r ∷ rs) 1)) [
  | inl (x, ex) ↦ λ e. ground arith
  | inr (x, ex) ↦ λ e. ground (arith, index_loop-in_bounds 98 (r ∷ rs) 1)
]
