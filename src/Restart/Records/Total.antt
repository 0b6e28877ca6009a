-- ===== src/Restart/Records/Total.antt =====
-- `parse_records` ends on every input, and what it returns was in the file.
use cpmdc.Base.{
  ℕ, zero, suc, ◌+◌, ◌≤◌, ◌<◌, ◌≡◌, ◌≢◌, Bool, inl, inr, some, List, [], ◌∷◌, ◌++◌, length,
  length-append, length-take, length-drop, Option-cases, arith,
}
use cpmdc.Base.Results.{ok, err, >>=-eq-ok, Result-cases}
use cpmdc.Restart.Bytes.{
  Bytes, Buffer, Records, no_buffer, no_records, append_bytes, push_rec, take_word,
}
use cpmdc.Restart.Records.{out_of_fuel, read_subrecord, read_record, parse_loop, parse_records}

take_word_shrinks :
    (xs : Bytes) (x : ℕ × Bytes) → take_word xs ≡ some x → length xs ≡ length x.1 + 4
unfolding take_word
take_word_shrinks [] x e = cc
take_word_shrinks (a ∷ []) x e = cc
take_word_shrinks (a ∷ b ∷ []) x e = cc
take_word_shrinks (a ∷ b ∷ c ∷ []) x e = cc
take_word_shrinks (a ∷ b ∷ c ∷ d ∷ xs) x e = ground arith

append_bytes-bytes :
    (grants : ℕ → Bool) (b : Buffer) (src : Bytes) (b' : Buffer)
    → append_bytes grants b src ≡ some b'
    → b'.bytes ≡ b.bytes ++ src
unfolding append_bytes
append_bytes-bytes grants b src b' e = ground arith

push_rec-items :
    (grants : ℕ → Bool) (r : Records) (x : Bytes) (r' : Records)
    → push_rec grants r x ≡ some r'
    → r'.items ≡ r.items ++ (x ∷ [])
unfolding push_rec
push_rec-items grants r x r' e = ground arith

-- What a subrecord leaves of the file, and adds to the payload.
Took : Bytes → Buffer → Buffer → Bytes → Type 0
Took xs p p' after =
    (length p'.bytes + length after + 8 ≤ length p.bytes + length xs)
    × (length after + 8 ≤ length xs)

read_subrecord-Took :
    (grants : ℕ → Bool) (p : Buffer) (xs : Bytes) (cont : Bool) (p' : Buffer) (after : Bytes)
    → read_subrecord grants p xs ≡ ok (cont, p', after)
    → Took xs p p' after
unfolding read_subrecord Took
read_subrecord-Took grants p xs cont p' after e =
    grind (arith, take_word_shrinks, append_bytes-bytes, length-append, length-take, length-drop)

read_subrecord-total :
    (grants : ℕ → Bool) (p : Buffer) (xs : Bytes) → read_subrecord grants p xs ≢ err out_of_fuel
unfolding read_subrecord
read_subrecord-total grants p xs = λ e. ground arith

read_record-Took :
    (grants : ℕ → Bool) (fuel : ℕ) (p : Buffer) (xs : Bytes) (x : Buffer × Bytes)
    → read_record grants fuel p xs ≡ ok x
    → Took xs p x.0 x.1
unfolding read_record Took
read_record-Took grants zero p xs x e = cc
read_record-Took grants (suc fuel) p xs x e =
    let (y, e', f) = >>=-eq-ok (read_subrecord grants p xs) _ e in
    ground
      (arith, read_subrecord-Took grants p xs y.0 y.1 y.2, read_record-Took grants fuel y.1 y.2 x)

read_record-total :
    (grants : ℕ → Bool) (fuel : ℕ) (p : Buffer) (xs : Bytes)
    → 0 < fuel
    → length xs ≤ fuel
    → read_record grants fuel p xs ≢ err out_of_fuel
unfolding read_record Took
read_record-total grants zero p xs pos h = absurd (omega arith)
read_record-total grants (suc fuel) p xs pos h = λ e.
    elim (Result-cases (read_subrecord grants p xs)) [
      | inl (y, e') ↦ ground (
        arith,
        read_subrecord-Took grants p xs y.0 y.1 y.2,
        read_record-total grants fuel y.1 y.2,
      )
      | inr (x, e') ↦ ground (arith, read_subrecord-total grants p xs)
    ]

parse_loop-total :
    (grants : ℕ → Bool) (fuel : ℕ) (recs : Records) (xs : Bytes)
    → length xs ≤ fuel
    → parse_loop grants fuel recs xs ≢ err out_of_fuel
unfolding parse_loop Took
parse_loop-total grants fuel recs [] h = λ e. cc
parse_loop-total grants zero recs (x ∷ xs) h = absurd (omega arith)
parse_loop-total grants (suc fuel) recs (x ∷ xs) h =
    let start = x ∷ xs in
    elim (Result-cases (read_record grants (length start) no_buffer start)) [
      | inl (y, e') ↦ elim (Option-cases (push_rec grants recs y.0.bytes)) [
        | inl f ↦ λ e. ground arith
        | inr (recs', f) ↦ λ e. ground (
          arith,
          read_record-Took grants (length start) no_buffer start y,
          parse_loop-total grants fuel recs' y.1,
        )
      ]
      | inr (z, e') ↦ λ e. ground (arith, read_record-total grants (length start) no_buffer start)
    ]

-- On every input, and whatever `realloc` answers, the parser stops with records or with one of its
-- own messages: the rounds given to its two loops are enough.
pub parse_records-total :
    (grants : ℕ → Bool) (buf : Bytes) → parse_records grants buf ≢ err out_of_fuel
unfolding parse_records
parse_records-total grants buf = parse_loop-total grants (length buf) no_records buf (omega arith)

-- What the records take on disk at least: their bytes and two markers each.
abbrev pub disk_size : List Bytes → ℕ
disk_size [] = 0
disk_size (r ∷ rs) = length r + 8 + disk_size rs

disk_size-append : (rs ss : List Bytes) → disk_size (rs ++ ss) ≡ disk_size rs + disk_size ss
disk_size-append [] ss = omega arith
disk_size-append (r ∷ rs) ss = omega (arith, disk_size-append rs ss)

parse_loop-size :
    (grants : ℕ → Bool) (fuel : ℕ) (recs : Records) (xs : Bytes) (r : Records)
    → parse_loop grants fuel recs xs ≡ ok r
    → disk_size r.items ≤ disk_size recs.items + length xs
unfolding parse_loop Took
parse_loop-size grants fuel recs [] r e = ground arith
parse_loop-size grants zero recs (x ∷ xs) r e = cc
parse_loop-size grants (suc fuel) recs (x ∷ xs) r e =
    let start = x ∷ xs in
    elim (Result-cases (read_record grants (length start) no_buffer start)) [
      | inl (y, e') ↦ elim (Option-cases (push_rec grants recs y.0.bytes)) [
        | inl f ↦ ground arith
        | inr (recs', f) ↦ ground (
          arith,
          read_record-Took grants (length start) no_buffer start y,
          push_rec-items grants recs y.0.bytes recs',
          disk_size-append recs.items (y.0.bytes ∷ []),
          parse_loop-size grants fuel recs' y.1 r,
        )
      ]
      | inr (z, e') ↦ ground arith
    ]

-- The records that are read fit into the file: with their markers they take no more than its bytes.
pub parse_records-size :
    (grants : ℕ → Bool) (buf : Bytes) (r : Records)
    → parse_records grants buf ≡ ok r
    → disk_size r.items ≤ length buf
unfolding parse_records
parse_records-size grants buf r e =
    omega (arith, parse_loop-size grants (length buf) no_records buf r e)
