-- ===== src/Restart/Bytes/Growth.antt =====
-- The growing buffers of src/cpmdc_restart.c where `realloc` gives what is asked for.
use cpmdc.Base.{
  ℕ, zero, suc, ◌+◌, ◌*◌, ◌/◌, ◌%◌, ◌^◌, ◌≤◌, ◌<◌, ◌≡◌, refl, ap, Bool, ◌||◌, true, false, inl, inr,
  Option, none, some, [], ◌∷◌, ◌++◌, length, length-append, ltb, ltb→lt, ltb→ge, ge→ltb, Bool-cases,
  arith, ◌==◌, if◌then◌else◌,
}
use native.Mathlib.Nat.{pow-suc}
use cpmdc.Restart.Bytes.{
  Bytes, Buffer, Records, size_max, grow_cap, append_bytes, push_rec, grown_records, take_word,
  word_bytes,
}

-- The largest file that the theorems speak of.
abbrev pub file_limit : ℕ
file_limit = 2 ^ 60

pub record IsRoomy (b : Buffer) : Type 0 where
  pub fits : length b.bytes ≤ b.cap
  pub bounded : b.cap ≤ 2 ^ 62

pub record HasRoom (r : Records) : Type 0 where
  pub fits : length r.items ≤ r.cap
  pub bounded : r.cap ≤ 2 ^ 59

abbrev pub Appends : Buffer → Bytes → Option Buffer → Type 0
Appends b src o = (b' : Buffer) × (o ≡ some b') × (b'.bytes ≡ b.bytes ++ src) × IsRoomy b'

double_pow : (c f : ℕ) → c * 2 ^ suc f ≡ c * 2 * 2 ^ f
double_pow c f = omega (arith, ap (λ (t : ℕ). c * t) (pow-suc 2 f))

-- Doubling a capacity until it is enough ends, and gives less than twice what is needed.
pub grow_cap_lem :
    (fuel c need : ℕ)
    → need ≤ c * 2 ^ fuel
    → need ≤ 2 ^ 61
    → c ≤ 2 ^ 62
    → (c' : ℕ) × (grow_cap fuel c need ≡ some c') × (need ≤ c') × (c' ≤ 2 ^ 62)
unfolding grow_cap
grow_cap_lem zero c need h n l = (c, ground arith, omega arith, l)
grow_cap_lem (suc fuel) c need h n l = elim (Bool-cases (ltb c need)) [
  | inl short ↦
      rw (short, ge→ltb (size_max / 2) c (omega arith))
        (grow_cap_lem fuel (c * 2) need (omega (arith, double_pow c fuel)) n
          (omega (arith, ltb→lt c need short)))
  | inr enough ↦ (c, rw enough, ltb→ge c need enough, l)
]

module _ (grants : ℕ → Bool) (all_granted : (n : ℕ) → grants n ≡ true) where
  -- `append_bytes` appends, wherever the result stays below the limit.
  pub append_bytes_lem :
      (b : Buffer) (src : Bytes)
      → IsRoomy b
      → length b.bytes + length src ≤ file_limit
      → Appends b src (append_bytes grants b src)
  unfolding append_bytes
  append_bytes_lem b src room small =
      rw (ge→ltb (need % 2 ^ 64) (length b.bytes) (omega arith))
        (elim (Bool-cases (ltb b.cap need)) [
          | inl short ↦
              rw short
                (grown (grow_cap_lem 64 start need (ground arith) (omega arith) (ground arith)))
          | inr enough ↦ rw enough (
            record { bytes = b.bytes ++ src; cap = b.cap },
            refl,
            refl,
            record { fits = rw length-append (ltb→ge b.cap need enough); bounded = room.bounded },
          )
        ])
    where
      need : ℕ
      need = length b.bytes + length src

      start : ℕ
      start = if b.cap == 0 then 256 else b.cap

      grown :
          (c : ℕ) × (grow_cap 64 start need ≡ some c) × (need ≤ c) × (c ≤ 2 ^ 62)
          → Appends b src (elim (grow_cap 64 start need) [
            | none ↦ none
            | some ncap ↦
                if grants ncap then some (record { bytes = b.bytes ++ src; cap = ncap }) else none
          ])
      grown (c, e, fits, bounded) =
          rw (e, all_granted c)
            (
              record { bytes = b.bytes ++ src; cap = c },
              refl,
              refl,
              record { fits = rw length-append fits; bounded = bounded },
            )

  pub push_rec_lem :
      (r : Records) (x : Bytes)
      → HasRoom r
      → length r.items < 2 ^ 57
      → (r' : Records) × (push_rec grants r x ≡ some r')
        × (r'.items ≡ r.items ++ (x ∷ []))
        × HasRoom r'
  unfolding push_rec grown_records
  push_rec_lem r x room small = elim (Bool-cases (length r.items == r.cap)) [
    | inl full ↦
        let grown : ncap ≤ 2 ^ 58 = ground arith in
        let more : length r.items < ncap = ground arith in
        rw (full, fresh_cap grown more, all_granted (ncap * 16))
          (
            record { items = r.items ++ (x ∷ []); cap = ncap },
            refl,
            refl,
            record { fits = rw length-append (omega arith); bounded = omega arith },
          )
    | inr spare ↦ rw spare (
      record { items = r.items ++ (x ∷ []); cap = r.cap },
      refl,
      refl,
      record { fits = rw length-append (ground arith); bounded = room.bounded },
    )
  ]
    where
      ncap : ℕ
      ncap = grown_records r.cap

      fresh_cap :
          ncap ≤ 2 ^ 58 → length r.items < ncap → (ncap == 0 || ltb (size_max / 16) ncap) ≡ false
      fresh_cap h k = ground arith

pub take_word-word_bytes :
    (u : ℕ) (rest : Bytes) → u < 2 ^ 32 → take_word (word_bytes u ++ rest) ≡ some (u, rest)
unfolding take_word word_bytes
take_word-word_bytes u rest h = ground arith
