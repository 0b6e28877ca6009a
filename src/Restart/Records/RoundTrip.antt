-- ===== src/Restart/Records/RoundTrip.antt =====
-- What `emit_record` writes, in plain terms, and that `parse_records` reads it back.
use mathlib.Core.List.{append-nil, append_assoc}
use cpmdc.Base.{
  int32_min, is_negative, magnitude, ℕ, zero, suc, ◌+◌, ◌-◌, ◌*◌, ◌^◌, ◌≤◌, ◌<◌, ◌≡◌, refl, sym, ap,
  ◌∙◌, Bool, true, false, inl, inr, some, List, [], ◌∷◌, ◌++◌, length, take, drop, length-append,
  length-take, length-drop, take-append_length, drop-append_length, take-append-drop, ltb, ltb→lt,
  ltb→ge, ge→ltb, Bool-cases, arith, ◌==◌, ==_refl, if◌then◌else◌,
}
use cpmdc.Base.Results.{ok}
use cpmdc.Restart.Bytes.{Bytes, Buffer, Records, no_buffer, push_rec, word_bytes}
use cpmdc.Restart.Bytes.Growth.{
  file_limit, IsRoomy, HasRoom, append_bytes_lem, push_rec_lem, take_word-word_bytes,
}
use cpmdc.Restart.Records.{read_subrecord, read_record, parse_loop}
use cpmdc.Restart.Records.Write.{max_sub}

-- A subrecord on disk, with what follows it.
abbrev pub framed : ℕ → Bytes → Bytes → Bytes
framed marker chunk rest = word_bytes marker ++ (chunk ++ (word_bytes marker ++ rest))

-- A record on disk, cut into subrecords of `limit` bytes.
unfoldable pub wire : ℕ → ℕ → Bytes → Bytes → Bytes
wire zero limit payload rest = rest
wire (suc fuel) limit payload rest =
    if ltb limit (length payload)
    then framed (2 ^ 32 - limit) (take limit payload) (wire fuel limit (drop limit payload) rest)
    else framed (length payload) payload rest

unfoldable pub wire_all : List Bytes → Bytes
unfolding wire
wire_all [] = []
wire_all (r ∷ rs) = wire (suc (length r)) max_sub r (wire_all rs)

pub length-word_bytes : (u : ℕ) → length (word_bytes u) ≡ 4
unfolding word_bytes
length-word_bytes u = refl

pub length-framed : (m : ℕ) (c rest : Bytes) → length (framed m c rest) ≡ length c + 8 + length rest
length-framed m c rest = omega (
  arith,
  length-append (word_bytes m) (c ++ (word_bytes m ++ rest)),
  length-append c (word_bytes m ++ rest),
  length-append (word_bytes m) rest,
  length-word_bytes m,
)

-- A marker is followed by as many bytes as it says.
IsMarker : Bool → ℕ → ℕ → Type 0
IsMarker cont m n =
    (m < 2 ^ 32) × ((m == int32_min) ≡ false) × (magnitude m ≡ n) × (is_negative m ≡ cont)

module _ (grants : ℕ → Bool) (all_granted : (n : ℕ) → grants n ≡ true) where
  read_subrecord-framed :
      (cont : Bool) (m : ℕ) (buf : Buffer) (chunk rest : Bytes)
      → IsMarker cont m (length chunk)
      → IsRoomy buf
      → length buf.bytes + length chunk ≤ file_limit
      → (b : Buffer) × (read_subrecord grants buf (framed m chunk rest) ≡ ok (cont, b, rest))
        × (b.bytes ≡ buf.bytes ++ chunk)
        × IsRoomy b
  unfolding read_subrecord IsMarker
  read_subrecord-framed cont m buf chunk rest (small, odd, size, sign) room fits =
      let (b, e, bytes, roomy) = append_bytes_lem grants all_granted buf chunk room fits in
      (
        b,
        rw
            (
              take_word-word_bytes m (chunk ++ (word_bytes m ++ rest)) small,
              odd,
              size,
              ge→ltb (length (chunk ++ (word_bytes m ++ rest))) (length chunk)
                  (omega (arith, length-append chunk (word_bytes m ++ rest))),
              take-append_length chunk (word_bytes m ++ rest),
              drop-append_length chunk (word_bytes m ++ rest),
              e,
              take_word-word_bytes m rest small,
              ==_refl m,
              sign,
            )
            refl,
        bytes,
        roomy,
      )

more-IsMarker : (limit : ℕ) → 0 < limit → limit < 2 ^ 31 → IsMarker true (2 ^ 32 - limit) limit
unfolding IsMarker
more-IsMarker limit pos small = ground arith

last-IsMarker : (n : ℕ) → n < 2 ^ 31 → IsMarker false n n
unfolding IsMarker
last-IsMarker n small = ground arith

module _ (limit : ℕ) (pos : 0 < limit) where
  pub length-wire :
      (k : ℕ) (payload rest : Bytes)
      → length payload < k
      → length payload + 8 + length rest ≤ length (wire k limit payload rest)
  unfolding wire
  length-wire zero payload rest h = absurd (omega arith)
  length-wire (suc k) payload rest h = elim (Bool-cases (ltb limit (length payload))) [
    | inl more ↦
        let long = ltb→lt limit (length payload) more in
        rw more (
          omega (
            arith,
            length-framed (2 ^ 32 - limit) (take limit payload)
                (wire k limit (drop limit payload) rest),
            length-take limit payload (omega arith),
            length-drop limit payload,
            length-wire k (drop limit payload) rest (omega (arith, length-drop limit payload)),
          ))
    | inr last ↦ rw last (omega (arith, length-framed (length payload) payload rest))
  ]

module _ (grants : ℕ → Bool) (all_granted : (n : ℕ) → grants n ≡ true) (limit : ℕ) (pos : 0 < limit)
    (small : limit < 2 ^ 31) where
  read_record-wire :
      (k fuel : ℕ) (payload rest : Bytes) (buf : Buffer)
      → length payload < k
      → k ≤ fuel
      → IsRoomy buf
      → length buf.bytes + length payload ≤ file_limit
      → (b : Buffer) × (read_record grants fuel buf (wire k limit payload rest) ≡ ok (b, rest))
        × (b.bytes ≡ buf.bytes ++ payload)
        × IsRoomy b
  unfolding read_record wire
  read_record-wire zero fuel payload rest buf h le room fits = absurd (omega arith)
  read_record-wire (suc k) zero payload rest buf h le room fits = absurd (omega arith)
  read_record-wire (suc k) (suc fuel) payload rest buf h le room fits =
      elim (Bool-cases (ltb limit (length payload))) [
        | inl more ↦
            let long = ltb→lt limit (length payload) more in
            let cut = length-take limit payload (omega arith) in
            let (b, e, bytes, roomy) =
              read_subrecord-framed grants all_granted true (2 ^ 32 - limit) buf
                (take limit payload) (wire k limit (drop limit payload) rest)
                (rw cut (more-IsMarker limit pos small)) room (omega arith) in
            let grown : length b.bytes ≡ length buf.bytes + limit =
              rw bytes (omega (arith, length-append buf.bytes (take limit payload))) in
            let (b', e', bytes', roomy') =
              read_record-wire k fuel (drop limit payload) rest b
                (omega (arith, length-drop limit payload)) (omega arith) roomy
                (omega (arith, length-drop limit payload)) in
            (
              b',
              rw (more, e) e',
              bytes'
                  ∙ ap (λ (t : Bytes). t ++ drop limit payload) bytes
                  ∙ append_assoc buf.bytes (take limit payload) (drop limit payload)
                  ∙ ap (◌++◌ buf.bytes) (take-append-drop limit payload),
              roomy',
            )
        | inr last ↦
            let (b, e, bytes, roomy) =
              read_subrecord-framed grants all_granted false (length payload) buf payload rest
                (last-IsMarker (length payload) (omega (arith, ltb→ge limit (length payload) last)))
                room fits in
            (b, rw (last, e) refl, bytes, roomy)
      ]

module _ (grants : ℕ → Bool) (all_granted : (n : ℕ) → grants n ≡ true) where
  parse_loop-cons :
      (fuel : ℕ) (recs recs' : Records) (xs after : Bytes) (p : Buffer)
      → 8 ≤ length xs
      → read_record grants (length xs) no_buffer xs ≡ ok (p, after)
      → push_rec grants recs p.bytes ≡ some recs'
      → parse_loop grants (suc fuel) recs xs ≡ parse_loop grants fuel recs' after
  unfolding parse_loop
  parse_loop-cons fuel recs recs' [] after p h e q = absurd (omega arith)
  parse_loop-cons fuel recs recs' (x ∷ xs) after p h e q =
      rw (ge→ltb (length (x ∷ xs)) 4 (omega arith), e, q)

  pub parse_loop-wire_all :
      (rs : List Bytes) (fuel : ℕ) (recs : Records)
      → length (wire_all rs) ≤ fuel
      → length (wire_all rs) ≤ file_limit
      → HasRoom recs
      → 8 * length recs.items + length (wire_all rs) < 2 ^ 60
      → (r : Records) × (parse_loop grants fuel recs (wire_all rs) ≡ ok r)
        × (r.items ≡ recs.items ++ rs)
  unfolding wire_all
  parse_loop-wire_all [] fuel recs h small room many =
      (recs, unfold parse_loop in refl, sym (append-nil recs.items))
  parse_loop-wire_all (r ∷ rs) zero recs h small room many = absurd (
      omega
        (arith, length-wire max_sub (omega arith) (suc (length r)) r (wire_all rs) (omega arith)))
  parse_loop-wire_all (r ∷ rs) (suc fuel) recs h small room many =
      let here = wire (suc (length r)) max_sub r (wire_all rs) in
      let size = length-wire max_sub (omega arith) (suc (length r)) r (wire_all rs) (omega arith) in
      let (p, e, bytes, roomy) =
        read_record-wire grants all_granted max_sub (omega arith) (omega arith) (suc (length r))
          (length here) r (wire_all rs) no_buffer (omega arith) (omega arith) (omega arith)
          (omega arith) in
      let (recs', e', items, room') =
        push_rec_lem grants all_granted recs p.bytes room (omega arith) in
      let (final, e'', items') =
        parse_loop-wire_all rs fuel recs' (omega arith) (omega arith) room'
          (rw items (omega (arith, length-append recs.items (p.bytes ∷ [])))) in
      (
        final,
        parse_loop-cons fuel recs recs' here (wire_all rs) p (omega arith) e e' ∙ e'',
        items'
            ∙ ap (λ (t : List Bytes). t ++ rs)
                (items ∙ ap (λ (t : Bytes). recs.items ++ (t ∷ [])) bytes)
            ∙ append_assoc recs.items (r ∷ []) rs,
      )
