-- ===== src/Restart/Records/Emit.antt =====
-- `emit_record` and `cpmdc_restart_write_mem` write the bytes that `wire_all` describes.
use mathlib.Core.List.{append-nil, append_assoc}
use cpmdc.Base.{
  int_max, ℕ, zero, suc, ◌+◌, ◌-◌, ◌^◌, ◌≤◌, ◌<◌, ◌≡◌, refl, sym, ap, Bool, true, false, inl, inr,
  Option, some, List, [], ◌∷◌, ◌++◌, length, take, drop, length-append, length-take, length-drop,
  ltb, ltb→lt, ltb→ge, ge→ltb, Bool-cases, arith, if◌then◌else◌,
}
use cpmdc.Base.Results.{ok}
use cpmdc.Base.Options.{◌>>=◌}
use cpmdc.Restart.Bytes.{Bytes, Buffer, Records, no_buffer, no_records, word_bytes}
use cpmdc.Restart.Bytes.Growth.{file_limit, IsRoomy, Appends, append_bytes_lem}
use cpmdc.Restart.Records.{parse_records}
use cpmdc.Restart.Records.Write.{
  max_sub, emit_chunk, emit_chunks, emit_record, emit_records, write_records,
}
use cpmdc.Restart.Records.RoundTrip.{
  framed, wire, wire_all, length-framed, length-word_bytes, length-wire, parse_loop-wire_all,
}

framed-append :
    (m : ℕ) (chunk tail rest : Bytes) → framed m chunk (tail ++ rest) ≡ framed m chunk tail ++ rest
framed-append m chunk tail rest = simp append_assoc

wire-append :
    (k limit : ℕ) (payload rest : Bytes)
    → wire k limit payload rest ≡ wire k limit payload [] ++ rest
unfolding wire
wire-append zero limit payload rest = refl
wire-append (suc k) limit payload rest = elim (Bool-cases (ltb limit (length payload))) [
  | inl more ↦
      rw (more, wire-append k limit (drop limit payload) rest)
        (framed-append (2 ^ 32 - limit) (take limit payload) (wire k limit (drop limit payload) [])
          rest)
  | inr last ↦ rw last (framed-append (length payload) payload [] rest)
]

-- Two writes, one after the other.
Appends-bind :
    (b : Buffer) (src tail : Bytes) (o : Option Buffer) (k : Buffer → Option Buffer)
    → Appends b src o
    → ((b' : Buffer)
        → length b'.bytes ≡ length b.bytes + length src
        → IsRoomy b'
        → Appends b' tail (k b'))
    → Appends b (src ++ tail) (o >>= k)
Appends-bind b src tail o k (b', e, bytes, room) next =
    then_tail (next b' (rw bytes (length-append b.bytes src)) room)
  where
    then_tail : Appends b' tail (k b') → Appends b (src ++ tail) (o >>= k)
    then_tail (b'', e', bytes', room') =
        (b'', rw e e', rw (bytes', bytes) (append_assoc b.bytes src tail), room')

Appends-to :
    (b : Buffer) (src src' : Bytes) (o : Option Buffer)
    → src ≡ src'
    → Appends b src o
    → Appends b src' o
Appends-to b src src' o e a = rw (← e) a

module _ (grants : ℕ → Bool) (all_granted : (n : ℕ) → grants n ≡ true) where
  emit_chunk_lem :
      (last : Bool) (m : ℕ) (buf : Buffer) (chunk : Bytes)
      → (if last then length chunk else 2 ^ 32 - length chunk) ≡ m
      → length chunk ≤ int_max
      → IsRoomy buf
      → length buf.bytes + length chunk + 8 ≤ file_limit
      → Appends buf (framed m chunk []) (emit_chunk grants last buf chunk)
  unfolding emit_chunk
  emit_chunk_lem last m buf chunk marker short room fits =
      rw (ge→ltb int_max (length chunk) short, marker)
        (Appends-bind buf (word_bytes m) (chunk ++ (word_bytes m ++ [])) _ _
          (append_bytes_lem grants all_granted buf (word_bytes m) room
            (omega (arith, length-word_bytes m)))
          λ b n room'.
            Appends-bind b chunk (word_bytes m ++ []) _ _
              (append_bytes_lem grants all_granted b chunk room'
                (omega (arith, length-word_bytes m)))
              λ b' n' room''. rw append-nil (
                append_bytes_lem grants all_granted b' (word_bytes m) room''
                  (omega (arith, length-word_bytes m))))

  emit_chunks_lem :
      (limit : ℕ)
      → 0 < limit
      → limit ≤ int_max
      → (k : ℕ) (buf : Buffer) (payload : Bytes) → length payload < k
      → IsRoomy buf
      → length buf.bytes + length (wire k limit payload []) ≤ file_limit
      → Appends buf (wire k limit payload []) (emit_chunks grants k limit buf payload)
  unfolding emit_chunks wire
  emit_chunks_lem limit pos short zero buf payload h room fits = absurd (omega arith)
  emit_chunks_lem limit pos short (suc k) buf payload h room fits =
      elim (Bool-cases (ltb limit (length payload))) [
        | inl more ↦ rw more (
            first more (ltb→lt limit (length payload) more) (rw more at fits)
              (λ b. emit_chunks_lem limit pos short k b (drop limit payload)))
        | inr last ↦ rw last (only (ltb→ge limit (length payload) last) (rw last at fits))
      ]
    where
      marker : ℕ
      marker = 2 ^ 32 - limit

      chunk : Bytes
      chunk = take limit payload

      tail : Bytes
      tail = wire k limit (drop limit payload) []

      only :
          length payload ≤ limit
          → length buf.bytes + length (framed (length payload) payload []) ≤ file_limit
          → Appends buf (framed (length payload) payload []) (emit_chunk grants true buf payload)
      only n total =
          emit_chunk_lem true (length payload) buf payload refl (omega arith) room
            (omega (arith, length-framed (length payload) payload []))

      first :
          ltb limit (length payload) ≡ true
          → limit < length payload
          → length buf.bytes + length (framed marker chunk tail) ≤ file_limit
          → ((b : Buffer)
              → length (drop limit payload) < k
              → IsRoomy b
              → length b.bytes + length tail ≤ file_limit
              → Appends b tail (emit_chunks grants k limit b (drop limit payload)))
          → Appends buf (framed marker chunk tail) (
              emit_chunk grants false buf chunk >>= λ b.
              emit_chunks grants k limit b (drop limit payload))
      first more n total later =
          let cut = length-take limit payload (omega arith) in
          let size = length-framed marker chunk tail in
          let size' = length-framed marker chunk [] in
          Appends-to buf (framed marker chunk [] ++ tail) (framed marker chunk tail) _
            (sym (framed-append marker chunk [] tail))
            (Appends-bind buf (framed marker chunk []) tail _ _
              (emit_chunk_lem false marker buf chunk (omega arith) (omega arith) room (omega arith))
              λ b grown room'.
                later b (omega (arith, length-drop limit payload)) room' (omega arith))

  emit_record_lem :
      (buf : Buffer) (r : Bytes)
      → IsRoomy buf
      → length buf.bytes + length (wire (suc (length r)) max_sub r []) ≤ file_limit
      → Appends buf (wire (suc (length r)) max_sub r []) (emit_record grants buf r)
  unfolding emit_record
  emit_record_lem buf [] room fits =
      let size = length-wire max_sub (omega arith) 1 [] [] (omega arith) in
      unfold wire in
      (Appends-bind buf (word_bytes 0) (word_bytes 0 ++ []) _ _
        (append_bytes_lem grants all_granted buf (word_bytes 0) room
          (omega (arith, length-word_bytes 0)))
        λ b n room'. rw append-nil (
          append_bytes_lem grants all_granted b (word_bytes 0) room'
            (omega (arith, length-word_bytes 0))))
  emit_record_lem buf (d ∷ ds) room fits =
      emit_chunks_lem max_sub (omega arith) (omega arith) (suc (length (d ∷ ds))) buf (d ∷ ds)
        (omega arith) room fits

  emit_records_lem :
      (buf : Buffer) (rs : List Bytes)
      → IsRoomy buf
      → length buf.bytes + length (wire_all rs) ≤ file_limit
      → Appends buf (wire_all rs) (emit_records grants buf rs)
  unfolding emit_records wire_all
  emit_records_lem buf [] room fits = (buf, refl, sym (append-nil buf.bytes), room)
  emit_records_lem buf (r ∷ rs) room fits =
      let here = wire (suc (length r)) max_sub r [] in
      let split = wire-append (suc (length r)) max_sub r (wire_all rs) in
      let size = ap length split in
      let size' = length-append here (wire_all rs) in
      Appends-to buf (here ++ wire_all rs) (wire (suc (length r)) max_sub r (wire_all rs)) _
        (sym split)
        (Appends-bind buf here (wire_all rs) _ _ (emit_record_lem buf r room (omega arith))
          λ b n room'. emit_records_lem b rs room' (omega arith))

  -- `cpmdc_restart_write_mem` writes the records in turn, each framed by its markers.
  pub write_records-wire_all :
      (rs : List Bytes)
      → length (wire_all rs) ≤ file_limit
      → write_records grants rs ≡ some (wire_all rs)
  unfolding write_records
  write_records-wire_all rs fits =
      written (emit_records_lem no_buffer rs (omega arith) (omega arith))
    where
      written :
          Appends no_buffer (wire_all rs) (emit_records grants no_buffer rs)
          → (emit_records grants no_buffer rs >>= λ b. some b.bytes) ≡ some (wire_all rs)
      written (b, e, bytes, room) = rw e (ap some bytes)

  -- What `write` produces, `parse_records` reads back: the same records in the same order, for every
  -- list of records that takes fewer than 2 ^ 60 bytes on disk, where `realloc` does not fail.
  pub parse_records-write_records :
      (rs : List Bytes)
      → length (wire_all rs) < file_limit
      → (bytes : Bytes) × (r : Records) × (write_records grants rs ≡ some bytes)
        × (parse_records grants bytes ≡ ok r)
        × (r.items ≡ rs)
  unfolding parse_records
  parse_records-write_records rs fits =
      let (r, e, items) =
        parse_loop-wire_all grants all_granted rs (length (wire_all rs)) no_records (omega arith)
          (omega arith) (omega arith) (omega arith) in
      (wire_all rs, r, write_records-wire_all rs (omega arith), e, items)
