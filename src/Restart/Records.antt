-- ===== src/Restart/Records.antt =====
-- src/cpmdc_restart.c: `parse_records`, the Fortran record layer.
-- A record is one or more subrecords, each between two equal four-byte markers; a negative marker
-- says that another subrecord of the same record follows.
pub mod Write
pub mod RoundTrip
pub mod Emit
pub mod Total
use cpmdc.Base.{
  int32_min, is_negative, magnitude, ℕ, zero, suc, ◌+◌, ◌-◌, ◌^◌, Bool, true, false, Option, none,
  some, List, [], ◌∷◌, length, take, drop, ltb, ◌==◌, if◌then◌else◌,
}
use cpmdc.Base.Results.{Result, ok, err, ◌>>=◌, ◌>>◌, refuse_if, or_fail}
use cpmdc.Restart.Bytes.{
  Bytes, Buffer, Records, no_buffer, no_records, take_word, word_bytes, append_bytes, push_rec,
}

-- The messages of `set_err`. `out_of_fuel` is none of them: the bound on the rounds was too small.
pub data ParseError : Type 0 where
  truncated_marker truncated_submarker marker_range past_end out_of_memory truncated_trailer :
      ParseError
  markers_differ out_of_fuel : ParseError

module _ (grants : ℕ → Bool) where
  -- One subrecord: whether another follows, the payload so far, and the rest of the file.
  unfoldable pub read_subrecord : Buffer → Bytes → Result ParseError (Bool × Buffer × Bytes)
  read_subrecord payload rest = do
    (lead, body) ← or_fail (take_word rest) truncated_submarker
    refuse_if (lead == int32_min) marker_range
    let slen = magnitude lead
    refuse_if (ltb (length body) slen) past_end
    payload' ← or_fail (append_bytes grants payload (take slen body)) out_of_memory
    (trail, after) ← or_fail (take_word (drop slen body)) truncated_trailer
    if trail == lead then ok (is_negative lead, payload', after) else err markers_differ

  -- `for (;;)`: the subrecords of one record.
  unfoldable pub read_record : ℕ → Buffer → Bytes → Result ParseError (Buffer × Bytes)
  read_record zero payload rest = err out_of_fuel
  read_record (suc fuel) payload rest = do
    (cont, payload', after) ← read_subrecord payload rest
    let more = read_record fuel payload' after in if cont then more else ok (payload', after)

  -- `while (off < n)`; the bytes from `off` on are the argument.
  unfoldable pub parse_loop : ℕ → Records → Bytes → Result ParseError Records
  parse_loop fuel recs [] = ok recs
  parse_loop zero recs (b ∷ bs) = err out_of_fuel
  parse_loop (suc fuel) recs (b ∷ bs) = do
    refuse_if (ltb (length (b ∷ bs)) 4) truncated_marker
    (payload, after) ← read_record (length (b ∷ bs)) no_buffer (b ∷ bs)
    recs' ← or_fail (push_rec grants recs payload.bytes) out_of_memory
    parse_loop fuel recs' after

  -- Each round takes eight bytes at least, so the length of the file is enough fuel.
  unfoldable pub parse_records : Bytes → Result ParseError Records
  parse_records buf = parse_loop (length buf) no_records buf
