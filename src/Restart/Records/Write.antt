-- ===== src/Restart/Records/Write.antt =====
-- src/cpmdc_restart.c: `emit_record` and the loop of `cpmdc_restart_write_mem`.
use cpmdc.Base.{
  int_max, ℕ, zero, suc, ◌-◌, ◌^◌, Bool, true, false, Option, none, some, List, [], ◌∷◌, length,
  take, drop, ltb, if◌then◌else◌,
}
use cpmdc.Base.Options.{◌>>=◌, ◌>>◌, stop_if}
use cpmdc.Restart.Bytes.{Bytes, Buffer, no_buffer, word_bytes, append_bytes}

-- `CPMDC_RESTART_MAX_SUB`
abbrev pub max_sub : ℕ
max_sub = 2147483639

module _ (grants : ℕ → Bool) where
  -- A subrecord between its markers; the pattern of `-chunk` is `2 ^ 32 - chunk`.
  unfoldable pub emit_chunk : Bool → Buffer → Bytes → Option Buffer
  emit_chunk last buf chunk = do
    stop_if (ltb int_max (length chunk))
    let marker = if last then length chunk else 2 ^ 32 - length chunk
    b ← append_bytes grants buf (word_bytes marker)
    b' ← append_bytes grants b chunk
    append_bytes grants b' (word_bytes marker)

  -- `while (off < dlen)` over the bytes from `off` on, with chunks of at most `limit` bytes.
  unfoldable pub emit_chunks : ℕ → ℕ → Buffer → Bytes → Option Buffer
  emit_chunks zero limit buf rest = none
  emit_chunks (suc fuel) limit buf rest =
      if ltb limit (length rest)
      then (emit_chunk false buf (take limit rest) >>= λ b.
          emit_chunks fuel limit b (drop limit rest))
      else emit_chunk true buf rest

  -- A chunk holds a byte at least, so the length of the record is enough fuel.
  unfoldable pub emit_record : Buffer → Bytes → Option Buffer
  emit_record buf [] = do
    b ← append_bytes grants buf (word_bytes 0)
    append_bytes grants b (word_bytes 0)
  emit_record buf (d ∷ ds) = emit_chunks (suc (length (d ∷ ds))) max_sub buf (d ∷ ds)

  unfoldable pub emit_records : Buffer → List Bytes → Option Buffer
  emit_records buf [] = some buf
  emit_records buf (r ∷ rs) = emit_record buf r >>= λ b. emit_records b rs

  -- The bytes that `cpmdc_restart_write_mem` returns for the records of a file.
  unfoldable pub write_records : List Bytes → Option Bytes
  write_records recs = emit_records no_buffer recs >>= λ b. some b.bytes
