-- ===== src/Restart/File.antt =====
-- src/cpmdc_restart.c: `struct cpmdc_restart`, `decode_typed`, `from_bytes` and the read accessors.
-- A `has_…` flag and the fields it guards are one option; `na` and `nsp` are a list and its length.
-- The two allocations that do not grow, of the file and of `na`, are taken to succeed.
pub mod Load
use cpmdc.Base.{
  int_max, is_negative, ℕ, zero, suc, ◌+◌, ◌-◌, ◌*◌, ◌≤◌, ◌<◌, ◌≡◌, Bool, true, false, not, ◌&&◌,
  ◌||◌, Option, none, some, List, [], ◌∷◌, ◌++◌, length, get_elem?, take, drop, ltb, leb, ◌==◌,
  if◌then◌else◌,
}
use cpmdc.Base.Results.{Result, ok, err, ◌>>=◌, ◌>>◌, refuse_if, or_fail}
use cpmdc.Restart.Bytes.{Bytes, read_i32, read_f64}
use cpmdc.Restart.Records.{ParseError, parse_records}
use cpmdc.Restart.Records.Write.{write_records}
use cpmdc.Restart.Sections.{Span, Index, IndexError, index_sections, sec_nrec, span_of, rec_at}

-- `celldm` is six reals of eight bytes.
pub record Cell : Type 0 where
  pub ibrav : ℕ
  pub indpg : ℕ
  pub celldm : List Bytes

pub record Cutoff : Type 0 where
  pub ecut : Bytes
  pub cdual : Bytes
  pub dual_flag : ℕ
  pub nel : ℕ
  pub nr1s : ℕ
  pub nr2s : ℕ
  pub nr3s : ℕ

pub record States : Type 0 where
  pub nstates : ℕ
  pub nkpts : ℕ
  pub ngw : ℕ
  pub ngwl : ℕ
  pub nhg : ℕ
  pub nhgl : ℕ

pub record File : Type 0 where
  pub recs : List Bytes
  pub header : Bytes
  pub stream : Bool
  pub spans : List Span
  pub na : Option (List ℕ)
  pub cell : Option Cell
  pub cutoff : Option Cutoff
  pub states : Option States

-- The messages of `decode_typed`; `unread` is the return with none.
pub data TypedError : Type 0 where
  cell_missing cell_length unread species_missing species_count counts_short count_unusable :
      TypedError
  cutoff_missing cutoff_short states_missing states_short : TypedError

pub data LoadError : Type 0 where
  parse : ParseError → LoadError
  index : IndexError → LoadError
  typed : TypedError → LoadError

-- `for (k = 0; k < n; k++) read_f64(r, off + k * 8, …)`
unfoldable pub read_reals : ℕ → Bytes → ℕ → Option (List Bytes)
read_reals zero r off = some []
read_reals (suc n) r off = elim (read_f64 r off) [
  | none ↦ none
  | some x ↦ elim (read_reals n r (off + 8)) [ none ↦ none | some xs ↦ some (x ∷ xs) ]
]

unfoldable pub read_ints : ℕ → Bytes → ℕ → Option (List ℕ)
read_ints zero r off = some []
read_ints (suc n) r off = elim (read_i32 r off) [
  | none ↦ none
  | some x ↦ elim (read_ints n r (off + 4)) [ none ↦ none | some xs ↦ some (x ∷ xs) ]
]

unfoldable pub any_negative : List ℕ → Bool
any_negative [] = false
any_negative (x ∷ xs) = is_negative x || any_negative xs

-- `decode_typed`, one function for each `if (file->sec_nrec[s] == k)`.
module _ (recs : List Bytes) (spans : List Span) where
  unfoldable pub read_cell : Result TypedError Cell
  read_cell = do
    sym ← or_fail (rec_at recs spans 2 1) cell_missing
    cell ← or_fail (rec_at recs spans 2 2) cell_missing
    refuse_if (ltb (length sym) 8 || ltb (length cell) 48) cell_length
    ibrav ← or_fail (read_i32 sym 0) unread
    indpg ← or_fail (read_i32 sym 4) unread
    celldm ← or_fail (read_reals 6 cell 0) unread
    ok (record { ibrav = ibrav; indpg = indpg; celldm = celldm })

  -- The loop refuses a count that is short or negative with one message.
  unfoldable pub read_species : Result TypedError (List ℕ)
  read_species = do
    nsp_r ← or_fail (rec_at recs spans 3 1) species_missing
    na_r ← or_fail (rec_at recs spans 3 2) species_missing
    nsp ← or_fail (read_i32 nsp_r 0) species_count
    refuse_if (is_negative nsp || ltb 100000 nsp) species_count
    refuse_if (ltb (length na_r) (nsp * 4)) counts_short
    na ← or_fail (read_ints nsp na_r 0) count_unusable
    refuse_if (any_negative na) count_unusable
    ok na

  unfoldable pub read_cutoff : Result TypedError Cutoff
  read_cutoff = do
    r ← or_fail (rec_at recs spans 7 1) cutoff_missing
    refuse_if (ltb (length r) 36) cutoff_short
    ecut ← or_fail (read_f64 r 0) cutoff_short
    cdual ← or_fail (read_f64 r 8) cutoff_short
    dual_flag ← or_fail (read_i32 r 16) cutoff_short
    nel ← or_fail (read_i32 r 20) cutoff_short
    nr1 ← or_fail (read_i32 r 24) cutoff_short
    nr2 ← or_fail (read_i32 r 28) cutoff_short
    nr3 ← or_fail (read_i32 r 32) cutoff_short
    ok (record {
      ecut = ecut;
      cdual = cdual;
      dual_flag = dual_flag;
      nel = nel;
      nr1s = nr1;
      nr2s = nr2;
      nr3s = nr3;
    })

  unfoldable pub read_states : Result TypedError States
  read_states = do
    r ← or_fail (rec_at recs spans 8 1) states_missing
    refuse_if (ltb (length r) 24) states_short
    n ← or_fail (read_i32 r 0) states_short
    nk ← or_fail (read_i32 r 4) states_short
    ngw ← or_fail (read_i32 r 8) states_short
    ngwl ← or_fail (read_i32 r 12) states_short
    nhg ← or_fail (read_i32 r 16) states_short
    nhgl ← or_fail (read_i32 r 20) states_short
    ok (record { nstates = n; nkpts = nk; ngw = ngw; ngwl = ngwl; nhg = nhg; nhgl = nhgl })

-- A section with another number of records is skipped.
unfoldable pub when_nrec :
    {A : Type 0} → List Span → ℕ → ℕ → Result TypedError A → Result TypedError (Option A)
when_nrec spans section n decode =
    if sec_nrec spans section == n then (decode >>= λ x. ok (some x)) else ok none

abbrev pub lift_error : {E F A : Type 0} → (E → F) → Result E A → Result F A
lift_error f (ok a) = ok a
lift_error f (err e) = err (f e)

-- `decode_typed` on the records that `ix` indexes.
unfoldable pub decode_typed : List Bytes → Index → Result TypedError File
decode_typed recs ix = do
  cell ← when_nrec ix.spans 2 3 (read_cell recs ix.spans)
  na ← when_nrec ix.spans 3 3 (read_species recs ix.spans)
  cutoff ← when_nrec ix.spans 7 2 (read_cutoff recs ix.spans)
  states ← when_nrec ix.spans 8 2 (read_states recs ix.spans)
  ok (record {
    recs = recs;
    header = ix.header;
    stream = ix.stream;
    spans = ix.spans;
    na = na;
    cell = cell;
    cutoff = cutoff;
    states = states;
  })

-- What `from_bytes` does with the records of a file.
unfoldable pub load : List Bytes → Result LoadError File
load recs = do ix ← lift_error index (index_sections recs); lift_error typed (decode_typed recs ix)

module _ (grants : ℕ → Bool) where
  -- `from_bytes`, which is `cpmdc_restart_read_mem`.
  unfoldable pub read_mem : Bytes → Result LoadError File
  read_mem bytes = do records ← lift_error parse (parse_records grants bytes); load records.items

  -- `cpmdc_restart_write_mem`; `none` is its "out of memory".
  unfoldable pub write_mem : File → Option Bytes
  write_mem file = write_records grants file.recs

-- The getters that copy what was decoded.
abbrev pub restart_is_stream : File → Bool
restart_is_stream file = file.stream

abbrev pub restart_header : File → Bytes
restart_header file = file.header

abbrev pub restart_cell : File → Option Cell
restart_cell file = file.cell

-- A file of no species is refused like one without the section.
unfoldable pub restart_species : File → Option (List ℕ)
restart_species file = elim file.na [
  | none ↦ none
  | some na ↦ if length na == 0 then none else some na
]

abbrev pub restart_cutoff : File → Option Cutoff
restart_cutoff file = file.cutoff

abbrev pub restart_states : File → Option States
restart_states file = file.states
