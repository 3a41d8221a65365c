-- ===== src/Extraction.antt =====
-- The limits on what a ZIP may unpack to, backend/internal/core/shared/utils.go (CopyWithBudget), and
-- the loop over the entries of an archive in backend/internal/restore/swap.go. Limits and budgets are
-- not negative, and at most 2 ^ 62, so that no sum here reaches 2 ^ 63.
pub mod Bounds
mod Tests
use komachi.Base.{
  ℕ, ◌+◌, ◌-◌, ◌*◌, ◌/◌, ◌^◌, Bool, true, false, Option, none, some, List, [], ◌∷◌, ◌&&◌, ltb, eqb,
  if◌then◌else◌,
}

pub record ExtractionLimits : Type 0 where
  pub max_entry_bytes : ℕ
  pub max_total_bytes : ℕ
  pub max_ratio : ℕ
  pub ratio_floor_bytes : ℕ

pub data CopyError : Type 0 where
  file_too_large cumulative_size_too_large decompression_ratio_too_high io_error : CopyError

-- What a read of the entry brings: some bytes, which are written; bytes beside an error of the read;
-- or bytes of which the write fails.
pub data Chunk : Type 0 where
  bytes read_fails write_fails : ℕ → Chunk

abbrev pub default_zip_extraction_limits : ExtractionLimits
default_zip_extraction_limits = record {
  max_entry_bytes = 50 * 1024 * 1024;
  max_total_bytes = 1024 * 1024 * 1024;
  max_ratio = 100;
  ratio_floor_bytes = 1024 * 1024;
}

abbrev pub smaller : ℕ → ℕ → ℕ
smaller m n = if ltb m n then m else n

-- `int64(declaredCompressedSize)`, which is negative from 2 ^ 63 on, and is 1 then
abbrev pub compressed_size : ℕ → ℕ
compressed_size declared = if ltb declared (2 ^ 63) then declared else 1

-- the test of `ratioLimitedWriter.Write`
unfoldable pub ratio_exceeded : ExtractionLimits → ℕ → ℕ → Bool
ratio_exceeded limits compressed written =
    ltb 0 compressed
    && ltb 0 limits.max_ratio
    && ltb limits.ratio_floor_bytes written
    && ltb compressed (written / limits.max_ratio)

pub record Copied : Type 0 where
  pub written : ℕ
  pub error : Option CopyError

-- `io.Copy` to the writer from an `io.LimitReader` with `left` bytes to go
unfoldable pub pump : ExtractionLimits → ℕ → ℕ → ℕ → List Chunk → Copied
unfolding ratio_exceeded
pump limits compressed left written [] = record { written = written; error = none }
pump limits compressed left written (bytes n ∷ chunks) =
    let read = smaller n left in
    let rest = pump limits compressed (left - read) (written + read) chunks in
    if eqb left 0
    then record { written = written; error = none }
    else if ratio_exceeded limits compressed (written + read)
    then record { written = written + read; error = some decompression_ratio_too_high }
    else rest
pump limits compressed left written (read_fails n ∷ chunks) =
    let read = smaller n left in
    if eqb left 0
    then record { written = written; error = none }
    else if ratio_exceeded limits compressed (written + read)
    then record { written = written + read; error = some decompression_ratio_too_high }
    else record { written = written + read; error = some io_error }
pump limits compressed left written (write_fails n ∷ chunks) =
    if eqb left 0
    then record { written = written; error = none }
    else record { written = written + smaller n left; error = some io_error }

abbrev pub entry_limit : ExtractionLimits → ℕ → ℕ
entry_limit limits remaining = smaller remaining limits.max_entry_bytes

abbrev pub too_large : ExtractionLimits → ℕ → CopyError
too_large limits remaining =
    if ltb remaining limits.max_entry_bytes then cumulative_size_too_large else file_too_large

abbrev pub judged : ExtractionLimits → ℕ → ℕ → Copied → Copied
judged limits limit remaining c =
    if ltb limit c.written then record c { error = some (too_large limits remaining) } else c

abbrev pub first_error : Option CopyError → Copied → Copied → Copied
first_error none ended c = ended
first_error (some e) ended c = c

-- `CopyWithBudget`, with what is left of the budget
unfoldable pub copy_with_budget : ExtractionLimits → ℕ → ℕ → List Chunk → Copied
unfolding pump
copy_with_budget limits remaining declared chunks =
    let limit = entry_limit limits remaining in
    let c = pump limits (compressed_size declared) (limit + 1) 0 chunks in
    first_error c.error (judged limits limit remaining c) c

pub record Entry : Type 0 where
  pub compressed_size64 : ℕ
  pub chunks : List Chunk

-- the bytes written for each entry up to the first that fails, and whether one did
pub record Extracted : Type 0 where
  pub sizes : List ℕ
  pub failure : Option CopyError

abbrev pub then_rest : Copied → Extracted → Extracted
then_rest c rest = elim c.error [
  | some e ↦ record { sizes = c.written ∷ []; failure = some e }
  | none ↦ record rest { sizes = c.written ∷ rest.sizes }
]

-- The budget goes down by what was written (`budget.remaining -= n`).
unfoldable pub extract_all : ExtractionLimits → ℕ → List Entry → Extracted
unfolding copy_with_budget
extract_all limits remaining [] = record { sizes = []; failure = none }
extract_all limits remaining (e ∷ entries) =
    let c = copy_with_budget limits remaining e.compressed_size64 e.chunks in
    then_rest c (extract_all limits (remaining - c.written) entries)
