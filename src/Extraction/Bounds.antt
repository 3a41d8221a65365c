-- ===== src/Extraction/Bounds.antt =====
-- What an archive can unpack to (backend/internal/core/shared/utils.go).
use komachi.Base.{
  ℕ, ◌+◌, ◌-◌, ◌≤◌, ◌≡◌, ◌⊎◌, refl, sym, subst, Bool, true, false, none, some, List, [], ◌∷◌, ◌&&◌,
  leb, all, arith, eqb, ◌||◌, ◌/◌, Option-cases, inl, inr,
}
use komachi.Extraction.{
  ExtractionLimits, CopyError, Chunk, bytes, read_fails, write_fails, smaller, compressed_size,
  ratio_exceeded, Copied, pump, entry_limit, judged, first_error, copy_with_budget, Entry,
  Extracted, then_rest, extract_all,
}

abbrev pub total : List ℕ → ℕ
total [] = 0
total (n ∷ ns) = n + total ns

module _ (limits : ExtractionLimits) where
  pump_le :
      (compressed left written : ℕ) (chunks : List Chunk)
      → (pump limits compressed left written chunks).written ≤ written + left
  unfolding pump
  pump_le compressed left written [] = ground arith
  pump_le compressed left written (bytes n ∷ chunks) =
      ground (arith, pump_le compressed (left - smaller n left) (written + smaller n left) chunks)
  pump_le compressed left written (read_fails n ∷ chunks) = ground arith
  pump_le compressed left written (write_fails n ∷ chunks) = ground arith

  pump-ratio :
      (compressed left written : ℕ) (chunks : List Chunk)
      → ratio_exceeded limits compressed written ≡ false
      → (pump limits compressed left written chunks).error ≡ none
      → ratio_exceeded limits compressed (pump limits compressed left written chunks).written
        ≡ false
  unfolding pump
  pump-ratio compressed left written [] h e = h
  pump-ratio compressed left written (bytes n ∷ chunks) h e =
      ground
        (arith, pump-ratio compressed (left - smaller n left) (written + smaller n left) chunks)
  pump-ratio compressed left written (read_fails n ∷ chunks) h e = ground arith
  pump-ratio compressed left written (write_fails n ∷ chunks) h e = ground arith

  ratio-zero : (compressed : ℕ) → ratio_exceeded limits compressed 0 ≡ false
  unfolding ratio_exceeded
  ratio-zero compressed = ground arith

  abbrev ended : ℕ → ℕ → Copied → Copied
  ended limit remaining c = first_error c.error (judged limits limit remaining c) c

  ended-written : (limit remaining : ℕ) (c : Copied) → (ended limit remaining c).written ≡ c.written
  ended-written limit remaining c = elim (Option-cases c.error) [
    | inl e ↦ ground arith
    | inr (x, e) ↦ ground arith
  ]

  ended-ok :
      (limit remaining : ℕ) (c : Copied)
      → (ended limit remaining c).error ≡ none
      → (c.error ≡ none) × (c.written ≤ limit)
  ended-ok limit remaining c h = elim (Option-cases c.error) [
    | inl e ↦ (e, ground arith)
    | inr (x, e) ↦ absurd (ground arith)
  ]

  copy_with_budget_le :
      (remaining declared : ℕ) (chunks : List Chunk)
      → (copy_with_budget limits remaining declared chunks).written
        ≤ entry_limit limits remaining + 1
  unfolding copy_with_budget
  copy_with_budget_le remaining declared chunks =
      let limit = entry_limit limits remaining in
      let c = pump limits (compressed_size declared) (limit + 1) 0 chunks in
      subst (λ n. n ≤ limit + 1) (sym (ended-written limit remaining c))
        (omega (arith, pump_le (compressed_size declared) (limit + 1) 0 chunks))

  copy_with_budget-ok :
      (remaining declared : ℕ) (chunks : List Chunk)
      → (copy_with_budget limits remaining declared chunks).error ≡ none
      → ((copy_with_budget limits remaining declared chunks).written ≤ entry_limit limits remaining)
        × (ratio_exceeded limits
              (compressed_size declared)
              (copy_with_budget limits remaining declared chunks).written
            ≡ false)
  unfolding copy_with_budget
  copy_with_budget-ok remaining declared chunks h =
      let limit = entry_limit limits remaining in
      let size = compressed_size declared in
      let c = pump limits size (limit + 1) 0 chunks in
      let (none_e, le) = ended-ok limit remaining c h in
      let back = sym (ended-written limit remaining c) in
      (
        subst (λ n. n ≤ limit) back le,
        subst (λ n. ratio_exceeded limits size n ≡ false) back
            (pump-ratio size (limit + 1) 0 chunks (ratio-zero size) none_e),
      )

  then_rest_le :
      (remaining : ℕ) (c : Copied) (rest : Extracted)
      → c.written ≤ entry_limit limits remaining + 1
      → (c.error ≡ none → c.written ≤ entry_limit limits remaining)
      → total rest.sizes ≤ remaining - c.written + 1
      → all (λ n. leb n (limits.max_entry_bytes + 1)) rest.sizes ≡ true
      → (total (then_rest c rest).sizes ≤ remaining + 1)
        × (all (λ n. leb n (limits.max_entry_bytes + 1)) (then_rest c rest).sizes ≡ true)
  then_rest_le remaining c rest le fits sum each = elim (Option-cases c.error) [
    | inl e ↦ let l = fits e in rw (e, then_rest) (ground arith, ground arith)
    | inr (x, e) ↦ rw (e, then_rest) (ground arith, ground arith)
  ]

  extract_all_le :
      (remaining : ℕ) (entries : List Entry)
      → (total (extract_all limits remaining entries).sizes ≤ remaining + 1)
        × (all
              (λ n. leb n (limits.max_entry_bytes + 1))
              (extract_all limits remaining entries).sizes
            ≡ true)
  unfolding extract_all
  extract_all_le remaining [] = (ground arith, refl)
  extract_all_le remaining (e ∷ entries) =
      let c = copy_with_budget limits remaining e.compressed_size64 e.chunks in
      let (sum, each) = extract_all_le (remaining - c.written) entries in
      then_rest_le remaining c (extract_all limits (remaining - c.written) entries)
        (copy_with_budget_le remaining e.compressed_size64 e.chunks)
        (λ f. (copy_with_budget-ok remaining e.compressed_size64 e.chunks f).0) sum each

  -- a size that is not beyond the ratio to the size declared, where the ratio is a limit at all
  abbrev pub within_ratio : ℕ → ℕ → Bool
  within_ratio compressed n =
      eqb compressed 0
      || eqb limits.max_ratio 0
      || leb n limits.ratio_floor_bytes
      || leb (n / limits.max_ratio) compressed

  within_ratio-exceeded :
      (compressed n : ℕ)
      → ratio_exceeded limits compressed n ≡ false
      → within_ratio compressed n ≡ true
  unfolding ratio_exceeded
  within_ratio-exceeded compressed n h = ground arith

  -- each entry has its size, within the limit for an entry and not beyond the ratio
  abbrev pub within : List Entry → List ℕ → Bool
  within [] [] = true
  within [] (n ∷ sizes) = false
  within (e ∷ entries) [] = false
  within (e ∷ entries) (n ∷ sizes) =
      leb n limits.max_entry_bytes
      && within_ratio (compressed_size e.compressed_size64) n
      && within entries sizes

  then_rest-ok :
      (c : Copied) (rest : Extracted)
      → (then_rest c rest).failure ≡ none
      → (c.error ≡ none)
        × (rest.failure ≡ none)
        × ((then_rest c rest).sizes ≡ c.written ∷ rest.sizes)
  then_rest-ok c rest h = elim (Option-cases c.error) [
    | inl e ↦ (e, rw (e, then_rest) at h, rw (e, then_rest) refl)
    | inr (x, e) ↦ let z = rw (e, then_rest) at h in absurd (ground arith)
  ]

  extract_all-ok :
      (remaining : ℕ) (entries : List Entry)
      → (extract_all limits remaining entries).failure ≡ none
      → (total (extract_all limits remaining entries).sizes ≤ remaining)
        × (within entries (extract_all limits remaining entries).sizes ≡ true)
  unfolding extract_all
  extract_all-ok remaining [] h = (ground arith, refl)
  extract_all-ok remaining (e ∷ entries) h =
      let c = copy_with_budget limits remaining e.compressed_size64 e.chunks in
      let (f, g, same) = then_rest-ok c (extract_all limits (remaining - c.written) entries) h in
      let (sum, each) = extract_all-ok (remaining - c.written) entries g in
      let (fits, slow) = copy_with_budget-ok remaining e.compressed_size64 e.chunks f in
      let ratio = within_ratio-exceeded (compressed_size e.compressed_size64) c.written slow in
      rw same (ground arith, ground arith)

  -- Whatever an archive holds and claims, unpacking it never writes more than one byte beyond the
  -- limit for the archive, nor for any entry one byte beyond that for an entry; and it fails,
  -- or every entry was written, all together within the limit for the archive, each within
  -- that for an entry, and each that is over `ratio_floor_bytes` within the ratio to the compressed
  -- size that it declares, unless this is 0 or the ratio is; from 2 ^ 63 on it is taken as 1.
  pub extract_all-bounds :
      (entries : List Entry)
      → (total (extract_all limits limits.max_total_bytes entries).sizes
          ≤ limits.max_total_bytes + 1)
        × (all
              (λ n. leb n (limits.max_entry_bytes + 1))
              (extract_all limits limits.max_total_bytes entries).sizes
            ≡ true)
        × (((x : CopyError) × ((extract_all limits limits.max_total_bytes entries).failure
                ≡ some x))
            ⊎ ((total (extract_all limits limits.max_total_bytes entries).sizes
                  ≤ limits.max_total_bytes)
                × (within entries (extract_all limits limits.max_total_bytes entries).sizes
                    ≡ true)))
  extract_all-bounds entries =
      let (sum, each) = extract_all_le limits.max_total_bytes entries in
      (
        sum,
        each,
        elim (Option-cases (extract_all limits limits.max_total_bytes entries).failure) [
          | inl e ↦ inr (extract_all-ok limits.max_total_bytes entries e)
          | inr x ↦ inl x
        ],
      )
