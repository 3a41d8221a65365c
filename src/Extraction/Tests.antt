-- ===== src/Extraction/Tests.antt =====
-- Archives of small entries, and one of an entry that unpacks to far more than it declares.
use komachi.Base.{ℕ, ◌≤◌, ◌≡◌, ◌⊎◌, refl, true, none, some, List, [], ◌∷◌, all, leb}
use komachi.Extraction.{
  ExtractionLimits, CopyError, bytes, decompression_ratio_too_high, cumulative_size_too_large,
  Entry, extract_all, ratio_exceeded,
}
use komachi.Extraction.Bounds.{total, within, extract_all-bounds}

abbrev limits : ExtractionLimits
limits = record {
  max_entry_bytes = 50;
  max_total_bytes = 80;
  max_ratio = 10;
  ratio_floor_bytes = 20;
}

abbrev entry : ℕ → ℕ → Entry
entry declared size = record { compressed_size64 = declared; chunks = bytes 10 ∷ bytes size ∷ [] }

abbrev two_entries : List Entry
two_entries = entry 20 20 ∷ entry 0 30 ∷ []

fits : extract_all limits 80 two_entries ≡ record { sizes = 30 ∷ 40 ∷ []; failure = none }
unfolding extract_all ratio_exceeded
fits = refl

bomb :
    extract_all limits 80 (entry 2 30 ∷ [])
    ≡ record { sizes = 40 ∷ []; failure = some decompression_ratio_too_high }
unfolding extract_all ratio_exceeded
bomb = refl

over_budget :
    extract_all limits 80 (entry 30 40 ∷ entry 30 35 ∷ [])
    ≡ record { sizes = 50 ∷ 31 ∷ []; failure = some cumulative_size_too_large }
unfolding extract_all ratio_exceeded
over_budget = refl

extract_all-bounds_example :
    (total (extract_all limits 80 two_entries).sizes ≤ 81)
    × (all (λ n. leb n 51) (extract_all limits 80 two_entries).sizes ≡ true)
    × (((x : CopyError) × ((extract_all limits 80 two_entries).failure ≡ some x))
        ⊎ ((total (extract_all limits 80 two_entries).sizes ≤ 80)
            × (within limits two_entries (extract_all limits 80 two_entries).sizes ≡ true)))
extract_all-bounds_example = extract_all-bounds limits two_entries
