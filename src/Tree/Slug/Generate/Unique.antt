-- ===== src/Tree/Slug/Generate/Unique.antt =====
-- The generators end, and what they give (backend/internal/core/tree/slug_service.go).
use komachi.Base.{
  ℕ, ◌+◌, ◌≤◌, ◌≡◌, ◌⊎◌, Text, true, false, none, some, List, [], ◌++◌, map, arith, ◌==◌, length,
  lower,
}
use komachi.Base.Retry.{contains, retry_ends, retry_loops}
use komachi.Tree.Types.{Nodes}
use komachi.Tree.Slug.{slug_pattern, slug_error}
use komachi.Tree.Slug.Generate.{
  numbered, normalize_slug, is_taken, generate_unique_child_slug, generate_unique_filename,
  file_ext, file_base,
}
use komachi.Tree.Slug.Generate.Candidates.{numbered_filename_injective}

-- the slugs of the children in lower case
abbrev lower_slugs : Nodes → List ℕ → List Text
lower_slugs h cs = map (λ c. lower (h c).slug) cs

empty_taken : (h : Nodes) (cs : List ℕ) (current : Text) → is_taken h cs current [] ≡ true
unfolding slug_error ◌==◌
empty_taken h cs current = ground arith

-- a slug that begins with a hyphen
numbered_empty :
    (h : Nodes) (cs : List ℕ) (current : Text) (i : ℕ)
    → is_taken h cs current (numbered [] i) ≡ true
unfolding slug_error slug_pattern numbered
numbered_empty h cs current i = ground arith

module _ (make : Text → Text) (h : Nodes) (cs : List ℕ) (current desired : Text) where
  -- Where the normalized text is empty, the loop never ends: the tests that the fuel allows all
  -- fail, however many.
  pub generate_unique_child_slug_loops :
      (fuel : ℕ)
      → normalize_slug make desired ≡ []
      → generate_unique_child_slug make fuel h cs current desired ≡ none
  unfolding generate_unique_child_slug
  generate_unique_child_slug_loops fuel e =
      let stuck = λ (i : ℕ). numbered_empty h cs current i in
      rw e (
        retry_loops (is_taken h cs current) (numbered []) stuck fuel 1 []
          (empty_taken h cs current))

-- `GenerateUniqueFilename` ends, after at most two tests more than there are names, with a name that
-- is not among them: the normalized one, or that with a number before its extension.
generate_unique_filename_ends :
    (make : Text → Text) (existing : List Text) (desired : Text) (fuel : ℕ)
    → length existing + 2 ≤ fuel
    → (r : Text) × (generate_unique_filename make fuel existing desired ≡ some r)
      × (contains r existing ≡ false)
      × ((r ≡ normalize_slug make (file_base desired) ++ file_ext desired)
          ⊎ ((k : ℕ) × (r
                ≡ numbered (normalize_slug make (file_base desired)) k ++ file_ext desired)))
unfolding generate_unique_filename
generate_unique_filename_ends make existing desired fuel l =
    let ext = file_ext desired in
    let slugged = normalize_slug make (file_base desired) in
    retry_ends (λ name. contains name existing) (λ i. numbered slugged i ++ ext)
      (λ i. numbered slugged i ++ ext) (numbered_filename_injective slugged ext) (slugged ++ ext)
      existing fuel (λ i _ b. b) (omega arith)
