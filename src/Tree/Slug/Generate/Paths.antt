-- ===== src/Tree/Slug/Generate/Paths.antt =====
-- The paths and file names that an import normalizes (backend/internal/core/tree/slug_service.go).
use komachi.Base.{
  ℕ, suc, ◌≡◌, refl, ◌⊎◌, inl, inr, Text, Bool, true, Option, some, List, [], ◌∷◌, arith, ◌==◌, all,
  All, split, join, Result, ok, err, Bool-cases, eq_text_iff,
}
use komachi.Base.Retry.{retry}
use komachi.Tree.Slug.{SlugError, slug_empty, is_valid_slug, slug_pattern}
use komachi.Tree.Slug.Generate.{
  numbered, normalize_slug, generate_valid_slug, keep_valid, valid_slugs,
  normalize_path_to_valid_slugs,
}
use komachi.Tree.Slug.Generate.Candidates.{numbered_valid}

-- What `slug.Make` makes of each segment, with its underscores made hyphens, is empty or has the
-- pattern of slugs.
abbrev pub MakesSlugs : (Text → Text) → List Text → Type 0
MakesSlugs make segments =
    All (λ s. (normalize_slug make s ≡ []) ⊎ (slug_pattern (normalize_slug make s) ≡ true)) segments

abbrev all_valid : List Text → Bool
all_valid segments = all is_valid_slug segments

-- what the segments of a path come to
abbrev Ended : Option (Result SlugError (List Text)) → Type 0
Ended o =
    (o ≡ some (err slug_empty)) ⊎ ((out : List Text) × (o ≡ some (ok out)) × (all_valid out ≡ true))

keep_valid-Ended :
    (make : Text → Text) (r : Text) (later : Option (Result SlugError (List Text)))
    → (r ≡ []) ⊎ (is_valid_slug r ≡ true)
    → Ended later
    → Ended (keep_valid make r later)
keep_valid-Ended make [] later v l = inl refl
keep_valid-Ended make (c ∷ cs) later v (inl e) = inl (rw e refl)
keep_valid-Ended make (c ∷ cs) later (inl z) (inr l) = absurd (ground arith)
keep_valid-Ended make (c ∷ cs) later (inr v) (inr (out, e, a)) =
    inr ((c ∷ cs) ∷ out, rw e refl, rw (v, a) refl)

module _ (make : Text → Text) where
  -- two tests are enough, since a number makes a reserved word a slug
  generate_valid_slug_ends :
      (fuel : ℕ) (t : Text)
      → (normalize_slug make t ≡ []) ⊎ (slug_pattern (normalize_slug make t) ≡ true)
      → (r : Text) × (generate_valid_slug make (suc (suc fuel)) t ≡ some r)
        × ((r ≡ []) ⊎ (is_valid_slug r ≡ true))
  unfolding generate_valid_slug retry
  generate_valid_slug_ends fuel t makes =
      let slug : Text = normalize_slug make t in
      elim (Bool-cases (slug == [])) [
        | inl e ↦ ([], rw e refl, inl refl)
        | inr e ↦ elim (Bool-cases (is_valid_slug slug)) [
          | inl v ↦ (slug, rw e (rw (v, retry) refl), inr v)
          | inr v ↦ elim makes [
            | inl z ↦ absurd (ground (arith, eq_text_iff slug [], z))
            | inr p ↦ (
              numbered slug 1,
              rw e (rw (v, retry) (rw (numbered_valid slug 1 p, retry) refl)),
              inr (numbered_valid slug 1 p),
            )
          ]
        ]
      ]

  valid_slugs-Ended :
      (fuel : ℕ) (segments : List Text)
      → MakesSlugs make segments
      → Ended (valid_slugs make (suc (suc fuel)) segments)
  unfolding valid_slugs
  valid_slugs-Ended fuel [] makes = inr ([], refl, refl)
  valid_slugs-Ended fuel (s ∷ rest) makes = elim (Bool-cases (s == [])) [
    | inl e ↦ rw e (valid_slugs-Ended fuel rest makes.1)
    | inr e ↦
        let (r, e2, c) = generate_valid_slug_ends fuel s makes.0 in
        rw (e, e2) (keep_valid-Ended make r _ c (valid_slugs-Ended fuel rest makes.1))
  ]

  -- Where what `slug.Make` makes of each segment of the path, with its underscores made hyphens, is
  -- empty or has the pattern of slugs, `NormalizePathToValidSlugs` ends after at most two tests of
  -- each segment, and its answer is that no slug can be made of some segment, or valid slugs joined
  -- by slashes.
  pub normalize_path_to_valid_slugs_ends :
      (fuel : ℕ) (path : Text)
      → MakesSlugs make (split b'/' path)
      → (normalize_path_to_valid_slugs make (suc (suc fuel)) path ≡ some (err slug_empty))
        ⊎ ((out : List Text) × (normalize_path_to_valid_slugs make (suc (suc fuel)) path
              ≡ some (ok (join b'/' out)))
            × (all is_valid_slug out ≡ true))
  unfolding normalize_path_to_valid_slugs
  normalize_path_to_valid_slugs_ends fuel path makes =
      elim (valid_slugs-Ended fuel (split b'/' path) makes) [
        | inl e ↦ inl (rw (e, normalize_path_to_valid_slugs) refl)
        | inr (out, e, a) ↦ inr (out, rw (e, normalize_path_to_valid_slugs) refl, a)
      ]
