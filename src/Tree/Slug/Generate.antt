-- ===== src/Tree/Slug/Generate.antt =====
-- The generators of backend/internal/core/tree/slug_service.go. `make` stands for `slug.Make` of
-- github.com/gosimple/slug. A loop takes fuel, and none is a loop that has not ended yet.
pub mod Candidates
pub mod Unique
pub mod Paths
mod Tests
use komachi.Base.{
  ℕ, ◌-◌, suc, Text, length, take, reverse, codes, Bool, true, false, Option, none, some, List, [],
  ◌∷◌, ◌++◌, map, ◌==◌, ◌&&◌, ◌||◌, not, eqb, any, eq_fold, split, join, if◌then◌else◌, Result, ok,
  err,
}
use komachi.Base.Decimal.{decimal}
use komachi.Base.Retry.{retry, contains}
use komachi.Tree.Types.{Nodes}
use komachi.Tree.Slug.{SlugError, slug_empty, slug_error, is_valid_slug}

-- `fmt.Sprintf("%s-%d", original, i)`
unfoldable pub numbered : Text → ℕ → Text
unfolding decimal
numbered original i = original ++ (b'-' ∷ decimal i)

-- `hasSlugConflict`, over the children
unfoldable pub has_slug_conflict : Nodes → List ℕ → Text → Text → Bool
has_slug_conflict h cs current slug =
    any (λ c. eq_fold (h c).slug slug && not ((h c).id == current)) cs

abbrev pub is_taken : Nodes → List ℕ → Text → Text → Bool
is_taken h cs current slug = has_slug_conflict h cs current slug || not (is_valid_slug slug)

-- `filepath.Ext`: the suffix from the last dot, if no slash follows it.
abbrev ext_of_reversed : Text → Text → Text
ext_of_reversed after [] = []
ext_of_reversed after (c ∷ before) =
    let rest = ext_of_reversed (c ∷ after) before in
    if eqb c b'/' then [] else if eqb c b'.' then c ∷ after else rest

unfoldable pub file_ext : Text → Text
file_ext s = ext_of_reversed [] (reverse s)

-- `filename[:len(filename)-len(ext)]`
unfoldable pub file_base : Text → Text
unfolding file_ext
file_base s = take (length s - length (file_ext s)) s

module _ (make : Text → Text) where
  -- `normalizeSlug`
  unfoldable pub normalize_slug : Text → Text
  normalize_slug title = make (map (λ c. if eqb c b'_' then b'-' else c) title)

  unfoldable pub generate_unique_child_slug : ℕ → Nodes → List ℕ → Text → Text → Option Text
  unfolding normalize_slug
  generate_unique_child_slug fuel h cs current desired =
      let slug = normalize_slug desired in retry (is_taken h cs current) (numbered slug) fuel 1 slug

  unfoldable pub generate_valid_slug : ℕ → Text → Option Text
  unfolding normalize_slug
  generate_valid_slug fuel desired =
      let slug = normalize_slug desired in
      if slug == [] then some [] else retry (λ s. not (is_valid_slug s)) (numbered slug) fuel 1 slug

  -- The segments of `NormalizePath` with `validate` set: each one normalized, and refused unless it
  -- is a valid slug then. The answer is the segments before they are joined.
  unfoldable pub valid_segments : List Text → Result SlugError (List Text)
  unfolding normalize_slug
  valid_segments [] = ok []
  valid_segments (s ∷ rest) =
      let later = valid_segments rest in
      let seg = normalize_slug s in
      if s == [] then later else elim (slug_error seg) [
        | some e ↦ err e
        | none ↦ elim later [ ok segments ↦ ok (seg ∷ segments) | err e ↦ err e ]
      ]

  unfoldable pub plain_segments : List Text → List Text
  unfolding normalize_slug
  plain_segments [] = []
  plain_segments (s ∷ rest) =
      let later = plain_segments rest in if s == [] then later else normalize_slug s ∷ later

  abbrev join_ok : Result SlugError (List Text) → Result SlugError Text
  join_ok (ok segments) = ok (join b'/' segments)
  join_ok (err e) = err e

  unfoldable pub normalize_path : Text → Bool → Result SlugError Text
  unfolding valid_segments plain_segments
  normalize_path path validate =
      if validate
      then join_ok (valid_segments (split b'/' path))
      else ok (join b'/' (plain_segments (split b'/' path)))

  -- `conflicts[name]` for the names given
  unfoldable pub generate_unique_filename : ℕ → List Text → Text → Option Text
  unfolding normalize_slug file_ext file_base
  generate_unique_filename fuel existing desired =
      let ext = file_ext desired in
      let slugged = normalize_slug (file_base desired) in
      retry (λ name. contains name existing) (λ i. numbered slugged i ++ ext) fuel 1
        (slugged ++ ext)

  -- A segment of `NormalizePathToValidSlugs`, before those that follow: one of which no slug can be
  -- made is refused.
  abbrev keep_valid :
      Text → Option (Result SlugError (List Text)) → Option (Result SlugError (List Text))
  keep_valid [] later = some (err slug_empty)
  keep_valid (c ∷ cs) none = none
  keep_valid (c ∷ cs) (some (ok segments)) = some (ok ((c ∷ cs) ∷ segments))
  keep_valid (c ∷ cs) (some (err e)) = some (err e)

  unfoldable pub valid_slugs : ℕ → List Text → Option (Result SlugError (List Text))
  valid_slugs fuel [] = some (ok [])
  valid_slugs fuel (s ∷ rest) =
      let later = valid_slugs fuel rest in
      if s == []
      then later
      else elim (generate_valid_slug fuel s) [ none ↦ none | some safe ↦ keep_valid safe later ]

  unfoldable pub normalize_path_to_valid_slugs : ℕ → Text → Option (Result SlugError Text)
  unfolding valid_slugs
  normalize_path_to_valid_slugs fuel value = elim (valid_slugs fuel (split b'/' value)) [
    | none ↦ none
    | some answer ↦ some (join_ok answer)
  ]

  unfoldable pub normalize_filename : Text → Text
  unfolding normalize_slug file_ext file_base
  normalize_filename filename = normalize_slug (file_base filename) ++ file_ext filename

  abbrev with_ext : Text → Text → Result SlugError Text
  with_ext ext [] = err slug_empty
  with_ext ext (c ∷ cs) = ok ((c ∷ cs) ++ ext)

  unfoldable pub normalize_filename_to_valid_slug : ℕ → Text → Option (Result SlugError Text)
  unfolding generate_valid_slug file_ext file_base
  normalize_filename_to_valid_slug fuel filename =
      elim (generate_valid_slug fuel (file_base filename)) [
        | none ↦ none
        | some safe ↦ some (with_ext (file_ext filename) safe)
      ]
