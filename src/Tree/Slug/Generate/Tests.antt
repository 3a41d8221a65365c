-- ===== src/Tree/Slug/Generate/Tests.antt =====
-- Runs of the generators and instances of their theorems; `make` keeps letters, digits and hyphens,
-- in lower case.
use komachi.Base.{
  ◌≡◌, ◌⊎◌, refl, Text, codes, true, none, some, List, [], ◌∷◌, lower, lower_code, ◌==◌,
  if◌then◌else◌, ◌||◌, eqb, ok, err, inl, inr, all, join,
}
use komachi.Base.Retry.{retry}
use komachi.Tree.Slug.{
  slug_pattern, is_alphanumeric, is_valid_slug, slug_error, slug_reserved, slug_empty,
}
use komachi.Tree.Slug.Generate.{
  numbered, has_slug_conflict, normalize_slug, generate_unique_child_slug, generate_valid_slug,
  generate_unique_filename, normalize_path, normalize_path_to_valid_slugs,
  normalize_filename_to_valid_slug,
}
use komachi.Tree.Slug.Generate.Unique.{generate_unique_child_slug_loops}
use komachi.Tree.Slug.Generate.Paths.{normalize_path_to_valid_slugs_ends}
use komachi.Tree.Examples.{sample_nodes}

abbrev keep : Text → Text
keep [] = []
keep (c ∷ s) = let rest = keep s in if is_alphanumeric c || eqb c b'-' then c ∷ rest else rest

abbrev make : Text → Text
make s = lower (keep s)

guides_numbered :
    generate_unique_child_slug make 4 sample_nodes (1 ∷ 2 ∷ []) [] (codes "Guides")
    ≡ some (codes "guides-1")
unfolding generate_unique_child_slug retry has_slug_conflict ◌==◌ lower_code numbered slug_error
guides_numbered = refl

reserved_numbered : generate_valid_slug make 3 (codes "Edit") ≡ some (codes "edit-1")
unfolding generate_valid_slug ◌==◌ retry slug_error lower_code numbered
reserved_numbered = refl

file_numbered :
    generate_unique_filename make 3 (codes "a-b.png" ∷ []) (codes "A_b.png")
    ≡ some (codes "a-b-1.png")
unfolding generate_unique_filename retry ◌==◌ lower_code numbered
file_numbered = refl

reserved_segment : normalize_path make (codes "Docs//api") true ≡ err slug_reserved
unfolding normalize_path ◌==◌ slug_error lower_code
reserved_segment = refl

generate_unique_child_slug_loops_example :
    generate_unique_child_slug make 1000 sample_nodes [] [] (codes "!?") ≡ none
unfolding normalize_slug
generate_unique_child_slug_loops_example =
    generate_unique_child_slug_loops make sample_nodes [] [] (codes "!?") 1000 refl

normalize_path_to_valid_slugs_ends_example :
    (normalize_path_to_valid_slugs make 2 (codes "Docs//api") ≡ some (err slug_empty))
    ⊎ ((out : List Text) × (normalize_path_to_valid_slugs make 2 (codes "Docs//api")
          ≡ some (ok (join b'/' out)))
        × (all is_valid_slug out ≡ true))
unfolding normalize_slug slug_pattern lower_code
normalize_path_to_valid_slugs_ends_example =
    normalize_path_to_valid_slugs_ends make 0 (codes "Docs//api")
      (inr refl, (inl refl, (inr refl, tt)))

import_path :
    normalize_path_to_valid_slugs make 2 (codes "Docs//api") ≡ some (ok (codes "docs/api-1"))
unfolding normalize_path_to_valid_slugs ◌==◌ generate_valid_slug slug_pattern lower_code retry
    slug_error numbered
import_path = refl

import_file :
    normalize_filename_to_valid_slug make 2 (codes "Edit.md") ≡ some (ok (codes "edit-1.md"))
unfolding normalize_filename_to_valid_slug ◌==◌ slug_pattern lower_code retry slug_error numbered
import_file = refl
