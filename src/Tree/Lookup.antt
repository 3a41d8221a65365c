-- ===== src/Tree/Lookup.antt =====
-- Paths of pages: `lookupPagePathLocked`, `FindPageByRoutePath` and `EnsurePagePath` of
-- backend/internal/core/tree/tree_service.go, with the types of path_lookup.go.
pub mod Laws
mod Tests
use komachi.Base.{
  ℕ, Text, codes, Bool, true, false, Option, none, some, List, [], ◌∷◌, ◌++◌, ◌==◌, ◌&&◌, ◌||◌, all,
  split, trim, trim_space, eqb, Result, ok, err, if◌then◌else◌,
}
use komachi.Tree.Types.{
  NodeKind, page, section, NodeRepository, TreeService, TreeError, repository, tree_not_loaded,
  page_not_found, invalid_segment,
}
use komachi.Tree.Index.{find_child_by_slug, scan_exact, get_node_by_id}
use komachi.Tree.Store.{Op}
use komachi.Tree.Slug.{is_valid_slug}

pub record PathSegment : Type 0 where
  pub slug : Text
  pub exists : Bool
  pub kind : Option NodeKind
  pub title : Option Text
  pub id : Option Text

pub record PathLookup : Type 0 where
  pub path : Text
  pub segments : List PathSegment
  pub exists : Bool
  pub can_create : Bool

abbrev pub missing : Text → PathSegment
missing part = record { slug = part; exists = false; kind = none; title = none; id = none }

-- `strings.ReplaceAll(path, "//", "/")`
unfoldable pub merge_slashes : Text → Text
merge_slashes [] = []
merge_slashes (c ∷ []) = c ∷ []
merge_slashes (c ∷ d ∷ s) =
    let merged = merge_slashes s in
    let kept = merge_slashes (d ∷ s) in if eqb c b'/' && eqb d b'/' then c ∷ merged else c ∷ kept

unfoldable pub is_bad_segment : Text → Bool
is_bad_segment part = part == [] || part == codes "." || part == codes ".."

unfoldable pub clean_path : Text → Text
clean_path p = trim (λ c. eqb c b'/') (trim_space p)

abbrev pub prepend :
    PathSegment
    → Result TreeError (List PathSegment × Bool × Bool)
    → Result TreeError (List PathSegment × Bool × Bool)
prepend g (ok (gs, exists, can)) = ok (g ∷ gs, exists, can)
prepend g (err e) = err e

abbrev to_lookup :
    Text → Result TreeError (List PathSegment × Bool × Bool) → Result TreeError PathLookup
to_lookup path (ok (gs, exists, can)) =
    ok (record { path = path; segments = gs; exists = exists; can_create = can })
to_lookup path (err e) = err e

abbrev page_with : ℕ → Result ℕ Text → Result TreeError (ℕ × Text)
page_with n (ok content) = ok (n, content)
page_with n (err e) = err (repository e)

module _ {R : NodeRepository} where
  abbrev pub existing : TreeService R → Text → ℕ → PathSegment
  existing s part c = record {
    slug = part;
    exists = true;
    kind = some (s.nodes c).kind;
    title = some (s.nodes c).title;
    id = some (s.nodes c).id;
  }

  -- a nil parent has no child
  abbrev pub find_under : TreeService R → Option ℕ → Text → Option ℕ
  find_under s none part = none
  find_under s (some p) part = find_child_by_slug s p part

  -- The loop over the parts, with the parent, `lookup.Exists` and `lookup.CanCreate` so far. The
  -- segments that its inner loop sets are set again when their turn comes.
  unfoldable pub lookup_segments :
      TreeService R
      → Option ℕ
      → Bool
      → Bool
      → List Text
      → Result TreeError (List PathSegment × Bool × Bool)
  lookup_segments s parent exists can [] = ok ([], exists, can)
  lookup_segments s parent exists can (part ∷ rest) =
      if is_bad_segment part then err invalid_segment else elim (find_under s parent part) [
        | some c ↦ prepend (existing s part c) (lookup_segments s (some c) exists can rest)
        | none ↦ prepend (missing part) (
            lookup_segments s none false (can && is_valid_slug part && all is_valid_slug rest) rest)
      ]

  abbrev lookup_clean : TreeService R → ℕ → Text → Result TreeError PathLookup
  lookup_clean s root path =
      if path == []
      then ok (record { path = []; segments = []; exists = false; can_create = false })
      else let merged = merge_slashes path in
        to_lookup merged (lookup_segments s (some root) true true (split b'/' merged))

  unfoldable pub lookup_page_path : TreeService R → Text → Result TreeError PathLookup
  unfolding lookup_segments merge_slashes clean_path
  lookup_page_path s p = elim s.tree [
    | none ↦ err tree_not_loaded
    | some root ↦ lookup_clean s root (clean_path p)
  ]

  -- The loop of `FindPageByRoutePath`.
  unfoldable pub find_route : TreeService R → ℕ → List Text → Option ℕ
  find_route s p [] = some p
  find_route s p (part ∷ rest) =
      if part == [] then none else elim (scan_exact s.nodes part (s.nodes p).children) [
        | none ↦ none
        | some c ↦ find_route s c rest
      ]

  unfoldable pub find_page_by_route_path : Text → Op R (ℕ × Text)
  unfolding find_route
  find_page_by_route_path route s = elim s.tree [
    | none ↦ (err tree_not_loaded, s)
    | some root ↦ elim (find_route s root (split b'/' route)) [
      | none ↦ (err page_not_found, s)
      | some n ↦
          let (answer, d) = R.read_page_content s.nodes n s.disk in
          (page_with n answer, record s { disk = d })
    ]
  ]
