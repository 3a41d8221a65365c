-- ===== src/Tree/Lookup/Tests.antt =====
-- Runs of the lookups of paths and an instance of their theorem.
use komachi.Base.{
  ℕ, some, ◌≡◌, refl, codes, true, false, [], ◌∷◌, ok, err, ◌==◌, lookup, split, arith, lower_code,
  trim_space,
}
use komachi.Tree.Types.{invalid_segment}
use komachi.Tree.Index.{find_child_by_slug, scan_exact, scan_fold}
use komachi.Tree.Slug.{slug_error}
use komachi.Tree.Lookup.{
  PathLookup, is_bad_segment, clean_path, merge_slashes, existing, missing, lookup_page_path,
  find_page_by_route_path,
}
use komachi.Tree.Lookup.Laws.{Reports, IsRoute, lookup_page_path-Reports}
use komachi.Tree.Examples.{quiet, sample}

abbrev setup_page : PathLookup
setup_page = record {
  path = codes "Guides/set-up";
  segments = existing (sample quiet tt) (codes "Guides") 1 ∷ missing (codes "set-up") ∷ [];
  exists = false;
  can_create = true;
}

setup_lookup : lookup_page_path (sample quiet tt) (codes " /Guides//set-up/") ≡ ok setup_page
unfolding lookup_page_path ◌==◌ trim_space is_bad_segment find_child_by_slug lookup lower_code
    scan_fold slug_error
setup_lookup = refl

dots_refused : lookup_page_path (sample quiet tt) (codes "a/../b") ≡ err invalid_segment
unfolding lookup_page_path ◌==◌ trim_space is_bad_segment find_child_by_slug lookup lower_code
    scan_fold slug_error
dots_refused = refl

faq_found : (find_page_by_route_path (codes "faq") (sample quiet tt)).0 ≡ ok (2, codes "text")
unfolding find_page_by_route_path ◌==◌ scan_exact
faq_found = refl

lookup_page_path-Reports_example :
    (setup_page.path ≡ merge_slashes (clean_path (codes " /Guides//set-up/")))
    × Reports true true
        (split b'/' setup_page.path)
        setup_page.segments
        setup_page.exists
        setup_page.can_create
    × ((root : ℕ) × (some 0 ≡ some root)
        × IsRoute (sample quiet tt) root (split b'/' setup_page.path) setup_page.segments)
unfolding lookup_page_path ◌==◌ trim_space is_bad_segment find_child_by_slug lookup lower_code
    scan_fold slug_error
lookup_page_path-Reports_example =
    lookup_page_path-Reports (sample quiet tt) (codes " /Guides//set-up/") setup_page
      (λ e. ground arith) refl
