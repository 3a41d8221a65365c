-- ===== src/Tree/Sort/Tests.antt =====
-- Runs of `SortPages` and instances of its theorems.
use komachi.Base.{
  ℕ, ◌≡◌, refl, ◌↔◌, arith, Text, codes, false, List, [], ◌∷◌, ok, err, ◌==◌, lookup, set_key,
  erase,
}
use komachi.Tree.Types.{repository}
use komachi.Tree.Order.{insert_stable, sort_stable, number_from, reindex_positions}
use komachi.Tree.Store.{resolve_parent}
use komachi.Tree.Sort.{
  fill_positions, has_duplicate, child_ids, sorted_nodes, sort_under, sort_pages,
}
use komachi.Tree.Sort.Laws.{IsSorted, IsArrangement, sort_pages-IsSorted, sort_pages-ok_iff}
use komachi.Tree.Sort.Rollback.{nodes-sort_pages_failed}
use komachi.Tree.Examples.{quiet, read_only, sample, sample_nodes}

abbrev swapped : List Text
swapped = codes "f" ∷ codes "g" ∷ []

sort_runs :
    sort_pages (codes "root") swapped (sample quiet tt)
    ≡ (ok tt, (sort_pages (codes "root") swapped (sample quiet tt)).1)
unfolding sort_pages sort_under sorted_nodes resolve_parent reindex_positions sort_stable
    insert_stable number_from fill_positions lookup set_key erase ◌==◌
sort_runs = refl

sort_pages-IsSorted_example :
    IsSorted 0 swapped sample_nodes (sort_pages (codes "root") swapped (sample quiet tt)).1.nodes
unfolding resolve_parent ◌==◌
sort_pages-IsSorted_example =
    sort_pages-IsSorted (sample quiet tt) (codes "root") swapped refl refl sort_runs

sort_pages-ok_iff_example :
    ((sort_pages (codes "") swapped (sample quiet tt)).0 ≡ ok tt)
    ↔ IsArrangement sample_nodes (1 ∷ 2 ∷ []) swapped
unfolding resolve_parent ◌==◌
sort_pages-ok_iff_example =
    sort_pages-ok_iff (sample quiet tt) (codes "") swapped refl refl (λ h d. refl)

sample_once : (p : ℕ) → has_duplicate (child_ids sample_nodes (sample_nodes p).children) ≡ false
unfolding ◌==◌
sample_once p = ground arith

sort_fails : (sort_pages (codes "root") swapped (sample read_only tt)).0 ≡ err (repository 28)
unfolding sort_pages sort_under resolve_parent ◌==◌
sort_fails = refl

nodes-sort_pages_failed_example :
    (sort_pages (codes "root") swapped (sample read_only tt)).1.nodes 2 ≡ sample_nodes 2
nodes-sort_pages_failed_example =
    nodes-sort_pages_failed (sample read_only tt) (codes "root") swapped sample_once sort_fails 2
