-- ===== src/Tree/Move/Tests.antt =====
-- Runs of `MoveNodeToPosition` and instances of its theorems.
use komachi.Base.{
  ℕ, ◌≡◌, refl, ◌↔◌, codes, true, none, some, ok, ◌==◌, lookup, set_key, erase, lower_code,
}
use komachi.Tree.Types.{TreeService}
use komachi.Tree.Version.{check_node_version}
use komachi.Tree.Order.{insert_stable, sort_stable, number_from, reindex_positions}
use komachi.Tree.Index.{
  scan_fold, get_node_by_id, find_child_by_slug, child_index, rebuild_child_slugs,
}
use komachi.Tree.Store.{convert_to, resolve_parent}
use komachi.Tree.Delete.{drop_id}
use komachi.Tree.Move.{
  search_below, relink, convert_parent, move_linked, move_node_to_position, is_child_of,
}
use komachi.Tree.Move.Below.{Below}
use komachi.Tree.Move.Laws.{is_child_of_iff}
use komachi.Tree.Move.WellFormed.{IsTree, IsMoved, move_node_to_position-IsTree}
use komachi.Tree.Examples.{
  quiet, sample, sample_nodes, stamp, sample-IsForest, sample_known, sample_linked, sample_once,
  sample_found,
}

abbrev moved_sample : TreeService quiet
moved_sample =
    (move_node_to_position stamp (codes "u2") (codes "f") (codes "g") (stamp 5) none 9
      (sample quiet tt)).1

move_runs :
    move_node_to_position stamp
      (codes "u2")
      (codes "f")
      (codes "g")
      (stamp 5)
      none
      9
      (sample quiet tt)
    ≡ (ok tt, moved_sample)
unfolding move_node_to_position search_below relink convert_to resolve_parent get_node_by_id
    find_child_by_slug lookup set_key erase ◌==◌ lower_code check_node_version rebuild_child_slugs
    child_index reindex_positions sort_stable insert_stable number_from drop_id scan_fold
    convert_parent move_linked
move_runs = refl

sample-IsTree : IsTree (sample quiet tt)
sample-IsTree = record {
  forest = sample-IsForest;
  linked = sample_linked;
  once = sample_once;
  found = sample_found quiet tt;
  known = sample_known quiet tt;
}

move_node_to_position-IsTree_example :
    IsTree moved_sample
    × ((n new root : ℕ) × (get_node_by_id (sample quiet tt) (codes "f") ≡ some n)
        × (some 0 ≡ some root)
        × (resolve_parent (sample quiet tt) root (codes "g") ≡ some new)
        × IsMoved n new sample_nodes moved_sample.nodes)
move_node_to_position-IsTree_example =
    move_node_to_position-IsTree stamp (codes "u2") (codes "f") (codes "g") (stamp 5) none 9
      (sample quiet tt) sample-IsTree move_runs

is_child_of_iff_example :
    (is_child_of sample_nodes 3 0 (codes "f") ≡ true)
    ↔ ∥ ((d : ℕ) × Below sample_nodes 0 d × ((sample_nodes d).id ≡ codes "f")) ∥₁
is_child_of_iff_example = is_child_of_iff sample_nodes 3 0 (codes "f") sample-IsForest
