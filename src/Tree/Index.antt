-- ===== src/Tree/Index.antt =====
-- The indexes of TreeService (backend/internal/core/tree/tree_service.go): by id, by title, and by
-- slug under each parent. A child is never nil here, and the recursive walks take fuel.
use komachi.Base.{
  ℕ, zero, suc, Text, Dict, codes, lower, eq_fold, Option, none, some, List, [], ◌∷◌, ◌++◌, ◌==◌,
  ◌||◌, lookup, set_key, erase, if◌then◌else◌,
}
use mathlib.Core.List.{foldl}
use komachi.Tree.Types.{Nodes, NodeRepository, TreeService}

abbrev pub root_id : Text
root_id = codes "root"

-- The loop of `rebuildChildSlugIndexForParentLocked`: a later child overwrites an earlier one.
unfoldable pub child_index : Nodes → Dict ℕ → List ℕ → Dict ℕ
child_index h index [] = index
child_index h index (c ∷ cs) = child_index h (set_key (lower (h c).slug) c index) cs

unfoldable pub rebuild_child_slug_index : Nodes → ℕ → Dict (Dict ℕ) → Dict (Dict ℕ)
rebuild_child_slug_index h p m = set_key (h p).id (child_index h [] (h p).children) m

abbrev or_empty : Option (List ℕ) → List ℕ
or_empty none = []
or_empty (some ps) = ps

unfoldable pub add_title_index : Nodes → ℕ → Dict (List ℕ) → Dict (List ℕ)
add_title_index h p m =
    if (h p).title == []
    then m
    else let key = lower (h p).title in set_key key (or_empty (lookup key m) ++ p ∷ []) m

-- the nodes that are left when those with the id of `p` are taken out
abbrev pub without_id : Nodes → Text → List ℕ → List ℕ
without_id h i [] = []
without_id h i (q ∷ qs) = let rest = without_id h i qs in if (h q).id == i then rest else q ∷ rest

abbrev store_filtered : Text → List ℕ → Dict (List ℕ) → Dict (List ℕ)
store_filtered key [] m = erase key m
store_filtered key (q ∷ qs) m = set_key key (q ∷ qs) m

unfoldable pub remove_title_index : Nodes → ℕ → Dict (List ℕ) → Dict (List ℕ)
remove_title_index h p m =
    if (h p).title == []
    then m
    else let key = lower (h p).title in
      store_filtered key (without_id h (h p).id (or_empty (lookup key m))) m

-- The first child with the slug, by the scan that `findChildBySlugInParentLocked` makes where a
-- parent has no index.
unfoldable pub scan_fold : Nodes → Text → List ℕ → Option ℕ
scan_fold h slug [] = none
scan_fold h slug (c ∷ cs) = if eq_fold (h c).slug slug then some c else scan_fold h slug cs

-- `findChildBySlugExactInParentLocked`
unfoldable pub scan_exact : Nodes → Text → List ℕ → Option ℕ
scan_exact h slug [] = none
scan_exact h slug (c ∷ cs) = if (h c).slug == slug then some c else scan_exact h slug cs

abbrev find_in : Option (Dict ℕ) → Nodes → List ℕ → Text → Option ℕ
find_in (some index) h cs slug = lookup (lower slug) index
find_in none h cs slug = scan_fold h slug cs

module _ {R : NodeRepository} where
  unfoldable pub find_child_by_slug : TreeService R → ℕ → Text → Option ℕ
  find_child_by_slug s p slug =
      find_in (lookup (s.nodes p).id s.child_slugs) s.nodes (s.nodes p).children slug

  unfoldable pub get_node_by_id : TreeService R → Text → Option ℕ
  get_node_by_id s i =
      if i == [] then none else if i == root_id then s.tree else lookup i s.nodes_by_id

  -- the part of `indexNodeLocked` and of the walk of `rebuildIndexesLocked` for one node
  unfoldable pub index_by_id : ℕ → TreeService R → TreeService R
  index_by_id p s = if (s.nodes p).id == [] || (s.nodes p).id == root_id then s else record s {
    nodes_by_id = set_key (s.nodes p).id p s.nodes_by_id;
    nodes_by_title = add_title_index s.nodes p s.nodes_by_title;
  }

  unfoldable pub rebuild_child_slugs : ℕ → TreeService R → TreeService R
  unfolding rebuild_child_slug_index
  rebuild_child_slugs p s = record s {
    child_slugs = rebuild_child_slug_index s.nodes p s.child_slugs;
  }

  abbrev rebuild_parent : Option ℕ → TreeService R → TreeService R
  rebuild_parent none s = s
  rebuild_parent (some p) s = rebuild_child_slugs p s

  unfoldable pub index_node : ℕ → TreeService R → TreeService R
  unfolding index_by_id rebuild_child_slugs
  index_node p s = rebuild_parent (s.nodes p).parent (rebuild_child_slugs p (index_by_id p s))

  -- the walk of `rebuildIndexesLocked`
  unfoldable pub index_walk : ℕ → TreeService R → ℕ → TreeService R
  unfolding index_by_id rebuild_child_slugs
  index_walk zero s p = s
  index_walk (suc fuel) s p =
      foldl (index_walk fuel) (rebuild_child_slugs p (index_by_id p s)) (s.nodes p).children

  -- A path down a tree is shorter than the number of its nodes, so `next` is fuel enough.
  unfoldable pub rebuild_indexes : TreeService R → TreeService R
  unfolding index_walk
  rebuild_indexes s =
      let blank = record s { nodes_by_id = []; nodes_by_title = []; child_slugs = [] } in
      elim s.tree [ none ↦ blank | some root ↦ index_walk (suc s.next) blank root ]

  unfoldable pub remove_one : TreeService R → ℕ → TreeService R
  remove_one s p = record s {
    nodes_by_id = erase (s.nodes p).id s.nodes_by_id;
    child_slugs = erase (s.nodes p).id s.child_slugs;
    nodes_by_title = remove_title_index s.nodes p s.nodes_by_title;
  }

  -- the walk of `removeNodeIndexLocked`
  unfoldable pub remove_walk : ℕ → TreeService R → ℕ → TreeService R
  unfolding remove_one
  remove_walk zero s p = s
  remove_walk (suc fuel) s p = foldl (remove_walk fuel) (remove_one s p) (s.nodes p).children

  unfoldable pub remove_node_index : ℕ → TreeService R → TreeService R
  unfolding remove_walk
  remove_node_index p s = rebuild_parent (s.nodes p).parent (remove_walk (suc s.next) s p)
