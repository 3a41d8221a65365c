-- ===== src/Tree/Sort.antt =====
-- `SortPages` of backend/internal/core/tree/tree_service.go.
mod Enumerate
pub mod Laws
pub mod Rollback
mod Tests
use komachi.Base.{
  ℕ, ◌+◌, Text, Dict, Bool, false, Option, none, some, List, [], ◌∷◌, map, ◌==◌, ◌||◌, not, eqb,
  any, all, length, lookup, set_key, ok, err, if◌then◌else◌,
}
use komachi.Tree.Types.{
  Nodes, repository, NodeRepository, tree_not_loaded, parent_not_found, invalid_sort_order,
  duplicate_in_sort_order, put_node,
}
use komachi.Tree.Order.{set_children, sort_stable, number_from, reindex_positions}
use komachi.Tree.Store.{Op, resolve_parent}

abbrev pub mem_text : Text → List Text → Bool
mem_text i = any (λ j. j == i)

-- `existingIDs[id]` for every id
abbrev pub all_existing : List Text → List Text → Bool
all_existing existing = all (λ i. mem_text i existing)

-- the loop over `seen`
abbrev pub has_duplicate : List Text → Bool
has_duplicate [] = false
has_duplicate (i ∷ is) = mem_text i is || has_duplicate is

-- the loop that fills `positions`
unfoldable pub fill_positions : ℕ → List Text → Dict ℕ → Dict ℕ
fill_positions n [] m = m
fill_positions n (i ∷ is) m = fill_positions (n + 1) is (set_key i n m)

abbrev pub or_zero : Option ℕ → ℕ
or_zero none = 0
or_zero (some n) = n

-- `positions[child.ID]`
abbrev pub wanted : Nodes → List Text → ℕ → ℕ
wanted h ordered c = or_zero (lookup (h c).id (fill_positions 0 ordered []))

-- `snapshotChildPositions`, and the same loop in `SortPages`
unfoldable pub snapshot_positions : Nodes → Dict ℕ → List ℕ → Dict ℕ
snapshot_positions h m [] = m
snapshot_positions h m (c ∷ cs) = snapshot_positions h (set_key (h c).id (h c).position m) cs

abbrev pub put_position : Option ℕ → ℕ → Nodes → Nodes
put_position none c h = h
put_position (some n) c h = put_node c (record (h c) { position = n }) h

-- `if pos, ok := previousPositions[child.ID]; ok { child.Position = pos }` for every child
unfoldable pub restore_positions : Dict ℕ → List ℕ → Nodes → Nodes
restore_positions m [] h = h
restore_positions m (c ∷ cs) h = restore_positions m cs (put_position (lookup (h c).id m) c h)

abbrev pub child_ids : Nodes → List ℕ → List Text
child_ids h cs = map (λ c. (h c).id) cs

-- The nodes after the sort, before the order is saved.
unfoldable pub sorted_nodes : ℕ → List Text → Nodes → Nodes
unfolding reindex_positions
sorted_nodes p ordered h =
    let sorted = sort_stable (wanted h ordered) (h p).children in
    reindex_positions p (number_from 0 sorted (set_children p sorted h))

module _ {R : NodeRepository} where
  -- The saved order, or the order and the positions of before.
  finish_sort : ℕ → Nodes → Op R (Unit {0})
  finish_sort p before s =
      let (e, d) = R.save_child_order s.nodes p s.disk in
      let saved = record s { disk = d } in
      let children = (before p).children in
      elim e [
        | none ↦ (ok tt, saved)
        | some x ↦ (
          err (repository x),
          record saved {
            nodes =
                restore_positions (snapshot_positions before [] children) children
                  (set_children p children s.nodes);
          },
        )
      ]

  sort_under : ℕ → List Text → Op R (Unit {0})
  unfolding finish_sort
  sort_under p ordered s =
      let children = (s.nodes p).children in
      if not (eqb (length ordered) (length children))
      then (err invalid_sort_order, s)
      else if not (all_existing (child_ids s.nodes children) ordered)
      then (err invalid_sort_order, s)
      else if has_duplicate ordered
      then (err duplicate_in_sort_order, s)
      else finish_sort p s.nodes (record s { nodes = sorted_nodes p ordered s.nodes })

  unfoldable pub sort_pages : Text → List Text → Op R (Unit {0})
  unfolding sort_under resolve_parent
  sort_pages i ordered s = elim s.tree [
    | none ↦ (err tree_not_loaded, s)
    | some root ↦ elim (resolve_parent s root i) [
      | none ↦ (err parent_not_found, s)
      | some p ↦ sort_under p ordered s
    ]
  ]
