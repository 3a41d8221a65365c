-- ===== src/Tree/Delete.antt =====
-- `DeleteNode` of backend/internal/core/tree/tree_service.go.
use komachi.Base.{
  ℕ, Text, Bool, none, some, List, [], ◌∷◌, ◌==◌, ◌&&◌, not, ok, err, ◌>>◌, if◌then◌else◌,
}
use komachi.Tree.Types.{
  NodeKind, page, section, Nodes, NodeRepository, tree_not_loaded, page_not_found, parent_not_found,
  page_has_children,
}
use komachi.Tree.Version.{check_node_version}
use komachi.Tree.Order.{set_children, reindex_positions}
use komachi.Tree.Index.{get_node_by_id, remove_node_index}
use komachi.Tree.Store.{is_empty, Op, call, modify, convert_to}

-- `parent.Children` without the first child that has the id
unfoldable pub drop_id : Nodes → Text → List ℕ → List ℕ
drop_id h i [] = []
drop_id h i (c ∷ cs) = if (h c).id == i then cs else c ∷ drop_id h i cs

module _ {R : NodeRepository} where
  delete_on_disk : NodeKind → ℕ → Op R (Unit {0})
  unfolding convert_to
  delete_on_disk section n s = call (R.delete_section s.nodes n) s
  delete_on_disk page n s =
      if is_empty (s.nodes n).children
      then call (R.delete_page s.nodes n) s
      else (do convert_to n section; (λ t. call (R.delete_section t.nodes n) t)) s

  unlink : Text → ℕ → ℕ → Op R (Unit {0})
  unfolding remove_node_index reindex_positions drop_id
  unlink i n p s =
      (do
        modify (λ h. set_children p (drop_id h i (h p).children) h)
        (λ t. (ok tt, remove_node_index n t))
        modify (reindex_positions p)
        (λ t. call (R.save_child_order t.nodes p) t))
        s

  delete_found : Text → Bool → ℕ → Op R (Unit {0})
  unfolding delete_on_disk unlink
  delete_found i recursive n s =
      if not (is_empty (s.nodes n).children) && not recursive
      then (err page_has_children, s)
      else elim (s.nodes n).parent [
        | none ↦ (err parent_not_found, s)
        | some p ↦ (do delete_on_disk (s.nodes n).kind n; unlink i n p) s
      ]

  module _ (rfc3339_nano : ℕ → Text) where
    unfoldable pub delete_node : Text → Bool → Text → Op R (Unit {0})
    unfolding delete_found
    delete_node i recursive expected s = elim s.tree [
      | none ↦ (err tree_not_loaded, s)
      | some root ↦ elim (get_node_by_id s i) [
        | none ↦ (err page_not_found, s)
        | some n ↦ elim (check_node_version rfc3339_nano (s.nodes n) expected) [
          | some e ↦ (err e, s)
          | none ↦ delete_found i recursive n s
        ]
      ]
    ]
