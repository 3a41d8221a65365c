-- ===== src/Tree/Create.antt =====
-- `createNodeLocked` and its rollback (backend/internal/core/tree/tree_service.go). The clock and
-- the generator of ids are arguments: `now`, and `fresh`, which is none where no id could be made.
pub mod Placed
use komachi.Base.{
  ℕ, suc, Text, Bool, true, false, Option, none, some, List, [], ◌∷◌, ◌++◌, eqb, ◌==◌, ◌&&◌, not,
  length, trim_space, is_none, ok, err, Result, pure, ◌>>=◌, ◌>>◌, if◌then◌else◌,
}
use komachi.Tree.Types.{
  NodeKind, page, section, PageNode, NodeRepository, TreeService, TreeError, tree_not_loaded,
  parent_not_found, page_already_exists, parent_not_section, no_unique_id, id_already_exists, join,
  put_node,
}
use komachi.Tree.Order.{set_children}
use komachi.Tree.Index.{root_id, find_child_by_slug, get_node_by_id, index_node, remove_node_index}
use komachi.Tree.Store.{is_section, is_empty, Op, call, modify, convert_to, resolve_parent}

-- `parent.Children` without the pointer itself
abbrev pub without : ℕ → List ℕ → List ℕ
without c [] = []
without c (d ∷ ds) = if eqb d c then ds else d ∷ without c ds

pub record Request : Type 0 where
  pub user : Text
  pub parent : Option Text
  pub title : Text
  pub slug : Text
  pub kind : Option NodeKind
  pub existing_id : Text
  pub now : ℕ
  pub fresh : Option Text

abbrev pub kind_or_page : Option NodeKind → NodeKind
kind_or_page none = page
kind_or_page (some k) = k

-- The answer of the failed call comes first, joined by that of a failed rollback.
abbrev pub after_rollback {ℓ} :
    {A : Type ℓ} → TreeError → Result TreeError (Unit {0}) → Result TreeError A
after_rollback cause (ok _) = err cause
after_rollback cause (err e) = err (join cause e)

unfoldable pub new_entry : Request → Text → ℕ → ℕ → PageNode
new_entry r i p position = record {
  id = i;
  title = r.title;
  slug = r.slug;
  children = [];
  position = position;
  parent = some p;
  pinned = false;
  kind = kind_or_page r.kind;
  metadata = record {
    created_at = r.now;
    updated_at = r.now;
    creator_id = r.user;
    last_author_id = r.user;
  };
}

module _ {R : NodeRepository} where
  delete_entry : NodeKind → ℕ → Op R (Unit {0})
  delete_entry section e s = call (R.delete_section s.nodes e) s
  delete_entry page e s = call (R.delete_page s.nodes e) s

  fold_back : ℕ → Op R (Unit {0})
  unfolding convert_to
  fold_back p s =
      if R.is_postgres
      then (ok tt, s)
      else (do call (R.remove_child_order s.nodes p); convert_to p page) s

  unfoldable pub rollback_created : ℕ → ℕ → Bool → Op R (Unit {0})
  unfolding delete_entry fold_back
  rollback_created p e converted s =
      let detached = record s { nodes = set_children p (without e (s.nodes p).children) s.nodes } in
      (do
        delete_entry (s.nodes e).kind e
        if converted && is_empty (detached.nodes p).children then fold_back p else pure tt)
        (remove_node_index e detached)

  pub ensure_section : ℕ → Op R Bool
  unfolding convert_to
  ensure_section p s =
      if not (is_section (s.nodes p).kind) && not ((s.nodes p).id == root_id)
      then (do convert_to p section; pure true) s
      else (ok false, s)

  pub choose_id : Request → Op R Text
  choose_id r s =
      if trim_space r.existing_id == []
      then elim r.fresh [ none ↦ (err no_unique_id, s) | some i ↦ (ok i, s) ]
      else if is_none (get_node_by_id s (trim_space r.existing_id))
      then (ok (trim_space r.existing_id), s)
      else (err id_already_exists, s)

  abbrev pub create_on_disk : NodeKind → ℕ → ℕ → Op R (Unit {0})
  create_on_disk page p e s = call (R.create_page s.nodes p e) s
  create_on_disk section p e s = call (R.create_section s.nodes p e) s

  pub save_or_rollback : ℕ → ℕ → Bool → Op R ℕ
  unfolding rollback_created
  save_or_rollback p e converted s =
      let (answer, saved) = call (R.save_child_order s.nodes p) s in
      elim answer [
        | ok _ ↦ (ok e, saved)
        | err x ↦
            let (undone, s') = rollback_created p e converted saved in (after_rollback x undone, s')
      ]

  -- The new node takes the address `s.next`.
  pub attach : Request → ℕ → Bool → Text → Op R ℕ
  unfolding save_or_rollback new_entry index_node
  attach r p converted i s =
      let e = s.next in
      let entry = new_entry r i p (length (s.nodes p).children) in
      let allocated = record s { nodes = put_node e entry s.nodes; next = suc s.next } in
      (do
        create_on_disk entry.kind p e
        modify (λ h. set_children p ((h p).children ++ e ∷ []) h)
        (λ t. (ok tt, index_node e t))
        save_or_rollback p e converted)
        allocated

  abbrev pub check_section : ℕ → Op R (Unit {0})
  check_section p s =
      if is_section (s.nodes p).kind then (ok tt, s) else (err parent_not_section, s)

  pub create_under : Request → ℕ → Op R ℕ
  unfolding ensure_section choose_id attach
  create_under r p s =
      if is_none (find_child_by_slug s p r.slug)
      then (do
        converted ← ensure_section p
        check_section p
        i ← choose_id r
        attach r p converted i)
          s
      else (err page_already_exists, s)

  abbrev pub requested_parent : TreeService R → ℕ → Option Text → Option ℕ
  requested_parent s root none = some root
  requested_parent s root (some i) = resolve_parent s root i

  -- `CreateNode` and `RestoreNode` call this under the write lock; the answer is the new node.
  unfoldable pub create_node : Request → Op R ℕ
  unfolding create_under resolve_parent
  create_node r s = elim s.tree [
    | none ↦ (err tree_not_loaded, s)
    | some root ↦ elim (requested_parent s root r.parent) [
      | none ↦ (err parent_not_found, s)
      | some p ↦ create_under r p s
    ]
  ]
