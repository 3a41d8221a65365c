-- ===== src/Tree/Store.antt =====
-- What the operations of TreeService share: calls of the node store, and the small writes to nodes
-- (backend/internal/core/tree/tree_service.go).
use komachi.Base.{
  ℕ, Text, Bool, true, false, Option, none, some, List, [], ◌∷◌, ◌==◌, ◌||◌, Result, ok, err, Exec,
  if◌then◌else◌,
}
use komachi.Tree.Types.{
  NodeKind, page, section, PageMetadata, Nodes, TreeError, repository, NodeRepository, TreeService,
  put_node,
}
use komachi.Tree.Index.{root_id, get_node_by_id}

abbrev pub is_section : NodeKind → Bool
is_section page = false
is_section section = true

abbrev pub same_kind : NodeKind → NodeKind → Bool
same_kind page page = true
same_kind section section = true
same_kind _ _ = false

abbrev pub is_empty {ℓ} : {A : Type ℓ} → List A → Bool
is_empty [] = true
is_empty (x ∷ xs) = false

abbrev pub outcome : Option ℕ → Result TreeError (Unit {0})
outcome none = ok tt
outcome (some e) = err (repository e)

abbrev pub set_kind : ℕ → NodeKind → Nodes → Nodes
set_kind p k h = put_node p (record (h p) { kind = k }) h

-- `node.Metadata.UpdatedAt = now; node.Metadata.LastAuthorID = userID`
abbrev pub touch : ℕ → ℕ → Text → Nodes → Nodes
touch p now user h =
    let m : PageMetadata = record (h p).metadata { updated_at = now; last_author_id = user } in
    put_node p (record (h p) { metadata = m }) h

abbrev pub Op : NodeRepository → Type 0 → Type 0
Op R A = Exec (TreeService R) TreeError A

module _ {R : NodeRepository} where
  abbrev pub call : (R.Disk → Option ℕ × R.Disk) → Op R (Unit {0})
  call f s = let (e, d) = f s.disk in (outcome e, record s { disk = d })

  -- A change of the nodes in memory.
  abbrev pub modify : (Nodes → Nodes) → Op R (Unit {0})
  modify f s = (ok tt, record s { nodes = f s.nodes })

  -- `t.store.ConvertNode(p, k)` and, where it succeeds, `p.Kind = k`.
  unfoldable pub convert_to : ℕ → NodeKind → Op R (Unit {0})
  convert_to p k s =
      let (e, left, d) = R.convert_node s.nodes p k s.disk in
      let converted = record s { disk = d; nodes = set_kind p left s.nodes } in
      elim e [
        | some x ↦ (err (repository x), converted)
        | none ↦ (ok tt, record s { disk = d; nodes = set_kind p k (set_kind p left s.nodes) })
      ]

  -- `parentID` of an operation: the root, unless it names another node.
  unfoldable pub resolve_parent : TreeService R → ℕ → Text → Option ℕ
  resolve_parent s root i = if i == [] || i == root_id then some root else get_node_by_id s i
