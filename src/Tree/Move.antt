-- ===== src/Tree/Move.antt =====
-- `MoveNodeToPosition` and its rollback (backend/internal/core/tree/tree_service.go), and
-- `IsChildOf` (page_node.go). A negative position is none.
pub mod Below
mod Relink
mod Forest
pub mod Laws
mod WellFormed
mod Tests
use komachi.Base.{
  ℕ, zero, suc, Text, Dict, Bool, true, false, Option, none, some, List, [], ◌∷◌, ◌++◌, ◌==◌, ◌||◌,
  ◌&&◌, not, eqb, ltb, any, length, take, drop, ok, err, pure, ◌>>=◌, ◌>>◌, if◌then◌else◌,
}
use komachi.Tree.Types.{
  page, section, Nodes, TreeError, repository, join, NodeRepository, TreeService, tree_not_loaded,
  page_not_found, parent_not_found, page_already_exists, moved_to_itself, circular_reference,
  parent_not_section, put_node,
}
use komachi.Tree.Version.{check_node_version}
use komachi.Tree.Order.{set_children, reindex_positions}
use komachi.Tree.Index.{root_id, get_node_by_id, find_child_by_slug, rebuild_child_slugs}
use komachi.Tree.Store.{is_section, is_empty, touch, Op, call, modify, convert_to, resolve_parent}
use komachi.Tree.Delete.{drop_id}
use komachi.Tree.Sort.{snapshot_positions, restore_positions}

-- A node below `p` that passes the test; the fuel bounds the depth of the walk.
unfoldable pub search_below : Nodes → (ℕ → Bool) → ℕ → ℕ → Bool
search_below h test zero p = false
search_below h test (suc fuel) p = any (λ c. test c || search_below h test fuel c) (h p).children

-- `IsChildOf(childID, true)`
abbrev pub is_child_of : Nodes → ℕ → ℕ → Text → Bool
is_child_of h fuel p i = search_below h (λ c. (h c).id == i) fuel p

abbrev pub insert_index : Option ℕ → List ℕ → ℕ
insert_index none cs = length cs
insert_index (some k) cs = if ltb k (length cs) then k else length cs

abbrev pub insert_at : ℕ → ℕ → List ℕ → List ℕ
insert_at k n cs = take k cs ++ (n ∷ drop k cs)

-- The node leaves its old parent and enters the new one.
unfoldable pub relink : Text → ℕ → ℕ → ℕ → Option ℕ → Nodes → Nodes
relink i n old new position h =
    let h1 = set_children old (drop_id h i (h old).children) h in
    let k = insert_index position (h1 new).children in
    let h2 = set_children new (insert_at k n (h1 new).children) h1 in
    put_node n (record (h2 n) { position = k; parent = some new }) h2

abbrev set_parent : ℕ → List ℕ → Nodes → Nodes
set_parent p [] h = h
set_parent p (c ∷ cs) h = set_parent p cs (put_node c (record (h c) { parent = some p }) h)

-- `restoreChildSnapshot`
unfoldable pub restore_child_snapshot : ℕ → List ℕ → Dict ℕ → Nodes → Nodes
restore_child_snapshot p cs positions h =
    restore_positions positions cs (set_parent p cs (set_children p cs h))

-- What the rollback needs of the state before the move.
pub record Snapshot : Type 0 where
  pub before : Nodes
  pub node : ℕ
  pub old : ℕ
  pub new : ℕ
  pub converted : Bool

-- `errors.Join` of what failed so far with one more answer
abbrev pub join_error : Option TreeError → Option ℕ → Option TreeError
join_error acc none = acc
join_error none (some x) = some (repository x)
join_error (some e) (some x) = some (join e (repository x))

unfoldable pub restored_nodes : Snapshot → Nodes → Nodes
unfolding restore_child_snapshot
restored_nodes w h =
    let oldc = (w.before w.old).children in
    let newc = (w.before w.new).children in
    let h1 = restore_child_snapshot w.old oldc (snapshot_positions w.before [] oldc) h in
    let h2 =
      if eqb w.new w.old
      then h1
      else restore_child_snapshot w.new newc (snapshot_positions w.before [] newc) h1 in
    put_node w.node
      (record (h2 w.node) {
        parent = some w.old;
        position = (w.before w.node).position;
        metadata = (w.before w.node).metadata;
      })
      h2

-- a child of the new parent, other than the node itself, that has the node's slug
abbrev slug_taken : Option ℕ → Nodes → ℕ → Bool
slug_taken none h n = false
slug_taken (some c) h n = not ((h c).id == (h n).id)

abbrev pub Attempt : NodeRepository → Type 0
Attempt R = Option TreeError × TreeService R

module _ {R : NodeRepository} where
  abbrev try_call : (Nodes → R.Disk → Option ℕ × R.Disk) → Attempt R → Attempt R
  try_call f (acc, s) = let (e, d) = f s.nodes s.disk in (join_error acc e, record s { disk = d })

  unconvert : ℕ → Attempt R → Attempt R
  unfolding convert_to
  unconvert p (acc, s) =
      let (e, left, d) = R.convert_node s.nodes p page s.disk in
      let h = put_node p (record (s.nodes p) { kind = left }) s.nodes in
      let paged = put_node p (record (h p) { kind = page }) h in
      (join_error acc e, record s { disk = d; nodes = elim e [ some _ ↦ h | none ↦ paged ] })

  unconvert_parent : Snapshot → Attempt R → Attempt R
  unfolding unconvert
  unconvert_parent w (acc, s) =
      if w.converted && not ((s.nodes w.new).id == root_id) && is_empty (s.nodes w.new).children
      then unconvert w.new (try_call (λ h. R.remove_child_order h w.new) (acc, s))
      else (acc, s)

  restore_memory : Snapshot → Attempt R → Attempt R
  unfolding restored_nodes rebuild_child_slugs
  restore_memory w (acc, s) =
      let t = rebuild_child_slugs w.old (record s { nodes = restored_nodes w s.nodes }) in
      (acc, if eqb w.new w.old then t else rebuild_child_slugs w.new t)

  restore_orders : Snapshot → Attempt R → Attempt R
  restore_orders w (acc, s) =
      let (acc', s') = try_call (λ h. R.save_child_order h w.old) (acc, s) in
      if not (eqb w.new w.old) && is_section (s'.nodes w.new).kind
      then try_call (λ h. R.save_child_order h w.new) (acc', s')
      else (acc', s')

  unfoldable pub rollback_moved : Snapshot → TreeService R → Attempt R
  unfolding restore_memory unconvert_parent restore_orders
  rollback_moved w s =
      if R.is_postgres
      then (none, s)
      else restore_orders w (
          unconvert_parent w
            (restore_memory w (try_call (λ h. R.move_node h w.node w.old) (none, s))))

  -- A call after the relinking: a failure rolls the move back.
  abbrev or_rollback : Snapshot → (R.Disk → Option ℕ × R.Disk) → Op R (Unit {0})
  or_rollback w f s =
      let (e, d) = f s.disk in
      let s' = record s { disk = d } in
      elim e [
        | none ↦ (ok tt, s')
        | some x ↦
            let (failed, undone) = rollback_moved w s' in
            elim failed [
              | none ↦ (err (repository x), undone)
              | some y ↦ (err (join (repository x) y), undone)
            ]
      ]

  pub convert_parent : ℕ → Op R Bool
  unfolding convert_to
  convert_parent p s = elim ((s.nodes p).id == root_id) [
    | true ↦ (ok false, s)
    | false ↦ elim (s.nodes p).kind [
      | section ↦ (ok false, s)
      | page ↦ (do convert_to p section; pure true) s
    ]
  ]

  -- From the move on disk to the end.
  pub move_linked : Text → Text → ℕ → Option ℕ → Snapshot → Op R (Unit {0})
  unfolding rebuild_child_slugs
  move_linked user i now position w s =
      (do
        call (R.move_node s.nodes w.node w.new)
        modify (relink i w.node w.old w.new position)
        (λ t. (ok tt, rebuild_child_slugs w.new (rebuild_child_slugs w.old t)))
        modify (λ h. reindex_positions w.old (reindex_positions w.new (touch w.node now user h)))
        (λ t. or_rollback w (R.save_child_order t.nodes w.old) t)
        (λ t.
            if eqb w.new w.old
            then (ok tt, t)
            else or_rollback w (R.save_child_order t.nodes w.new) t)
        (λ t. or_rollback w (R.sync_frontmatter t.nodes w.node) t))
        s

  -- The new parent becomes a section first, if it is a page.
  pub move_checked : Text → Text → ℕ → Option ℕ → ℕ → ℕ → ℕ → Op R (Unit {0})
  move_checked user i now position n old new = do
    converted ← convert_parent new
    (λ t. if is_section (t.nodes new).kind then (ok tt, t) else (err parent_not_section, t))
    (λ t.
        move_linked user i now position
          (record { before = t.nodes; node = n; old = old; new = new; converted = converted }) t)

  pub move_to : Text → Text → ℕ → Option ℕ → ℕ → ℕ → ℕ → Op R (Unit {0})
  unfolding move_checked
  move_to user i now position n old new s =
      if slug_taken (find_child_by_slug s new (s.nodes n).slug) s.nodes n
      then (err page_already_exists, s)
      else if (s.nodes n).id == (s.nodes new).id
      then (err moved_to_itself, s)
      else if is_child_of s.nodes s.next n (s.nodes new).id
      then (err circular_reference, s)
      else move_checked user i now position n old new s

  module _ (rfc3339_nano : ℕ → Text) where
    unfoldable pub move_node_to_position :
        Text → Text → Text → Text → Option ℕ → ℕ → Op R (Unit {0})
    unfolding move_to
    move_node_to_position user i parent expected position now s = elim s.tree [
      | none ↦ (err tree_not_loaded, s)
      | some root ↦ elim (get_node_by_id s i) [
        | none ↦ (err page_not_found, s)
        | some n ↦ elim (check_node_version rfc3339_nano (s.nodes n) expected) [
          | some e ↦ (err e, s)
          | none ↦ elim (s.nodes n).parent [
            | none ↦ (err parent_not_found, s)
            | some old ↦ elim (resolve_parent s root parent) [
              | none ↦ (err parent_not_found, s)
              | some new ↦ move_to user i now position n old new s
            ]
          ]
        ]
      ]
    ]
