-- ===== src/Tree/Update.antt =====
-- `UpdateNode`, `ConvertNode` and `SetPinned` of backend/internal/core/tree/tree_service.go, on a
-- service that is not the outer one over PostgreSQL (which runs them on a service like this one in a
-- transaction).
pub mod Laws
mod Tests
use komachi.Base.{
  ℕ, Text, Dict, Bool, true, false, Option, none, some, List, [], ◌∷◌, ◌==◌, ◌&&◌, ◌||◌, not,
  Result, ok, err, ◌>>◌, is_none, if◌then◌else◌,
}
use komachi.Tree.Types.{
  NodeKind, page, section, Nodes, PageNode, NodeRepository, TreeService, TreeError, repository,
  tree_not_loaded, page_not_found, page_has_children, page_already_exists, put_node,
}
use komachi.Tree.Version.{check_node_version}
use komachi.Tree.Index.{
  get_node_by_id, find_child_by_slug, add_title_index, remove_title_index, rebuild_child_slugs,
}
use komachi.Tree.Store.{
  is_section, same_kind, is_empty, touch, set_kind, Op, call, modify, convert_to,
}

pub record Update : Type 0 where
  pub title : Text
  pub slug : Text
  pub content : Option Text
  pub tags : Option (List Text)
  pub properties : Option (Dict Text)
  pub preserve_frontmatter : Bool

module _ {R : NodeRepository} where
  -- a child of the parent, other than the node itself, that has the new slug
  abbrev taken_by : Option ℕ → TreeService R → ℕ → Bool
  taken_by none s n = false
  taken_by (some c) s n = not ((s.nodes c).id == (s.nodes n).id)

  abbrev taken_under : Option ℕ → TreeService R → ℕ → Text → Bool
  taken_under none s n slug = false
  taken_under (some p) s n slug = taken_by (find_child_by_slug s p slug) s n

  abbrev pub slug_conflict : TreeService R → ℕ → Text → Bool
  slug_conflict s n slug = not (slug == (s.nodes n).slug) && taken_under (s.nodes n).parent s n slug

  unfoldable pub upsert : ℕ → Update → Option Text → Op R (Unit {0})
  upsert n u none s = (ok tt, s)
  upsert n u (some text) s =
      if u.preserve_frontmatter
      then call (R.upsert_content_preserving_frontmatter s.nodes n text) s
      else if not (is_none u.tags) || not (is_none u.properties)
      then call (R.upsert_content_and_metadata s.nodes n text u.tags u.properties) s
      else call (R.upsert_content s.nodes n text) s

  abbrev rebuild_above : Option ℕ → TreeService R → TreeService R
  rebuild_above none s = s
  rebuild_above (some p) s = rebuild_child_slugs p s

  abbrev set_slug : ℕ → Text → TreeService R → TreeService R
  set_slug n slug s =
      rebuild_above (s.nodes n).parent
        (record s { nodes = put_node n (record (s.nodes n) { slug = slug }) s.nodes })

  unfoldable pub rename_slug : ℕ → Text → Op R (Unit {0})
  unfolding rebuild_child_slugs
  rename_slug n slug s =
      if slug == (s.nodes n).slug
      then (ok tt, s)
      else (do call (R.rename_node s.nodes n slug); (λ t. (ok tt, set_slug n slug t))) s

  unfoldable pub set_title : ℕ → Text → TreeService R → TreeService R
  set_title n title s =
      let h = put_node n (record (s.nodes n) { title = title }) s.nodes in
      record s {
        nodes = h;
        nodes_by_title = add_title_index h n (remove_title_index s.nodes n s.nodes_by_title);
      }

  unfoldable pub update_found : Text → ℕ → Update → ℕ → Op R (Unit {0})
  unfolding upsert rename_slug set_title
  update_found user now u n s =
      if slug_conflict s n u.slug
      then (err page_already_exists, s)
      else (do
        upsert n u u.content
        rename_slug n u.slug
        (λ t. (ok tt, set_title n u.title t))
        modify (touch n now user)
        (λ t. call (R.sync_frontmatter t.nodes n) t))
          s

  unfoldable pub convert_found : Text → ℕ → NodeKind → ℕ → Op R (Unit {0})
  unfolding convert_to
  convert_found user now kind n s =
      if same_kind (s.nodes n).kind kind
      then (ok tt, s)
      else if is_section (s.nodes n).kind
          && not (is_section kind)
          && not (is_empty (s.nodes n).children)
      then (err page_has_children, s)
      else (do
        convert_to n kind
        modify (touch n now user)
        (λ t. call (R.sync_frontmatter t.nodes n) t))
          s

  abbrev pin_answer :
      ℕ → Bool → TreeService R → Result ℕ Text × R.Disk → Result TreeError Text × TreeService R
  pin_answer n pinned s (ok content, d) = (
    ok content,
    record s { disk = d; nodes = put_node n (record (s.nodes n) { pinned = pinned }) s.nodes },
  )
  pin_answer n pinned s (err e, d) = (err (repository e), record s { disk = d })

  unfoldable pub pin_found : Bool → ℕ → Op R Text
  pin_found pinned n s = pin_answer n pinned s (R.set_pinned_frontmatter s.nodes n pinned s.disk)

  module _ (rfc3339_nano : ℕ → Text) where
    -- The start of the operations below: find the node and check the version expected.
    unfoldable pub with_node : {A : Type 0} → Text → Text → (ℕ → Op R A) → Op R A
    with_node i expected f s = elim s.tree [
      | none ↦ (err tree_not_loaded, s)
      | some root ↦ elim (get_node_by_id s i) [
        | none ↦ (err page_not_found, s)
        | some n ↦ elim (check_node_version rfc3339_nano (s.nodes n) expected) [
          | some e ↦ (err e, s)
          | none ↦ f n s
        ]
      ]
    ]

    unfoldable pub update_node : Text → Text → Update → Text → ℕ → Op R (Unit {0})
    unfolding with_node update_found
    update_node user i u expected now s = with_node i expected (update_found user now u) s

    unfoldable pub convert_node : Text → Text → NodeKind → Text → ℕ → Op R (Unit {0})
    unfolding with_node convert_found
    convert_node user i kind expected now s = with_node i expected (convert_found user now kind) s

    unfoldable pub set_pinned : Text → Text → Bool → Op R Text
    unfolding with_node pin_found
    set_pinned i expected pinned s = with_node i expected (pin_found pinned) s
