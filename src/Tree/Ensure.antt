-- ===== src/Tree/Ensure.antt =====
-- `EnsurePagePath` of backend/internal/core/tree/tree_service.go. The clock and the generator of ids
-- answer by the place of the segment that they are asked for.
pub mod Laws
mod Tests
use komachi.Base.{
  ℕ, zero, suc, Text, Bool, true, false, Option, none, some, List, [], ◌∷◌, Result, ok, err,
  if◌then◌else◌,
}
use komachi.Tree.Types.{
  NodeKind, section, NodeRepository, TreeService, TreeError, tree_not_loaded, page_not_found,
  path_not_ensured,
}
use komachi.Tree.Index.{get_node_by_id}
use komachi.Tree.Store.{Op, is_empty}
use komachi.Tree.Create.{Request, create_node}
use komachi.Tree.Lookup.{PathSegment, PathLookup, lookup_page_path}

pub record Wish : Type 0 where
  pub user : Text
  pub target_title : Text
  pub kind : Option NodeKind
  pub clock : ℕ → ℕ
  pub fresh : ℕ → Option Text

-- what is kept of a node that was made
pub record Created : Type 0 where
  pub id : Text
  pub slug : Text
  pub title : Text
  pub kind : NodeKind

abbrev pub kind_or_section : Option NodeKind → NodeKind
kind_or_section none = section
kind_or_section (some k) = k

abbrev pub segment_title : Wish → PathSegment → List PathSegment → Text
segment_title w g rest = if is_empty rest then w.target_title else g.slug

abbrev pub segment_kind : Wish → List PathSegment → NodeKind
segment_kind w rest = if is_empty rest then kind_or_section w.kind else section

abbrev pub segment_request : Wish → ℕ → Option Text → PathSegment → List PathSegment → Request
segment_request w k current g rest = record {
  user = w.user;
  parent = current;
  title = segment_title w g rest;
  slug = g.slug;
  kind = some (segment_kind w rest);
  existing_id = [];
  now = w.clock k;
  fresh = w.fresh k;
}

abbrev pub made : Wish → Text → PathSegment → List PathSegment → Created
made w i g rest = record {
  id = i;
  slug = g.slug;
  title = segment_title w g rest;
  kind = segment_kind w rest;
}

pub record EnsurePathResult : Type 0 where
  pub page : ℕ
  pub exists : Bool
  pub created : List Created

-- `*last.ID` of the last segment
abbrev pub last_id : List PathSegment → Option Text
last_id [] = none
last_id (g ∷ []) = g.id
last_id (g ∷ h ∷ gs) = last_id (h ∷ gs)

abbrev pub add_created :
    Created
    → Result TreeError (Option Text × List Created)
    → Result TreeError (Option Text × List Created)
add_created c (ok (current, cs)) = ok (current, c ∷ cs)
add_created c (err e) = err e

abbrev pub page_of : Option ℕ → List Created → Result TreeError EnsurePathResult
page_of none created = err page_not_found
page_of (some n) created = ok (record { page = n; exists = true; created = created })

module _ {R : NodeRepository} where
  -- The loop over the segments, with `currentID` so far.
  unfoldable pub create_missing :
      Wish → ℕ → Option Text → List PathSegment → Op R (Option Text × List Created)
  create_missing w k current [] s = (ok (current, []), s)
  create_missing w k current (g ∷ rest) s = elim g.exists [
    | true ↦ create_missing w (suc k) g.id rest s
    | false ↦
        let (answer, t) = create_node (segment_request w k current g rest) s in
        elim answer [
          | err e ↦ (err e, t)
          | ok n ↦
              let (others, u) = create_missing w (suc k) (some (t.nodes n).id) rest t in
              (add_created (made w (t.nodes n).id g rest) others, u)
        ]
  ]

  abbrev pub find_id : TreeService R → Option Text → Option ℕ
  find_id s none = none
  find_id s (some i) = get_node_by_id s i

  abbrev pub ensured :
      Result TreeError (Option Text × List Created) × TreeService R
      → Result TreeError EnsurePathResult × TreeService R
  ensured (err e, s) = (err e, s)
  ensured (ok (none, created), s) = (err path_not_ensured, s)
  ensured (ok (some i, created), s) = (page_of (get_node_by_id s i) created, s)

  abbrev pub ensure_looked_up : Wish → Result TreeError PathLookup → Op R EnsurePathResult
  ensure_looked_up w (err e) s = (err e, s)
  ensure_looked_up w (ok l) s =
      if l.exists
      then (page_of (find_id s (last_id l.segments)) [], s)
      else ensured (create_missing w 0 none l.segments s)

  unfoldable pub ensure_page_path : Wish → Text → Op R EnsurePathResult
  unfolding create_missing
  ensure_page_path w p s = elim s.tree [
    | none ↦ (err tree_not_loaded, s)
    | some root ↦ ensure_looked_up w (lookup_page_path s p) s
  ]
