-- ===== src/Tree/Update/Tests.antt =====
-- Runs of the updates of a page and instances of their theorems.
use komachi.Base.{◌≡◌, refl, ℕ, Text, Bool, true, codes, none, some, ok, arith, ◌==◌, lookup}
use komachi.Tree.Types.{NodeKind, TreeService}
use komachi.Tree.Version.{check_node_version}
use komachi.Tree.Index.{get_node_by_id}
use komachi.Tree.Update.{Update, update_node, convert_node, set_pinned}
use komachi.Tree.Update.Laws.{IsRefused, update_node-locks}
use komachi.Tree.Examples.{quiet, sample, stamp}

abbrev retitled : Update
retitled = record {
  title = codes "FAQ";
  slug = codes "faq";
  content = some (codes "new");
  tags = none;
  properties = none;
  preserve_frontmatter = true;
}

abbrev after : TreeService quiet
after = (update_node stamp (codes "u2") (codes "f") retitled (stamp 5) 9 (sample quiet tt)).1

update_succeeds :
    (update_node stamp (codes "u2") (codes "f") retitled (stamp 5) 9 (sample quiet tt)).0 ≡ ok tt
unfolding update_node get_node_by_id ◌==◌ lookup check_node_version
update_succeeds = refl

update_node-locks_example :
    ((user' : Text) (u' : Update) (now' : ℕ)
      → IsRefused after (update_node stamp user' (codes "f") u' (stamp 5) now' after))
    × ((user' : Text) (kind : NodeKind) (now' : ℕ)
        → IsRefused after (convert_node stamp user' (codes "f") kind (stamp 5) now' after))
    × ((pinned : Bool) → IsRefused after (set_pinned stamp (codes "f") (stamp 5) pinned after))
unfolding update_node get_node_by_id ◌==◌ lookup check_node_version
update_node-locks_example =
    update_node-locks stamp (codes "u2") (codes "f") retitled (stamp 5) 9 (sample quiet tt) after
      (stamp 5) refl (λ e. ground arith) (λ e. ground arith) (λ e. ground arith) (λ e. ground arith)
