-- ===== src/Tree/Examples.antt =====
-- A small tree for the tests: the root (0) holds the section "guides" (1) and the page "faq" (2).
use mathlib.Core.List.{Mem, mem-cons, not-mem-nil, Nodup, Nodup-cons}
use mathlib.Core.List
use mathlib.Core.HLevel.{⊥_prop}
use mathlib.Core.Logic.Or
use native.Mathlib.Bridge.{le_prop}
use native.Mathlib.Decide.{ℕ_discrete}
use komachi.Base.{
  ℕ, ◌+◌, ◌≡◌, refl, sym, ◌<◌, ◌≢◌, subst, lookup, eq_text_iff, ◌==◌, Text, codes, false, Option,
  none, some, List, [], ◌∷◌, arith, eqb, ok, if◌then◌else◌,
}
use komachi.Tree.Index.{get_node_by_id}
use komachi.Tree.Move.Below.{IsForest}
use komachi.Tree.Types.{
  NodeKind, page, section, PageMetadata, PageNode, Nodes, NodeRepository, TreeService,
}

-- A node store whose calls all succeed and change nothing.
abbrev pub quiet : NodeRepository
quiet = record {
  Disk = Unit {0};
  save_child_order = λ h p d. (none, d);
  create_page = λ h p e d. (none, d);
  create_section = λ h p e d. (none, d);
  delete_page = λ h p d. (none, d);
  delete_section = λ h p d. (none, d);
  convert_node = λ h p k d. (none, k, d);
  move_node = λ h p q d. (none, d);
  remove_child_order = λ h p d. (none, d);
  rename_node = λ h p t d. (none, d);
  upsert_content = λ h p t d. (none, d);
  upsert_content_preserving_frontmatter = λ h p t d. (none, d);
  upsert_content_and_metadata = λ h p t tags properties d. (none, d);
  set_pinned_frontmatter = λ h p b d. (ok [], d);
  read_page_content = λ h p d. (ok (codes "text"), d);
  sync_frontmatter = λ h p d. (none, d);
  is_postgres = false;
}

-- The same, but no child order can be saved.
abbrev pub read_only : NodeRepository
read_only = record {
  Disk = Unit {0};
  save_child_order = λ h p d. (some 28, d);
  create_page = λ h p e d. (none, d);
  create_section = λ h p e d. (none, d);
  delete_page = λ h p d. (none, d);
  delete_section = λ h p d. (none, d);
  convert_node = λ h p k d. (none, k, d);
  move_node = λ h p q d. (none, d);
  remove_child_order = λ h p d. (none, d);
  rename_node = λ h p t d. (none, d);
  upsert_content = λ h p t d. (none, d);
  upsert_content_preserving_frontmatter = λ h p t d. (none, d);
  upsert_content_and_metadata = λ h p t tags properties d. (none, d);
  set_pinned_frontmatter = λ h p b d. (ok [], d);
  read_page_content = λ h p d. (ok (codes "text"), d);
  sync_frontmatter = λ h p d. (none, d);
  is_postgres = false;
}

abbrev pub at_time : ℕ → PageMetadata
at_time t = record {
  created_at = t;
  updated_at = t;
  creator_id = codes "u1";
  last_author_id = codes "u1";
}

abbrev pub node : Text → Text → List ℕ → ℕ → Option ℕ → NodeKind → PageNode
node i slug children position parent kind = record {
  id = i;
  title = slug;
  slug = slug;
  children = children;
  position = position;
  parent = parent;
  pinned = false;
  kind = kind;
  metadata = at_time 5;
}

abbrev pub root_node : PageNode
root_node = node (codes "root") (codes "root") (1 ∷ 2 ∷ []) 0 none section

abbrev pub guides : PageNode
guides = node (codes "g") (codes "guides") [] 0 (some 0) section

abbrev pub faq : PageNode
faq = node (codes "f") (codes "faq") [] 1 (some 0) page

abbrev pub sample_nodes : Nodes
sample_nodes q = if eqb q 0 then root_node else if eqb q 1 then guides else faq

abbrev pub sample : (R : NodeRepository) → R.Disk → TreeService R
sample R d = record {
  tree = some 0;
  nodes = sample_nodes;
  next = 3;
  nodes_by_id = (codes "g", 1) ∷ (codes "f", 2) ∷ [];
  nodes_by_title = (codes "guides", 1 ∷ []) ∷ (codes "faq", 2 ∷ []) ∷ [];
  child_slugs = (codes "root", (codes "guides", 1) ∷ (codes "faq", 2) ∷ []) ∷ [];
  disk = d;
}

-- A form of `time.RFC3339Nano`: one code point for each unit, which no string of zero bytes is.
abbrev pub stamp : ℕ → Text
stamp t = (t + 48) ∷ []

no_child : (p c : ℕ) → p ≢ 0 → Mem c (sample_nodes p).children → ⊥
no_child p c ne m = elim (ℕ_discrete p 1) [
  | yes e ↦ not-mem-nil (subst (Mem c) (ground arith) m)
  | no e ↦ not-mem-nil (subst (Mem c) (ground arith) m)
]

sample_children :
    (p c : ℕ) {P : Type 0}
    → IsProp P
    → Mem c (sample_nodes p).children
    → (p ≡ 0 → c ≡ 1 → P)
    → (p ≡ 0 → c ≡ 2 → P)
    → P
sample_children p c pp m one two = elim (ℕ_discrete p 0) [
  | yes e ↦
      Or.elim pp (mem-cons.0 (subst (λ x. Mem c (sample_nodes x).children) e m)) (one e)
        (λ r. Or.elim pp (mem-cons.0 r) (two e) (λ z. absurd (not-mem-nil z)))
  | no e ↦ absurd (no_child p c e m)
]

pub sample-IsForest : IsForest sample_nodes 3
sample-IsForest = record {
  rank = λ q. if eqb q 0 then 1 else 0;
  falls = λ p c x. sample_children p c le_prop x (λ e f. ground arith) (λ e f. ground arith);
  allocated = λ p c x. sample_children p c le_prop x (λ e f. omega arith) (λ e f. omega arith);
}

pub sample_known :
    (R : NodeRepository) (d : R.Disk) (i : Text) (p : ℕ)
    → get_node_by_id (sample R d) i ≡ some p
    → (p < 3) × ((sample_nodes p).id ≡ i)
unfolding get_node_by_id lookup
sample_known R d i p e =
    ground
      (arith, eq_text_iff i (codes "root"), eq_text_iff (codes "g") i, eq_text_iff (codes "f") i)

Option-set : IsSet (Option ℕ)
Option-set = hlevel

pub sample_linked : (p c : ℕ) → Mem c (sample_nodes p).children → (sample_nodes c).parent ≡ some p
sample_linked p c x =
    sample_children p c (Option-set _ _) x (λ e f. ground arith) (λ e f. ground arith)

pub sample_found :
    (R : NodeRepository) (d : R.Disk) (p c : ℕ)
    → Mem c (sample_nodes p).children
    → get_node_by_id (sample R d) (sample_nodes c).id ≡ some c
unfolding get_node_by_id lookup ◌==◌
sample_found R d p c x =
    sample_children p c (Option-set _ _) x (λ e f. rw f refl) (λ e f. rw f refl)

root_once : Nodup {A = ℕ} (1 ∷ 2 ∷ [])
root_once = Nodup-cons.1 (
  λ m. Or.elim ⊥_prop (mem-cons.0 m) (λ q. omega arith) (λ r. not-mem-nil r),
  Nodup-cons.1 (not-mem-nil, List.Nodup-nil),
)

pub sample_once : (p : ℕ) → Nodup (sample_nodes p).children
sample_once p = elim (ℕ_discrete p 0) [
  | yes e ↦ subst (λ x. Nodup (sample_nodes x).children) (sym e) root_once
  | no e ↦ subst Nodup (ground arith) List.Nodup-nil
]
