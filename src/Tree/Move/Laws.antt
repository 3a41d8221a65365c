-- ===== src/Tree/Move/Laws.antt =====
-- `IsChildOf`, and what `MoveNodeToPosition` did where it succeeded
-- (backend/internal/core/tree/page_node.go, tree_service.go).
use mathlib.Core.Logic.{∥∥₁_elim}
use komachi.Base.{
  ℕ, ◌≡◌, sym, ◌∙◌, subst, ◌↔◌, ◌⊎◌, inl, inr, Text, Bool, true, false, Option, some, arith, ◌==◌,
  eq_text_iff, ok, Answer-cases, Bool-cases, Option-cases,
}
use komachi.Tree.Types.{Nodes, section, NodeRepository, TreeService}
use komachi.Tree.Order.{reindex_positions}
use komachi.Tree.Version.{check_node_version}
use komachi.Tree.Index.{get_node_by_id, find_child_by_slug}
use komachi.Tree.Store.{is_section, touch, set_kind, resolve_parent}
use komachi.Tree.Move.{
  Snapshot, slug_taken, is_child_of, relink, convert_parent, move_linked, move_checked, move_to,
  move_node_to_position, move_node_to_position,
}
use komachi.Tree.Move.Below.{Below, IsForest, Bool-set, not-Below_of_search, search_sound}
use komachi.Tree.Move.Relink.{
  SameLinks, SameLinks-refl, SameLinks-trans, reindex-SameLinks, touch-SameLinks,
  set_kind-SameLinks,
}

-- In a forest `IsChildOf` answers true exactly when a node with the id stands below `p`.
pub is_child_of_iff :
    (h : Nodes) (n p : ℕ) (i : Text)
    → IsForest h n
    → (is_child_of h n p i ≡ true) ↔ ∥ ((d : ℕ) × Below h p d × ((h d).id ≡ i)) ∥₁
is_child_of_iff h n p i f = (
  λ e.
      let (d, b, t) = search_sound h (λ c. (h c).id == i) n p e in
      ∣ (d, b, (eq_text_iff _ _).0 t) ∣₁,
  λ x. ∥∥₁_elim x (Bool-set _ _) (λ w. elim (Bool-cases (is_child_of h n p i)) [
    | inl y ↦ y
    | inr no_one ↦
        absurd
          (not-Below_of_search f (λ c. (h c).id == i) p w.0 no_one ((eq_text_iff _ _).1 w.2) w.1)
  ]),
)

-- The nodes that a move leaves, from those after the new parent may have become a section.
abbrev pub moved : Text → Text → ℕ → Option ℕ → ℕ → ℕ → ℕ → Nodes → Nodes
moved user i now position n old new h =
    reindex_positions old (reindex_positions new (touch n now user (relink i n old new position h)))

pub moved-SameLinks :
    (user i : Text) (now : ℕ) (position : Option ℕ) (n old new : ℕ) (h : Nodes)
    → SameLinks (moved user i now position n old new h) (relink i n old new position h)
moved-SameLinks user i now position n old new h =
    let linked = relink i n old new position h in
    let touched = touch n now user linked in
    SameLinks-trans (reindex-SameLinks old (reindex_positions new touched))
      (SameLinks-trans (reindex-SameLinks new touched) (touch-SameLinks n now user linked))

-- The index by id, with the root.
pub record SameIndex {R : NodeRepository} (s' s : TreeService R) : Type 0 where
  pub next : s'.next ≡ s.next
  pub tree : s'.tree ≡ s.tree
  pub by_id : s'.nodes_by_id ≡ s.nodes_by_id

SameIndex-trans :
    {R : NodeRepository} {a b c : TreeService R} → SameIndex a b → SameIndex b c → SameIndex a c
SameIndex-trans x y = record {
  next = x.next ∙ y.next;
  tree = x.tree ∙ y.tree;
  by_id = x.by_id ∙ y.by_id;
}

module _ {R : NodeRepository} (user i : Text) (now : ℕ) (position : Option ℕ) where
  nodes-move_linked :
      (w : Snapshot) (s : TreeService R) {s' : TreeService R}
      → move_linked user i now position w s ≡ (ok tt, s')
      → s'.nodes ≡ moved user i now position w.node w.old w.new s.nodes
  unfolding move_linked
  nodes-move_linked w s e = ground arith

  index-move_linked :
      (w : Snapshot) (s : TreeService R) {s' : TreeService R}
      → move_linked user i now position w s ≡ (ok tt, s')
      → SameIndex s' s
  unfolding move_linked
  index-move_linked w s e = record {
    next = ground arith;
    tree = ground arith;
    by_id = ground arith;
  }

  convert_parent_nodes :
      (p : ℕ) (s t : TreeService R) {b : Bool}
      → convert_parent p s ≡ (ok b, t)
      → ((t.nodes ≡ s.nodes)
          ⊎ (t.nodes
              ≡ set_kind p section
                  (set_kind p (R.convert_node s.nodes p section s.disk).1 s.nodes)))
  unfolding convert_parent
  convert_parent_nodes p s t e = ground arith

  index-convert_parent :
      (p : ℕ) (s t : TreeService R) {b : Bool} → convert_parent p s ≡ (ok b, t) → SameIndex t s
  unfolding convert_parent
  index-convert_parent p s t e = record {
    next = ground arith;
    tree = ground arith;
    by_id = ground arith;
  }

  convert_parent-SameLinks :
      (p : ℕ) (s t : TreeService R) {b : Bool}
      → convert_parent p s ≡ (ok b, t)
      → SameLinks t.nodes s.nodes
  convert_parent-SameLinks p s t e = elim (convert_parent_nodes p s t e) [
    | inl q ↦ subst (λ h. SameLinks h s.nodes) (sym q) (SameLinks-refl s.nodes)
    | inr q ↦
        let left = (R.convert_node s.nodes p section s.disk).1 in
        subst (λ h. SameLinks h s.nodes) (sym q)
          (SameLinks-trans (set_kind-SameLinks p section (set_kind p left s.nodes))
            (set_kind-SameLinks p left s.nodes))
  ]

  pub move_checked_inversion :
      (n old new : ℕ) (s : TreeService R) {s' : TreeService R}
      → move_checked user i now position n old new s ≡ (ok tt, s')
      → (h : Nodes) × SameLinks h s.nodes
        × (s'.nodes ≡ moved user i now position n old new h)
        × SameIndex s' s
  unfolding move_checked
  move_checked_inversion n old new s {s'} e = elim (Answer-cases (convert_parent new s)) [
    | inl (b, t, c) ↦
        let w = convert_parent-SameLinks new s t c in
        let k = index-convert_parent new s t c in
        let v : Snapshot = record {
          before = t.nodes;
          node = n;
          old = old;
          new = new;
          converted = b;
        } in
        elim (Bool-cases (is_section (t.nodes new).kind)) [
          | inl y ↦
              let linked : move_linked user i now position v t ≡ (ok tt, s') =
                rw (c, y, move_checked) at e in
              (
                t.nodes,
                w,
                nodes-move_linked v t linked,
                SameIndex-trans (index-move_linked v t linked) k,
              )
          | inr y ↦ cc (rw (c, y, move_checked) at e)
        ]
    | inr (x, t, c) ↦ cc (rw (c, move_checked) at e)
  ]

  pub move_to_inversion :
      (n old new : ℕ) (s : TreeService R) {s' : TreeService R}
      → move_to user i now position n old new s ≡ (ok tt, s')
      → ((s.nodes n).id == (s.nodes new).id ≡ false)
        × (is_child_of s.nodes s.next n (s.nodes new).id ≡ false)
        × (move_checked user i now position n old new s ≡ (ok tt, s'))
  unfolding move_to
  move_to_inversion n old new s {s'} e =
      elim (Bool-cases (slug_taken (find_child_by_slug s new (s.nodes n).slug) s.nodes n)) [
        | inl t ↦ cc (rw (t, move_to) at e)
        | inr t ↦ elim (Bool-cases ((s.nodes n).id == (s.nodes new).id)) [
          | inl u ↦ cc (rw (t, u, move_to) at e)
          | inr u ↦ elim (Bool-cases (is_child_of s.nodes s.next n (s.nodes new).id)) [
            | inl v ↦ cc (rw (t, u, v, move_to) at e)
            | inr v ↦ (u, v, rw (t, u, v, move_to) at e)
          ]
        ]
      ]

  module _ (rfc3339_nano : ℕ → Text) (parent expected : Text) (s : TreeService R) where
    pub move_inversion :
        {s' : TreeService R}
        → move_node_to_position rfc3339_nano user i parent expected position now s ≡ (ok tt, s')
        → (n old new root : ℕ) × (get_node_by_id s i ≡ some n)
          × ((s.nodes n).parent ≡ some old)
          × (s.tree ≡ some root)
          × (resolve_parent s root parent ≡ some new)
          × (move_to user i now position n old new s ≡ (ok tt, s'))
    unfolding move_node_to_position
    move_inversion {s'} e = elim (Option-cases s.tree) [
      | inl t ↦ cc (rw (t, move_node_to_position) at e)
      | inr (root, t) ↦ elim (Option-cases (get_node_by_id s i)) [
        | inl u ↦ cc (rw (t, u, move_node_to_position) at e)
        | inr (n, u) ↦ elim (Option-cases (check_node_version rfc3339_nano (s.nodes n) expected)) [
          | inr (x, v) ↦ cc (rw (t, u, v, move_node_to_position) at e)
          | inl v ↦ elim (Option-cases (s.nodes n).parent) [
            | inl w ↦ cc (rw (t, u, v, w, move_node_to_position) at e)
            | inr (old, w) ↦ elim (Option-cases (resolve_parent s root parent)) [
              | inl x ↦ cc (rw (t, u, v, w, x, move_node_to_position) at e)
              | inr (new, x) ↦
                  (n, old, new, root, u, w, t, x, rw (t, u, v, w, x, move_node_to_position) at e)
            ]
          ]
        ]
      ]
    ]
