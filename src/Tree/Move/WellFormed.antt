-- ===== src/Tree/Move/WellFormed.antt =====
-- `MoveNodeToPosition` keeps the tree a tree (backend/internal/core/tree/tree_service.go).
use mathlib.Core.List.{Nodup}
use mathlib.Core.Logic.{∥∥₁_prop}
use native.Mathlib.Decide.{ℕ_discrete}
use komachi.Base.{
  ℕ, ◌<◌, ◌≡◌, sym, ◌∙◌, ap, subst, ◌≢◌, ◌↔◌, Text, Option, some, arith, ◌==◌, eq_text_refl, ok,
}
use komachi.Tree.Types.{Nodes, NodeRepository, TreeService}
use komachi.Tree.Index.{get_node_by_id}
use komachi.Tree.Store.{resolve_parent}
use komachi.Tree.Move.{relink, move_node_to_position}
use komachi.Tree.Move.Below.{Edge, Below, IsForest, not-Below_of_search}
use komachi.Tree.Move.Forest.{Gains-IsForest}
use komachi.Tree.Move.Relink.{
  Gains, SameLinks, IsOnly, relink-Gains, relink_keeps, relink_under, parent-relink_self,
  parent-relink_other, id-relink, Nodup-relink, not-Edge-dropped,
}
use komachi.Tree.Move.Laws.{
  moved-SameLinks, SameIndex, move_checked_inversion, move_to_inversion, move_inversion,
}

-- The nodes in memory are a tree: a forest over the allocated nodes, in which a child points to the
-- one node that lists it, once, and the index by id finds each child and only nodes with the id.
pub record IsTree {R : NodeRepository} (s : TreeService R) : Type 0 where
  pub forest : IsForest s.nodes s.next
  pub linked : (p c : ℕ) → Edge s.nodes p c → (s.nodes c).parent ≡ some p
  pub once : (p : ℕ) → Nodup (s.nodes p).children
  pub found : (p c : ℕ) → Edge s.nodes p c → get_node_by_id s (s.nodes c).id ≡ some c
  pub known : (i : Text) (p : ℕ) → get_node_by_id s i ≡ some p → (p < s.next) × ((s.nodes p).id ≡ i)

-- `n` is a child of `new`, and every other node is a child of the nodes that it was a child of.
pub record IsMoved (n new : ℕ) (h h' : Nodes) : Type 0 where
  pub under : Edge h' new n
  pub others : (p c : ℕ) → c ≢ n → Edge h' p c ↔ Edge h p c

some-inj : {a b : ℕ} → some a ≡ some b → a ≡ b
some-inj e = ground arith

Option-set : IsSet (Option ℕ)
Option-set = hlevel

get_node_by_id-SameIndex :
    {R : NodeRepository} {s' s : TreeService R} (i : Text)
    → SameIndex s' s
    → get_node_by_id s' i ≡ get_node_by_id s i
unfolding get_node_by_id
get_node_by_id-SameIndex i v = rw (v.tree, v.by_id)

-- A move of `n` from `old` to `new`, neither it nor below it, once `h'` has the links that it makes.
module _ {R : NodeRepository} (s s' : TreeService R) (i : Text) (n old new : ℕ)
    (position : Option ℕ) (h : Nodes) (v : IsTree s) (same : SameLinks h s.nodes)
    (links : SameLinks s'.nodes (relink i n old new position h)) (index : SameIndex s' s)
    (at_id : get_node_by_id s i ≡ some n) (parent : (s.nodes n).parent ≡ some old) where
  -- a child of any node that has the id is the node
  named : (p d : ℕ) → Edge s.nodes p d → (s.nodes d).id ≡ i → d ≡ n
  named p d x e = some-inj (sym (v.found p d x) ∙ ap (get_node_by_id s) e ∙ at_id)

  only : IsOnly h i n old
  only = record {
    id = same.ids n ∙ (v.known i n at_id).1;
    alone = λ d x e. named old d (same.within old d x) (sym (same.ids d) ∙ e);
    once = same.once old (v.once old);
  }

  from_old : (p : ℕ) → Edge s.nodes p n → p ≡ old
  from_old p x = some-inj (sym (v.linked p n x) ∙ parent)

  gains : Gains s'.nodes s.nodes old new n
  gains p c P pp x keep gain =
      relink-Gains i n old new position h only p c P pp (links.within p c x)
        (λ y. keep (same.within p c y)) gain

  moved_id : (q : ℕ) → (s'.nodes q).id ≡ (s.nodes q).id
  moved_id q = links.ids q ∙ id-relink i n old new position h q ∙ same.ids q

  moved_parent_self : (s'.nodes n).parent ≡ some new
  moved_parent_self = links.parents n ∙ parent-relink_self i n old new position h

  moved_parent_other : (q : ℕ) → q ≢ n → (s'.nodes q).parent ≡ (s.nodes q).parent
  moved_parent_other q ne =
      links.parents q ∙ parent-relink_other i n old new position h q ne ∙ same.parents q

  moved_linked : (p c : ℕ) → Edge s'.nodes p c → (s'.nodes c).parent ≡ some p
  moved_linked p c x =
      gains p c ((s'.nodes c).parent ≡ some p) (Option-set _ _) x
        (λ y apart. elim (ℕ_discrete c n) [
          | yes e ↦ let q = from_old p (subst (λ z. Edge s.nodes p z) e y) in absurd (apart q e)
          | no ne ↦ moved_parent_other c ne ∙ v.linked p c y
        ])
        (λ ep ec. rw (ep, ec) moved_parent_self)

  moved_found : (p c : ℕ) → Edge s'.nodes p c → get_node_by_id s' (s'.nodes c).id ≡ some c
  moved_found p c x =
      get_node_by_id-SameIndex (s'.nodes c).id index
      ∙ ap (get_node_by_id s) (moved_id c)
      ∙ gains p c (get_node_by_id s (s.nodes c).id ≡ some c) (Option-set _ _) x
          (λ y _. v.found p c y)
          (λ _ ec. rw ec (ap (get_node_by_id s) (v.known i n at_id).1 ∙ at_id))

  moved_known :
      (j : Text) (p : ℕ) → get_node_by_id s' j ≡ some p → (p < s'.next) × ((s'.nodes p).id ≡ j)
  moved_known j p e =
      let (l, k) = v.known j p (sym (get_node_by_id-SameIndex j index) ∙ e) in
      (subst (λ (m : ℕ). p < m) (sym index.next) l, moved_id p ∙ k)

  moved_others : (p c : ℕ) → c ≢ n → Edge s'.nodes p c ↔ Edge s.nodes p c
  moved_others p c ne = (
    λ x. gains p c (Edge s.nodes p c) ∥∥₁_prop x (λ y _. y) (λ _ ec. absurd (ne ec)),
    λ x. links.back p c (
        relink_keeps i n old new position h p c (λ ep z. ne (named p c x (sym (same.ids c) ∙ z)))
          (same.back p c x)),
  )

  pub relinked_IsTree : new ≢ n → ¬ Below s.nodes n new → IsTree s' × IsMoved n new s.nodes s'.nodes
  relinked_IsTree apart below = (
    record {
      forest =
          subst (λ (k : ℕ). IsForest s'.nodes k) (sym index.next)
            (Gains-IsForest s.nodes s'.nodes s.next n old new v.forest gains apart below
              (v.known i n at_id).0);
      linked = moved_linked;
      once = λ p. links.once p (
          Nodup-relink i n old new position h p (λ q. same.once q (v.once q))
            (not-Edge-dropped i n old new position h only (λ q x. from_old q (same.within q n x))));
      found = moved_found;
      known = moved_known;
    },
    record {
      under = links.back new n (relink_under i n old new position h);
      others = moved_others;
    },
  )

-- From a tree in memory (a forest over the allocated nodes, each child pointing to the one node that
-- lists it, once, and found in the index by its id): a move that succeeds, to whatever parent and
-- position, leaves such a tree, in which the node with the id is a child of the parent asked for,
-- and every other node a child of the nodes that it was a child of.
pub move_node_to_position-IsTree :
    {R : NodeRepository} (rfc3339_nano : ℕ → Text) (user i parent expected : Text)
    (position : Option ℕ) (now : ℕ) (s : TreeService R) {s' : TreeService R}
    → IsTree s
    → move_node_to_position rfc3339_nano user i parent expected position now s ≡ (ok tt, s')
    → IsTree s'
      × ((n new root : ℕ) × (get_node_by_id s i ≡ some n)
          × (s.tree ≡ some root)
          × (resolve_parent s root parent ≡ some new)
          × IsMoved n new s.nodes s'.nodes)
move_node_to_position-IsTree rfc3339_nano user i parent expected position now s {s'} v e =
    let (n, old, new, root, at_id, up, tree, target, to) =
      move_inversion user i now position rfc3339_nano parent expected s e in
    let (ne, free, checked) = move_to_inversion user i now position n old new s to in
    let (h, same, nodes_eq, index) =
      move_checked_inversion user i now position n old new s checked in
    let links : SameLinks s'.nodes (relink i n old new position h) =
      subst (λ g. SameLinks g (relink i n old new position h)) (sym nodes_eq)
        (moved-SameLinks user i now position n old new h) in
    let below : ¬ Below s.nodes n new =
      not-Below_of_search v.forest (λ c. (s.nodes c).id == (s.nodes new).id) n new free
        (eq_text_refl (s.nodes new).id) in
    let apart : new ≢ n = λ q. cc (ne, eq_text_refl (s.nodes new).id, ap (λ x. (s.nodes x).id) q) in
    let (kept, linked) =
      relinked_IsTree s s' i n old new position h v same links index at_id up apart below in
    (kept, (n, new, root, at_id, tree, target, linked))
