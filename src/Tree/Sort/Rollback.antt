-- ===== src/Tree/Sort/Rollback.antt =====
-- `SortPages` that cannot save the order restores what it changed
-- (backend/internal/core/tree/tree_service.go).
use mathlib.Core.List.{Mem, mem-cons, not-mem-nil, dec_mem}
use mathlib.Core.List.Perm
use mathlib.Core.Logic.Or
use native.Mathlib.Decide.{ℕ_discrete}
use native.Mathlib.Nat.{ℕ_set}
use komachi.Base.{
  ℕ, ◌+◌, ◌≡◌, refl, ◌∙◌, ap, subst, ◌≢◌, Text, Dict, false, Option, some, List, [], ◌∷◌, arith,
  eq_text_iff, lookup, set_key, lookup-set_key, err, Option-cases, inl, inr,
}
use komachi.Tree.Types.{PageNode, Nodes, TreeError, NodeRepository, TreeService, put_node}
use komachi.Tree.Order.{number_from, set_children, sort_stable, reindex_positions, position_of}
use komachi.Tree.Order.Laws.{SameButPosition, number_from-SameButPosition, sort_stable-perm}
use komachi.Tree.Store.{resolve_parent}
use komachi.Tree.Sort.{
  mem_text, has_duplicate, wanted, snapshot_positions, restore_positions, put_position, child_ids,
  sorted_nodes, sort_pages,
}

Option_ℕ-set : {x y : Option ℕ} → IsProp (x ≡ y)
Option_ℕ-set = Option_set _ _
  where
    Option_set : IsSet (Option ℕ)
    Option_set = hlevel

lookup-snapshot_out :
    (b : Nodes) (m : Dict ℕ) (cs : List ℕ) (t : Text)
    → mem_text t (child_ids b cs) ≡ false
    → lookup t (snapshot_positions b m cs) ≡ lookup t m
unfolding snapshot_positions
lookup-snapshot_out b m [] t h = refl
lookup-snapshot_out b m (c ∷ cs) t h =
    lookup-snapshot_out b (set_key (b c).id (b c).position m) cs t (ground arith)
    ∙ ground (arith, lookup-set_key (b c).id t (b c).position m)

-- With distinct ids the snapshot holds the position of each child.
lookup-snapshot :
    (b : Nodes) (m : Dict ℕ) (cs : List ℕ) (q : ℕ)
    → has_duplicate (child_ids b cs) ≡ false
    → Mem q cs
    → lookup (b q).id (snapshot_positions b m cs) ≡ some (b q).position
unfolding snapshot_positions
lookup-snapshot b m [] q d k = absurd (not-mem-nil k)
lookup-snapshot b m (c ∷ cs) q d k =
    Or.elim Option_ℕ-set (mem-cons.0 k)
      (λ e. rw e (
        lookup-snapshot_out b (set_key (b c).id (b c).position m) cs (b c).id (ground arith)
        ∙ ground (
          arith,
          lookup-set_key (b c).id (b c).id (b c).position m,
          eq_text_iff (b c).id (b c).id,
        )))
      (λ r. lookup-snapshot b (set_key (b c).id (b c).position m) cs q (ground arith) r)

restore_positions-SameButPosition :
    (m : Dict ℕ) (cs : List ℕ) (h : Nodes) (q : ℕ)
    → SameButPosition (restore_positions m cs h q) (h q)
unfolding restore_positions
restore_positions-SameButPosition m [] h q = ground arith
restore_positions-SameButPosition m (c ∷ cs) h q =
    ground (arith, restore_positions-SameButPosition m cs (put_position (lookup (h c).id m) c h) q)

position-restore_out :
    (m : Dict ℕ) (cs : List ℕ) (h : Nodes) (q : ℕ)
    → ¬ Mem q cs
    → (restore_positions m cs h q).position ≡ (h q).position
unfolding restore_positions
position-restore_out m [] h q k = refl
position-restore_out m (c ∷ cs) h q k =
    let ne : q ≢ c = λ e. k (mem-cons.1 (Or.inl e)) in
    position-restore_out m cs (put_position (lookup (h c).id m) c h) q
      (λ r. k (mem-cons.1 (Or.inr r)))
    ∙ ground arith

-- Every child whose id the snapshot knows gets the position recorded.
position-restore :
    (m : Dict ℕ) (cs : List ℕ) (h : Nodes) (q n : ℕ)
    → Mem q cs
    → lookup (h q).id m ≡ some n
    → (restore_positions m cs h q).position ≡ n
unfolding restore_positions
position-restore m [] h q n k e = absurd (not-mem-nil k)
position-restore m (c ∷ cs) h q n k e =
    let h' : Nodes = put_position (lookup (h c).id m) c h in
    elim (dec_mem ℕ_discrete q cs) [
      | yes r ↦ position-restore m cs h' q n r (ground arith)
      | no r ↦
          position-restore_out m cs h' q r
          ∙ Or.elim (ℕ_set _ _) (mem-cons.0 k) (λ w. ground arith) (λ w. absurd (r w))
    ]

SameButPosition-trans :
    {a b c : PageNode} → SameButPosition a b → SameButPosition b c → SameButPosition a c
SameButPosition-trans v w = ground arith

eq_of_SameButPosition : (a b : PageNode) → SameButPosition a b → a.position ≡ b.position → a ≡ b
eq_of_SameButPosition a b v e = ground arith

position-number_from_ne :
    (i : ℕ) (cs : List ℕ) (h : Nodes) (q : ℕ)
    → ¬ Mem q cs
    → (number_from i cs h q).position ≡ (h q).position
unfolding number_from
position-number_from_ne i [] h q k = refl
position-number_from_ne i (c ∷ cs) h q k =
    let ne : q ≢ c = λ e. k (mem-cons.1 (Or.inl e)) in
    position-number_from_ne (i + 1) cs (put_node c (record (h c) { position = i }) h) q
      (λ r. k (mem-cons.1 (Or.inr r)))
    ∙ ground arith

-- Two heaps that agree but for the children of `p` and for positions, and on these outside `kids`.
record AgreesBut (p : ℕ) (kids : List ℕ) (h b : Nodes) : Type 0 where
  pub fields :
      (cs : List ℕ) (q : ℕ) → SameButPosition (set_children p cs h q) (set_children p cs b q)
  pub outside : (q : ℕ) → ¬ Mem q kids → (h q).position ≡ (b q).position

AgreesBut-trans :
    {p : ℕ} {kids : List ℕ} {a b c : Nodes}
    → AgreesBut p kids a b
    → AgreesBut p kids b c
    → AgreesBut p kids a c
AgreesBut-trans v w = record {
  fields = λ cs q. SameButPosition-trans (v.fields cs q) (w.fields cs q);
  outside = λ q k. v.outside q k ∙ w.outside q k;
}

set_children-SameButPosition :
    (p : ℕ) (cs : List ℕ) (h : Nodes) (g : Nodes) (q : ℕ)
    → ((x : ℕ) → SameButPosition (h x) (g x))
    → SameButPosition (set_children p cs h q) (set_children p cs g q)
set_children-SameButPosition p cs h g q v = ground (arith, v p, v q)

renumber-AgreesBut :
    (p : ℕ) (kids cs : List ℕ) (h : Nodes)
    → ((q : ℕ) → ¬ Mem q kids → ¬ Mem q cs)
    → AgreesBut p kids (number_from 0 cs (set_children p cs h)) h
renumber-AgreesBut p kids cs h sub = record {
  fields = λ ds q.
      SameButPosition-trans
        (set_children-SameButPosition p ds (number_from 0 cs (set_children p cs h))
          (set_children p cs h) q (number_from-SameButPosition 0 cs (set_children p cs h)))
        (ground arith);
  outside = λ q k. position-number_from_ne 0 cs (set_children p cs h) q (sub q k) ∙ ground arith;
}

sorted_nodes-AgreesBut :
    (p : ℕ) (ordered : List Text) (h : Nodes)
    → AgreesBut p (h p).children (sorted_nodes p ordered h) h
unfolding sorted_nodes reindex_positions
sorted_nodes-AgreesBut p ordered h =
    let kids = (h p).children in
    let cs = sort_stable (wanted h ordered) kids in
    let mid : Nodes = number_from 0 cs (set_children p cs h) in
    let ds = sort_stable (position_of mid) (mid p).children in
    let sub : (q : ℕ) → ¬ Mem q kids → ¬ Mem q cs =
      λ q k m. k (Perm.subset (sort_stable-perm (wanted h ordered) kids) q m) in
    let mids : (mid p).children ≡ cs =
      (number_from-SameButPosition 0 cs (set_children p cs h) p).children ∙ ground arith in
    AgreesBut-trans
      (renumber-AgreesBut p kids ds mid (λ q k m. sub q k (
        subst (Mem q) mids
          (Perm.subset (sort_stable-perm (position_of mid) (mid p).children) q m))))
      (renumber-AgreesBut p kids cs h sub)

restore_all :
    (p : ℕ) (h b : Nodes)
    → has_duplicate (child_ids b (b p).children) ≡ false
    → AgreesBut p (b p).children h b
    → (q : ℕ)
    → restore_positions
        (snapshot_positions b [] (b p).children)
        (b p).children
        (set_children p (b p).children h)
        q
      ≡ b q
restore_all p h b d v q =
    let kids = (b p).children in
    let m = snapshot_positions b [] kids in
    let h2 : Nodes = set_children p kids h in
    let same : SameButPosition (h2 q) (b q) = ground (arith, v.fields kids q) in
    eq_of_SameButPosition _ (b q)
      (SameButPosition-trans (restore_positions-SameButPosition m kids h2 q) same)
      (elim (dec_mem ℕ_discrete q kids) [
        | yes k ↦
            position-restore m kids h2 q (b q).position k
              (ap (λ t. lookup t m) same.id ∙ lookup-snapshot b [] kids q d k)
        | no k ↦ position-restore_out m kids h2 q k ∙ ground (arith, v.outside q k)
      ])

-- `SortPages` that fails, for whatever reason, leaves every node as it was, where no two children
-- of a node have one id.
pub nodes-sort_pages_failed :
    {R : NodeRepository} (s : TreeService R) (i : Text) (ordered : List Text) {e : TreeError}
    → ((p : ℕ) → has_duplicate (child_ids s.nodes (s.nodes p).children) ≡ false)
    → (sort_pages i ordered s).0 ≡ err e
    → (q : ℕ) → (sort_pages i ordered s).1.nodes q ≡ s.nodes q
unfolding sort_pages
nodes-sort_pages_failed s i ordered d f q = elim (Option-cases s.tree) [
  | inl t ↦ rw (t, sort_pages)
  | inr (root, t) ↦ elim (Option-cases (resolve_parent s root i)) [
    | inl r ↦ ground arith
    | inr (p, r) ↦ ground (
      arith,
      restore_all p (sorted_nodes p ordered s.nodes) s.nodes (d p)
          (sorted_nodes-AgreesBut p ordered s.nodes) q,
    )
  ]
]
