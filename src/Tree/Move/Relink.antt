-- ===== src/Tree/Move/Relink.antt =====
-- What the writes of `MoveNodeToPosition` do to the children of each node
-- (backend/internal/core/tree/tree_service.go).
use mathlib.Core.List.{
  Mem, mem-cons, mem-append, mem-cons_self, not-mem-nil, Nodup, Nodup-cons, Perm,
}
use mathlib.Core.HLevel.{⊥_prop}
use mathlib.Core.List.Perm
use mathlib.Core.Logic.{∥∥₁_prop}
use mathlib.Core.Logic.Or
use native.Mathlib.Decide.{ℕ_discrete}
use komachi.Base.{
  ℕ, zero, suc, ◌≡◌, refl, ap, ◌∙◌, sym, subst, ◌≢◌, inl, inr, Text, Option, some, eq_text_iff,
  List, [], ◌∷◌, arith, ◌==◌, take, drop, Bool-cases,
}
use komachi.Tree.Types.{Nodes, NodeKind}
use komachi.Tree.Order.{set_children, sort_stable, reindex_positions, position_of}
use komachi.Tree.Order.Laws.{sort_stable-perm, number_from-SameButPosition}
use komachi.Tree.Store.{touch, set_kind}
use komachi.Tree.Delete.{drop_id}
use komachi.Tree.Move.{insert_index, insert_at, relink}
use komachi.Tree.Move.Below.{Edge}

-- Every child in `h'` was one in `h`, under the same node, and is not `n` if that node is `old`; or is
-- `n` under `new`.
abbrev pub Gains : Nodes → Nodes → ℕ → ℕ → ℕ → Type 1
Gains h' h old new n =
    (p c : ℕ) (P : Type 0)
    → IsProp P
    → Edge h' p c
    → (Edge h p c → (p ≡ old → c ≢ n) → P)
    → (p ≡ new → c ≡ n → P)
    → P

-- Every child in `h'` was one in `h`.
abbrev pub Within : Nodes → Nodes → Type 0
Within h' h = (p c : ℕ) → Edge h' p c → Edge h p c

mem-drop_id : (h : Nodes) (i : Text) (c : ℕ) (cs : List ℕ) → Mem c (drop_id h i cs) → Mem c cs
unfolding drop_id
mem-drop_id h i c [] m = m
mem-drop_id h i c (d ∷ ds) m = elim (Bool-cases ((h d).id == i)) [
  | inl e ↦ mem-cons.1 (Or.inr (rw (e, drop_id) at m))
  | inr e ↦
      Or.elim ∥∥₁_prop (mem-cons.0 (rw (e, drop_id) at m)) (λ q. mem-cons.1 (Or.inl q))
        (λ r. mem-cons.1 (Or.inr (mem-drop_id h i c ds r)))
]

mem-drop_id_of :
    (h : Nodes) (i : Text) (c : ℕ) (cs : List ℕ) → (h c).id ≢ i → Mem c cs → Mem c (drop_id h i cs)
unfolding drop_id
mem-drop_id_of h i c [] ne m = m
mem-drop_id_of h i c (d ∷ ds) ne m = elim (Bool-cases ((h d).id == i)) [
  | inl e ↦ rw e (
      Or.elim ∥∥₁_prop (mem-cons.0 m)
        (λ q. absurd (ne (ap (λ x. (h x).id) q ∙ (eq_text_iff (h d).id i).0 e))) (λ r. r))
  | inr e ↦ rw e (
      Or.elim ∥∥₁_prop (mem-cons.0 m) (λ q. mem-cons.1 (Or.inl q))
        (λ r. mem-cons.1 (Or.inr (mem-drop_id_of h i c ds ne r))))
]

-- The node that is dropped is gone, where it alone has the id and is there once.
not-Mem-drop_id :
    (h : Nodes) (i : Text) (n : ℕ) (cs : List ℕ)
    → Nodup cs
    → (h n).id ≡ i
    → ((d : ℕ) → Mem d cs → (h d).id ≡ i → d ≡ n)
    → ¬ Mem n (drop_id h i cs)
unfolding drop_id
not-Mem-drop_id h i n [] once e only m = not-mem-nil m
not-Mem-drop_id h i n (d ∷ ds) once e only m =
    let (out, rest) = Nodup-cons.0 once in
    elim (Bool-cases ((h d).id == i)) [
      | inl t ↦
          let q = only d mem-cons_self ((eq_text_iff (h d).id i).0 t) in
          out (subst (λ x. Mem x ds) (sym q) (rw (t, drop_id) at m))
      | inr t ↦
          Or.elim ⊥_prop (mem-cons.0 (rw (t, drop_id) at m))
            (λ q. ground (arith, eq_text_iff (h d).id i, ap (λ x. (h x).id) q))
            (λ r. not-Mem-drop_id h i n ds rest e (λ d' z. only d' (mem-cons.1 (Or.inr z))) r)
    ]

Nodup-drop_id : (h : Nodes) (i : Text) (cs : List ℕ) → Nodup cs → Nodup (drop_id h i cs)
unfolding drop_id
Nodup-drop_id h i [] once = once
Nodup-drop_id h i (d ∷ ds) once =
    let (out, rest) = Nodup-cons.0 once in
    elim (Bool-cases ((h d).id == i)) [
      | inl t ↦ rw t rest
      | inr t ↦ rw t (Nodup-cons.1 ((λ m. out (mem-drop_id h i d ds m)), Nodup-drop_id h i ds rest))
    ]

mem-take : (k c : ℕ) (cs : List ℕ) → Mem c (take k cs) → Mem c cs
mem-take zero c cs m = absurd (not-mem-nil m)
mem-take (suc k) c [] m = m
mem-take (suc k) c (d ∷ ds) m =
    Or.elim ∥∥₁_prop (mem-cons.0 m) (λ q. mem-cons.1 (Or.inl q))
      (λ r. mem-cons.1 (Or.inr (mem-take k c ds r)))

mem-drop : (k c : ℕ) (cs : List ℕ) → Mem c (drop k cs) → Mem c cs
mem-drop zero c cs m = m
mem-drop (suc k) c [] m = m
mem-drop (suc k) c (d ∷ ds) m = mem-cons.1 (Or.inr (mem-drop k c ds m))

mem-insert_at :
    (k n c : ℕ) (cs : List ℕ) {P : Type 0}
    → IsProp P
    → Mem c (insert_at k n cs)
    → (Mem c cs → P)
    → (c ≡ n → P)
    → P
mem-insert_at k n c cs pp m old new =
    Or.elim pp (mem-append.0 m) (λ t. old (mem-take k c cs t))
      (λ r. Or.elim pp (mem-cons.0 r) new (λ d. old (mem-drop k c cs d)))

mem-insert_at_of : (k n c : ℕ) (cs : List ℕ) → Mem c cs → Mem c (insert_at k n cs)
mem-insert_at_of zero n c cs m = mem-cons.1 (Or.inr m)
mem-insert_at_of (suc k) n c [] m = absurd (not-mem-nil m)
mem-insert_at_of (suc k) n c (d ∷ ds) m =
    Or.elim ∥∥₁_prop (mem-cons.0 m) (λ q. mem-cons.1 (Or.inl q))
      (λ r. mem-cons.1 (Or.inr (mem-insert_at_of k n c ds r)))

Nodup-insert_at : (k n : ℕ) (cs : List ℕ) → ¬ Mem n cs → Nodup cs → Nodup (insert_at k n cs)
Nodup-insert_at zero n cs out once = Nodup-cons.1 (out, once)
Nodup-insert_at (suc k) n [] out once = Nodup-cons.1 (out, once)
Nodup-insert_at (suc k) n (d ∷ ds) out once =
    let (first, rest) = Nodup-cons.0 once in
    Nodup-cons.1 (
      λ m. mem-insert_at k n d ds ⊥_prop m first (λ q. out (mem-cons.1 (Or.inl (sym q)))),
      Nodup-insert_at k n ds (λ m. out (mem-cons.1 (Or.inr m))) rest,
    )

mem-insert_at_self : (k n : ℕ) (cs : List ℕ) → Mem n (insert_at k n cs)
mem-insert_at_self k n cs = mem-append.1 (Or.inr mem-cons_self)

-- The same links: children, whatever their order, parents and ids.
pub record SameLinks (h' h : Nodes) : Type 0 where
  pub within : Within h' h
  pub back : Within h h'
  pub parents : (q : ℕ) → (h' q).parent ≡ (h q).parent
  pub ids : (q : ℕ) → (h' q).id ≡ (h q).id
  pub once : (q : ℕ) → Nodup (h q).children → Nodup (h' q).children

pub SameLinks-refl : (h : Nodes) → SameLinks h h
SameLinks-refl h = record {
  within = λ p c x. x;
  back = λ p c x. x;
  parents = λ q. refl;
  ids = λ q. refl;
  once = λ q x. x;
}

pub SameLinks-trans : {a b c : Nodes} → SameLinks a b → SameLinks b c → SameLinks a c
SameLinks-trans x y = record {
  within = λ p c e. y.within p c (x.within p c e);
  back = λ p c e. x.back p c (y.back p c e);
  parents = λ q. x.parents q ∙ y.parents q;
  ids = λ q. x.ids q ∙ y.ids q;
  once = λ q z. x.once q (y.once q z);
}

-- a write to one node that keeps its links
pub SameLinks-of_eq :
    {h' h : Nodes}
    → ((q : ℕ) → (h' q).children ≡ (h q).children)
    → ((q : ℕ) → (h' q).parent ≡ (h q).parent)
    → ((q : ℕ) → (h' q).id ≡ (h q).id)
    → SameLinks h' h
SameLinks-of_eq kids parents ids = record {
  within = λ p c x. subst (Mem c) (kids p) x;
  back = λ p c x. subst (Mem c) (sym (kids p)) x;
  parents = parents;
  ids = ids;
  once = λ q x. subst Nodup (sym (kids q)) x;
}

pub touch-SameLinks : (p now : ℕ) (user : Text) (h : Nodes) → SameLinks (touch p now user h) h
touch-SameLinks p now user h =
    SameLinks-of_eq (λ q. ground arith) (λ q. ground arith) (λ q. ground arith)

pub set_kind-SameLinks : (p : ℕ) (k : NodeKind) (h : Nodes) → SameLinks (set_kind p k h) h
set_kind-SameLinks p k h =
    SameLinks-of_eq (λ q. ground arith) (λ q. ground arith) (λ q. ground arith)

set_children-SameLinks :
    (p : ℕ) (cs : List ℕ) (h : Nodes) → Perm cs (h p).children → SameLinks (set_children p cs h) h
set_children-SameLinks p cs h perm = record {
  within = λ q c m. elim (ℕ_discrete q p) [
    | yes e ↦
        subst (λ x. Mem c (h x).children) (sym e)
          (Perm.subset perm c (subst (Mem c) (ground arith) m))
    | no ne ↦ subst (Mem c) (ground arith) m
  ];
  back = λ q c m. elim (ℕ_discrete q p) [
    | yes e ↦
        subst (Mem c) (ground arith)
          (Perm.subset (Perm.symm perm) c (subst (λ x. Mem c (h x).children) e m))
    | no ne ↦ subst (Mem c) (ground arith) m
  ];
  parents = λ q. ground arith;
  ids = λ q. ground arith;
  once = λ q x. elim (ℕ_discrete q p) [
    | yes e ↦
        subst Nodup (ground arith)
          (Perm.nodup (Perm.symm perm) (subst (λ y. Nodup (h y).children) e x))
    | no ne ↦ subst Nodup (ground arith) x
  ];
}

pub reindex-SameLinks : (p : ℕ) (h : Nodes) → SameLinks (reindex_positions p h) h
unfolding reindex_positions
reindex-SameLinks p h =
    let cs = sort_stable (position_of h) (h p).children in
    let same = number_from-SameButPosition 0 cs (set_children p cs h) in
    SameLinks-trans
      (SameLinks-of_eq (λ q. (same q).children) (λ q. (same q).parent) (λ q. (same q).id))
      (set_children-SameLinks p cs h (sort_stable-perm (position_of h) (h p).children))

module _ (i : Text) (old : ℕ) (h : Nodes) where
  abbrev dropped : Nodes
  dropped = set_children old (drop_id h i (h old).children) h

  Edge-dropped : (q c : ℕ) → Edge dropped q c → Edge h q c
  Edge-dropped q c m = elim (ℕ_discrete q old) [
    | yes e ↦
        subst (λ x. Mem c (h x).children) (sym e)
          (mem-drop_id h i c (h old).children (subst (Mem c) (ground arith) m))
    | no ne ↦ subst (Mem c) (ground arith) m
  ]

  Edge-dropped_of : (q c : ℕ) → (q ≡ old → (h c).id ≢ i) → Edge h q c → Edge dropped q c
  Edge-dropped_of q c ne m = elim (ℕ_discrete q old) [
    | yes e ↦
        subst (Mem c) (ground arith)
          (mem-drop_id_of h i c (h old).children (ne e) (subst (λ x. Mem c (h x).children) e m))
    | no apart ↦ subst (Mem c) (ground arith) m
  ]

-- `n` alone has the id among the children of `old`, and is there once.
pub record IsOnly (h : Nodes) (i : Text) (n old : ℕ) : Type 0 where
  pub id : (h n).id ≡ i
  pub alone : (d : ℕ) → Edge h old d → (h d).id ≡ i → d ≡ n
  pub once : Nodup (h old).children

module _ (i : Text) (n old new : ℕ) (position : Option ℕ) (h : Nodes) where
  abbrev place : ℕ
  place = insert_index position (dropped i old h new).children

  abbrev entered : List ℕ
  entered = insert_at place n (dropped i old h new).children

  children-relink :
      (q : ℕ)
      → (relink i n old new position h q).children
        ≡ (set_children new entered (dropped i old h) q).children
  unfolding relink
  children-relink q = ground arith

  -- The move takes the node out of its old parent, and adds it to the new one; no other child comes.
  pub relink-Gains : IsOnly h i n old → Gains (relink i n old new position h) h old new n
  relink-Gains v q c P pp m keep gain =
      let m' = subst (Mem c) (children-relink q) m in
      let kept : Edge (dropped i old h) q c → P = λ x. keep (Edge-dropped i old h q c x) (λ e z.
        let there = subst (λ y. Mem y (dropped i old h q).children) z x in
        let at_old = subst (λ y. Mem n (dropped i old h y).children) e there in
        not-Mem-drop_id h i n (h old).children v.once v.id v.alone
          (subst (Mem n) (ground arith) at_old)) in
      elim (ℕ_discrete q new) [
        | yes e ↦
            mem-insert_at place n c (dropped i old h new).children pp
              (subst (Mem c) (ground arith) m')
              (λ r. kept (subst (λ x. Mem c (dropped i old h x).children) (sym e) r)) (gain e)
        | no ne ↦ kept (subst (Mem c) (ground arith) m')
      ]

  pub relink_keeps :
      (q c : ℕ) → (q ≡ old → (h c).id ≢ i) → Edge h q c → Edge (relink i n old new position h) q c
  relink_keeps q c ne m =
      let m' = Edge-dropped_of i old h q c ne m in
      subst (Mem c) (sym (children-relink q)) (elim (ℕ_discrete q new) [
        | yes e ↦ subst (Mem c) (ground arith) (
            mem-insert_at_of place n c (dropped i old h new).children
              (subst (λ x. Mem c (dropped i old h x).children) e m'))
        | no apart ↦ subst (Mem c) (ground arith) m'
      ])

  pub Nodup-relink :
      (q : ℕ)
      → ((p : ℕ) → Nodup (h p).children)
      → ¬ Edge (dropped i old h) new n
      → Nodup (relink i n old new position h q).children
  Nodup-relink q once out =
      let left : (p : ℕ) → Nodup (dropped i old h p).children = λ p. elim (ℕ_discrete p old) [
        | yes e ↦ subst Nodup (ground arith) (Nodup-drop_id h i (h old).children (once old))
        | no ne ↦ subst Nodup (ground arith) (once p)
      ] in
      subst Nodup (sym (children-relink q)) (elim (ℕ_discrete q new) [
        | yes e ↦
            subst Nodup (ground arith)
              (Nodup-insert_at place n (dropped i old h new).children out (left new))
        | no ne ↦ subst Nodup (ground arith) (left q)
      ])

  -- the node is in no other list of children than that of its old parent, so it is in none then
  pub not-Edge-dropped :
      IsOnly h i n old → ((p : ℕ) → Edge h p n → p ≡ old) → ¬ Edge (dropped i old h) new n
  not-Edge-dropped v one m =
      let e : new ≡ old = one new (Edge-dropped i old h new n m) in
      not-Mem-drop_id h i n (h old).children v.once v.id v.alone
        (subst (Mem n) (ground arith) (subst (λ y. Mem n (dropped i old h y).children) e m))

  pub relink_under : Edge (relink i n old new position h) new n
  relink_under =
      subst (Mem n) (sym (children-relink new))
        (subst (Mem n) (ground arith) (mem-insert_at_self place n (dropped i old h new).children))

  pub parent-relink_self : (relink i n old new position h n).parent ≡ some new
  unfolding relink
  parent-relink_self = ground arith

  pub parent-relink_other :
      (q : ℕ) → q ≢ n → (relink i n old new position h q).parent ≡ (h q).parent
  unfolding relink
  parent-relink_other q ne = ground arith

  pub id-relink : (q : ℕ) → (relink i n old new position h q).id ≡ (h q).id
  unfolding relink
  id-relink q = ground arith
