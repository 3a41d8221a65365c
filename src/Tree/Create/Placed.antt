-- ===== src/Tree/Create/Placed.antt =====
-- Where `createNodeLocked` puts the node that it makes
-- (backend/internal/core/tree/tree_service.go).
use mathlib.Core.List.{Mem, mem-append, mem-cons_self}
use mathlib.Core.Logic.Or
use komachi.Base.{
  ℕ, suc, ◌≡◌, sym, subst, ◌∙◌, ap, Text, Bool, some, List, [], ◌∷◌, ◌++◌, length, arith, ok,
  Bool-cases, Option-cases, continue-ok, ◌>>=◌, ◌>>◌, inl, inr, is_none,
}
use komachi.Tree.Types.{
  Nodes, NodeKind, page, section, NodeRepository, TreeService, PageNode, put_node,
}
use komachi.Tree.Order.{set_children}
use komachi.Tree.Store.{Op, modify}
use komachi.Tree.Index.{index_node, find_child_by_slug}
use komachi.Tree.Create.{
  Request, kind_or_page, save_or_rollback, attach, create_under, requested_parent, create_node,
  new_entry, ensure_section, choose_id, create_on_disk, check_section,
}

-- `n` is a child of `p`, and what was asked for.
pub record IsPlaced (r : Request) (p n : ℕ) (h : Nodes) : Type 0 where
  pub under : Mem n (h p).children
  pub parent : (h n).parent ≡ some p
  pub slug : (h n).slug ≡ r.slug
  pub title : (h n).title ≡ r.title
  pub kind : (h n).kind ≡ kind_or_page r.kind

-- The nodes that hold the new one, at the address `e`.
abbrev placed : Request → Text → ℕ → ℕ → Nodes → Nodes
placed r i p e h =
    let h1 = put_node e (new_entry r i p (length (h p).children)) h in
    set_children p ((h1 p).children ++ e ∷ []) h1

into : (cs : List ℕ) (e : ℕ) → Mem e (cs ++ e ∷ [])
into cs e = mem-append.1 (Or.inr mem-cons_self)

placed-IsPlaced : (r : Request) (i : Text) (p e : ℕ) (h : Nodes) → IsPlaced r p e (placed r i p e h)
unfolding new_entry
placed-IsPlaced r i p e h =
    let h1 = put_node e (new_entry r i p (length (h p).children)) h in
    record {
      under = subst (Mem e) (ground arith) (into (h1 p).children e);
      parent = ground arith;
      slug = ground arith;
      title = ground arith;
      kind = ground arith;
    }

module _ {R : NodeRepository} (r : Request) where
  nodes-index_node : (e : ℕ) (s : TreeService R) → (index_node e s).nodes ≡ s.nodes
  unfolding index_node
  nodes-index_node e s = ground arith

  save_or_rollback-ok :
      (p e n : ℕ) (converted : Bool) (s t : TreeService R)
      → save_or_rollback p e converted s ≡ (ok n, t)
      → (n ≡ e) × (t.nodes ≡ s.nodes)
  unfolding save_or_rollback
  save_or_rollback-ok p e n converted s t h = ground arith

  nodes-create_on_disk :
      (k : NodeKind) (p e : ℕ) (s t : TreeService R) {u : Unit {0}}
      → create_on_disk k p e s ≡ (ok u, t)
      → t.nodes ≡ s.nodes
  nodes-create_on_disk page p e s t h = ground arith
  nodes-create_on_disk section p e s t h = ground arith

  abbrev linking : ℕ → ℕ → Bool → Op R ℕ
  linking p e converted = do
    modify (λ h. set_children p ((h p).children ++ e ∷ []) h)
    (λ t. (ok tt, index_node e t))
    save_or_rollback p e converted

  attach-ok :
      (p n : ℕ) (converted : Bool) (i : Text) (s t : TreeService R)
      → attach r p converted i s ≡ (ok n, t)
      → (n ≡ s.next) × (t.nodes ≡ placed r i p s.next s.nodes)
  unfolding attach
  attach-ok p n converted i s t h =
      let e = s.next in
      let entry : PageNode = new_entry r i p (length (s.nodes p).children) in
      let allocated : TreeService R = record s { nodes = put_node e entry s.nodes; next = suc e } in
      let (_, made, on_disk, rest) =
        continue-ok {r = create_on_disk entry.kind p e allocated} {f = λ _. linking p e converted}
          h in
      let kept = nodes-create_on_disk entry.kind p e allocated made on_disk in
      let linked : TreeService R = record made {
        nodes = set_children p ((made.nodes p).children ++ e ∷ []) made.nodes;
      } in
      let (q, k) = save_or_rollback-ok p e n converted (index_node e linked) t rest in
      (
        q,
        k
            ∙ nodes-index_node e linked
            ∙ ap (λ (g : Nodes). set_children p ((g p).children ++ e ∷ []) g) kept,
      )

  abbrev with_id : ℕ → Bool → Op R ℕ
  with_id p converted = do i ← choose_id r; attach r p converted i

  abbrev with_section : ℕ → Bool → Op R ℕ
  with_section p converted = do check_section p; with_id p converted

  create_under-ok :
      (p n : ℕ) (s t : TreeService R)
      → create_under r p s ≡ (ok n, t)
      → (s' : TreeService R) × (i : Text) × (converted : Bool) × (attach r p converted i s'
          ≡ (ok n, t))
  unfolding create_under
  create_under-ok p n s t h = elim (Bool-cases (is_none (find_child_by_slug s p r.slug))) [
    | inr taken ↦ cc (rw (taken, create_under) at h)
    | inl free ↦
        let (converted, s1, _, rest1) =
          continue-ok {r = ensure_section p s} {f = with_section p}
            (rw (free, create_under) at h) in
        let (_, s2, _, rest2) =
          continue-ok {r = check_section p s1} {f = λ _. with_id p converted} rest1 in
        let (i, s3, _, rest3) = continue-ok {r = choose_id r s2} {f = attach r p converted} rest2 in
        (s3, i, converted, rest3)
  ]

  attach-IsPlaced :
      (p n : ℕ) (converted : Bool) (i : Text) (s t : TreeService R)
      → attach r p converted i s ≡ (ok n, t)
      → IsPlaced r p n t.nodes
  attach-IsPlaced p n converted i s t h =
      let (q, k) = attach-ok p n converted i s t h in
      subst (λ (m : ℕ). IsPlaced r p m t.nodes) (sym q)
        (subst (IsPlaced r p s.next) (sym k) (placed-IsPlaced r i p s.next s.nodes))

  create_under-IsPlaced :
      (p n : ℕ) (s t : TreeService R) → create_under r p s ≡ (ok n, t) → IsPlaced r p n t.nodes
  create_under-IsPlaced p n s t h =
      let (s', i, converted, a) = create_under-ok p n s t h in
      attach-IsPlaced p n converted i s' t a

  -- A node that was made is a child of the node asked for.
  pub create_node-IsPlaced :
      (n : ℕ) (s t : TreeService R)
      → create_node r s ≡ (ok n, t)
      → (root p : ℕ) × (s.tree ≡ some root)
        × (requested_parent s root r.parent ≡ some p)
        × IsPlaced r p n t.nodes
  unfolding create_node
  create_node-IsPlaced n s t h = elim (Option-cases s.tree) [
    | inl e ↦ absurd (ground arith)
    | inr (root, e) ↦ elim (Option-cases (requested_parent s root r.parent)) [
      | inl u ↦ absurd (ground arith)
      | inr (p, u) ↦ (root, p, e, u, create_under-IsPlaced p n s t (rw (e, u, create_node) at h))
    ]
  ]
