-- ===== src/Tree/Ensure/Laws.antt =====
-- What `EnsurePagePath` makes (backend/internal/core/tree/tree_service.go).
use komachi.Base.{
  ℕ, suc, ◌≡◌, ◌⊎◌, inl, inr, sym, subst, ap, ◌∙◌, Text, true, false, Option, none, some, List, [],
  ◌∷◌, map, arith, Bool-cases, Option-cases, Answer-cases, Result-cases, Result, ok, err,
}
use komachi.Tree.Types.{NodeRepository, TreeService, TreeError}
use komachi.Tree.Index.{get_node_by_id}
use komachi.Tree.Create.{create_node, requested_parent}
use komachi.Tree.Create.Placed.{IsPlaced, create_node-IsPlaced}
use komachi.Tree.Lookup.{PathSegment, PathLookup, lookup_page_path}
use komachi.Tree.Ensure.{
  Wish, Created, EnsurePathResult, segment_request, made, add_created, last_id, create_missing,
  page_of, find_id, ensured, ensure_looked_up, ensure_page_path,
}

-- the slugs of the segments that do not exist
abbrev pub missing_slugs : List PathSegment → List Text
missing_slugs [] = []
missing_slugs (g ∷ gs) = elim g.exists [
  | true ↦ missing_slugs gs
  | false ↦ g.slug ∷ missing_slugs gs
]

abbrev pub slugs_of : List Created → List Text
slugs_of cs = map (λ (c : Created). c.slug) cs

add_created-ok :
    (c : Created) (r : Result TreeError (Option Text × List Created)) (i : Option Text)
    (cs : List Created)
    → add_created c r ≡ ok (i, cs)
    → (cs' : List Created) × (r ≡ ok (i, cs')) × (cs ≡ c ∷ cs')
add_created-ok c (ok (j, cs')) i cs e = (cs', ground arith, ground arith)
add_created-ok c (err x) i cs e = absurd (ground arith)

module _ {R : NodeRepository} where
  slugs_of-create_missing :
      (w : Wish) (k : ℕ) (current : Option Text) (gs : List PathSegment) (s t : TreeService R)
      (i : Option Text) (cs : List Created)
      → create_missing w k current gs s ≡ (ok (i, cs), t)
      → slugs_of cs ≡ missing_slugs gs
  unfolding create_missing
  slugs_of-create_missing w k current [] s t i cs e = ground arith
  slugs_of-create_missing w k current (g ∷ rest) s t i cs e = elim (Bool-cases g.exists) [
    | inl there ↦ rw there (slugs_of-create_missing w (suc k) g.id rest s t i cs (rw there at e))
    | inr gone ↦ elim (Answer-cases (create_node (segment_request w k current g rest) s)) [
      | inr (x, u, failed) ↦ let z = rw (gone, failed) at e in absurd (ground arith)
      | inl (n, u, created) ↦
          let z = rw (gone, created) at e in
          let u' = (create_node (segment_request w k current g rest) s).1 in
          let i' = (u'.nodes n).id in
          let (later, v) = create_missing w (suc k) (some i') rest u' in
          let (cs', e', split_off) =
            add_created-ok (made w i' g rest) later i cs (ap (λ r. r.0) z) in
          let others =
            slugs_of-create_missing w (suc k) (some i') rest u' v i cs' (ap (λ r. (r, v)) e') in
          rw gone (ap slugs_of split_off ∙ ap (λ y. g.slug ∷ y) others)
    ]
  ]

-- What the loop over the segments does, with the id of the node that it has come to, if any: a segment
-- that exists is passed, and for one that is missing a node is made, a child of the node that the id
-- names (or of the root), which is the one that the loop has come to then.
pub data IsBuilt {R : NodeRepository} (w : Wish)
    : Option Text → List PathSegment → TreeService R → TreeService R → List Created → Type 0 where
  built : {current : Option Text} {s : TreeService R} → IsBuilt w current [] s s []
  passed :
      {current : Option Text} {g : PathSegment} {rest : List PathSegment} {s t : TreeService R}
      {cs : List Created}
      → g.exists ≡ true
      → IsBuilt w g.id rest s t cs
      → IsBuilt w current (g ∷ rest) s t cs
  child :
      {current : Option Text} {g : PathSegment} {rest : List PathSegment} {s t u : TreeService R}
      {cs : List Created} (k root p n : ℕ)
      → g.exists ≡ false
      → s.tree ≡ some root
      → requested_parent s root current ≡ some p
      → IsPlaced (segment_request w k current g rest) p n t.nodes
      → IsBuilt w (some (t.nodes n).id) rest t u cs
      → IsBuilt w current (g ∷ rest) s u (made w (t.nodes n).id g rest ∷ cs)

module _ {R : NodeRepository} where
  create_missing-IsBuilt :
      (w : Wish) (k : ℕ) (current : Option Text) (gs : List PathSegment) (s t : TreeService R)
      (i : Option Text) (cs : List Created)
      → create_missing w k current gs s ≡ (ok (i, cs), t)
      → IsBuilt w current gs s t cs
  unfolding create_missing
  create_missing-IsBuilt w k current [] s t i cs e =
      let same : s ≡ t = ap (λ z. z.1) e in
      let empty : cs ≡ [] = ground arith in
      subst (λ x. IsBuilt w current [] s x cs) same
        (subst (λ x. IsBuilt w current [] s s x) (sym empty) built)
  create_missing-IsBuilt w k current (g ∷ rest) s t i cs e = elim (Bool-cases g.exists) [
    | inl there ↦ passed there (create_missing-IsBuilt w (suc k) g.id rest s t i cs (rw there at e))
    | inr gone ↦ elim (Answer-cases (create_node (segment_request w k current g rest) s)) [
      | inr (x, u, failed) ↦ let z = rw (gone, failed) at e in absurd (ground arith)
      | inl (n, u, created) ↦
          let z = rw (gone, created) at e in
          let u' = (create_node (segment_request w k current g rest) s).1 in
          let i' = (u'.nodes n).id in
          let later = (create_missing w (suc k) (some i') rest u').0 in
          let (cs', e', split_off) =
            add_created-ok (made w i' g rest) later i cs (ap (λ r. r.0) z) in
          let (root, p, tree, parent, v) =
            create_node-IsPlaced (segment_request w k current g rest) n s u'
              (λ j. ((created j).0, u')) in
          let others =
            create_missing-IsBuilt w (suc k) (some i') rest u' t i cs' (λ j. (e' j, (z j).1)) in
          subst (IsBuilt w current (g ∷ rest) s t) (sym split_off)
            (child k root p n gone tree parent v others)
    ]
  ]

page_of-ok :
    (o : Option ℕ) (cs : List Created) (r : EnsurePathResult) → page_of o cs ≡ ok r → r.created ≡ cs
page_of-ok none cs r e = absurd (ground arith)
page_of-ok (some n) cs r e = ground arith

ensured-ok :
    {R : NodeRepository} (a : Result TreeError (Option Text × List Created)) (s t : TreeService R)
    (r : EnsurePathResult)
    → ensured (a, s) ≡ (ok r, t)
    → (i : Option Text) × (a ≡ ok (i, r.created)) × (s ≡ t)
ensured-ok (err x) s t r e = absurd (ground arith)
ensured-ok (ok (none, cs)) s t r e = absurd (ground arith)
ensured-ok (ok (some i, cs)) s t r e =
    let same = page_of-ok (get_node_by_id s i) cs r (ap (λ z. z.0) e) in
    let state = ap (λ z. z.1) e in (some i, ap (λ cs'. ok (some i, cs')) (sym same), state)

ensure_looked_up-ok :
    {R : NodeRepository} (w : Wish) (l : PathLookup) (s t : TreeService R) (r : EnsurePathResult)
    → ensure_looked_up w (ok l) s ≡ (ok r, t)
    → ((l.exists ≡ true) × (r.created ≡ []) × (t ≡ s))
      ⊎ ((l.exists ≡ false)
          × (slugs_of r.created ≡ missing_slugs l.segments)
          × IsBuilt w none l.segments s t r.created)
ensure_looked_up-ok w l s t r e = elim (Bool-cases l.exists) [
  | inl there ↦
      let z = rw there at e in
      inl (
        there,
        page_of-ok (find_id s (last_id l.segments)) [] r (ap (λ y. y.0) z),
        sym (ap (λ y. y.1) z),
      )
  | inr gone ↦
      let (a, u) = create_missing w 0 none l.segments s in
      let (i, z, z') = ensured-ok a u t r (rw gone at e) in
      let answer : create_missing w 0 none l.segments s ≡ (ok (i, r.created), t) =
        λ j. (z j, z' j) in
      inr (
        gone,
        slugs_of-create_missing w 0 none l.segments s t i r.created answer,
        create_missing-IsBuilt w 0 none l.segments s t i r.created answer,
      )
]

-- `EnsurePagePath` that succeeds found the path, and changed nothing, or made a node for each
-- segment that was missing and for no other, in their order and with their slugs, titles and kinds,
-- each a child of the node before it on the path: the first of the last that exists, or of the root,
-- and each other of the one made before.
pub ensure_page_path-created :
    {R : NodeRepository} (w : Wish) (p : Text) (s t : TreeService R) (r : EnsurePathResult)
    → ensure_page_path w p s ≡ (ok r, t)
    → (l : PathLookup) × (lookup_page_path s p ≡ ok l)
      × (((l.exists ≡ true) × (r.created ≡ []) × (t ≡ s))
          ⊎ ((l.exists ≡ false)
              × (slugs_of r.created ≡ missing_slugs l.segments)
              × IsBuilt w none l.segments s t r.created))
unfolding ensure_page_path
ensure_page_path-created w p s t r e = elim (Option-cases s.tree) [
  | inl no_tree ↦ absurd (ground arith)
  | inr (root, tree) ↦ elim (Result-cases (lookup_page_path s p)) [
    | inr (x, failed) ↦ absurd (ground arith)
    | inl (l, found) ↦ (l, found, ensure_looked_up-ok w l s t r (ground arith))
  ]
]
