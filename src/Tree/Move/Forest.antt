-- ===== src/Tree/Move/Forest.antt =====
-- A node that moves to a place outside its own subtree leaves a forest a forest
-- (backend/internal/core/tree/tree_service.go).
use native.Mathlib.Bridge.{le_prop}
use komachi.Base.{
  ℕ, ◌+◌, ◌<◌, ◌≡◌, subst, ◌≢◌, inl, inr, Bool, true, false, ◌||◌, arith, eqb, eqb_iff, Bool-cases,
  if◌then◌else◌,
}
use komachi.Tree.Types.{Nodes}
use komachi.Tree.Move.{search_below}
use komachi.Tree.Move.Below.{Edge, Below, child, down, IsForest, not-Below_of_search, search_sound}
use komachi.Tree.Move.Relink.{Gains}

Below-snoc : {h : Nodes} {a b c : ℕ} → Below h a b → Edge h b c → Below h a c
Below-snoc (child e) x = down e (child x)
Below-snoc (down e b) x = down e (Below-snoc b x)

-- the subtree of a node, decided by the walk
inside : Nodes → ℕ → ℕ → ℕ → Bool
inside h n node q = eqb q node || search_below h (λ c. eqb c q) n node

Below-of_search :
    (h : Nodes) (n node q : ℕ) → search_below h (λ c. eqb c q) n node ≡ true → Below h node q
Below-of_search h n node q e =
    let (d, b, t) = search_sound h (λ c. eqb c q) n node e in
    subst (Below h node) ((eqb_iff d q).0 t) b

module _ {h : Nodes} {n : ℕ} (f : IsForest h n) (node : ℕ) where
  inside_of_Below : (q : ℕ) → Below h node q → inside h n node q ≡ true
  unfolding inside
  inside_of_Below q b = elim (Bool-cases (search_below h (λ c. eqb c q) n node)) [
    | inl e ↦ ground arith
    | inr e ↦ absurd (not-Below_of_search f (λ c. eqb c q) node q e (ground arith) b)
  ]

  inside-child : (p c : ℕ) → inside h n node p ≡ true → Edge h p c → inside h n node c ≡ true
  unfolding inside
  inside-child p c e x = elim (Bool-cases (eqb p node)) [
    | inl t ↦ inside_of_Below c (subst (λ z. Below h z c) ((eqb_iff p node).0 t) (child x))
    | inr t ↦ inside_of_Below c (Below-snoc (Below-of_search h n node p (ground arith)) x)
  ]

  not_inside : (q : ℕ) → q ≢ node → ¬ Below h node q → inside h n node q ≡ false
  unfolding inside
  not_inside q ne nb = elim (Bool-cases (search_below h (λ c. eqb c q) n node)) [
    | inl e ↦ absurd (nb (Below-of_search h n node q e))
    | inr e ↦ ground arith
  ]

  raised : ℕ → ℕ
  raised q = if inside h n node q then f.rank q else f.rank q + f.rank node + 1

  raised_falls : (p c : ℕ) → Edge h p c → raised c < raised p
  unfolding raised
  raised_falls p c x = ground (arith, f.falls p c x, inside-child p c)

  raised_gain : (new : ℕ) → new ≢ node → ¬ Below h node new → raised node < raised new
  unfolding raised inside
  raised_gain new ne nb = ground (arith, not_inside new ne nb)

-- The move adds one child, the node under its new parent, which is neither the node nor below it.
pub Gains-IsForest :
    (h h' : Nodes) (n node old new : ℕ)
    → IsForest h n
    → Gains h' h old new node
    → new ≢ node
    → ¬ Below h node new
    → node < n
    → IsForest h' n
Gains-IsForest h h' n node old new f g ne nb l = record {
  rank = raised f node;
  falls = λ p c x.
      g p c (raised f node c < raised f node p) le_prop x (λ y _. raised_falls f node p c y)
        (λ ep ec. rw (ep, ec) (raised_gain f node new ne nb));
  allocated = λ p c x. g p c (c < n) le_prop x (λ y _. f.allocated p c y) (λ ep ec. rw ec l);
}
