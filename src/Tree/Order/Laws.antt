-- ===== src/Tree/Order/Laws.antt =====
-- The order of children (tree_service.go): sorting permutes, numbering touches positions alone.
use komachi.Base.{ℕ, ◌+◌, ◌≤◌, ◌≡◌, refl, ◌≢◌, inl, inr, List, [], ◌∷◌, arith, leb, All, Bool-cases}
use mathlib.Core.List.{Perm}
use mathlib.Core.List.Perm
use komachi.Tree.Types.{PageNode, Nodes, put_node}
use komachi.Tree.Order.{insert_stable, sort_stable, number_from, position_of}

-- No pointer twice.
abbrev pub Distinct : List ℕ → Type 0
Distinct [] = Unit
Distinct (c ∷ cs) = All (λ d. c ≢ d) cs × Distinct cs

-- The positions count up from `i`.
abbrev pub IsNumbered : Nodes → ℕ → List ℕ → Type 0
IsNumbered h i [] = Unit
IsNumbered h i (c ∷ cs) = ((h c).position ≡ i) × IsNumbered h (i + 1) cs

abbrev pub Ascends : {A : Type 0} → (A → ℕ) → List A → Type 0
Ascends key [] = Unit
Ascends key (c ∷ []) = Unit
Ascends key (c ∷ d ∷ ds) = (key c ≤ key d) × Ascends key (d ∷ ds)

module _ (key : ℕ → ℕ) where
  insert_stable-perm : (c : ℕ) (ds : List ℕ) → Perm (insert_stable key c ds) (c ∷ ds)
  unfolding insert_stable
  insert_stable-perm c [] = Perm.refl _
  insert_stable-perm c (d ∷ ds) = elim (Bool-cases (leb (key c) (key d))) [
    | inl e ↦ rw e (Perm.refl _)
    | inr e ↦ rw e (Perm.trans (Perm.cons d (insert_stable-perm c ds)) (Perm.swap c d ds))
  ]

  pub sort_stable-perm : (cs : List ℕ) → Perm (sort_stable key cs) cs
  unfolding sort_stable
  sort_stable-perm [] = Perm.refl _
  sort_stable-perm (c ∷ cs) =
      Perm.trans (insert_stable-perm c (sort_stable key cs)) (Perm.cons c (sort_stable-perm cs))

  insert_stable-Ascends :
      (c : ℕ) (ds : List ℕ) → Ascends key ds → Ascends key (insert_stable key c ds)
  unfolding insert_stable
  insert_stable-Ascends c [] h = tt
  insert_stable-Ascends c (d ∷ []) h = ground arith
  insert_stable-Ascends c (d ∷ e ∷ ds) h = ground (arith, insert_stable-Ascends c (e ∷ ds))

  pub sort_stable-Ascends : (cs : List ℕ) → Ascends key (sort_stable key cs)
  unfolding sort_stable
  sort_stable-Ascends [] = tt
  sort_stable-Ascends (c ∷ cs) =
      insert_stable-Ascends c (sort_stable key cs) (sort_stable-Ascends cs)

  -- An ascending list is left as it is.
  pub sort_stable-eq_of_Ascends : (cs : List ℕ) → Ascends key cs → sort_stable key cs ≡ cs
  unfolding sort_stable insert_stable
  sort_stable-eq_of_Ascends [] h = refl
  sort_stable-eq_of_Ascends (c ∷ []) h = refl
  sort_stable-eq_of_Ascends (c ∷ d ∷ ds) h =
      rw (sort_stable-eq_of_Ascends (d ∷ ds) h.1) (ground arith)

pub IsNumbered-Ascends :
    (h : Nodes) (i : ℕ) (cs : List ℕ) → IsNumbered h i cs → Ascends (position_of h) cs
IsNumbered-Ascends h i [] v = tt
IsNumbered-Ascends h i (c ∷ []) v = tt
IsNumbered-Ascends h i (c ∷ d ∷ ds) v = (omega arith, IsNumbered-Ascends h (i + 1) (d ∷ ds) v.1)

-- Two nodes that differ in their positions at most.
pub record SameButPosition (m n : PageNode) : Type 0 where
  pub id : m.id ≡ n.id
  pub title : m.title ≡ n.title
  pub slug : m.slug ≡ n.slug
  pub children : m.children ≡ n.children
  pub parent : m.parent ≡ n.parent
  pub pinned : m.pinned ≡ n.pinned
  pub kind : m.kind ≡ n.kind
  pub metadata : m.metadata ≡ n.metadata

pub number_from-SameButPosition :
    (i : ℕ) (cs : List ℕ) (h : Nodes) (q : ℕ) → SameButPosition (number_from i cs h q) (h q)
unfolding number_from
number_from-SameButPosition i [] h q = ground arith
number_from-SameButPosition i (c ∷ cs) h q =
    ground (
      arith,
      number_from-SameButPosition (i + 1) cs (put_node c (record (h c) { position = i }) h) q,
    )

position-number_from_out :
    (i : ℕ) (cs : List ℕ) (h : Nodes) (q : ℕ)
    → All (λ d. q ≢ d) cs
    → (number_from i cs h q).position ≡ (h q).position
unfolding number_from
position-number_from_out i [] h q a = refl
position-number_from_out i (c ∷ cs) h q a = ground (
  arith,
  position-number_from_out (i + 1) cs (put_node c (record (h c) { position = i }) h) q a.1,
)

pub number_from-IsNumbered :
    (i : ℕ) (cs : List ℕ) (h : Nodes) → Distinct cs → IsNumbered (number_from i cs h) i cs
unfolding number_from
number_from-IsNumbered i [] h d = tt
number_from-IsNumbered i (c ∷ cs) h d =
    let h' : Nodes = put_node c (record (h c) { position = i }) h in
    (
      ground (arith, position-number_from_out (i + 1) cs h' c d.0),
      number_from-IsNumbered (i + 1) cs h' d.1,
    )
