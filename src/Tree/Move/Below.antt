-- ===== src/Tree/Move/Below.antt =====
-- The tree as a relation: what stands below a node, and the walk of `IsChildOf`
-- (backend/internal/core/tree/page_node.go) that decides it.
use mathlib.Core.List.{Mem, mem-cons, mem-cons_self, not-mem-nil}
use mathlib.Core.Logic.Or
use komachi.Base.{
  ℕ, zero, suc, ◌+◌, ◌≤◌, ◌<◌, ◌≡◌, inl, inr, Bool, true, false, ◌||◌, List, [], ◌∷◌, arith, ltb,
  any, Bool-cases, if◌then◌else◌,
}
use komachi.Tree.Types.{Nodes}
use komachi.Tree.Move.{search_below}

abbrev pub Edge : Nodes → ℕ → ℕ → Type 0
Edge h p c = Mem c (h p).children

-- `d` is a child of `p`, or below a child of `p`.
pub data Below (h : Nodes) : ℕ → ℕ → Type 0 where
  child : {p c : ℕ} → Edge h p c → Below h p c
  down : {p c d : ℕ} → Edge h p c → Below h c d → Below h p d

pub Bool-set : IsSet Bool
Bool-set = hlevel

any-true : (f : ℕ → Bool) (c : ℕ) (cs : List ℕ) → Mem c cs → f c ≡ true → any f cs ≡ true
any-true f c [] m e = absurd (not-mem-nil m)
any-true f c (d ∷ ds) m e =
    Or.elim (Bool-set _ _) (mem-cons.0 m) (λ q. ground (arith, q))
      (λ r. ground (arith, any-true f c ds r e))

-- A rank that falls from a node to its children, so that no node is below itself; and every child
-- is an allocated node.
pub record IsForest (h : Nodes) (n : ℕ) : Type 0 where
  pub rank : ℕ → ℕ
  pub falls : (p c : ℕ) → Edge h p c → rank c < rank p
  pub allocated : (p c : ℕ) → Edge h p c → c < n

pub Below-rank :
    {h : Nodes} {n : ℕ} (f : IsForest h n) {p d : ℕ} → Below h p d → f.rank d < f.rank p
Below-rank f (child {p = p} {c = c} e) = f.falls p c e
Below-rank f (down {p = p} {c = c} e b) = omega (arith, f.falls p c e, Below-rank f b)

pub Below-irreflexive : {h : Nodes} {n : ℕ} → IsForest h n → (p : ℕ) → ¬ Below h p p
Below-irreflexive f p b = omega (arith, Below-rank f b)

-- How many of the nodes under `n` have a rank under `k`.
count_under : (ℕ → ℕ) → ℕ → ℕ → ℕ
count_under rank k zero = 0
count_under rank k (suc n) = (if ltb (rank n) k then 1 else 0) + count_under rank k n

count_under-le : (rank : ℕ → ℕ) (k n : ℕ) → count_under rank k n ≤ n
unfolding count_under
count_under-le rank k zero = omega arith
count_under-le rank k (suc n) = ground (arith, count_under-le rank k n)

count_under_mono : (rank : ℕ → ℕ) (j k n : ℕ) → j ≤ k → count_under rank j n ≤ count_under rank k n
unfolding count_under
count_under_mono rank j k zero h = omega arith
count_under_mono rank j k (suc n) h = ground (arith, count_under_mono rank j k n h)

count_under-lt :
    (rank : ℕ → ℕ) (k c n : ℕ)
    → c < n
    → rank c < k
    → count_under rank (rank c) n < count_under rank k n
unfolding count_under
count_under-lt rank k c zero l h = absurd (omega arith)
count_under-lt rank k c (suc n) l h = ground (
  arith,
  count_under-lt rank k c n,
  count_under_mono rank (rank c) k n,
  count_under_mono rank (rank n) k n,
)

-- A rank at most the number of nodes.
pub compressed : {h : Nodes} {n : ℕ} → IsForest h n → ℕ → ℕ
compressed {n = n} f p = count_under f.rank (f.rank p) n

pub compressed-le : {h : Nodes} {n : ℕ} (f : IsForest h n) (p : ℕ) → compressed f p ≤ n
unfolding compressed
compressed-le {n = n} f p = count_under-le f.rank (f.rank p) n

pub compressed_falls :
    {h : Nodes} {n : ℕ} (f : IsForest h n) (p c : ℕ) → Edge h p c → compressed f c < compressed f p
unfolding compressed
compressed_falls {n = n} f p c e =
    count_under-lt f.rank (f.rank p) c n (f.allocated p c e) (f.falls p c e)

search_complete :
    {h : Nodes} {n : ℕ} (f : IsForest h n) (test : ℕ → Bool) (fuel p d : ℕ)
    → compressed f p ≤ fuel
    → Below h p d
    → test d ≡ true
    → search_below h test fuel p ≡ true
unfolding search_below
search_complete f test zero p d l (child {c = c} e) t =
    absurd (omega (arith, compressed_falls f p c e))
search_complete f test zero p d l (down {c = c} e b) t =
    absurd (omega (arith, compressed_falls f p c e))
search_complete {h} f test (suc fuel) p d l (child e) t =
    any-true (λ c. test c || search_below h test fuel c) d (h p).children e (ground arith)
search_complete {h} f test (suc fuel) p d l (down {c = c} e b) t =
    any-true (λ c. test c || search_below h test fuel c) c (h p).children e
      (ground
        (arith, search_complete f test fuel c d (omega (arith, compressed_falls f p c e)) b t))

-- The walk with the number of nodes for fuel misses nothing.
pub not-Below_of_search :
    {h : Nodes} {n : ℕ}
    → IsForest h n
    → (test : ℕ → Bool) (p d : ℕ) → search_below h test n p ≡ false
    → test d ≡ true
    → ¬ Below h p d
not-Below_of_search {n = n} f test p d e t b =
    cc (search_complete f test n p d (compressed-le f p) b t)

any_sound : (f : ℕ → Bool) (cs : List ℕ) → any f cs ≡ true → (c : ℕ) × Mem c cs × (f c ≡ true)
any_sound f [] e = cc
any_sound f (c ∷ cs) e = elim (Bool-cases (f c)) [
  | inl t ↦ (c, mem-cons_self, t)
  | inr t ↦ let (d, m, u) = any_sound f cs (ground arith) in (d, mem-cons.1 (Or.inr m), u)
]

pub search_sound :
    (h : Nodes) (test : ℕ → Bool) (fuel p : ℕ)
    → search_below h test fuel p ≡ true
    → (d : ℕ) × Below h p d × (test d ≡ true)
unfolding search_below
search_sound h test zero p e = cc
search_sound h test (suc fuel) p e =
    let (c, m, u) = any_sound (λ c. test c || search_below h test fuel c) (h p).children e in
    elim (Bool-cases (test c)) [
      | inl t ↦ (c, child m, t)
      | inr t ↦ let (d, b, v) = search_sound h test fuel c (ground arith) in (d, down m b, v)
    ]
