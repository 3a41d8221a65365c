-- ===== src/Tree/Sort/Enumerate.antt =====
-- `positions` of `SortPages` (backend/internal/core/tree/tree_service.go) numbers the ids in order,
-- and a list that it sorts is the list that it numbers.
use mathlib.Core.Logic.Or
use mathlib.Core.Logic.{∥∥₁_prop}
use mathlib.Core.HLevel.{⊥_prop}
use mathlib.Core.Nat
use mathlib.Core.List.{
  Perm, Mem, Memᴰ, Subset, Nodup, Nodup-cons, mem-cons, mem-cons_self, not-mem-nil,
}
use mathlib.Core.List
use mathlib.Core.List.Perm
use mathlib.Core.List.Nodup
use mathlib.Core.List.Subperm
use native.Mathlib.Bridge.{le_prop}
use komachi.Base.{
  ℕ, ◌+◌, ◌≤◌, ◌≡◌, refl, sym, ap, subst, ◌∙◌, inl, inr, Bool-cases, Text, Dict, Bool, true, false,
  List, [], ◌∷◌, ◌==◌, arith, length, lookup, set_key, lookup-set_key, eq_text_iff,
}
use komachi.Tree.Order.Laws.{Ascends}
use komachi.Tree.Sort.{mem_text, all_existing, has_duplicate, fill_positions, or_zero}

-- `pos` counts up from `i` along the list.
abbrev pub IsEnum : (Text → ℕ) → ℕ → List Text → Type 0
IsEnum pos i [] = Unit
IsEnum pos i (t ∷ ts) = (pos t ≡ i) × IsEnum pos (i + 1) ts

IsEnum-le :
    (pos : Text → ℕ) (i : ℕ) (ts : List Text) (t : Text) → IsEnum pos i ts → Mem t ts → i ≤ pos t
IsEnum-le pos i [] t e m = absurd (not-mem-nil m)
IsEnum-le pos i (u ∷ ts) t e m =
    Or.elim le_prop (mem-cons.0 m) (λ q. rw q (omega arith))
      (λ r. omega (arith, IsEnum-le pos (i + 1) ts t e.1 r))

Ascends-le :
    (pos : Text → ℕ) (u t : Text) (ts : List Text)
    → Ascends pos (u ∷ ts)
    → Mem t (u ∷ ts)
    → pos u ≤ pos t
Ascends-le pos u t [] a m =
    Or.elim le_prop (mem-cons.0 m) (λ q. rw q (omega arith)) (λ r. absurd (not-mem-nil r))
Ascends-le pos u t (v ∷ ts) a m =
    Or.elim le_prop (mem-cons.0 m) (λ q. rw q (omega arith))
      (λ r. omega (arith, Ascends-le pos v t ts a.1 r))

Ascends-tail : (pos : Text → ℕ) (u : Text) (ts : List Text) → Ascends pos (u ∷ ts) → Ascends pos ts
Ascends-tail pos u [] a = tt
Ascends-tail pos u (v ∷ ts) a = a.1

Text-set : IsSet Text
Text-set = hlevel

-- the least element of both lists
head_eq :
    (pos : Text → ℕ) (i : ℕ) (t u : Text) (ts us : List Text)
    → IsEnum pos i (t ∷ ts)
    → Perm (u ∷ us) (t ∷ ts)
    → Ascends pos (u ∷ us)
    → u ≡ t
head_eq pos i t u ts us e p a =
    Or.elim (Text-set _ _) (mem-cons.0 (Perm.subset p u mem-cons_self)) (λ q. q)
      (λ r. absurd (
        omega (
          arith,
          IsEnum-le pos (i + 1) ts u e.1 r,
          Ascends-le pos u t us a (Perm.subset (Perm.symm p) t mem-cons_self),
        )))

pub eq_of_Ascends :
    (pos : Text → ℕ) (i : ℕ) (ts us : List Text)
    → IsEnum pos i ts
    → Perm us ts
    → Ascends pos us
    → us ≡ ts
eq_of_Ascends pos i [] [] e p a = refl
eq_of_Ascends pos i [] (u ∷ us) e p a = absurd (not-mem-nil (Perm.subset p u mem-cons_self))
eq_of_Ascends pos i (t ∷ ts) [] e p a =
    absurd (not-mem-nil (Perm.subset (Perm.symm p) t mem-cons_self))
eq_of_Ascends pos i (t ∷ ts) (u ∷ us) e p a =
    let q : u ≡ t = head_eq pos i t u ts us e p a in
    let rest : us ≡ ts =
      eq_of_Ascends pos (i + 1) ts us e.1
        (Perm.cons_inv {a = t} (subst (λ (x : Text). Perm (x ∷ us) (t ∷ ts)) q p))
        (Ascends-tail pos u us a) in
    cc (q, rest)

mem_text-Mem : (t : Text) (ts : List Text) → mem_text t ts ≡ true → Mem t ts
mem_text-Mem t [] h = cc
mem_text-Mem t (u ∷ ts) h = elim (Bool-cases (u == t)) [
  | inl e ↦ mem-cons.1 (Or.inl (sym ((eq_text_iff u t).0 e)))
  | inr e ↦ mem-cons.1 (Or.inr (mem_text-Mem t ts (ground (arith, e))))
]

not-Mem_of_mem_text : (t : Text) (ts : List Text) → mem_text t ts ≡ false → ¬ Mem t ts
not-Mem_of_mem_text t [] h m = not-mem-nil m
not-Mem_of_mem_text t (u ∷ ts) h m =
    Or.elim ⊥_prop (mem-cons.0 m) (λ q. ground (arith, eq_text_iff u t, q))
      (λ r. not-Mem_of_mem_text t ts (ground arith) r)

pub has_duplicate-Nodup : (ts : List Text) → has_duplicate ts ≡ false → Nodup ts
has_duplicate-Nodup [] h = List.Nodup-nil
has_duplicate-Nodup (t ∷ ts) h =
    Nodup-cons.1 (not-Mem_of_mem_text t ts (ground arith), has_duplicate-Nodup ts (ground arith))

pub all_existing-Subset : (us ts : List Text) → all_existing us ts ≡ true → Subset ts us
all_existing-Subset us [] h a m = absurd (not-mem-nil m)
all_existing-Subset us (t ∷ ts) h a m =
    Or.elim ∥∥₁_prop (mem-cons.0 m) (λ q. rw q (mem_text-Mem t us (ground arith)))
      (λ r. all_existing-Subset us ts (ground arith) a r)

Bool-set : IsSet Bool
Bool-set = hlevel

mem_text_of_Mem : (t : Text) (ts : List Text) → Mem t ts → mem_text t ts ≡ true
mem_text_of_Mem t [] m = absurd (not-mem-nil m)
mem_text_of_Mem t (u ∷ ts) m =
    Or.elim (Bool-set _ _) (mem-cons.0 m) (λ q. ground (arith, eq_text_iff u t, q))
      (λ r. ground (arith, mem_text_of_Mem t ts r))

pub has_duplicate_of_Nodup : (ts : List Text) → Nodup ts → has_duplicate ts ≡ false
has_duplicate_of_Nodup [] n = refl
has_duplicate_of_Nodup (t ∷ ts) n =
    let (out, rest) = Nodup-cons.0 n in
    elim (Bool-cases (mem_text t ts)) [
      | inl e ↦ absurd (out (mem_text-Mem t ts e))
      | inr e ↦ rw e (has_duplicate_of_Nodup ts rest)
    ]

pub all_existing_of_Subset : (us ts : List Text) → Subset ts us → all_existing us ts ≡ true
all_existing_of_Subset us [] f = refl
all_existing_of_Subset us (t ∷ ts) f =
    rw (mem_text_of_Mem t us (f t mem-cons_self))
      (all_existing_of_Subset us ts (λ a m. f a (mem-cons.1 (Or.inr m))))

length-eq : (us ts : List Text) → length ts ≡ length us → List.length us ≡ List.length ts
length-eq [] [] h = refl
length-eq [] (t ∷ ts) h = absurd (omega arith)
length-eq (u ∷ us) [] h = absurd (omega arith)
length-eq (u ∷ us) (t ∷ ts) h = ap Nat.suc (length-eq us ts (omega arith))

-- As many distinct ids as there are, all of them known: an arrangement of the known ones.
pub arrangement :
    (us ts : List Text)
    → length ts ≡ length us
    → all_existing us ts ≡ true
    → has_duplicate ts ≡ false
    → Perm ts us
arrangement us ts l a d =
    Subperm.perm_of_length_le
      (Nodup.subperm (has_duplicate-Nodup ts d) (all_existing-Subset us ts a))
      (Nat.le_of_eq (length-eq us ts l))

lookup-fill_positions_out :
    (i : ℕ) (ts : List Text) (m : Dict ℕ) (t : Text)
    → mem_text t ts ≡ false
    → lookup t (fill_positions i ts m) ≡ lookup t m
unfolding fill_positions
lookup-fill_positions_out i [] m t h = refl
lookup-fill_positions_out i (u ∷ ts) m t h =
    lookup-fill_positions_out (i + 1) ts (set_key u i m) t (ground arith)
    ∙ ground (arith, lookup-set_key u t i m)

pub IsEnum-fill_positions :
    (i : ℕ) (ts : List Text) (m : Dict ℕ)
    → has_duplicate ts ≡ false
    → IsEnum (λ t. or_zero (lookup t (fill_positions i ts m))) i ts
unfolding fill_positions
IsEnum-fill_positions i [] m h = tt
IsEnum-fill_positions i (t ∷ ts) m h = (
  ground (
    arith,
    lookup-fill_positions_out (i + 1) ts (set_key t i m) t,
    lookup-set_key t t i m,
    eq_text_iff t t,
  ),
  IsEnum-fill_positions (i + 1) ts (set_key t i m) (ground arith),
)
