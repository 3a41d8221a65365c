-- ===== src/Tree/Sort/Laws.antt =====
-- What `SortPages` does (backend/internal/core/tree/tree_service.go).
use mathlib.Core.List.{Perm, Subset, Nodup}
use mathlib.Core.List.Perm
use komachi.Base.{
  ℕ, ◌≡◌, sym, ◌∙◌, ap, subst, fun_ext, ◌≢◌, ◌↔◌, Text, true, false, none, some, List, [], ◌∷◌, map,
  arith, eq_text_iff, All, length, length-map, lookup, ok,
}
use komachi.Tree.Types.{Nodes, NodeRepository, TreeService}
use komachi.Tree.Order.{sort_stable, number_from, position_of, set_children, reindex_positions}
use komachi.Tree.Order.Laws.{
  Distinct, IsNumbered, Ascends, sort_stable-perm, sort_stable-Ascends, sort_stable-eq_of_Ascends,
  IsNumbered-Ascends, number_from-SameButPosition, number_from-IsNumbered,
}
use komachi.Tree.Sort.{
  mem_text, all_existing, has_duplicate, fill_positions, or_zero, wanted, child_ids, sorted_nodes,
  sort_pages,
}
use komachi.Tree.Store.{resolve_parent}
use komachi.Tree.Sort.Enumerate.{
  eq_of_Ascends, arrangement, IsEnum-fill_positions, all_existing-Subset, has_duplicate-Nodup,
  all_existing_of_Subset, has_duplicate_of_Nodup,
}

Ascends-map :
    (h : Nodes) (pos : Text → ℕ) (cs : List ℕ)
    → Ascends (λ c. pos (h c).id) cs
    → Ascends pos (child_ids h cs)
Ascends-map h pos [] a = tt
Ascends-map h pos (c ∷ []) a = tt
Ascends-map h pos (c ∷ d ∷ ds) a = (a.0, Ascends-map h pos (d ∷ ds) a.1)

-- The sort brings the ids into the order that was asked for.
child_ids-sort_stable :
    (h : Nodes) (ordered : List Text) (cs : List ℕ)
    → length ordered ≡ length cs
    → all_existing (child_ids h cs) ordered ≡ true
    → has_duplicate ordered ≡ false
    → child_ids h (sort_stable (wanted h ordered) cs) ≡ ordered
child_ids-sort_stable h ordered cs l a d =
    let sorted = sort_stable (wanted h ordered) cs in
    let p : Perm (child_ids h sorted) ordered =
      Perm.trans (Perm.map (λ c. (h c).id) (sort_stable-perm (wanted h ordered) cs)) (
        Perm.symm
          (arrangement (child_ids h cs) ordered (l ∙ sym (length-map (λ c. (h c).id) cs)) a d)) in
    eq_of_Ascends (λ t. or_zero (lookup t (fill_positions 0 ordered []))) 0 ordered
      (child_ids h sorted) (IsEnum-fill_positions 0 ordered [] d) p
      (Ascends-map h (λ t. or_zero (lookup t (fill_positions 0 ordered []))) sorted
        (sort_stable-Ascends (wanted h ordered) cs))

not-mem_of_ids :
    (h : Nodes) (c : ℕ) (cs : List ℕ)
    → mem_text (h c).id (child_ids h cs) ≡ false
    → All (λ d. c ≢ d) cs
not-mem_of_ids h c [] e = tt
not-mem_of_ids h c (d ∷ ds) e = (
  λ q. ground (arith, eq_text_iff (h d).id (h c).id, ap (λ x. (h x).id) q),
  not-mem_of_ids h c ds (ground arith),
)

Distinct-of_ids : (h : Nodes) (cs : List ℕ) → has_duplicate (child_ids h cs) ≡ false → Distinct cs
Distinct-of_ids h [] e = tt
Distinct-of_ids h (c ∷ cs) e =
    (not-mem_of_ids h c cs (ground arith), Distinct-of_ids h cs (ground arith))

module _ (p : ℕ) (cs : List ℕ) (h : Nodes) where
  children-set_children : (set_children p cs h p).children ≡ cs
  children-set_children = ground arith

  abbrev numbered : Nodes
  numbered = number_from 0 cs (set_children p cs h)

  children-numbered : (numbered p).children ≡ cs
  children-numbered =
      (number_from-SameButPosition 0 cs (set_children p cs h) p).children ∙ children-set_children

  children-numbered_ne : (q : ℕ) → q ≢ p → (numbered q).children ≡ (h q).children
  children-numbered_ne q ne =
      (number_from-SameButPosition 0 cs (set_children p cs h) q).children ∙ ground arith

  id-numbered : (q : ℕ) → (numbered q).id ≡ (h q).id
  id-numbered q = (number_from-SameButPosition 0 cs (set_children p cs h) q).id ∙ ground arith

  -- A second numbering finds the children in their places.
  reindex-numbered :
      Distinct cs → reindex_positions p numbered ≡ number_from 0 cs (set_children p cs numbered)
  unfolding reindex_positions
  reindex-numbered d =
      let sorted : sort_stable (position_of numbered) (numbered p).children ≡ cs =
        ap (sort_stable (position_of numbered)) children-numbered
        ∙ sort_stable-eq_of_Ascends (position_of numbered) cs (
            IsNumbered-Ascends numbered 0 cs
              (number_from-IsNumbered 0 cs (set_children p cs h) d)) in
      rw sorted

module _ (p : ℕ) (ordered : List Text) (h : Nodes) where
  abbrev arranged : List ℕ
  arranged = sort_stable (wanted h ordered) (h p).children

  pub record IsSorted (h' : Nodes) : Type 0 where
    pub order : child_ids h' (h' p).children ≡ ordered
    pub positions : IsNumbered h' 0 (h' p).children
    pub others : (q : ℕ) → q ≢ p → (h' q).children ≡ (h q).children
    pub ids : (q : ℕ) → (h' q).id ≡ (h q).id

-- What the three checks of `SortPages` test.
record Passes (h : Nodes) (cs : List ℕ) (ordered : List Text) : Type 0 where
  pub as_many : length ordered ≡ length cs
  pub known : all_existing (child_ids h cs) ordered ≡ true
  pub once : has_duplicate ordered ≡ false

module _ (p : ℕ) (ordered : List Text) (h : Nodes) (v : Passes h (h p).children ordered) where
  sorted_nodes-IsSorted : IsSorted p ordered h (sorted_nodes p ordered h)
  unfolding sorted_nodes
  sorted_nodes-IsSorted =
      let cs = arranged p ordered h in
      let mid = numbered p cs h in
      let ids : child_ids h cs ≡ ordered =
        child_ids-sort_stable h ordered (h p).children v.as_many v.known v.once in
      let distinct : Distinct cs = Distinct-of_ids h cs (ap has_duplicate ids ∙ v.once) in
      let id_eq : (q : ℕ) → (numbered p cs mid q).id ≡ (h q).id =
        λ q. id-numbered p cs mid q ∙ id-numbered p cs h q in
      let kids : (numbered p cs mid p).children ≡ cs = children-numbered p cs mid in
      rw (reindex-numbered p cs h distinct) (record {
        order =
            ap (child_ids (numbered p cs mid)) kids
            ∙ ap (λ (f : ℕ → Text). map f cs) (fun_ext id_eq)
            ∙ ids;
        positions =
            subst (IsNumbered (numbered p cs mid) 0) (sym kids)
              (number_from-IsNumbered 0 cs (set_children p cs mid) distinct);
        others = λ q ne. children-numbered_ne p cs mid q ne ∙ children-numbered_ne p cs h q ne;
        ids = id_eq;
      })

-- The ids are as many as the children, each is that of a child, and none is there twice.
pub record IsArrangement (h : Nodes) (cs : List ℕ) (ordered : List Text) : Type 0 where
  pub as_many : length ordered ≡ length cs
  pub known : Subset ordered (child_ids h cs)
  pub once : Nodup ordered

module _ (h : Nodes) (cs : List ℕ) (ordered : List Text) where
  Passes-IsArrangement : Passes h cs ordered → IsArrangement h cs ordered
  Passes-IsArrangement v = record {
    as_many = v.as_many;
    known = all_existing-Subset (child_ids h cs) ordered v.known;
    once = has_duplicate-Nodup ordered v.once;
  }

  IsArrangement-Passes : IsArrangement h cs ordered → Passes h cs ordered
  IsArrangement-Passes v = record {
    as_many = v.as_many;
    known = all_existing_of_Subset (child_ids h cs) ordered v.known;
    once = has_duplicate_of_Nodup ordered v.once;
  }

module _ {R : NodeRepository} (s : TreeService R) (i : Text) (ordered : List Text)
    {root p : ℕ} where
  -- A call that succeeds has passed the checks, and left the sorted nodes.
  sort_pages_inversion :
      {s' : TreeService R}
      → s.tree ≡ some root
      → resolve_parent s root i ≡ some p
      → sort_pages i ordered s ≡ (ok tt, s')
      → Passes s.nodes (s.nodes p).children ordered × (s'.nodes ≡ sorted_nodes p ordered s.nodes)
  unfolding sort_pages
  sort_pages_inversion t r e = ground arith

  -- `SortPages` that succeeds on the children of `p` leaves them with the ids in the order asked
  -- for and with the positions 0, 1, …, and leaves the children of every other node, and every id,
  -- as they were.
  pub sort_pages-IsSorted :
      {s' : TreeService R}
      → s.tree ≡ some root
      → resolve_parent s root i ≡ some p
      → sort_pages i ordered s ≡ (ok tt, s')
      → IsSorted p ordered s.nodes s'.nodes
  sort_pages-IsSorted t r e =
      let (v, eq) = sort_pages_inversion t r e in rw eq (sorted_nodes-IsSorted p ordered s.nodes v)

  sort_pages-Passes :
      s.tree ≡ some root
      → resolve_parent s root i ≡ some p
      → ((h : Nodes) (d : R.Disk) → (R.save_child_order h p d).0 ≡ none)
      → ((sort_pages i ordered s).0 ≡ ok tt) ↔ Passes s.nodes (s.nodes p).children ordered
  unfolding sort_pages
  sort_pages-Passes t r saves =
      (λ e. ground arith, λ v. ground (arith, saves (sorted_nodes p ordered s.nodes) s.disk))

  -- Where the order can be saved, `SortPages` on the children of `p` succeeds exactly when the ids
  -- given are as many as the children, each that of a child, and none twice.
  pub sort_pages-ok_iff :
      s.tree ≡ some root
      → resolve_parent s root i ≡ some p
      → ((h : Nodes) (d : R.Disk) → (R.save_child_order h p d).0 ≡ none)
      → ((sort_pages i ordered s).0 ≡ ok tt) ↔ IsArrangement s.nodes (s.nodes p).children ordered
  sort_pages-ok_iff t r saves =
      let cs = (s.nodes p).children in
      let (passed, works) = sort_pages-Passes t r saves in
      (
        λ e. Passes-IsArrangement s.nodes cs ordered (passed e),
        λ v. works (IsArrangement-Passes s.nodes cs ordered v),
      )
