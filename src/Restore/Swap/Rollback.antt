-- ===== src/Restore/Swap/Rollback.antt =====
-- A rollback that reports no error leaves the live data as it was before the swap, whichever of the
-- swap's calls failed (backend/internal/restore/swap.go).
use komachi.Base.{
  ℕ, ◌≡◌, refl, inl, inr, Text, true, false, Option, none, List, [], ◌∷◌, map, arith, All,
  Bool-cases,
}
use komachi.Restore.Swap.{
  Faults, SwapItem, new_swapper, swap_item, swap_all, rollback_item, rollback_all,
}

-- as `newSwapper` makes an item
abbrev pub IsFresh : SwapItem → Type 0
IsFresh i = (i.pre_restore ≡ none) × (i.moved_aside ≡ false) × (i.swapped ≡ false)

-- What was live can be found again: at its place, or in the copy set aside.
pub record IsKept (live : Option ℕ) (i : SwapItem) : Type 0 where
  pub in_place : i.moved_aside ≡ false → (i.live ≡ live) × (i.pre_restore ≡ none)
  pub aside : i.moved_aside ≡ true → i.pre_restore ≡ live

fresh-IsKept : (i : SwapItem) → IsFresh i → IsKept i.live i
fresh-IsKept i f = ground arith

swap_item-IsKept : (i : SwapItem) (fs : Faults) → IsFresh i → IsKept i.live (swap_item i fs).1
unfolding swap_item
swap_item-IsKept i fs f = ground arith

rollback_item_lem :
    (i : SwapItem) (fs : Faults) (live : Option ℕ)
    → IsKept live i
    → (rollback_item i fs).0 ≡ true
    → ((rollback_item i fs).1.live ≡ live) × ((rollback_item i fs).1.pre_restore ≡ none)
unfolding rollback_item
rollback_item_lem i fs live k e = ground arith

abbrev pub AllKept : List SwapItem → List SwapItem → Type 0
AllKept [] [] = Unit
AllKept [] (i ∷ is) = ⊥
AllKept (o ∷ os) [] = ⊥
AllKept (o ∷ os) (i ∷ is) = IsKept o.live i × AllKept os is

fresh-AllKept : (os : List SwapItem) → All IsFresh os → AllKept os os
fresh-AllKept [] f = tt
fresh-AllKept (o ∷ os) f = (fresh-IsKept o f.0, fresh-AllKept os f.1)

pub swap_all-AllKept :
    (os : List SwapItem) (fs : Faults) → All IsFresh os → AllKept os (swap_all os fs).1
unfolding swap_all
swap_all-AllKept [] fs f = tt
swap_all-AllKept (o ∷ os) fs f =
    let (worked, i, fs') = swap_item o fs in
    let kept = swap_item-IsKept o fs f.0 in
    elim (Bool-cases worked) [
      | inl w ↦ rw (w, swap_all) (kept, swap_all-AllKept os fs' f.1)
      | inr w ↦ rw (w, swap_all) (kept, fresh-AllKept os f.1)
    ]

abbrev pub lives : List SwapItem → List (Option ℕ)
lives is = map (λ (i : SwapItem). i.live) is

abbrev pub copies : List SwapItem → List (Option ℕ)
copies is = map (λ (i : SwapItem). i.pre_restore) is

abbrev pub nothing_left : List SwapItem → List (Option ℕ)
nothing_left is = map (λ (i : SwapItem). none) is

pub rollback_all_lem :
    (os is : List SwapItem) (fs : Faults)
    → AllKept os is
    → (rollback_all is fs).0 ≡ true
    → (lives (rollback_all is fs).1 ≡ lives os) × (copies (rollback_all is fs).1 ≡ nothing_left os)
unfolding rollback_all
rollback_all_lem [] [] fs k e = (refl, refl)
rollback_all_lem [] (i ∷ is) fs k e = elim k [ ]
rollback_all_lem (o ∷ os) [] fs k e = elim k [ ]
rollback_all_lem (o ∷ os) (i ∷ is) fs k e =
    let (worked, i', fs') = rollback_item i fs in
    let (a, b) = rollback_item_lem i fs o.live k.0 (ground arith) in
    let (c, d) = rollback_all_lem os is fs' k.1 (ground arith) in (λ j. a j ∷ c j, λ j. b j ∷ d j)

-- For items as `newSwapper` makes them: whichever calls of `SwapAll` fail, a `RollbackAll` after it
-- that reports no error leaves each live path as it was before the swap, and no copy set aside.
pub rollback_all-swap_all :
    (items : List SwapItem) (fs fs' : Faults)
    → All IsFresh items
    → (rollback_all (swap_all items fs).1 fs').0 ≡ true
    → (lives (rollback_all (swap_all items fs).1 fs').1 ≡ lives items)
      × (copies (rollback_all (swap_all items fs).1 fs').1 ≡ nothing_left items)
rollback_all-swap_all items fs fs' f e =
    rollback_all_lem items (swap_all items fs).1 fs' (swap_all-AllKept items fs f) e

pub new_swapper-IsFresh :
    (data_dir staging_dir : Text → Option ℕ) (names : List Text)
    → All IsFresh (new_swapper data_dir staging_dir names)
unfolding new_swapper
new_swapper-IsFresh d s [] = tt
new_swapper-IsFresh d s (n ∷ ns) = ((refl, refl, refl), new_swapper-IsFresh d s ns)
