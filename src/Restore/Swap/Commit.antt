-- ===== src/Restore/Swap/Commit.antt =====
-- A swap that succeeds, and its commit (backend/internal/restore/swap.go).
use komachi.Base.{
  ℕ, ◌≡◌, refl, inl, inr, true, Option, List, [], ◌∷◌, map, arith, is_none, Bool-cases,
  if◌then◌else◌,
}
use komachi.Restore.Swap.{Faults, SwapItem, swap_item, swap_all, commit_item, commit_all}
use komachi.Restore.Swap.Rollback.{lives}

-- What the snapshot has for each item, and what was live where it has nothing.
abbrev pub restored : List SwapItem → List (Option ℕ)
restored is = map (λ (i : SwapItem). if is_none i.staged then i.live else i.staged) is

swap_item_live :
    (i : SwapItem) (fs : Faults)
    → (swap_item i fs).0 ≡ true
    → (swap_item i fs).1.live ≡ (if is_none i.staged then i.live else i.staged)
unfolding swap_item
swap_item_live i fs e = ground arith

pub lives-swap_all :
    (is : List SwapItem) (fs : Faults)
    → (swap_all is fs).0 ≡ true
    → lives (swap_all is fs).1 ≡ restored is
unfolding swap_all
lives-swap_all [] fs e = refl
lives-swap_all (i ∷ is) fs e =
    let (worked, i', fs') = swap_item i fs in
    elim (Bool-cases worked) [
      | inl w ↦
          let rest = lives-swap_all is fs' (rw (w, swap_all) at e) in
          let here = swap_item_live i fs w in rw (w, swap_all) (λ j. here j ∷ rest j)
      | inr w ↦ absurd (ground arith)
    ]

commit_item_live : (i : SwapItem) (fs : Faults) → (commit_item i fs).0.live ≡ i.live
unfolding commit_item
commit_item_live i fs = ground arith

pub lives-commit_all : (is : List SwapItem) (fs : Faults) → lives (commit_all is fs).0 ≡ lives is
unfolding commit_all
lives-commit_all [] fs = refl
lives-commit_all (i ∷ is) fs =
    let (i', fs') = commit_item i fs in λ j. commit_item_live i fs j ∷ lives-commit_all is fs' j
