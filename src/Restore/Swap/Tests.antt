-- ===== src/Restore/Swap/Tests.antt =====
-- An instance of the swapper's theorem.
use komachi.Base.{◌≡◌, refl, codes, none, some, List, [], ◌∷◌}
use komachi.Restore.Swap.{
  fine, fails, SwapItem, new_swapper, swap_all, swap_item, rollback_all, rollback_item,
}
use komachi.Restore.Swap.Rollback.{
  lives, copies, nothing_left, new_swapper-IsFresh, rollback_all-swap_all,
}

abbrev two_items : List SwapItem
two_items = new_swapper (λ n. some 1) (λ n. some 2) (codes "root" ∷ codes "users.db" ∷ [])

rollback_all-swap_all_example :
    (lives (rollback_all (swap_all two_items (fine ∷ fine ∷ fine ∷ fails none ∷ [])).1 []).1
      ≡ lives two_items)
    × (copies (rollback_all (swap_all two_items (fine ∷ fine ∷ fine ∷ fails none ∷ [])).1 []).1
        ≡ nothing_left two_items)
unfolding new_swapper swap_all swap_item rollback_all rollback_item
rollback_all-swap_all_example =
    rollback_all-swap_all two_items (fine ∷ fine ∷ fine ∷ fails none ∷ []) []
      (new_swapper-IsFresh (λ n. some 1) (λ n. some 2) (codes "root" ∷ codes "users.db" ∷ [])) refl
