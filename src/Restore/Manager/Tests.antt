-- ===== src/Restore/Manager/Tests.antt =====
-- Runs of a restore and an instance of its theorem.
use komachi.Base.{
  ◌≡◌, refl, ℕ, Text, codes, true, false, Option, none, some, List, [], ◌∷◌, ◌==◌, if◌then◌else◌,
}
use komachi.Restore.Job.{new_job, start}
use komachi.Restore.WriteGate.{new_write_gate}
use komachi.Restore.Swap.{
  Fault, fine, fails, new_swapper, swap_names, swap_item, rollback_item, commit_item, swap_all,
  rollback_all, commit_all,
}
use komachi.Restore.Swap.Rollback.{lives, new_swapper-IsFresh}
use komachi.Restore.Swap.Commit.{restored}
use komachi.Restore.Manager.{
  Cause, user_store, favorites_store, Restoring, run_from_zip_path, rollback_or_intervene,
  reopen_all_stores, replace_stores,
}
use komachi.Restore.Manager.Steps.{IsSettled}
use komachi.Restore.Manager.Outcome.{run_from_zip_path-IsSettled}

abbrev data_dir : Text → Option ℕ
data_dir name = if name == codes "assets" then none else some 1

abbrev staging_dir : Text → Option ℕ
staging_dir name = if name == codes "favorites.db" then none else some 2

abbrev message : Cause → Text
message c = codes "failed"

-- two pauses, eight sidecars and renames, then a rename that fails
abbrev running : List Fault → Restoring
running faults = record {
  job = (start new_job).1;
  gate = new_write_gate;
  stores =
      record { kind = user_store; suspended = false }
      ∷ record { kind = favorites_store; suspended = false }
      ∷ [];
  items = new_swapper data_dir staging_dir swap_names;
  faults = faults;
}

abbrev late_fault : List Fault
late_fault = fine ∷ fine ∷ fine ∷ fine ∷ fine ∷ fine ∷ fine ∷ fine ∷ fine ∷ fails none ∷ []

failed_swap_rolled_back :
    lives
      (run_from_zip_path message true [] (codes "1") (codes "1") true (running late_fault)).items
    ≡ lives (running late_fault).items
unfolding run_from_zip_path new_swapper ◌==◌ swap_all swap_item rollback_or_intervene rollback_all
    rollback_item reopen_all_stores
failed_swap_rolled_back = refl

good_restore :
    lives (run_from_zip_path message true [] (codes "1") (codes "1") true (running [])).items
    ≡ restored (running []).items
unfolding run_from_zip_path new_swapper ◌==◌ swap_all swap_item replace_stores commit_all
    commit_item
good_restore = refl

run_from_zip_path-IsSettled_example :
    IsSettled
      (running late_fault).items
      (run_from_zip_path message true [] (codes "1") (codes "1") true (running late_fault))
unfolding start
run_from_zip_path-IsSettled_example =
    run_from_zip_path-IsSettled message true [] (codes "1") (codes "1") true (running late_fault)
      (new_swapper-IsFresh data_dir staging_dir swap_names) refl (refl, (refl, tt)) refl
