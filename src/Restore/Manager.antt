-- ===== src/Restore/Manager.antt =====
-- A restore of files, `runFromZipPath` of backend/internal/restore/manager.go, with the stores'
-- pauses and reopenings and the rollback. Which calls fail is a list of faults, as in
-- komachi.Restore.Swap; a drain that times out, a failure to invalidate the sessions and one to
-- reload the resolver of users are only logged, so they have no fault. The items of the swapper are
-- in the state from the start, since nothing touches their paths before `SwapAll`.
pub mod Stores
pub mod Steps
pub mod Outcome
mod Tests
use mathlib.Core.List.{reverse}
use komachi.Base.{
  ℕ, Text, codes, Bool, true, false, Option, none, some, List, [], ◌∷◌, ◌==◌, ◌&&◌, ◌||◌, not, take,
  is_none, Result, ok, err, Exec, ◌>>◌, if◌then◌else◌,
}
use komachi.Restore.Job.{
  Job, start, status, set_phase, set_version_warning, finish, finish_needs_intervention,
}
use komachi.Restore.WriteGate.{WriteGate, engage, disengage}
use komachi.Restore.Swap.{
  Fault, fine, fails, Faults, next_fault, SwapItem, new_swapper, swap_names, swap_all, rollback_all,
  commit_all,
}

pub data StoreKind : Type 0 where
  user_store api_key_store favorites_store user_settings_store : StoreKind

-- A store that the configuration has; `PauseForSwap` suspends it, and opening it anew ends that.
pub record Store : Type 0 where
  pub kind : StoreKind
  pub suspended : Bool

pub data Cause : Type 0 where
  invalid_snapshot swap_failed branding_reload public_access_reload : Cause
  pause_failed reopen_failed : StoreKind → Cause
  wal_cleanup : Text → Cause

-- Before the swap there is nothing to roll back.
pub data Failure : Type 0 where
  before_swap : Cause → Failure
  after_swap : Cause → Failure

pub record Restoring : Type 0 where
  pub job : Job
  pub gate : WriteGate
  pub stores : List Store
  pub items : List SwapItem
  pub faults : Faults

abbrev pub Op : Type 0
Op = Exec Restoring Failure (Unit {0})

abbrev pub worked : Fault → Bool
worked fine = true
worked (fails _) = false

-- A call that may fail, and then stops the restore.
abbrev pub call_or_fail : Failure → Op
call_or_fail f r =
    let r' = record r { faults = (next_fault r.faults).1 } in
    if worked (next_fault r.faults).0 then (ok tt, r') else (err f, r')

abbrev pub on_job : (Job → Job) → Op
on_job f r = (ok tt, record r { job = f r.job })

-- `PauseForSwap` of each store, in the order user store, API keys, favorites, user settings. It
-- suspends the store even where it fails, and the first failure stops the loop.
unfoldable pub pause_stores :
    List Store → Faults → Result StoreKind (Unit {0}) × List Store × Faults
pause_stores [] fs = (ok tt, [], fs)
pause_stores (s ∷ ss) fs =
    let paused = record s { suspended = true } in
    let (rest, ss', fs') = pause_stores ss (next_fault fs).1 in
    if worked (next_fault fs).0
    then (rest, paused ∷ ss', fs')
    else (err s.kind, paused ∷ ss, (next_fault fs).1)

-- `pauseAllStoresForRollback`: every store is tried.
unfoldable pub pause_all_stores : List Store → Faults → List Store × Faults
pause_all_stores [] fs = ([], fs)
pause_all_stores (s ∷ ss) fs =
    let (ss', fs') = pause_all_stores ss (next_fault fs).1 in
    (record s { suspended = true } ∷ ss', fs')

-- `Replace` or `ReplaceUserStore`: a store that could not be opened stays as it is.
abbrev pub replace : Fault → Store → Store
replace fine s = record s { suspended = false }
replace (fails _) s = s

-- `reopenAllStores` tries every store, and says whether all could be opened.
unfoldable pub reopen_all_stores : List Store → Faults → Bool × List Store × Faults
reopen_all_stores [] fs = (true, [], fs)
reopen_all_stores (s ∷ ss) fs =
    let (rest, ss', fs') = reopen_all_stores ss (next_fault fs).1 in
    (worked (next_fault fs).0 && rest, replace (next_fault fs).0 s ∷ ss', fs')

abbrev pub enter_phase : StoreKind → Job → Job
enter_phase user_store j = set_phase (codes "reopening_auth") j
enter_phase _ j = j

abbrev pub leave_phase : StoreKind → Job → Job
leave_phase user_store j = set_phase (codes "invalidating_sessions") j
leave_phase _ j = j

-- The stores after the swap, one by one; the first failure stops.
unfoldable pub replace_stores :
    List Store → Job → Faults → Result StoreKind (Unit {0}) × List Store × Job × Faults
unfolding set_phase
replace_stores [] j fs = (ok tt, [], j, fs)
replace_stores (s ∷ ss) j fs =
    let entered = enter_phase s.kind j in
    let (rest, ss', j', fs') = replace_stores ss (leave_phase s.kind entered) (next_fault fs).1 in
    if worked (next_fault fs).0
    then (rest, record s { suspended = false } ∷ ss', j', fs')
    else (err s.kind, s ∷ ss, entered, (next_fault fs).1)

-- `strings.HasSuffix(name, ".db")`
abbrev pub is_database : Text → Bool
is_database name = take 3 (reverse name) == codes "bd."

-- `removeStaleWALSidecars` for each database that the snapshot has.
unfoldable pub clean_sidecars : List SwapItem → Faults → Result Text (Unit {0}) × Faults
clean_sidecars [] fs = (ok tt, fs)
clean_sidecars (i ∷ is) fs =
    let skipped = clean_sidecars is fs in
    let cleaned = clean_sidecars is (next_fault fs).1 in
    if is_none i.staged || not (is_database i.name)
    then skipped
    else if worked (next_fault fs).0
    then cleaned
    else (err i.name, (next_fault fs).1)

abbrev early_pause : Result StoreKind (Unit {0}) → Result Failure (Unit {0})
early_pause (ok _) = ok tt
early_pause (err k) = err (before_swap (pause_failed k))

abbrev late_reopen : Result StoreKind (Unit {0}) → Result Failure (Unit {0})
late_reopen (ok _) = ok tt
late_reopen (err k) = err (after_swap (reopen_failed k))

abbrev early_cleanup : Result Text (Unit {0}) → Result Failure (Unit {0})
early_cleanup (ok _) = ok tt
early_cleanup (err n) = err (before_swap (wal_cleanup n))

unfoldable pub pause : Op
unfolding pause_stores
pause r =
    let (answer, stores, faults) = pause_stores r.stores r.faults in
    (early_pause answer, record r { stores = stores; faults = faults })

unfoldable pub clean : Op
unfolding clean_sidecars
clean r =
    let (answer, faults) = clean_sidecars r.items r.faults in
    (early_cleanup answer, record r { faults = faults })

unfoldable pub swap : Op
swap r =
    let (done, items, faults) = swap_all r.items r.faults in
    (
      if done then ok tt else err (after_swap swap_failed),
      record r { items = items; faults = faults },
    )

unfoldable pub reopen : Op
reopen r =
    let (answer, stores, job, faults) = replace_stores r.stores r.job r.faults in
    (late_reopen answer, record r { stores = stores; job = job; faults = faults })

-- `has_public` says whether the configuration has a `PublicAccess`.
unfoldable pub reload : Bool → Op
reload has_public = do
  on_job (set_phase (codes "reloading_branding"))
  call_or_fail (after_swap branding_reload)
  if has_public then call_or_fail (after_swap public_access_reload) else (λ r. (ok tt, r))

unfoldable pub commit : Op
commit r =
    let (items, faults) = commit_all r.items r.faults in
    (
      ok tt,
      record r { items = items; faults = faults; gate = disengage r.gate; job = finish none r.job },
    )

unfoldable pub warn : Text → Text → Text → Job → Job
warn message snapshot_version wiki_version j =
    if not (snapshot_version == [])
      && not (wiki_version == [])
      && not (snapshot_version == wiki_version)
    then set_version_warning message j
    else j

-- From the engaging of the gate to the end.
unfoldable pub steps : Bool → Op
unfolding pause clean swap reopen reload commit
steps has_public = do pause; clean; swap; reopen; reload has_public; commit

unfoldable pub swap_phase : Text → Text → Text → Restoring → Restoring
unfolding warn engage
swap_phase warning snapshot_version wiki_version r = record r {
  job = set_phase (codes "swapping") (warn warning snapshot_version wiki_version r.job);
  gate = engage r.gate;
}

-- `message` stands for the text of an error; `warning` is that of the version warning.
module _ (message : Cause → Text) where
  -- The answer to a failure before the swap.
  unfoldable pub recover : Cause → Restoring → Restoring
  unfolding reopen_all_stores disengage finish finish_needs_intervention
  recover c r =
      let (reopened, stores, faults) = reopen_all_stores r.stores r.faults in
      let j =
        if reopened
        then finish (some (message c)) r.job
        else finish_needs_intervention (some (message c)) r.job in
      record r { gate = disengage r.gate; stores = stores; faults = faults; job = j }

  -- `rollbackOrIntervene` after the stores are paused.
  abbrev roll_back : Cause → Restoring → Restoring
  roll_back c r =
      let (undone, items, fs) = rollback_all r.items r.faults in
      let (reopened, stores, fs') = reopen_all_stores r.stores fs in
      if not undone
      then record r {
        items = items;
        faults = fs;
        job = finish_needs_intervention (some (message c)) r.job;
      }
      else if not reopened
      then record r {
        items = items;
        stores = stores;
        faults = fs';
        job = finish_needs_intervention (some (message c)) r.job;
      }
      else record r {
        items = items;
        stores = stores;
        faults = fs';
        gate = disengage r.gate;
        job = finish (some (message c)) r.job;
      }

  unfoldable pub rollback_or_intervene : Cause → Restoring → Restoring
  unfolding pause_all_stores
  rollback_or_intervene c r =
      let (stores, fs) = pause_all_stores r.stores r.faults in
      roll_back c (record r { stores = stores; faults = fs })

  abbrev pub settle : Result Failure (Unit {0}) × Restoring → Restoring
  settle (ok _, r) = r
  settle (err (before_swap c), r) = recover c r
  settle (err (after_swap c), r) = rollback_or_intervene c r

  -- The whole run; `valid` is the answer of `extractAndValidateWithLimits`.
  unfoldable pub run_from_zip_path : Bool → Text → Text → Text → Bool → Restoring → Restoring
  unfolding steps swap_phase
  run_from_zip_path valid warning snapshot_version wiki_version has_public r =
      let validating = record r { job = set_phase (codes "validating") r.job } in
      if valid
      then settle (steps has_public (swap_phase warning snapshot_version wiki_version validating))
      else record validating { job = finish (some (message invalid_snapshot)) validating.job }

pub data TriggerError : Type 0 where
  needs_intervention already_running : TriggerError

-- `TriggerRestore` up to the start of its goroutine; the case of a configuration with PostgreSQL
-- favorites and no database is left out.
unfoldable pub trigger_restore : Job → Result TriggerError (Unit {0}) × Job
unfolding start
trigger_restore j =
    if (status j).needs_intervention
    then (err needs_intervention, j)
    else let (started, j') = start j in if started then (ok tt, j') else (err already_running, j)
