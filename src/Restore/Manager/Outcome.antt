-- ===== src/Restore/Manager/Outcome.antt =====
-- What a restore can come to (backend/internal/restore/manager.go).
use komachi.Base.{
  codes, ◌≡◌, refl, ap, ◌∙◌, inl, inr, Text, Bool, true, false, List, arith, All, Result, ok, err,
  Bool-cases,
}
use komachi.Restore.Job.{Job, set_phase, set_version_warning, finish, finish_needs_intervention}
use komachi.Restore.WriteGate.{disengage}
use komachi.Restore.Swap.{SwapItem, rollback_all}
use komachi.Restore.Swap.Rollback.{IsFresh, AllKept, lives, rollback_all_lem}
use komachi.Restore.Manager.{
  Cause, Failure, before_swap, after_swap, Restoring, warn, recover, rollback_or_intervene, settle,
  steps, swap_phase, run_from_zip_path, pause_all_stores, reopen_all_stores,
}
use komachi.Restore.Manager.Steps.{Pending, IsSettled, After, steps-After}
use komachi.Restore.Manager.Stores.{IsOpen, reopen_all_stores-IsOpen}

module _ (original : List SwapItem) (message : Cause → Text) where
  recover-IsSettled :
      (c : Cause) (r : Restoring)
      → Pending r.job
      → r.items ≡ original
      → IsSettled original (recover message c r)
  unfolding recover disengage finish finish_needs_intervention
  recover-IsSettled c r pending same =
      let (reopened, stores, faults) = reopen_all_stores r.stores r.faults in
      elim (Bool-cases reopened) [
        | inl w ↦ rw w (
          refl,
          inr (
            pending,
            record {
              gate = refl;
              stores = reopen_all_stores-IsOpen r.stores r.faults w;
              live_data = inr (refl, ap lives same);
            },
          ),
        )
        | inr w ↦ rw w (refl, inl refl)
      ]

  rollback-IsSettled :
      (c : Cause) (r : Restoring)
      → Pending r.job
      → AllKept original r.items
      → IsSettled original (rollback_or_intervene message c r)
  unfolding rollback_or_intervene disengage finish finish_needs_intervention
  rollback-IsSettled c r pending kept =
      let (paused, fs0) = pause_all_stores r.stores r.faults in
      let (undone, items, fs) = rollback_all r.items fs0 in
      let (reopened, stores, fs') = reopen_all_stores paused fs in
      elim (Bool-cases undone) [
        | inr w ↦ rw w (refl, inl refl)
        | inl w ↦ elim (Bool-cases reopened) [
          | inr w' ↦ rw (w, w') (refl, inl refl)
          | inl w' ↦
              rw (w, w')
                (
                  refl,
                  inr (
                    pending,
                    record {
                      gate = refl;
                      stores = reopen_all_stores-IsOpen paused fs w';
                      live_data = inr (refl, (rollback_all_lem original r.items fs0 kept w).0);
                    },
                  ),
                )
        ]
      ]

  settle-IsSettled :
      (x : Result Failure (Unit {0}) × Restoring)
      → After original x
      → IsSettled original (settle message x)
  settle-IsSettled (ok _, r) (a, b, c) = (a, inr (b, c))
  settle-IsSettled (err (before_swap c), r) (pending, same) = recover-IsSettled c r pending same
  settle-IsSettled (err (after_swap c), r) (pending, kept) = rollback-IsSettled c r pending kept

warn_needs : (w sv wv : Text) (j : Job) → (warn w sv wv j).needs_intervention ≡ j.needs_intervention
unfolding warn set_version_warning
warn_needs w sv wv j = ground arith

-- A restore, on a server whose gate is open and whose stores all are, whatever calls fail on the
-- way: it ends; and unless it ends in need of an intervention, the gate and every store are open
-- again, and the live data is what the snapshot has, with what was live where the snapshot has
-- nothing, or, with an error, all that was live before.
pub run_from_zip_path-IsSettled :
    (message : Cause → Text) (valid : Bool) (warning snapshot_version wiki_version : Text)
    (has_public : Bool) (r : Restoring)
    → All IsFresh r.items
    → r.gate.engaged ≡ false
    → All IsOpen r.stores
    → r.job.needs_intervention ≡ false
    → IsSettled r.items
        (run_from_zip_path message valid warning snapshot_version wiki_version has_public r)
unfolding run_from_zip_path set_phase swap_phase finish
run_from_zip_path-IsSettled message false w sv wv has_public r fresh g open_all pending =
    (refl, inr (pending, record { gate = g; stores = open_all; live_data = inr (refl, refl) }))
run_from_zip_path-IsSettled message true w sv wv has_public r fresh g open_all pending =
    let validating = record r { job = set_phase (codes "validating") r.job } in
    let started = swap_phase w sv wv validating in
    settle-IsSettled r.items message (steps has_public started) (
      steps-After r.items fresh has_public started (warn_needs w sv wv validating.job ∙ pending)
        refl)
