-- ===== src/Restore/Job/Reachable.antt =====
-- What a status can report, whatever the calls of the job's methods
-- (backend/internal/restore/job.go).
use komachi.Base.{◌≡◌, refl, Text, Option, none, [], true, false, arith, Bool-cases, inl, inr}
use komachi.Restore.Job.{
  Job, new_job, start, set_phase, set_version_warning, finish, finish_needs_intervention, status,
}

-- The jobs that calls of the methods lead to, in any order.
pub data Reachable : Job → Type 0 where
  created : Reachable new_job
  started : (j : Job) → Reachable j → Reachable (start j).1
  phased : (j : Job) (p : Text) → Reachable j → Reachable (set_phase p j)
  warned : (j : Job) (msg : Text) → Reachable j → Reachable (set_version_warning msg j)
  finished : (j : Job) (e : Option Text) → Reachable j → Reachable (finish e j)
  given_up : (j : Job) (e : Option Text) → Reachable j → Reachable (finish_needs_intervention e j)

-- A running job carries no outcome.
abbrev NoOutcome : Job → Type 0
NoOutcome j =
    j.running ≡ true → (j.done ≡ false) × (j.error ≡ none) × (j.needs_intervention ≡ false)

Reachable-NoOutcome : (j : Job) → Reachable j → NoOutcome j
unfolding start set_phase set_version_warning finish finish_needs_intervention
Reachable-NoOutcome _ created e = absurd (ground arith)
Reachable-NoOutcome _ (started j r) e =
    let v = Reachable-NoOutcome j r in
    elim (Bool-cases j.running) [ inl on ↦ rw on (v on) | inr off ↦ rw off (refl, refl, refl) ]
Reachable-NoOutcome _ (phased j p r) e = Reachable-NoOutcome j r e
Reachable-NoOutcome _ (warned j msg r) e = Reachable-NoOutcome j r e
Reachable-NoOutcome _ (finished j x r) e = absurd (ground arith)
Reachable-NoOutcome _ (given_up j x r) e = absurd (ground arith)

-- Whatever calls led to the job: where its status says that it runs, the status says neither that
-- it is done nor that it needs intervention, and shows no error; and a start is refused and changes
-- nothing.
pub status-running :
    (j : Job)
    → Reachable j
    → (status j).running ≡ true
    → ((status j).done ≡ false)
      × ((status j).error ≡ [])
      × ((status j).needs_intervention ≡ false)
      × (start j ≡ (false, j))
unfolding status start
status-running j r e = let (a, b, c) = Reachable-NoOutcome j r e in (a, ground arith, c, rw e refl)
