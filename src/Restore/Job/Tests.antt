-- ===== src/Restore/Job/Tests.antt =====
-- An instance of the theorem on the job's status.
use komachi.Base.{◌≡◌, refl, codes, [], false}
use komachi.Restore.Job.{Job, new_job, start, set_phase, status}
use komachi.Restore.Job.Reachable.{created, started, phased, status-running}

abbrev swapping : Job
swapping = set_phase (codes "swapping") (start new_job).1

status-running_example :
    ((status swapping).done ≡ false)
    × ((status swapping).error ≡ [])
    × ((status swapping).needs_intervention ≡ false)
    × (start swapping ≡ (false, swapping))
unfolding status set_phase start
status-running_example =
    status-running swapping (phased (start new_job).1 (codes "swapping") (started new_job created))
      refl
