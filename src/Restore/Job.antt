-- ===== src/Restore/Job.antt =====
-- `Job` of backend/internal/restore/job.go. Each method holds the mutex throughout, so it is one
-- step.
pub mod Reachable
mod Tests
use komachi.Base.{Text, Bool, true, false, Option, none, some, [], if◌then◌else◌}

pub record Job : Type 0 where
  pub running : Bool
  pub phase : Text
  pub done : Bool
  pub error : Option Text
  pub version_warning : Text
  pub needs_intervention : Bool

abbrev pub new_job : Job
new_job = record {
  running = false;
  phase = [];
  done = false;
  error = none;
  version_warning = [];
  needs_intervention = false;
}

unfoldable pub start : Job → Bool × Job
start j = if j.running then (false, j) else (
  true,
  record {
    running = true;
    phase = [];
    done = false;
    error = none;
    version_warning = [];
    needs_intervention = false;
  },
)

unfoldable pub set_phase : Text → Job → Job
set_phase p j = record j { phase = p }

unfoldable pub set_version_warning : Text → Job → Job
set_version_warning msg j = record j { version_warning = msg }

unfoldable pub finish : Option Text → Job → Job
finish e j = record j { running = false; done = true; error = e }

unfoldable pub finish_needs_intervention : Option Text → Job → Job
finish_needs_intervention e j = record j {
  running = false;
  done = true;
  error = e;
  needs_intervention = true;
}

pub record JobStatus : Type 0 where
  pub running : Bool
  pub phase : Text
  pub done : Bool
  pub error : Text
  pub version_warning : Text
  pub needs_intervention : Bool

abbrev pub text_of : Option Text → Text
text_of none = []
text_of (some t) = t

unfoldable pub status : Job → JobStatus
status j = record {
  running = j.running;
  phase = j.phase;
  done = j.done;
  error = text_of j.error;
  version_warning = j.version_warning;
  needs_intervention = j.needs_intervention;
}
