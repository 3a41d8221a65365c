-- ===== src/Import/PlanStore/Calls.antt =====
-- The methods of `PlanStore` (backend/internal/importer/plan_store.go). The first argument of a method
-- that saves says whether `persistLocked` meets an error.
use komachi.Base.{
  ℕ, Text, Bool, true, false, Option, none, some, List, [], ◌∷◌, not, Result, ok, err,
  if◌then◌else◌,
}
use komachi.Import.PlanStore.{
  ExecutionStatus, planned, running, completed, failed, canceled, PlanResult, ExecutionResult,
  ExecutionProgress, StoredPlan, PlanStore, PlanError, no_plan, state_unavailable, Op, ExecError,
  start_plan, finish_plan, progress_plan, names,
}

-- `if ps.stateErr != nil { return … }`
abbrev pub guarded :
    {F A : Type 0}
    → PlanStore F
    → Result PlanError A × PlanStore F
    → Result PlanError A × PlanStore F
guarded s answer = if s.state_err then (err state_unavailable, s) else answer

abbrev pub is_running : ExecutionStatus → Bool
is_running running = true
is_running _ = false

-- the calls that change a store
pub data Call : Type 0 where
  setting : Bool → StoredPlan → Call
  clearing : Bool → Call
  starting : Bool → Text → ℕ → Call
  finishing : Bool → ℕ → Text → Option ExecutionResult → Option ExecError → Call
  reporting : Bool → Text → ExecutionProgress → Option ExecutionResult → Call
  canceling : Bool → Call

-- the plan of `NewPlanStore`: what the state file has, where it can be read
abbrev pub loaded : {F : Type 0} → Option (Option StoredPlan) → Option F → PlanStore F
loaded none file = record { plan = none; has_state_file = true; file = file; state_err = true }
loaded (some plan) file = record {
  plan = plan;
  has_state_file = true;
  file = file;
  state_err = false;
}

module _ {F : Type 0} (decode : F → Option StoredPlan) where
  abbrev pub decoded : Option F → Option (Option StoredPlan)
  decoded none = some none
  decoded (some raw) = elim (decode raw) [ none ↦ none | some sp ↦ some (some sp) ]

  -- `NewPlanStore` with a state file; the flag says whether reading it meets another error than that
  -- it is not there
  unfoldable pub new_plan_store : Bool → Option F → PlanStore F
  new_plan_store fails file = loaded (if fails then none else decoded file) file

module _ {F : Type 0} (encode : StoredPlan → F) where
  abbrev pub image : Option StoredPlan → Option F
  image none = none
  image (some sp) = some (encode sp)

  -- `persistLocked`, and the answer of the method after it
  unfoldable pub persist : {A : Type 0} → Bool → A → Op F A
  persist fails a s =
      if not s.has_state_file
      then (ok a, s)
      else if fails
      then (err state_unavailable, record s { state_err = true })
      else (ok a, record s { file = image s.plan })

  unfoldable pub set : Bool → StoredPlan → Op F (Unit {0})
  unfolding persist
  set fails sp s = guarded s (persist fails tt (record s { plan = some sp }))

  -- It gives the old plan back, also beside an error of `persistLocked`.
  unfoldable pub clear : Bool → Op F (Option StoredPlan)
  unfolding persist
  clear fails s = guarded s (persist fails s.plan (record s { plan = none }))

  abbrev pub start_new : Bool → Text → ℕ → PlanResult → StoredPlan → Op F (StoredPlan × Bool)
  start_new fails user now p sp s =
      let started : StoredPlan = start_plan user now p sp in
      persist fails (started, true) (record s { plan = some started })

  -- `TryStartExecution` of a plan, by its status
  abbrev pub start_by :
      ExecutionStatus → Bool → Text → ℕ → PlanResult → StoredPlan → Op F (StoredPlan × Bool)
  start_by running fails user now p sp s = (ok (sp, false), s)
  start_by completed fails user now p sp s = (ok (sp, false), s)
  start_by planned fails user now p sp s = start_new fails user now p sp s
  start_by failed fails user now p sp s = start_new fails user now p sp s
  start_by canceled fails user now p sp s = start_new fails user now p sp s

  abbrev pub start_with :
      Bool → Text → ℕ → Option PlanResult → StoredPlan → Op F (StoredPlan × Bool)
  start_with fails user now none sp s = (err state_unavailable, s)
  start_with fails user now (some p) sp s = start_by sp.execution_status fails user now p sp s

  abbrev pub try_start : Bool → Text → ℕ → Option StoredPlan → Op F (StoredPlan × Bool)
  try_start fails user now none s = (err no_plan, s)
  try_start fails user now (some sp) s = start_with fails user now sp.plan sp s

  unfoldable pub try_start_execution : Bool → Text → ℕ → Op F (StoredPlan × Bool)
  unfolding persist
  try_start_execution fails user now s = guarded s (try_start fails user now s.plan s)

  -- a change of the plan with the id; nothing where it is not the one that is stored
  abbrev pub change : Bool → Text → (StoredPlan → StoredPlan) → Option StoredPlan → Op F (Unit {0})
  change fails id f none s = (ok tt, s)
  change fails id f (some sp) s =
      if names id (some sp) then persist fails tt (record s { plan = some (f sp) }) else (ok tt, s)

  unfoldable pub finish_execution :
      Bool → ℕ → Text → Option ExecutionResult → Option ExecError → Op F (Unit {0})
  unfolding persist
  finish_execution fails now id result e s =
      guarded s (change fails id (finish_plan now result e) s.plan s)

  unfoldable pub update_execution_progress :
      Bool → Text → ExecutionProgress → Option ExecutionResult → Op F (Unit {0})
  unfolding persist
  update_execution_progress fails id p partial s =
      guarded s (change fails id (progress_plan p partial) s.plan s)

  abbrev pub cancel : Bool → Option StoredPlan → Op F (StoredPlan × Bool)
  cancel fails none s = (err no_plan, s)
  cancel fails (some sp) s =
      if not (is_running sp.execution_status)
      then (ok (sp, false), s)
      else if sp.cancel_requested
      then (ok (sp, false), s)
      else let asked : StoredPlan = record sp { cancel_requested = true } in
        persist fails (asked, true) (record s { plan = some asked })

  unfoldable pub request_cancel : Bool → Op F (StoredPlan × Bool)
  unfolding persist
  request_cancel fails s = guarded s (cancel fails s.plan s)

  -- `Get`
  abbrev pub get_of : Option StoredPlan → Op F StoredPlan
  get_of none s = (err no_plan, s)
  get_of (some sp) s = (ok sp, s)

  unfoldable pub get : Op F StoredPlan
  get s = guarded s (get_of s.plan s)

  -- the store that a call leaves
  unfoldable pub perform : Call → PlanStore F → PlanStore F
  unfolding set clear try_start_execution finish_execution update_execution_progress request_cancel
  perform (setting fails sp) s = (set fails sp s).1
  perform (clearing fails) s = (clear fails s).1
  perform (starting fails user now) s = (try_start_execution fails user now s).1
  perform (finishing fails now id result e) s = (finish_execution fails now id result e s).1
  perform (reporting fails id p partial) s = (update_execution_progress fails id p partial s).1
  perform (canceling fails) s = (request_cancel fails s).1

  unfoldable pub perform_all : List Call → PlanStore F → PlanStore F
  perform_all [] s = s
  perform_all (c ∷ cs) s = perform_all cs (perform c s)
