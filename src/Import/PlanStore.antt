-- ===== src/Import/PlanStore.antt =====
-- The store of the one import plan, backend/internal/importer/plan_store.go. `encode` and `decode`
-- stand for `json.Marshal` and `json.Unmarshal`, and `F` for the bytes that a file may have; the
-- state file has some or is not there. A call
-- that fails on the way to `os.Rename`, or `os.Remove`, leaves the state file as it was. The method's
-- lock makes each call one step.
pub mod Calls
pub mod Restart
pub mod Running
pub mod Exclusive
mod Tests
use komachi.Base.{
  ℕ, Text, Bool, true, false, Option, none, some, List, [], ◌∷◌, ◌==◌, ◌&&◌, not, length, Result,
  ok, err, Exec, if◌then◌else◌,
}

pub data ExecutionAction : Type 0 where
  created skipped : ExecutionAction

pub data ExecutionStatus : Type 0 where
  planned running completed failed canceled : ExecutionStatus

-- `PlanActionUpdate`, which no branch of the executor knows, is among the others.
pub data PlanAction : Type 0 where
  create_node skip_node other_action : PlanAction

-- of an item what the store and the executor read
pub record PlanItem : Type 0 where
  pub source_path : Text
  pub target_path : Text
  pub title : Text
  pub kind : Text
  pub action : PlanAction
  pub notes : List Text

pub record PlanResult : Type 0 where
  pub id : Text
  pub tree_hash : Text
  pub items : List PlanItem

pub record ItemResult : Type 0 where
  pub source_path : Text
  pub target_path : Text
  pub action : ExecutionAction
  pub error : Option Text
  pub notes : List Text

pub record ExecutionResult : Type 0 where
  pub imported_count : ℕ
  pub updated_count : ℕ
  pub skipped_count : ℕ
  pub items : List ItemResult
  pub tree_hash : Text
  pub tree_hash_before : Text

pub record ExecutionProgress : Type 0 where
  pub processed_items : ℕ
  pub total_items : ℕ
  pub current_item_source_path : Option Text
  pub started_at : Option ℕ
  pub finished_at : Option ℕ

pub record PlanOptions : Type 0 where
  pub source_base_path : Text
  pub target_base_path : Text

pub record StoredPlan : Type 0 where
  pub plan : Option PlanResult
  pub plan_options : PlanOptions
  pub workspace_root : Text
  pub created_at : ℕ
  pub execution_status : ExecutionStatus
  pub execution_user_id : Text
  pub cancel_requested : Bool
  pub execution_result : Option ExecutionResult
  pub execution_error : Option Text
  pub execution_progress : ExecutionProgress

pub record PlanStore (F : Type 0) : Type 0 where
  pub plan : Option StoredPlan
  -- whether the store has a state file, and what is in it
  pub has_state_file : Bool
  pub file : Option F
  -- `stateErr != nil`
  pub state_err : Bool

pub data PlanError : Type 0 where
  no_plan state_unavailable : PlanError

abbrev pub Op : Type 0 → Type 0 → Type 0
Op F A = Exec (PlanStore F) PlanError A

-- what the error of an execution is to `FinishExecution`
pub data ExecError : Type 0 where
  import_canceled : ExecError
  other_error : Text → ExecError

abbrev pub reread : {A : Type 0} → Option A → Option A → Option A
reread none old = old
reread (some a) old = some a

abbrev pub fresh_progress : PlanResult → ℕ → ExecutionProgress
fresh_progress p now = record {
  processed_items = 0;
  total_items = length p.items;
  current_item_source_path = none;
  started_at = some now;
  finished_at = none;
}

abbrev pub start_plan : Text → ℕ → PlanResult → StoredPlan → StoredPlan
start_plan user now p sp = record sp {
  execution_status = running;
  execution_user_id = user;
  cancel_requested = false;
  execution_result = none;
  execution_error = none;
  execution_progress = fresh_progress p now;
}

abbrev pub failed_plan : ℕ → ExecutionStatus → Option Text → StoredPlan → StoredPlan
failed_plan now status message sp =
    let p : ExecutionProgress = sp.execution_progress in
    record sp {
      execution_status = status;
      execution_error = message;
      execution_progress = record p { finished_at = some now; current_item_source_path = none };
    }

abbrev pub ended_plan : ℕ → Option ExecError → StoredPlan → StoredPlan
ended_plan now (some import_canceled) sp = failed_plan now canceled none sp
ended_plan now (some (other_error message)) sp = failed_plan now failed (some message) sp
ended_plan now none sp =
    let p : ExecutionProgress = sp.execution_progress in
    record sp {
      execution_status = completed;
      execution_error = none;
      execution_progress = record p {
        finished_at = some now;
        processed_items = p.total_items;
        current_item_source_path = none;
      };
    }

abbrev pub finish_plan : ℕ → Option ExecutionResult → Option ExecError → StoredPlan → StoredPlan
finish_plan now result e sp =
    ended_plan now e
      (record sp { execution_result = result; execution_user_id = []; cancel_requested = false })

abbrev pub progress_plan : ExecutionProgress → Option ExecutionResult → StoredPlan → StoredPlan
progress_plan p partial sp =
    let old : ExecutionProgress = sp.execution_progress in
    record sp {
      execution_progress = record {
        processed_items = p.processed_items;
        total_items = p.total_items;
        current_item_source_path = p.current_item_source_path;
        started_at = reread p.started_at old.started_at;
        finished_at = reread p.finished_at old.finished_at;
      };
      execution_result = reread partial sp.execution_result;
    }

-- `ps.plan != nil && ps.plan.Plan != nil && ps.plan.Plan.ID == planID`
abbrev pub has_id : Text → Option PlanResult → Bool
has_id id none = false
has_id id (some p) = p.id == id

abbrev pub names : Text → Option StoredPlan → Bool
names id none = false
names id (some sp) = has_id id sp.plan

abbrev pub requested : Option StoredPlan → Bool
requested none = false
requested (some sp) = sp.cancel_requested

-- `IsCancelRequested`
unfoldable pub is_cancel_requested : {F : Type 0} → Text → PlanStore F → Bool
is_cancel_requested id s = names id s.plan && requested s.plan
