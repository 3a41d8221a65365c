-- ===== src/Import/PlanStore/Tests.antt =====
-- One plan from its setting to its end. The state file has the plan itself.
use komachi.Base.{◌≡◌, ◌≢◌, refl, codes, true, false, Option, none, some, List, [], ◌∷◌, ◌==◌, ok}
use komachi.Import.PlanStore.{
  PlanItem, create_node, planned, PlanResult, ExecutionProgress, StoredPlan, PlanStore, start_plan,
  is_cancel_requested,
}
use komachi.Import.PlanStore.Calls.{
  Call, setting, starting, reporting, canceling, new_plan_store, persist, try_start_execution,
  request_cancel, perform, perform_all,
}
use komachi.Import.PlanStore.Running.{runs}
use komachi.Import.PlanStore.Restart.{new_plan_store-perform_all}
use komachi.Import.PlanStore.Exclusive.{
  try_start_execution-once, is_cancel_requested-request_cancel,
}

abbrev encode : StoredPlan → StoredPlan
encode sp = sp

abbrev decode : StoredPlan → Option StoredPlan
decode sp = some sp

abbrev item : PlanItem
item = record {
  source_path = codes "a.md";
  target_path = codes "a";
  title = codes "A";
  kind = codes "page";
  action = create_node;
  notes = [];
}

abbrev result : PlanResult
result = record { id = codes "p1"; tree_hash = []; items = item ∷ [] }

abbrev no_progress : ExecutionProgress
no_progress = record {
  processed_items = 0;
  total_items = 0;
  current_item_source_path = none;
  started_at = none;
  finished_at = none;
}

abbrev plan : StoredPlan
plan = record {
  plan = some result;
  plan_options = record { source_base_path = codes "in"; target_base_path = [] };
  workspace_root = codes "in";
  created_at = 1;
  execution_status = planned;
  execution_user_id = [];
  cancel_requested = false;
  execution_result = none;
  execution_error = none;
  execution_progress = no_progress;
}

abbrev begun : StoredPlan
begun = start_plan (codes "u1") 5 result plan

abbrev stored : StoredPlan → PlanStore StoredPlan
stored sp = record { plan = some sp; has_state_file = true; file = some sp; state_err = false }

abbrev wished : StoredPlan
wished = record begun { cancel_requested = true }

abbrev reports : List Call
reports = reporting true (codes "p1") no_progress none ∷ starting false (codes "u2") 7 ∷ []

new_plan_store-perform_all_example : new_plan_store decode false (some wished) ≡ stored wished
unfolding new_plan_store perform_all perform persist
new_plan_store-perform_all_example =
    new_plan_store-perform_all encode decode (λ sp. refl) none
      (setting false plan ∷ starting false (codes "u1") 5 ∷ canceling false ∷ []) (stored wished)
      refl refl

try_start_execution-once_example :
    (runs false (codes "p1") (perform_all encode reports (stored begun)).plan ≡ true)
    × (try_start_execution encode false (codes "u3") 9 (perform_all encode reports (stored begun))
        ≢ (ok (begun, true), stored begun))
unfolding try_start_execution persist ◌==◌
try_start_execution-once_example =
    try_start_execution-once encode false false (codes "u1") (codes "u3") (codes "p1") 5 9 begun
      begun (stored plan) (stored begun) (stored begun) reports refl refl refl

is_cancel_requested-request_cancel_example :
    is_cancel_requested (codes "p1") (perform_all encode reports (stored wished)) ≡ true
unfolding request_cancel persist ◌==◌
is_cancel_requested-request_cancel_example =
    is_cancel_requested-request_cancel encode false (codes "p1") wished (stored begun)
      (stored wished) reports refl refl refl
