-- ===== src/Import/Executor.antt =====
-- The execution of an import plan, backend/internal/importer/executor.go. `W` is the state of all that
-- an execution works on: the wiki, the source folder and the store of the plan. What it calls there
-- are the fields of `Ports`.
pub mod Accounts
mod Tests
use komachi.Base.{
  ℕ, suc, ◌+◌, Text, codes, Bool, true, false, Option, none, some, List, [], ◌∷◌, ◌++◌, ◌==◌, not,
  length, eqb, Result, ok, err, Exec, pure, raise, ◌>>=◌, continue, if◌then◌else◌, drop, zero,
}
use komachi.Import.PlanStore.{
  PlanAction, create_node, skip_node, other_action, ExecutionAction, created, skipped, PlanItem,
  PlanResult, ItemResult, ExecutionResult, ExecutionProgress,
}

pub record Ports (W P S : Type 0) : Type 0 where
  -- `TreeHash`
  pub tree_hash : W → Text
  -- `EnsurePath` for a user; none is a nil page
  pub ensure_path : Text → PlanItem → Exec W Text (Option P)
  -- `markdown.LoadMarkdownFile` of a source path under the base path
  pub load : Text → Exec W Text S
  -- `buildImportedContent`
  pub build : S → Result Text Text
  -- `TransformContent` for a user, with the source path and the page
  pub transform : Text → Text → P → Text → Exec W Text Text
  -- `UpdatePage` for a user
  pub update_page : Text → P → Text → Exec W Text (Unit {0})
  -- the progress callback
  pub report : ExecutionProgress → ExecutionResult → W → W
  -- the cancel check
  pub canceled : W → Bool

pub data Refusal : Type 0 where
  missing_tree_hash stale_plan : Refusal

pub data Outcome (W : Type 0) : Type 0 where
  refused : Refusal → Outcome W
  stopped : ExecutionResult → W → Outcome W
  finished : ExecutionResult → W → Outcome W

abbrev pub empty_result : Text → ExecutionResult
empty_result before = record {
  imported_count = 0;
  updated_count = 0;
  skipped_count = 0;
  items = [];
  tree_hash = [];
  tree_hash_before = before;
}

-- the result that an execution goes on with
abbrev pub resumed : Text → Option ExecutionResult → ExecutionResult
resumed before none = empty_result before
resumed before (some r) =
    if r.tree_hash_before == [] then record r { tree_hash_before = before } else r

abbrev pub item_result : PlanItem → ExecutionAction → Option Text → ItemResult
item_result i action error = record {
  source_path = i.source_path;
  target_path = i.target_path;
  action = action;
  error = error;
  notes = i.notes;
}

abbrev pub add_skipped : PlanItem → Option Text → ExecutionResult → ExecutionResult
add_skipped i error r = record r {
  skipped_count = r.skipped_count + 1;
  items = r.items ++ (item_result i skipped error ∷ []);
}

abbrev pub add_imported : PlanItem → ExecutionResult → ExecutionResult
add_imported i r = record r {
  imported_count = r.imported_count + 1;
  items = r.items ++ (item_result i created none ∷ []);
}

module _ {W P S : Type 0} (ports : Ports W P S) (user : Text) where
  abbrev lift : {A : Type 0} → Result Text A → Exec W Text A
  lift answer w = (answer, w)

  abbrev require_page : Option P → Exec W Text P
  require_page none = raise (codes "could not create page")
  require_page (some p) = pure p

  unfoldable pub create_page : PlanItem → Exec W Text (Unit {0})
  create_page i = do
    found ← ports.ensure_path user i
    page ← require_page found
    source ← ports.load i.source_path
    content ← lift (ports.build source)
    transformed ← ports.transform user i.source_path page content
    ports.update_page user page transformed

  -- `continue` after a failure leaves the hash of the tree as it was and reports nothing.
  abbrev pub settled :
      PlanItem
      → (W → ExecutionResult → W)
      → ExecutionResult
      → Result Text (Unit {0}) × W
      → ExecutionResult × W
  settled i after r (err message, w) = (add_skipped i (some message) r, w)
  settled i after r (ok _, w) =
      let r' : ExecutionResult = record (add_imported i r) { tree_hash = ports.tree_hash w } in
      (r', after w r')

  abbrev pub passed_over :
      PlanItem → Option Text → (W → ExecutionResult → W) → ExecutionResult → W → ExecutionResult × W
  passed_over i error after r w =
      let r' : ExecutionResult = record (add_skipped i error r) { tree_hash = ports.tree_hash w } in
      (r', after w r')

  abbrev pub act :
      PlanAction → PlanItem → (W → ExecutionResult → W) → ExecutionResult → W → ExecutionResult × W
  act create_node i after r w = settled i after r (create_page i w)
  act skip_node i after r w = passed_over i none after r w
  act other_action i after r w = passed_over i (some (codes "unknown action")) after r w

  abbrev pub progress : ℕ → ℕ → Option Text → Option ℕ → Option ℕ → ExecutionProgress
  progress processed total current started ended = record {
    processed_items = processed;
    total_items = total;
    current_item_source_path = current;
    started_at = started;
    finished_at = ended;
  }

  -- one pass of the loop
  unfoldable pub run_item : ℕ → ℕ → ℕ → PlanItem → ExecutionResult → W → ExecutionResult × W
  unfolding create_page
  run_item started total index i r w =
      let w' = ports.report (progress index total (some i.source_path) (some started) none) r w in
      let after = λ (w2 : W) (r2 : ExecutionResult).
        ports.report (progress (index + 1) total none (some started) none) r2 w2 in
      act i.action i after r w'

  -- The loop; true where it was canceled.
  unfoldable pub loop : ℕ → ℕ → ℕ → List PlanItem → ExecutionResult → W → Bool × ExecutionResult × W
  loop started total index [] r w = (false, r, w)
  loop started total index (i ∷ items) r w = elim (ports.canceled w) [
    | true ↦ (true, r, w)
    | false ↦
        let (r', w') = run_item started total index i r w in
        loop started total (suc index) items r' w'
  ]

  abbrev pub conclude : ℕ → ℕ → ℕ → Bool × ExecutionResult × W → Outcome W
  conclude started ended total (true, r, w) = stopped r w
  conclude started ended total (false, r, w) =
      let r' : ExecutionResult = record r { tree_hash = ports.tree_hash w } in
      finished r' (ports.report (progress total total none (some started) (some ended)) r' w)

  -- The hash that the tree must have; none where the state of a resumed execution lacks it.
  abbrev pub expected_hash : PlanResult → ℕ → Option ExecutionResult → Option Text
  expected_hash plan zero initial = some plan.tree_hash
  expected_hash plan (suc n) none = none
  expected_hash plan (suc n) (some r) = if r.tree_hash == [] then none else some r.tree_hash

  abbrev pub begin : PlanResult → ℕ → Option ExecutionResult → ℕ → ℕ → W → Outcome W
  begin plan start initial started ended w =
      let total = length plan.items in
      let r : ExecutionResult = resumed (ports.tree_hash w) initial in
      let w' = ports.report (progress start total none (some started) none) r w in
      conclude started ended total (loop started total start (drop start plan.items) r w')

  abbrev pub checked : Option Text → Text → Outcome W → Outcome W
  checked none before go = refused missing_tree_hash
  checked (some hash) before go = if hash == before then go else refused stale_plan

  -- `Execute`, from the item `start` on
  unfoldable pub execute : PlanResult → ℕ → Option ExecutionResult → ℕ → ℕ → W → Outcome W
  unfolding loop
  execute plan start initial started ended w =
      checked (expected_hash plan start initial) (ports.tree_hash w)
        (begin plan start initial started ended w)
