-- ===== src/Import/Executor/Tests.antt =====
-- A plan of two files of which the first cannot be loaded.
use komachi.Base.{
  ◌≡◌, refl, Text, codes, Bool, true, false, none, some, List, [], ◌∷◌, ◌==◌, Result, ok, err,
}
use komachi.Import.PlanStore.{create_node, PlanItem, PlanResult, ExecutionResult}
use komachi.Import.Executor.{
  Ports, refused, finished, missing_tree_hash, empty_result, add_skipped, add_imported, create_page,
  run_item, loop, execute,
}
use komachi.Import.Executor.Accounts.{Accounts, execute-Concluded}

abbrev Wiki : Type 0
Wiki = List Text

abbrev hash : Wiki → Text
hash [] = codes "h"
hash (p ∷ w) = p

abbrev loaded : Bool → Text → Result Text Text
loaded true path = err (codes "no file")
loaded false path = ok path

abbrev ports : Ports Wiki Text Text
ports = record {
  tree_hash = hash;
  ensure_path = λ user i w. (ok (some i.target_path), i.target_path ∷ w);
  load = λ path w. (loaded (path == codes "bad.md") path, w);
  build = λ source. ok source;
  transform = λ user path page content w. (ok content, w);
  update_page = λ user page content w. (ok tt, w);
  report = λ p r w. w;
  canceled = λ w. false;
}

abbrev item_of : Text → Text → PlanItem
item_of source target = record {
  source_path = source;
  target_path = target;
  title = target;
  kind = codes "page";
  action = create_node;
  notes = [];
}

abbrev plan : PlanResult
plan = record {
  id = codes "p";
  tree_hash = codes "h";
  items = item_of (codes "bad.md") (codes "bad") ∷ item_of (codes "a.md") (codes "a") ∷ [];
}

abbrev after_first : ExecutionResult
after_first =
    add_skipped (item_of (codes "bad.md") (codes "bad")) (some (codes "no file"))
      (empty_result (codes "h"))

abbrev after_both : ExecutionResult
after_both = record (add_imported (item_of (codes "a.md") (codes "a")) after_first) {
  tree_hash = codes "a";
}

whole_run :
    execute ports (codes "u") plan 0 none 1 2 []
    ≡ finished after_both (codes "a" ∷ codes "bad" ∷ [])
unfolding execute loop run_item create_page ◌==◌
whole_run = refl

-- A restart after the first item goes on from the result that was reported before the second.
resume_refused :
    execute ports (codes "u") plan 1 (some after_first) 3 4 (codes "bad" ∷ [])
    ≡ refused missing_tree_hash
unfolding execute ◌==◌
resume_refused = refl

execute-Concluded_example :
    (true ≡ true) × Accounts (empty_result (codes "h")) after_both plan.items
unfolding execute loop run_item create_page ◌==◌
execute-Concluded_example = execute-Concluded ports (codes "u") plan 0 none 1 2 []
