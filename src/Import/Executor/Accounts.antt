-- ===== src/Import/Executor/Accounts.antt =====
-- Every item of a plan is accounted for (backend/internal/importer/executor.go).
use komachi.Base.{
  ℕ, suc, ◌+◌, ◌≡◌, refl, sym, ap, ◌∙◌, Text, Bool, true, false, Option, none, some, List, [], ◌∷◌,
  ◌++◌, map, length, drop, arith, Result, ok, err, inl, inr, Bool-cases, ◌==◌,
}
use komachi.Import.PlanStore.{
  PlanAction, create_node, skip_node, other_action, PlanItem, PlanResult, ItemResult,
  ExecutionResult,
}
use komachi.Import.Executor.{
  Ports, Outcome, refused, stopped, finished, resumed, create_page, settled, act, run_item, loop,
  conclude, expected_hash, checked, execute,
}

-- the source paths of the items of a result, and of a plan
abbrev pub sources : ExecutionResult → List Text
sources r = map (λ (x : ItemResult). x.source_path) r.items

abbrev pub planned_sources : List PlanItem → List Text
planned_sources items = map (λ (x : PlanItem). x.source_path) items

abbrev pub counted : ExecutionResult → ℕ
counted r = r.imported_count + r.skipped_count

-- `after` is `before` with the items that were done added in order, each counted once
pub record Accounts (before after : ExecutionResult) (done : List PlanItem) : Type 0 where
  pub in_order : sources after ≡ sources before ++ planned_sources done
  pub each_once : counted after ≡ counted before + length done

map-append : {A B : Type 0} (f : A → B) (xs ys : List A) → map f (xs ++ ys) ≡ map f xs ++ map f ys
map-append f [] ys = refl
map-append f (x ∷ xs) ys = ap (λ l. f x ∷ l) (map-append f xs ys)

module _ {W P S : Type 0} (ports : Ports W P S) (user : Text) where
  settled-Accounts :
      (i : PlanItem) (after : W → ExecutionResult → W) (r : ExecutionResult)
      (answer : Result Text (Unit {0}) × W)
      → Accounts r (settled ports user i after r answer).0 (i ∷ [])
  settled-Accounts i after r (ok _, w) = record {
    in_order = map-append _ r.items _;
    each_once = omega arith;
  }
  settled-Accounts i after r (err message, w) = record {
    in_order = map-append _ r.items _;
    each_once = omega arith;
  }

  act-Accounts :
      (a : PlanAction) (i : PlanItem) (after : W → ExecutionResult → W) (r : ExecutionResult)
      (w : W)
      → Accounts r (act ports user a i after r w).0 (i ∷ [])
  act-Accounts create_node i after r w = settled-Accounts i after r (create_page ports user i w)
  act-Accounts skip_node i after r w = record {
    in_order = map-append _ r.items _;
    each_once = omega arith;
  }
  act-Accounts other_action i after r w = record {
    in_order = map-append _ r.items _;
    each_once = omega arith;
  }

  run_item-Accounts :
      (started total index : ℕ) (i : PlanItem) (r : ExecutionResult) (w : W)
      → Accounts r (run_item ports user started total index i r w).0 (i ∷ [])
  unfolding run_item
  run_item-Accounts started total index i r w = act-Accounts i.action i _ r _

  Accounts-cons :
      (a b c : ExecutionResult) (i : PlanItem) (done : List PlanItem)
      → Accounts a b (i ∷ [])
      → Accounts b c done
      → Accounts a c (i ∷ done)
  Accounts-cons a b c i done x y = record {
    in_order = y.in_order ∙ ap (λ l. l ++ planned_sources done) x.in_order ∙ regroup (sources a);
    each_once = y.each_once ∙ omega (arith, x.each_once);
  }
    where
      regroup :
          (l : List Text)
          → (l ++ (i.source_path ∷ [])) ++ planned_sources done
            ≡ l ++ (i.source_path ∷ planned_sources done)
      regroup [] = refl
      regroup (x ∷ l) = ap (λ z. x ∷ z) (regroup l)

  Accounts-none : (r : ExecutionResult) → Accounts r r []
  Accounts-none r = record { in_order = sym (right_unit (sources r)); each_once = omega arith }
    where
      right_unit : (l : List Text) → l ++ [] ≡ l
      right_unit [] = refl
      right_unit (x ∷ l) = ap (λ z. x ∷ z) (right_unit l)

  -- The items that a loop did before it ended or was canceled
  abbrev Looped : List PlanItem → ExecutionResult → Bool × ExecutionResult × W → Type 0
  Looped items r answer =
      (done : List PlanItem) × (rest : List PlanItem) × (items ≡ done ++ rest)
      × Accounts r answer.1 done
      × (answer.0 ≡ false → rest ≡ [])

  loop-Looped :
      (started total index : ℕ) (items : List PlanItem) (r : ExecutionResult) (w : W)
      → Looped items r (loop ports user started total index items r w)
  unfolding loop
  loop-Looped started total index [] r w = ([], [], refl, Accounts-none r, λ e. refl)
  loop-Looped started total index (i ∷ items) r w = elim (Bool-cases (ports.canceled w)) [
    | inl e ↦ rw (e, loop) ([], i ∷ items, refl, Accounts-none r, λ f. absurd (ground arith))
    | inr e ↦
        let (r', w') = run_item ports user started total index i r w in
        let (done, rest, split, all_done, ended) =
          loop-Looped started total (suc index) items r' w' in
        rw (e, loop)
          (
            i ∷ done,
            rest,
            ap (λ l. i ∷ l) split,
            Accounts-cons r r' _ i done (run_item-Accounts started total index i r w) all_done,
            ended,
          )
  ]

  -- What an execution of the items came to, from the result `before` and where `allowed` says whether
  -- the tree is as the plan expects.
  abbrev pub Concluded : List PlanItem → ExecutionResult → Bool → Outcome W → Type 0
  Concluded items before allowed (refused e) = allowed ≡ false
  Concluded items before allowed (stopped r w) =
      (allowed ≡ true)
      × ((done : List PlanItem) × (rest : List PlanItem) × (items ≡ done ++ rest)
          × Accounts before r done)
  Concluded items before allowed (finished r w) = (allowed ≡ true) × Accounts before r items

  abbrev pub is_expected : Option Text → Text → Bool
  is_expected none before = false
  is_expected (some hash) before = hash == before

  conclude-Concluded :
      (started ended total : ℕ) (items : List PlanItem) (before : ExecutionResult)
      (answer : Bool × ExecutionResult × W)
      → Looped items before answer
      → Concluded items before true (conclude ports user started ended total answer)
  conclude-Concluded started ended total items before (true, r, w) (done, rest, split, k, e) =
      (refl, (done, rest, split, k))
  conclude-Concluded started ended total items before (false, r, w) (done, rest, split, k, e) =
      let all_done : items ≡ done = split ∙ ap (λ l. done ++ l) (e refl) ∙ append_nil done in
      (refl, rw all_done (record { in_order = k.in_order; each_once = k.each_once }))
    where
      append_nil : (l : List PlanItem) → l ++ [] ≡ l
      append_nil [] = refl
      append_nil (x ∷ l) = ap (λ z. x ∷ z) (append_nil l)

  checked-Concluded :
      (hash : Option Text) (before : Text) (items : List PlanItem) (r : ExecutionResult)
      (go : Outcome W)
      → Concluded items r true go
      → Concluded items r (is_expected hash before) (checked ports user hash before go)
  checked-Concluded none before items r go k = refl
  checked-Concluded (some hash) before items r go k = elim (Bool-cases (hash == before)) [
    | inl e ↦ rw e k
    | inr e ↦ rw e refl
  ]

  -- An execution is refused exactly where the tree does not have the hash that is expected. Else, if
  -- it is not canceled, its result has, after what it began with, each item of the plan from the
  -- first that was left on, in order, counted once as imported or as skipped, whatever calls fail;
  -- and if it is canceled, so for the items before some point.
  pub execute-Concluded :
      (plan : PlanResult) (start : ℕ) (initial : Option ExecutionResult) (started ended : ℕ) (w : W)
      → Concluded
          (drop start plan.items)
          (resumed (ports.tree_hash w) initial)
          (is_expected (expected_hash ports user plan start initial) (ports.tree_hash w))
          (execute ports user plan start initial started ended w)
  unfolding execute
  execute-Concluded plan start initial started ended w =
      let total = length plan.items in
      let r : ExecutionResult = resumed (ports.tree_hash w) initial in
      checked-Concluded (expected_hash ports user plan start initial) (ports.tree_hash w)
        (drop start plan.items) r _
        (conclude-Concluded started ended total (drop start plan.items) r _
          (loop-Looped started total start (drop start plan.items) r _))
