-- ===== src/Import/PlanStore/Running.antt =====
-- The calls under which an execution goes on (backend/internal/importer/plan_store.go).
use komachi.Base.{
  ℕ, ◌≡◌, refl, Text, Bool, true, false, Option, none, some, List, [], ◌∷◌, arith, ◌==◌, ◌&&◌, not,
  all, Result, ok, err, if◌then◌else◌, Bool-cases, inl, inr, eq_text_iff, eq_text_refl,
}
use komachi.Import.PlanStore.{
  ExecutionStatus, planned, running, completed, failed, canceled, PlanResult, StoredPlan, PlanStore,
  PlanError, state_unavailable, finish_plan, progress_plan, names, has_id,
}
use komachi.Import.PlanStore.Calls.{
  guarded, Call, setting, clearing, starting, finishing, reporting, canceling, persist, start_by,
  start_with, try_start, change, cancel, perform, perform_all, is_running,
}

-- The stored plan is the one with the id, it is being executed and, if `asked`, its cancellation is
-- requested.
abbrev pub runs : Bool → Text → Option StoredPlan → Bool
runs asked id none = false
runs asked id (some sp) =
    is_running sp.execution_status
    && has_id id sp.plan
    && (if asked then sp.cancel_requested else true)

-- a call that neither replaces the plan nor finishes the execution of the one with the id
abbrev pub keeps : Text → Call → Bool
keeps id (setting fails sp) = false
keeps id (clearing fails) = false
keeps id (starting fails user now) = true
keeps id (finishing fails now other result e) = not (other == id)
keeps id (reporting fails other p partial) = true
keeps id (canceling fails) = true

has_id_other :
    (id other : Text) (p : Option PlanResult)
    → has_id id p ≡ true
    → (other == id) ≡ false
    → has_id other p ≡ false
has_id_other id other none h n = refl
has_id_other id other (some p) h n =
    ground (arith, eq_text_iff p.id id, eq_text_iff p.id other, eq_text_refl id)

module _ {F : Type 0} (encode : StoredPlan → F) (asked : Bool) (id : Text) where
  runs-persist :
      {A : Type 0} (fails : Bool) (a : A) (s : PlanStore F)
      → runs asked id s.plan ≡ true
      → runs asked id (persist encode fails a s).1.plan ≡ true
  unfolding persist
  runs-persist fails a s h = ground arith

  start_by-running :
      (status : ExecutionStatus) (fails : Bool) (user : Text) (now : ℕ) (p : PlanResult)
      (sp : StoredPlan) (s : PlanStore F)
      → is_running status ≡ true
      → start_by encode status fails user now p sp s ≡ (ok (sp, false), s)
  start_by-running running fails user now p sp s h = refl
  start_by-running planned fails user now p sp s h = absurd (ground arith)
  start_by-running completed fails user now p sp s h = absurd (ground arith)
  start_by-running failed fails user now p sp s h = absurd (ground arith)
  start_by-running canceled fails user now p sp s h = absurd (ground arith)

  start_with-running :
      (fails : Bool) (user : Text) (now : ℕ) (p : Option PlanResult) (sp : StoredPlan)
      (s : PlanStore F)
      → is_running sp.execution_status ≡ true
      → has_id id p ≡ true
      → start_with encode fails user now p sp s ≡ (ok (sp, false), s)
  start_with-running fails user now none sp s h g = absurd (ground arith)
  start_with-running fails user now (some p) sp s h g =
      start_by-running sp.execution_status fails user now p sp s h

  pub try_start-running :
      (fails : Bool) (user : Text) (now : ℕ) (plan : Option StoredPlan) (s : PlanStore F)
      → runs asked id plan ≡ true
      → (sp : StoredPlan) × (try_start encode fails user now plan s ≡ (ok (sp, false), s))
  try_start-running fails user now none s h = absurd (ground arith)
  try_start-running fails user now (some sp) s h =
      (sp, start_with-running fails user now sp.plan sp s (ground arith) (ground arith))

  runs-change :
      (fails : Bool) (other : Text) (f : StoredPlan → StoredPlan) (plan : Option StoredPlan)
      (s : PlanStore F)
      → runs asked id s.plan ≡ true
      → runs asked id plan ≡ true
      → ((sp : StoredPlan)
          → names other (some sp) ≡ true
          → runs asked id (some sp) ≡ true
          → runs asked id (some (f sp)) ≡ true)
      → runs asked id (change encode fails other f plan s).1.plan ≡ true
  runs-change fails other f none s h g k = h
  runs-change fails other f (some sp) s h g k = elim (Bool-cases (names other (some sp))) [
    | inl e ↦ simp e (runs-persist fails tt (record s { plan = some (f sp) }) (k sp e g))
    | inr e ↦ simp e h
  ]

  runs-cancel :
      (fails : Bool) (plan : Option StoredPlan) (s : PlanStore F)
      → runs asked id s.plan ≡ true
      → runs asked id plan ≡ true
      → runs asked id (cancel encode fails plan s).1.plan ≡ true
  unfolding persist
  runs-cancel fails none s h g = h
  runs-cancel fails (some sp) s h g = ground arith

  runs-guarded :
      {A : Type 0} (s : PlanStore F) (answer : Result PlanError A × PlanStore F)
      → runs asked id s.plan ≡ true
      → runs asked id answer.1.plan ≡ true
      → runs asked id (guarded s answer).1.plan ≡ true
  runs-guarded s answer k l = choice s.state_err
    where
      choice :
          (b : Bool)
          → runs asked id (if b then (err state_unavailable, s) else answer).1.plan ≡ true
      choice true = k
      choice false = l

  runs-finish_plan :
      (other : Text) (sp : StoredPlan) (f : StoredPlan → StoredPlan)
      → (other == id) ≡ false
      → names other (some sp) ≡ true
      → runs asked id (some sp) ≡ true
      → runs asked id (some (f sp)) ≡ true
  runs-finish_plan other sp f n e g = absurd (ground (arith, has_id_other id other sp.plan))

  runs-perform :
      (c : Call) (s : PlanStore F)
      → keeps id c ≡ true
      → runs asked id s.plan ≡ true
      → runs asked id (perform encode c s).plan ≡ true
  unfolding perform
  runs-perform (setting fails sp) s n h = absurd (ground arith)
  runs-perform (clearing fails) s n h = absurd (ground arith)
  runs-perform (starting fails user now) s n h =
      let (sp, e) = try_start-running fails user now s.plan s h in runs-guarded s _ h (rw e h)
  runs-perform (finishing fails now other result e) s n h = runs-guarded s _ h (
      runs-change fails other (finish_plan now result e) s.plan s h h
        (λ sp m g. runs-finish_plan other sp (finish_plan now result e) (ground arith) m g))
  runs-perform (reporting fails other p partial) s n h =
      runs-guarded s _ h
        (runs-change fails other (progress_plan p partial) s.plan s h h (λ sp m g. g))
  runs-perform (canceling fails) s n h = runs-guarded s _ h (runs-cancel fails s.plan s h h)

  pub runs-perform_all :
      (cs : List Call) (s : PlanStore F)
      → all (keeps id) cs ≡ true
      → runs asked id s.plan ≡ true
      → runs asked id (perform_all encode cs s).plan ≡ true
  unfolding perform_all
  runs-perform_all [] s n h = h
  runs-perform_all (c ∷ cs) s n h =
      runs-perform_all cs (perform encode c s) (ground arith) (runs-perform c s (ground arith) h)
