-- ===== src/Import/PlanStore/Exclusive.antt =====
-- At most one execution of a plan at a time, and what a request to cancel does
-- (backend/internal/importer/plan_store.go).
use komachi.Base.{
  ℕ, ◌≡◌, ◌≢◌, refl, ap, subst, ◌∙◌, Text, Bool, true, false, Option, none, some, List, arith, ◌&&◌,
  not, all, Result, ok, if◌then◌else◌,
}
use komachi.Import.PlanStore.{
  ExecutionStatus, planned, running, completed, failed, canceled, PlanResult, StoredPlan, PlanStore,
  PlanError, start_plan, names, has_id, requested, is_cancel_requested,
}
use komachi.Import.PlanStore.Running.{runs, keeps, runs-perform_all, try_start-running}
use komachi.Import.PlanStore.Calls.{
  guarded, Call, persist, start_new, start_by, start_with, try_start, try_start_execution, cancel,
  request_cancel, perform_all, is_running,
}

guarded-ok :
    {F A : Type 0} (s : PlanStore F) (answer : Result PlanError A × PlanStore F) (a : A)
    (s1 : PlanStore F)
    → guarded s answer ≡ (ok a, s1)
    → answer ≡ (ok a, s1)
guarded-ok s answer a s1 h = ground arith

refused :
    {F : Type 0} (x : Result PlanError (StoredPlan × Bool) × PlanStore F) (q sp : StoredPlan)
    (s s2 : PlanStore F)
    → x ≡ (ok (q, false), s)
    → x ≢ (ok (sp, true), s2)
refused x q sp s s2 e f = ground arith

runs-requested :
    (id : Text) (plan : Option StoredPlan)
    → runs true id plan ≡ true
    → (names id plan && requested plan) ≡ true
runs-requested id none h = h
runs-requested id (some sp) h = ground arith

module _ {F : Type 0} (encode : StoredPlan → F) where
  -- the stored plan is `sp`, and it is running
  abbrev Begun : StoredPlan → PlanStore F → Type 0
  Begun sp s = (s.plan ≡ some sp) × (is_running sp.execution_status ≡ true)

  persist-ok :
      {A : Type 0} (fails : Bool) (a b : A) (s s1 : PlanStore F)
      → persist encode fails a s ≡ (ok b, s1)
      → (a ≡ b) × (s1.plan ≡ s.plan)
  unfolding persist
  persist-ok fails a b s s1 h = ground arith

  start_new-Begun :
      (fails : Bool) (user : Text) (now : ℕ) (p : PlanResult) (q sp : StoredPlan)
      (s s1 : PlanStore F)
      → start_new encode fails user now p q s ≡ (ok (sp, true), s1)
      → Begun sp s1
  start_new-Begun fails user now p q sp s s1 h =
      let started : StoredPlan = start_plan user now p q in
      let answer : StoredPlan × Bool = (sp, true) in
      let (e, k) =
        persist-ok fails (started, true) answer (record s { plan = some started }) s1 h in
      let e2 : started ≡ sp = ap (λ (x : StoredPlan × Bool). x.0) e in
      (k ∙ ap some e2, subst (λ x. is_running x.execution_status ≡ true) e2 refl)

  start_by-Begun :
      (status : ExecutionStatus) (fails : Bool) (user : Text) (now : ℕ) (p : PlanResult)
      (q sp : StoredPlan) (s s1 : PlanStore F)
      → start_by encode status fails user now p q s ≡ (ok (sp, true), s1)
      → Begun sp s1
  start_by-Begun running fails user now p q sp s s1 h = absurd (ground arith)
  start_by-Begun completed fails user now p q sp s s1 h = absurd (ground arith)
  start_by-Begun planned fails user now p q sp s s1 h = start_new-Begun fails user now p q sp s s1 h
  start_by-Begun failed fails user now p q sp s s1 h = start_new-Begun fails user now p q sp s s1 h
  start_by-Begun canceled fails user now p q sp s s1 h =
      start_new-Begun fails user now p q sp s s1 h

  start_with-Begun :
      (fails : Bool) (user : Text) (now : ℕ) (p : Option PlanResult) (q sp : StoredPlan)
      (s s1 : PlanStore F)
      → start_with encode fails user now p q s ≡ (ok (sp, true), s1)
      → Begun sp s1
  start_with-Begun fails user now none q sp s s1 h = absurd (ground arith)
  start_with-Begun fails user now (some p) q sp s s1 h =
      start_by-Begun q.execution_status fails user now p q sp s s1 h

  try_start-Begun :
      (fails : Bool) (user : Text) (now : ℕ) (plan : Option StoredPlan) (sp : StoredPlan)
      (s s1 : PlanStore F)
      → try_start encode fails user now plan s ≡ (ok (sp, true), s1)
      → Begun sp s1
  try_start-Begun fails user now none sp s s1 h = absurd (ground arith)
  try_start-Begun fails user now (some q) sp s s1 h =
      start_with-Begun fails user now q.plan q sp s s1 h

  try_start_execution-Begun :
      (fails : Bool) (user : Text) (now : ℕ) (sp : StoredPlan) (s s1 : PlanStore F)
      → try_start_execution encode fails user now s ≡ (ok (sp, true), s1)
      → Begun sp s1
  unfolding try_start_execution
  try_start_execution-Begun fails user now sp s s1 h =
      try_start-Begun fails user now s.plan sp s s1 (guarded-ok s _ _ s1 h)

  -- Once an execution of a plan has started, none starts again, whatever calls are made in whatever
  -- order and whether or not they can save, until one sets or clears the plan or finishes the
  -- execution of the plan with that id; and after those calls the plan with that id is stored and
  -- running.
  pub try_start_execution-once :
      (fails fails2 : Bool) (user user2 id : Text) (now now2 : ℕ) (sp sp2 : StoredPlan)
      (s s1 s2 : PlanStore F) (cs : List Call)
      → try_start_execution encode fails user now s ≡ (ok (sp, true), s1)
      → has_id id sp.plan ≡ true
      → all (keeps id) cs ≡ true
      → (runs false id (perform_all encode cs s1).plan ≡ true)
        × (try_start_execution encode fails2 user2 now2 (perform_all encode cs s1)
            ≢ (ok (sp2, true), s2))
  unfolding try_start_execution
  try_start_execution-once fails fails2 user user2 id now now2 sp sp2 s s1 s2 cs h g n =
      let (stored, run) = try_start_execution-Begun fails user now sp s s1 h in
      let before : runs false id s1.plan ≡ true = rw (stored, run, g) refl in
      let after : PlanStore F = perform_all encode cs s1 in
      let still = runs-perform_all encode false id cs s1 n before in
      let (q, e) = try_start-running encode false id fails2 user2 now2 after.plan after still in
      (still, λ z. let w = guarded-ok after _ (sp2, true) s2 z in refused _ q sp2 after s2 e w)

  cancel-Begun :
      (fails : Bool) (plan : Option StoredPlan) (sp : StoredPlan) (s s1 : PlanStore F)
      → cancel encode fails plan s ≡ (ok (sp, true), s1)
      → Begun sp s1 × (sp.cancel_requested ≡ true)
  cancel-Begun fails none sp s s1 h = absurd (ground arith)
  cancel-Begun fails (some q) sp s s1 h =
      choice (is_running q.execution_status) q.cancel_requested refl h
    where
      wish : StoredPlan
      wish = record q { cancel_requested = true }

      granted : StoredPlan × Bool
      granted = (wish, true)

      choice :
          (b c : Bool)
          → is_running q.execution_status ≡ b
          → (if not b
              then (ok (q, false), s)
              else if c
              then (ok (q, false), s)
              else persist encode fails granted (record s { plan = some wish }))
            ≡ (ok (sp, true), s1)
          → Begun sp s1 × (sp.cancel_requested ≡ true)
      choice false c e h = absurd (ground arith)
      choice true true e h = absurd (ground arith)
      choice true false e h =
          let answer : StoredPlan × Bool = (sp, true) in
          let (g, k) = persist-ok fails granted answer (record s { plan = some wish }) s1 h in
          let same : wish ≡ sp = ap (λ (x : StoredPlan × Bool). x.0) g in
          (
            (k ∙ ap some same, subst (λ x. is_running x.execution_status ≡ true) same e),
            subst (λ x. x.cancel_requested ≡ true) same refl,
          )

  -- A request to cancel that was granted is there for the execution to see, whatever calls are made
  -- in whatever order and whether or not they can save, until one sets or clears the plan or finishes
  -- the execution of the plan with that id.
  pub is_cancel_requested-request_cancel :
      (fails : Bool) (id : Text) (sp : StoredPlan) (s s1 : PlanStore F) (cs : List Call)
      → request_cancel encode fails s ≡ (ok (sp, true), s1)
      → has_id id sp.plan ≡ true
      → all (keeps id) cs ≡ true
      → is_cancel_requested id (perform_all encode cs s1) ≡ true
  unfolding request_cancel is_cancel_requested
  is_cancel_requested-request_cancel fails id sp s s1 cs h g n =
      let ((stored, run), wished) = cancel-Begun fails s.plan sp s s1 (guarded-ok s _ _ s1 h) in
      let before : runs true id s1.plan ≡ true = rw (stored, run, g) wished in
      let after : PlanStore F = perform_all encode cs s1 in
      runs-requested id after.plan (runs-perform_all encode true id cs s1 n before)
