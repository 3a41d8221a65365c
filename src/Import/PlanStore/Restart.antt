-- ===== src/Import/PlanStore/Restart.antt =====
-- A restart finds the plan as it was (backend/internal/importer/plan_store.go).
use komachi.Base.{
  ℕ, ◌≡◌, refl, ap, subst, ◌∙◌, Text, Bool, true, false, Option, none, some, List, [], ◌∷◌, arith,
  not, Result, ok, err, if◌then◌else◌, Bool-cases, inl, inr,
}
use komachi.Import.PlanStore.{
  ExecutionStatus, planned, running, completed, failed, canceled, PlanResult, StoredPlan, PlanStore,
  PlanError, state_unavailable, start_plan, finish_plan, progress_plan, names,
}
use komachi.Import.PlanStore.Calls.{
  guarded, Call, setting, clearing, starting, finishing, reporting, canceling, decoded,
  new_plan_store, loaded, image, persist, start_by, start_with, try_start, change, cancel, perform,
  perform_all, is_running,
}

reread_lem :
    {F : Type 0} (s : PlanStore F)
    → s.has_state_file ≡ true
    → s.state_err ≡ false
    → loaded (some s.plan) s.file ≡ s
reread_lem s h e = cc

module _ {F : Type 0} (encode : StoredPlan → F) (decode : F → Option StoredPlan) where
  abbrev pub IsCodec : Type 0
  IsCodec = (sp : StoredPlan) → decode (encode sp) ≡ some sp

  -- The store saves its plans, and while it is available its file has the plan.
  record IsSaved (s : PlanStore F) : Type 0 where
    saves : s.has_state_file ≡ true
    saved : s.state_err ≡ false → decoded decode s.file ≡ some s.plan

  decoded-image :
      IsCodec → (plan : Option StoredPlan) → decoded decode (image encode plan) ≡ some plan
  decoded-image codec none = refl
  decoded-image codec (some sp) = rw (codec sp) refl

  persist-IsSaved :
      {A : Type 0} (codec : IsCodec) (fails : Bool) (a : A) (s : PlanStore F)
      → s.has_state_file ≡ true
      → IsSaved (persist encode fails a s).1
  unfolding persist
  persist-IsSaved codec true a s h = rw h (record { saves = refl; saved = λ e. ground arith })
  persist-IsSaved codec false a s h =
      rw h (record { saves = refl; saved = λ e. decoded-image codec s.plan })

  guarded-IsSaved :
      {A : Type 0} (s : PlanStore F) (answer : Result PlanError A × PlanStore F)
      → IsSaved s
      → IsSaved answer.1
      → IsSaved (guarded s answer).1
  guarded-IsSaved s answer k l = choice s.state_err
    where
      choice : (b : Bool) → IsSaved (if b then (err state_unavailable, s) else answer).1
      choice true = k
      choice false = l

  change-IsSaved :
      (codec : IsCodec) (fails : Bool) (id : Text) (f : StoredPlan → StoredPlan)
      (plan : Option StoredPlan) (s : PlanStore F)
      → IsSaved s
      → IsSaved (change encode fails id f plan s).1
  change-IsSaved codec fails id f none s k = k
  change-IsSaved codec fails id f (some sp) s k = elim (Bool-cases (names id (some sp))) [
    | inl e ↦ rw e (persist-IsSaved codec fails tt (record s { plan = some (f sp) }) k.saves)
    | inr e ↦ rw e k
  ]

  start_by-IsSaved :
      (codec : IsCodec) (status : ExecutionStatus) (fails : Bool) (user : Text) (now : ℕ)
      (p : PlanResult) (sp : StoredPlan) (s : PlanStore F)
      → IsSaved s
      → IsSaved (start_by encode status fails user now p sp s).1
  start_by-IsSaved codec running fails user now p sp s k = k
  start_by-IsSaved codec completed fails user now p sp s k = k
  start_by-IsSaved codec planned fails user now p sp s k =
      persist-IsSaved codec fails _ (record s { plan = some (start_plan user now p sp) }) k.saves
  start_by-IsSaved codec failed fails user now p sp s k =
      persist-IsSaved codec fails _ (record s { plan = some (start_plan user now p sp) }) k.saves
  start_by-IsSaved codec canceled fails user now p sp s k =
      persist-IsSaved codec fails _ (record s { plan = some (start_plan user now p sp) }) k.saves

  start_with-IsSaved :
      (codec : IsCodec) (fails : Bool) (user : Text) (now : ℕ) (p : Option PlanResult)
      (sp : StoredPlan) (s : PlanStore F)
      → IsSaved s
      → IsSaved (start_with encode fails user now p sp s).1
  start_with-IsSaved codec fails user now none sp s k = k
  start_with-IsSaved codec fails user now (some p) sp s k =
      start_by-IsSaved codec sp.execution_status fails user now p sp s k

  try_start-IsSaved :
      (codec : IsCodec) (fails : Bool) (user : Text) (now : ℕ) (plan : Option StoredPlan)
      (s : PlanStore F)
      → IsSaved s
      → IsSaved (try_start encode fails user now plan s).1
  try_start-IsSaved codec fails user now none s k = k
  try_start-IsSaved codec fails user now (some sp) s k =
      start_with-IsSaved codec fails user now sp.plan sp s k

  cancel-IsSaved :
      (codec : IsCodec) (fails : Bool) (plan : Option StoredPlan) (s : PlanStore F)
      → IsSaved s
      → IsSaved (cancel encode fails plan s).1
  cancel-IsSaved codec fails none s k = k
  cancel-IsSaved codec fails (some sp) s k =
      choice (is_running sp.execution_status) sp.cancel_requested
    where
      asked : StoredPlan
      asked = record sp { cancel_requested = true }

      granted : StoredPlan × Bool
      granted = (asked, true)

      choice :
          (b c : Bool)
          → IsSaved
              (if not b
                then (ok (sp, false), s)
                else if c
                then (ok (sp, false), s)
                else persist encode fails granted (record s { plan = some asked })).1
      choice false c = k
      choice true true = k
      choice true false =
          persist-IsSaved codec fails granted (record s { plan = some asked }) k.saves

  perform-IsSaved :
      (codec : IsCodec) (c : Call) (s : PlanStore F) → IsSaved s → IsSaved (perform encode c s)
  unfolding perform
  perform-IsSaved codec (setting fails sp) s k =
      guarded-IsSaved s _ k (persist-IsSaved codec fails tt (record s { plan = some sp }) k.saves)
  perform-IsSaved codec (clearing fails) s k =
      guarded-IsSaved s _ k (persist-IsSaved codec fails s.plan (record s { plan = none }) k.saves)
  perform-IsSaved codec (starting fails user now) s k =
      guarded-IsSaved s _ k (try_start-IsSaved codec fails user now s.plan s k)
  perform-IsSaved codec (finishing fails now id result e) s k =
      guarded-IsSaved s _ k (change-IsSaved codec fails id (finish_plan now result e) s.plan s k)
  perform-IsSaved codec (reporting fails id p partial) s k =
      guarded-IsSaved s _ k (change-IsSaved codec fails id (progress_plan p partial) s.plan s k)
  perform-IsSaved codec (canceling fails) s k =
      guarded-IsSaved s _ k (cancel-IsSaved codec fails s.plan s k)

  perform_all-IsSaved :
      (codec : IsCodec) (cs : List Call) (s : PlanStore F)
      → IsSaved s
      → IsSaved (perform_all encode cs s)
  unfolding perform_all
  perform_all-IsSaved codec [] s k = k
  perform_all-IsSaved codec (c ∷ cs) s k =
      perform_all-IsSaved codec cs (perform encode c s) (perform-IsSaved codec c s k)

  new_plan_store-IsSaved : (file : Option F) → IsSaved (new_plan_store decode false file)
  unfolding new_plan_store
  new_plan_store-IsSaved file = from_decoded (decoded decode file) refl
    where
      from_decoded :
          (o : Option (Option StoredPlan)) → decoded decode file ≡ o → IsSaved (loaded o file)
      from_decoded none e = record { saves = refl; saved = λ f. ground arith }
      from_decoded (some plan) e = record { saves = refl; saved = λ f. e }

  -- A store that was read from its state file, after whatever calls in whatever order, of which any
  -- may fail to save: where it is still available, a restart reads the same store from the file that
  -- is left, with the same plan, state of its execution and request to cancel.
  pub new_plan_store-perform_all :
      (codec : IsCodec) (file : Option F) (cs : List Call) (s : PlanStore F)
      → perform_all encode cs (new_plan_store decode false file) ≡ s
      → s.state_err ≡ false
      → new_plan_store decode false s.file ≡ s
  unfolding new_plan_store
  new_plan_store-perform_all codec file cs s h e =
      let start = new_plan_store decode false file in
      let k : IsSaved s =
        subst IsSaved h (perform_all-IsSaved codec cs start (new_plan_store-IsSaved file)) in
      let on_file : decoded decode s.file ≡ some s.plan = k.saved e in
      let saves : s.has_state_file ≡ true = k.saves in
      ap (λ o. loaded o s.file) on_file ∙ reread_lem s saves e
