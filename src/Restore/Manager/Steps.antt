-- ===== src/Restore/Manager/Steps.antt =====
-- The steps of a restore up to a failure, and what they leave to its handler (backend/internal/restore/manager.go).
use komachi.Base.{
  codes, ◌≡◌, refl, ap, ◌∙◌, ◌⊎◌, inl, inr, Bool, true, false, none, List, arith, All, Result, ok,
  err, is_none, Bool-cases, Answer-cases, Result-cases, ◌>>◌,
}
use komachi.Restore.Job.{Job, set_phase, finish}
use komachi.Restore.WriteGate.{disengage}
use komachi.Restore.Swap.{next_fault, SwapItem, swap_all}
use komachi.Restore.Swap.Rollback.{IsFresh, AllKept, lives, swap_all-AllKept}
use komachi.Restore.Swap.Commit.{restored, lives-swap_all, lives-commit_all}
use komachi.Restore.Manager.{
  Cause, Failure, before_swap, after_swap, Restoring, Op, pause, clean, swap, reopen, reload,
  commit, steps, call_or_fail, worked, branding_reload, public_access_reload, pause_stores,
  replace_stores, clean_sidecars,
}
use komachi.Restore.Manager.Stores.{IsOpen, replace_stores_needs, replace_stores-IsOpen}

abbrev pub Pending : Job → Type 0
Pending j = j.needs_intervention ≡ false

-- a step that can only fail after the swap
abbrev IsLate : Result Failure (Unit {0}) → Type 0
IsLate (ok _) = Unit
IsLate (err (after_swap c)) = Unit
IsLate (err (before_swap c)) = ⊥

-- a step that can only fail before the swap
abbrev IsEarly : Result Failure (Unit {0}) → Type 0
IsEarly (ok _) = Unit
IsEarly (err (before_swap c)) = Unit
IsEarly (err (after_swap c)) = ⊥

record IsLateStep (r : Restoring) (x : Result Failure (Unit {0}) × Restoring) : Type 0 where
  late : IsLate x.0
  items : x.1.items ≡ r.items
  stores : x.1.stores ≡ r.stores
  needs : x.1.job.needs_intervention ≡ r.job.needs_intervention

call_or_fail_late : (c : Cause) (r : Restoring) → IsLateStep r (call_or_fail (after_swap c) r)
call_or_fail_late c r = elim (Bool-cases (worked (next_fault r.faults).0)) [
  | inl w ↦ rw w (record { late = tt; items = refl; stores = refl; needs = refl })
  | inr w ↦ rw w (record { late = tt; items = refl; stores = refl; needs = refl })
]

chain_IsLateStep :
    (m n : Op) (r : Restoring)
    → IsLateStep r (m r)
    → ((t : Restoring) → IsLateStep t (n t))
    → IsLateStep r ((m >> n) r)
chain_IsLateStep m n r p q = elim (Answer-cases (m r)) [
  | inl (a, t, e) ↦
      let p' = rw e at p in
      let q' = q t in
      rw e (record {
        late = q'.late;
        items = q'.items ∙ p'.items;
        stores = q'.stores ∙ p'.stores;
        needs = q'.needs ∙ p'.needs;
      })
  | inr (c, t, e) ↦ let p' = rw e at p in rw e p'
]

reload_late : (has_public : Bool) (r : Restoring) → IsLateStep r (reload has_public r)
unfolding reload set_phase
reload_late true r =
    let j = set_phase (codes "reloading_branding") r.job in
    let s = record r { job = j } in
    let p =
      chain_IsLateStep (call_or_fail (after_swap branding_reload))
        (call_or_fail (after_swap public_access_reload)) s (call_or_fail_late branding_reload s)
        (λ t. call_or_fail_late public_access_reload t) in
    record { late = p.late; items = p.items; stores = p.stores; needs = p.needs }
reload_late false r =
    let j = set_phase (codes "reloading_branding") r.job in
    let s = record r { job = j } in
    let p =
      chain_IsLateStep (call_or_fail (after_swap branding_reload)) (λ t. (ok tt, t)) s
        (call_or_fail_late branding_reload s)
        (λ t. record { late = tt; items = refl; stores = refl; needs = refl }) in
    record { late = p.late; items = p.items; stores = p.stores; needs = p.needs }

module _ (original : List SwapItem) where
  -- A restore that is over and left the server in order: the gate is open, every store is, and the
  -- live data is that of the snapshot, or with an error that of before.
  pub record IsInOrder (r : Restoring) : Type 0 where
    pub gate : r.gate.engaged ≡ false
    pub stores : All IsOpen r.stores
    pub live_data :
        ((r.job.error ≡ none) × (lives r.items ≡ restored original))
        ⊎ ((is_none r.job.error ≡ false) × (lives r.items ≡ lives original))

  -- The job has ended: it waits for an intervention, or the server is in order.
  abbrev pub IsSettled : Restoring → Type 0
  IsSettled r =
      (r.job.running ≡ false) × ((r.job.needs_intervention ≡ true) ⊎ (Pending r.job × IsInOrder r))

  -- What a chain of steps leaves to the handler of its failure.
  abbrev pub After : Result Failure (Unit {0}) × Restoring → Type 0
  After (ok _, t) = (t.job.running ≡ false) × Pending t.job × IsInOrder t
  After (err (before_swap c), t) = Pending t.job × (t.items ≡ original)
  After (err (after_swap c), t) = Pending t.job × AllKept original t.items

  record Swapped (r : Restoring) : Type 0 where
    pending : Pending r.job
    kept : AllKept original r.items
    new : lives r.items ≡ restored original

  commit-After : (r : Restoring) → Swapped r → All IsOpen r.stores → After (commit r)
  unfolding commit disengage finish
  commit-After r s open_all = (
    refl,
    s.pending,
    record {
      gate = refl;
      stores = open_all;
      live_data = inl (refl, lives-commit_all r.items r.faults ∙ s.new);
    },
  )

  -- what a step after the swap leaves for the handler, or for the steps after it
  chain_late :
      (m next : Op) (r : Restoring)
      → IsLate (m r).0
      → Swapped (m r).1
      → (((m r).0 ≡ ok tt) → After (next (m r).1))
      → After ((m >> next) r)
  chain_late m next r late s go = elim (Answer-cases (m r)) [
    | inl (a, t, e) ↦ rw e (rw e at go refl)
    | inr (after_swap c, t, e) ↦ let s' = rw e at s in rw e (s'.pending, s'.kept)
    | inr (before_swap c, t, e) ↦ absurd (rw e at late)
  ]

  reload-After :
      (has_public : Bool) (r : Restoring)
      → Swapped r
      → All IsOpen r.stores
      → After ((reload has_public >> commit) r)
  reload-After has_public r s open_all =
      let p = reload_late has_public r in
      chain_late (reload has_public) commit r p.late
        (record {
          pending = p.needs ∙ s.pending;
          kept = rw p.items s.kept;
          new = ap lives p.items ∙ s.new;
        })
        (λ _.
          commit-After (reload has_public r).1
            (record {
              pending = p.needs ∙ s.pending;
              kept = rw p.items s.kept;
              new = ap lives p.items ∙ s.new;
            })
            (rw p.stores open_all))

  reopen_fits :
      (r : Restoring)
      → Swapped r
      → IsLate (reopen r).0
        × Swapped (reopen r).1
        × ((reopen r).0 ≡ ok tt → All IsOpen (reopen r).1.stores)
  unfolding reopen
  reopen_fits r s =
      let (answer, stores, job, faults) = replace_stores r.stores r.job r.faults in
      let needs = replace_stores_needs r.stores r.job r.faults in
      let after : Swapped (record r { stores = stores; job = job; faults = faults }) = record {
        pending = needs ∙ s.pending;
        kept = s.kept;
        new = s.new;
      } in
      elim (Result-cases answer) [
        | inl (a, e) ↦ rw e (tt, after, λ _. replace_stores-IsOpen r.stores r.job r.faults e)
        | inr (k, e) ↦ rw e (tt, after, λ z. absurd (ground arith))
      ]

  reopen-After :
      (has_public : Bool) (r : Restoring)
      → Swapped r
      → After ((reopen >> (reload has_public >> commit)) r)
  reopen-After has_public r s =
      let (late, s', open_all) = reopen_fits r s in
      chain_late reopen (reload has_public >> commit) r late s'
        (λ e. reload-After has_public (reopen r).1 s' (open_all e))

  module _ (fresh : All IsFresh original) where
    swap-After :
        (has_public : Bool) (r : Restoring)
        → Pending r.job
        → r.items ≡ original
        → After ((swap >> (reopen >> (reload has_public >> commit))) r)
    unfolding swap
    swap-After has_public r pending same =
        let (done, items, faults) = swap_all r.items r.faults in
        let kept : AllKept original items = rw same (swap_all-AllKept original r.faults fresh) in
        elim (Bool-cases done) [
          | inl d ↦ rw d (
              reopen-After has_public (record r { items = items; faults = faults })
                (record {
                  pending = pending;
                  kept = kept;
                  new = lives-swap_all r.items r.faults d ∙ ap restored same;
                }))
          | inr d ↦ rw d (pending, kept)
        ]

    -- a step before the swap
    chain_early :
        (m next : Op) (r : Restoring)
        → IsEarly (m r).0
        → Pending (m r).1.job
        → (m r).1.items ≡ original
        → After (next (m r).1)
        → After ((m >> next) r)
    chain_early m next r early pending same go = elim (Answer-cases (m r)) [
      | inl (a, t, e) ↦ rw e (rw e at go)
      | inr (before_swap c, t, e) ↦ rw e (rw e at pending, rw e at same)
      | inr (after_swap c, t, e) ↦ absurd (rw e at early)
    ]

    pause-IsEarly : (r : Restoring) → IsEarly (pause r).0
    unfolding pause
    pause-IsEarly r = elim (Result-cases (pause_stores r.stores r.faults).0) [
      | inl (a, e) ↦ rw e tt
      | inr (k, e) ↦ rw e tt
    ]

    clean-IsEarly : (r : Restoring) → IsEarly (clean r).0
    unfolding clean
    clean-IsEarly r = elim (Result-cases (clean_sidecars r.items r.faults).0) [
      | inl (a, e) ↦ rw e tt
      | inr (k, e) ↦ rw e tt
    ]

    pub steps-After :
        (has_public : Bool) (r : Restoring)
        → Pending r.job
        → r.items ≡ original
        → After (steps has_public r)
    unfolding steps
    steps-After has_public r pending same =
        let rest = reopen >> (reload has_public >> commit) in
        chain_early pause (clean >> (swap >> rest)) r (pause-IsEarly r) pending same (
          chain_early clean (swap >> rest) (pause r).1 (clean-IsEarly (pause r).1) pending same
            (swap-After has_public (clean (pause r).1).1 pending same))
