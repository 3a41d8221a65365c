-- ===== src/Restore/Manager/Stores.antt =====
-- The pauses and reopenings of the stores (backend/internal/restore/manager.go).
use komachi.Base.{◌≡◌, refl, ◌∙◌, true, false, List, [], ◌∷◌, arith, All, ok, inl, inr, Bool-cases}
use komachi.Restore.Job.{Job, set_phase}
use komachi.Restore.Swap.{Fault, fine, fails, Faults, next_fault}
use komachi.Restore.Manager.{
  StoreKind, user_store, api_key_store, favorites_store, user_settings_store, Store, worked,
  replace, reopen_all_stores, replace_stores, enter_phase, leave_phase,
}

abbrev pub IsOpen : Store → Type 0
IsOpen s = s.suspended ≡ false

replace-IsOpen : (f : Fault) (s : Store) → worked f ≡ true → IsOpen (replace f s)
replace-IsOpen fine s e = refl
replace-IsOpen (fails _) s e = absurd (ground arith)

pub reopen_all_stores-IsOpen :
    (ss : List Store) (fs : Faults)
    → (reopen_all_stores ss fs).0 ≡ true
    → All IsOpen (reopen_all_stores ss fs).1
unfolding reopen_all_stores
reopen_all_stores-IsOpen [] fs e = tt
reopen_all_stores-IsOpen (s ∷ ss) fs e = (
  replace-IsOpen (next_fault fs).0 s (ground arith),
  reopen_all_stores-IsOpen ss (next_fault fs).1 (ground arith),
)

phases_needs :
    (k : StoreKind) (j : Job)
    → ((enter_phase k j).needs_intervention ≡ j.needs_intervention)
      × ((leave_phase k j).needs_intervention ≡ j.needs_intervention)
unfolding set_phase
phases_needs user_store j = (refl, refl)
phases_needs api_key_store j = (refl, refl)
phases_needs favorites_store j = (refl, refl)
phases_needs user_settings_store j = (refl, refl)

pub replace_stores_needs :
    (ss : List Store) (j : Job) (fs : Faults)
    → (replace_stores ss j fs).2.needs_intervention ≡ j.needs_intervention
unfolding replace_stores
replace_stores_needs [] j fs = refl
replace_stores_needs (s ∷ ss) j fs =
    let entered = enter_phase s.kind j in
    let (a, b) = phases_needs s.kind j in
    let (c, d) = phases_needs s.kind entered in
    elim (Bool-cases (worked (next_fault fs).0)) [
      | inl w ↦
          rw (w, replace_stores)
            (replace_stores_needs ss (leave_phase s.kind entered) (next_fault fs).1 ∙ d ∙ a)
      | inr w ↦ rw (w, replace_stores) a
    ]

pub replace_stores-IsOpen :
    (ss : List Store) (j : Job) (fs : Faults)
    → (replace_stores ss j fs).0 ≡ ok tt
    → All IsOpen (replace_stores ss j fs).1
unfolding replace_stores
replace_stores-IsOpen [] j fs e = tt
replace_stores-IsOpen (s ∷ ss) j fs e = elim (Bool-cases (worked (next_fault fs).0)) [
  | inl w ↦
      rw (w, replace_stores)
        (
          refl,
          replace_stores-IsOpen ss (leave_phase s.kind (enter_phase s.kind j)) (next_fault fs).1
              (rw (w, replace_stores) at e),
        )
  | inr w ↦ let z = rw (w, replace_stores) at e in absurd (ground arith)
]
