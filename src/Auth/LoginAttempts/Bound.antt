-- ===== src/Auth/LoginAttempts/Bound.antt =====
-- How many guesses the tracker lets through (backend/internal/core/auth/login_attempt_tracker.go).
use komachi.Base.{
  ℕ, ◌+◌, ◌-◌, ◌≤◌, ◌<◌, subst, sym, Text, Dict, List, [], ◌∷◌, arith, ltb, eqb, All, ◌==◌,
  eq_text_iff, lookup, lookup-set_key, Bool-cases, inl, inr, if◌then◌else◌, set_key,
}
use komachi.Auth.LoginAttempts.{
  Entry, login_max_failures, login_lock_duration, entry_or_new, attempt, record_attempt,
}

-- The attempts that may proceed for one user, in a sequence of attempts of any users.
unfoldable pub admitted : Text → Dict Entry → List (ℕ × Text) → ℕ
admitted user m [] = 0
admitted user m ((now, who) ∷ rest) =
    let (proceed, m') = record_attempt now who m in
    (if who == user then (if proceed then 1 else 0) else 0) + admitted user m' rest

abbrev pub IsValid : Text → Dict Entry → Type 0
IsValid user m = (entry_or_new (lookup user m)).failures < login_max_failures

abbrev pub InWindow : ℕ → ℕ × Text → Type 0
InWindow start a = (start ≤ a.0) × (a.0 < start + login_lock_duration)

-- How many more attempts can be let through before the window ends.
unfoldable pub left : ℕ → Entry → ℕ
left start e =
    if ltb e.locked_until (start + login_lock_duration)
    then (if eqb e.locked_until 0 then login_max_failures - e.failures else login_max_failures)
    else 0

pub left-attempt :
    (start now : ℕ) (e : Entry)
    → e.failures < login_max_failures
    → start ≤ now
    → now < start + login_lock_duration
    → ((if (attempt now e).0 then 1 else 0) + left start (attempt now e).1 ≤ left start e)
      × ((attempt now e).1.failures < login_max_failures)
unfolding left attempt
left-attempt start now e v a b = ground arith

admitted-le-left :
    (start : ℕ) (user : Text) (m : Dict Entry) (attempts : List (ℕ × Text))
    → IsValid user m
    → All (InWindow start) attempts
    → admitted user m attempts ≤ left start (entry_or_new (lookup user m))
unfolding admitted record_attempt
admitted-le-left start user m [] v w = omega arith
admitted-le-left start user m ((now, who) ∷ rest) v w =
    let e = entry_or_new (lookup who m) in
    let m' = set_key who (attempt now e).1 m in
    elim (Bool-cases (who == user)) [
      | inl y ↦ ground (
        arith,
        (eq_text_iff who user).0 y,
        lookup-set_key who user (attempt now e).1 m,
        left-attempt start now e,
        admitted-le-left start user m' rest,
      )
      | inr y ↦
          ground (
            arith,
            lookup-set_key who user (attempt now e).1 m,
            admitted-le-left start user m' rest,
          )
    ]

failures-attempt :
    (now : ℕ) (e : Entry)
    → e.failures < login_max_failures
    → (attempt now e).1.failures < login_max_failures
unfolding attempt
failures-attempt now e v = ground arith

-- An attempt of anyone keeps the failures counted for a user below the limit.
pub record_attempt-IsValid :
    (now : ℕ) (who user : Text) (m : Dict Entry)
    → IsValid user m
    → IsValid user (record_attempt now who m).1
unfolding record_attempt
record_attempt-IsValid now who user m v =
    let e = (attempt now (entry_or_new (lookup who m))).1 in
    elim (Bool-cases (who == user)) [
      | inr other ↦ rw (lookup-set_key who user e m, other) v
      | inl same ↦
          let v' : IsValid who m =
            subst (λ x. IsValid x m) (sym ((eq_text_iff who user).0 same)) v in
          rw (lookup-set_key who user e m, same)
            (failures-attempt now (entry_or_new (lookup who m)) v')
    ]

-- From a table in which the failures counted for a user are below the limit, and whatever the
-- attempts of all users within one lock duration, in whatever order: those for the user that may
-- proceed are at most `login_max_failures`.
pub admitted-le-max :
    (start : ℕ) (user : Text) (m : Dict Entry) (attempts : List (ℕ × Text))
    → IsValid user m
    → All (InWindow start) attempts
    → admitted user m attempts ≤ login_max_failures
unfolding left
admitted-le-max start user m attempts v w =
    ground (arith, admitted-le-left start user m attempts v w)
