-- ===== src/Auth/Service/Guesses.antt =====
-- How many passwords and codes can be tried against an account (backend/internal/core/auth: the count
-- of login_attempt_tracker.go as auth_service.go uses it).
use komachi.Base.{
  ℕ, ◌+◌, ◌≤◌, ◌<◌, ◌≡◌, refl, subst, inl, inr, Text, Dict, Bool, true, false, Option, none, some,
  List, [], ◌∷◌, ◌==◌, ◌&&◌, not, All, Result, ok, err, ◌>>◌, arith, Bool-cases, eq_text_iff,
  eq_text_refl, ◌∙◌, lookup, lookup-set_key, lookup-erase,
}
use komachi.Auth.LoginAttempts
use komachi.Auth.LoginAttempts.{Entry, entry_or_new, login_max_failures, login_lock_duration}
use komachi.Auth.LoginAttempts.Bound.{IsValid, left, left-attempt}
use komachi.Auth.Users.Store.{User, UserError, World}
use komachi.Auth.Users.Table.{weight}
use komachi.Auth.Users.Edits.{get_user_by_identifier}
use komachi.Auth.Sessions.Manager.{Moment}
use komachi.Auth.Service.{
  Setup, State, Answer, LogInError, login, complete_totp_login, require, invalid_credentials,
  second_step,
}
use komachi.Auth.Service.Steps.{
  opens, is_locked, Settles, attempt-Guessed, after_lookup, login-after_lookup, second_step-Settles,
}
use komachi.Auth.Service.Completion.{active_challenge}
use komachi.Auth.Service.Effects.{Effect, Acts, target_of, complete_totp_login-Acts}

pub data Try : Type 0 where
  password : Text → Text → Try
  code : Text → Text → Try

pub record Timed : Type 0 where
  pub now : ℕ
  pub moment : Moment
  pub given : Try

abbrev pub run_try : Setup → ℕ → Moment → Try → State → Result LogInError Answer × State
run_try c now m (password identifier secret) s = login c now m identifier secret s
run_try c now m (code token digits) s = complete_totp_login c now m token digits s

abbrev pub id_of_user : Result UserError User → Option Text
id_of_user (ok u) = some u.id
id_of_user (err e) = none

-- the user whose account is tried
abbrev pub concerns : Setup → Moment → Try → State → Option Text
concerns c m (password identifier secret) s =
    id_of_user (get_user_by_identifier c.users identifier s.users).0
concerns c m (code token digits) s = target_of (active_challenge c m token s).0

abbrev pub names : Text → Option Text → Bool
names user none = false
names user (some id) = id == user

-- The tries of an account that were not turned away for the lock, one after another.
unfoldable pub tried : Setup → Text → List Timed → State → ℕ
tried c user [] s = 0
tried c user (t ∷ ts) s =
    let r = run_try c t.now t.moment t.given s in
    weight (names user (concerns c t.moment t.given s) && not (is_locked r.0)) + tried c user ts r.1

-- None of the tries of an account came to the end of a login.
unfoldable pub all_fail : Setup → Text → List Timed → State → Bool
all_fail c user [] s = true
all_fail c user (t ∷ ts) s =
    let r = run_try c t.now t.moment t.given s in
    not (names user (concerns c t.moment t.given s) && opens r.0) && all_fail c user ts r.1

abbrev pub InWindow : ℕ → Timed → Type 0
InWindow start t = (start ≤ t.now) × (t.now < start + login_lock_duration)

login-Acts :
    (c : Setup) (now : ℕ) (m : Moment) (identifier secret : Text) (s : State)
    → Acts
        (id_of_user (get_user_by_identifier c.users identifier s.users).0)
        now
        s.attempts
        (login c now m identifier secret s)
login-Acts c now m identifier secret s =
    rw (login-after_lookup c now m identifier secret s)
      (choice (get_user_by_identifier c.users identifier s.users))
  where
    checked :
        (u : User) (b : Bool) (s : State)
        → Settles u.id ((require b invalid_credentials >> second_step c m u) s) s.attempts
    checked u true s = second_step-Settles c m u s
    checked u false s = inl refl

    choice :
        (r : Result UserError User × World)
        → Acts (id_of_user r.0) now s.attempts (after_lookup c now m secret r s)
    choice (err e, w) = refl
    choice (ok u, w) = inr (
        attempt-Guessed u.id now (record s { users = w })
          (require (c.users.compare_hash u.password secret) invalid_credentials
            >> second_step c m u)
          (checked u (c.users.compare_hash u.password secret)))

run_try-Acts :
    (c : Setup) (now : ℕ) (m : Moment) (t : Try) (s : State)
    → Acts (concerns c m t s) now s.attempts (run_try c now m t s)
run_try-Acts c now m (password identifier secret) s = login-Acts c now m identifier secret s
run_try-Acts c now m (code token digits) s = complete_totp_login-Acts c now m token digits s

-- What a try costs of the tries that the window still has.
Costs : ℕ → Text → Bool → Dict Entry → Dict Entry → Type 0
Costs start user counted before after =
    (weight counted + left start (entry_or_new (lookup user after))
      ≤ left start (entry_or_new (lookup user before)))
    × IsValid user after

kept_Costs :
    (start : ℕ) (user : Text) (before after : Dict Entry)
    → IsValid user before
    → lookup user after ≡ lookup user before
    → Costs start user false before after
unfolding Costs
kept_Costs start user before after v e = rw e (omega arith, v)

-- the lookups in the count after another user's attempt, and a reset
other_attempt :
    (now : ℕ) (id user : Text) (a : Dict Entry)
    → (id == user) ≡ false
    → lookup user (LoginAttempts.record_attempt now id a).1 ≡ lookup user a
unfolding LoginAttempts.record_attempt
other_attempt now id user a other =
    rw (lookup-set_key id user (LoginAttempts.attempt now (entry_or_new (lookup id a))).1 a, other)

other_reset :
    (id user : Text) (a : Dict Entry)
    → (id == user) ≡ false
    → lookup user (LoginAttempts.reset id a) ≡ lookup user a
unfolding LoginAttempts.reset
other_reset id user a other = rw (lookup-erase id user a, other)

attempt_Costs :
    (start now : ℕ) (user : Text) (a : Dict Entry) (locked : Bool)
    → IsValid user a
    → start ≤ now
    → now < start + login_lock_duration
    → ((LoginAttempts.record_attempt now user a).0 ≡ false → locked ≡ true)
    → Costs start user (not locked) a (LoginAttempts.record_attempt now user a).1
unfolding LoginAttempts.record_attempt Costs
attempt_Costs start now user a locked v from until shut =
    let e = entry_or_new (lookup user a) in
    ground (
      arith,
      eq_text_refl user,
      lookup-set_key user user (LoginAttempts.attempt now e).1 a,
      left-attempt start now e,
      shut,
    )

Acts-Costs :
    (start now : ℕ) (user : Text) (target : Option Text) (a : Dict Entry)
    (r : Result LogInError Answer × State)
    → Acts target now a r
    → IsValid user a
    → start ≤ now
    → now < start + login_lock_duration
    → (names user target && opens r.0) ≡ false
    → Costs start user (names user target && not (is_locked r.0)) a r.1.attempts
Acts-Costs start now user none a r e v from until fails =
    kept_Costs start user a r.1.attempts v (rw e)
Acts-Costs start now user (some id) a r acts v from until fails = elim (Bool-cases (id == user)) [
  | inl same ↦ rw same (
      mine (subst (λ x. Effect x now a r) ((eq_text_iff id user).0 same) acts)
        (ground (arith, same)))
  | inr other ↦ rw other (kept_Costs start user a r.1.attempts v (theirs other acts))
]
  where
    mine :
        Effect user now a r
        → opens r.0 ≡ false
        → Costs start user (not (is_locked r.0)) a r.1.attempts
    mine (inl (o, e)) f = absurd (cc)
    mine (inr g) f = settled g.settles
      where
        settled :
            Settles user r (LoginAttempts.record_attempt now user a).1
            → Costs start user (not (is_locked r.0)) a r.1.attempts
        settled (inl e) =
            rw e (attempt_Costs start now user a (is_locked r.0) v from until g.locked)
        settled (inr (o, e)) = absurd (cc)

    theirs : (id == user) ≡ false → Effect id now a r → lookup user r.1.attempts ≡ lookup user a
    theirs other (inl (o, e)) = rw e
    theirs other (inr g) = settled g.settles
      where
        settled :
            Settles id r (LoginAttempts.record_attempt now id a).1
            → lookup user r.1.attempts ≡ lookup user a
        settled (inl e) = rw e (other_attempt now id user a other)
        settled (inr (o, e)) = rw e (
            other_reset id user (LoginAttempts.record_attempt now id a).1 other
            ∙ other_attempt now id user a other)

first_fails : (a b : Bool) → (not a && b) ≡ true → a ≡ false
first_fails a b h = ground arith

rest_fail : (a b : Bool) → (not a && b) ≡ true → b ≡ true
rest_fail a b h = ground arith

tried-le-left :
    (c : Setup) (start : ℕ) (user : Text) (ts : List Timed) (s : State)
    → IsValid user s.attempts
    → All (InWindow start) ts
    → all_fail c user ts s ≡ true
    → tried c user ts s ≤ left start (entry_or_new (lookup user s.attempts))
unfolding tried all_fail Costs
tried-le-left c start user [] s v w f = omega arith
tried-le-left c start user (t ∷ ts) s v (w, ws) f =
    let r = run_try c t.now t.moment t.given s in
    let (cost, v') =
      Acts-Costs start t.now user (concerns c t.moment t.given s) s.attempts r
        (run_try-Acts c t.now t.moment t.given s) v w.0 w.1
        (first_fails (names user (concerns c t.moment t.given s) && opens r.0)
          (all_fail c user ts r.1) f) in
    omega (
      arith,
      cost,
      tried-le-left c start user ts r.1 v' ws (
          rest_fail (names user (concerns c t.moment t.given s) && opens r.0)
            (all_fail c user ts r.1) f),
    )

-- Whatever passwords and codes are tried for any users within one lock duration, and whatever the
-- stores do: those that concern an account, and are looked at, are at most `login_max_failures`, as
-- long as none of them came to the end of a login or met a store that failed. A right password of an
-- account with a second factor does not end the login, so it gives no further tries.
pub tried-le-max :
    (c : Setup) (start : ℕ) (user : Text) (ts : List Timed) (s : State)
    → IsValid user s.attempts
    → All (InWindow start) ts
    → all_fail c user ts s ≡ true
    → tried c user ts s ≤ login_max_failures
unfolding left
tried-le-max c start user ts s v w f = ground (arith, tried-le-left c start user ts s v w f)
