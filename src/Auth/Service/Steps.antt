-- ===== src/Auth/Service/Steps.antt =====
-- What a login does to the count of failed attempts (backend/internal/core/auth/auth_service.go).
use komachi.Base.{
  ℕ, ◌≡◌, refl, ◌⊎◌, inl, inr, Text, Dict, Bool, true, false, Result, ok, err, ◌>>=◌, ◌>>◌,
  continue, if◌then◌else◌,
}
use komachi.Auth.LoginAttempts
use komachi.Auth.LoginAttempts.{Entry}
use komachi.Auth.Users.Store.{User, UserError, World}
use komachi.Auth.Users.Edits.{get_user_by_identifier}
use komachi.Auth.Sessions.Manager.{AuthError, Moment, AuthToken, issue_session}
use komachi.Auth.Sessions.Store.{Sessions}
use komachi.Auth.Service.{
  Setup, State, Call, Answer, LogInError, tokens, challenge, invalid_credentials, account_locked,
  totp_not_configured, user_error, session_error, in_sessions, map_err, require, record_attempt,
  reset_attempts, begin_totp_challenge, issue_tokens, account_of, second_step, hide_error, login,
}

-- The call came to the end of a login, or a store failed.
abbrev pub opens : Result LogInError Answer → Bool
opens (ok (tokens t)) = true
opens (ok (challenge t)) = false
opens (err (session_error e)) = true
opens (err (user_error e)) = true
opens (err _) = false

abbrev pub is_locked : Result LogInError Answer → Bool
is_locked (err account_locked) = true
is_locked _ = false

-- The attempts stay, or are reset by a call that came to its end.
abbrev pub Settles : Text → Result LogInError Answer × State → Dict Entry → Type 0
Settles id r before =
    (r.1.attempts ≡ before) ⊎ ((opens r.0 ≡ true) × (r.1.attempts ≡ LoginAttempts.reset id before))

pub issued_opens :
    (r : Result AuthError AuthToken × Sessions)
    → opens
        (map_err {F = LogInError} (λ e. session_error e) (continue r (λ t s. (ok (tokens t), s))).0)
      ≡ true
issued_opens (ok t, s) = refl
issued_opens (err e, s) = refl

module _ (c : Setup) (m : Moment) (u : User) where
  issued_Settles :
      (s : State)
      → Settles u.id
          ((reset_attempts u.id >> in_sessions session_error (issue_tokens c m u)) s)
          s.attempts
  unfolding reset_attempts
  issued_Settles s = inr (issued_opens (issue_session c.sessions m (account_of u) s.sessions), refl)

  challenged_Settles :
      (b : Bool) (s : State)
      → Settles u.id
          ((require b totp_not_configured >> in_sessions session_error (begin_totp_challenge c m u))
            s)
          s.attempts
  challenged_Settles true s = inl refl
  challenged_Settles false s = inl refl

  pub second_step-Settles : (s : State) → Settles u.id (second_step c m u s) s.attempts
  unfolding second_step
  second_step-Settles s = choice u.totp_enabled
    where
      choice :
          (b : Bool)
          → Settles u.id
              ((if b
                  then require c.has_totp totp_not_configured
                    >> in_sessions session_error (begin_totp_challenge c m u)
                  else reset_attempts u.id >> in_sessions session_error (issue_tokens c m u))
                s)
              s.attempts
      choice true = challenged_Settles c.has_totp s
      choice false = issued_Settles s

-- What is left to do when an attempt was recorded.
abbrev pub after_attempt : {A : Type 0} → Bool → Call A → Call A
after_attempt proceed rest = require proceed account_locked >> rest

abbrev pub after_lookup :
    Setup
    → ℕ
    → Moment
    → Text
    → Result UserError User × World
    → State
    → Result LogInError Answer × State
after_lookup c now m password (err e, w) s = (err invalid_credentials, record s { users = w })
after_lookup c now m password (ok u, w) s =
    (record_attempt now u.id >>= λ proceed.
    after_attempt proceed
      (require (c.users.compare_hash u.password password) invalid_credentials >> second_step c m u))
      (record s { users = w })

pub login-after_lookup :
    (c : Setup) (now : ℕ) (m : Moment) (identifier password : Text) (s : State)
    → login c now m identifier password s
      ≡ after_lookup c now m password (get_user_by_identifier c.users identifier s.users) s
unfolding login
login-after_lookup c now m identifier password s =
    choice (get_user_by_identifier c.users identifier s.users)
  where
    choice :
        (r : Result UserError User × World)
        → continue
            (map_err hide_error r.0, record s { users = r.1 })
            (λ u. record_attempt now u.id >>= λ proceed.
              require proceed account_locked
              >> (require (c.users.compare_hash u.password password) invalid_credentials
                  >> second_step c m u))
          ≡ after_lookup c now m password r s
    choice (ok u, w) = refl
    choice (err e, w) = refl

-- A call that concerns a user, after it recorded the attempt: it is locked out, or goes on.
pub record Guessed (id : Text) (now : ℕ) (before : Dict Entry)
    (r : Result LogInError Answer × State) : Type 0 where
  pub settles : Settles id r (LoginAttempts.record_attempt now id before).1
  pub locked : (LoginAttempts.record_attempt now id before).0 ≡ false → is_locked r.0 ≡ true

pub attempt-Guessed :
    (id : Text) (now : ℕ) (s : State) (rest : Call Answer)
    → ((s : State) → Settles id (rest s) s.attempts)
    → Guessed id now s.attempts
        ((record_attempt now id >>= λ proceed. after_attempt proceed rest) s)
unfolding record_attempt
attempt-Guessed id now s rest h = choice (LoginAttempts.record_attempt now id s.attempts).0 refl
  where
    after : State
    after = record s { attempts = (LoginAttempts.record_attempt now id s.attempts).1 }

    choice :
        (b : Bool)
        → (LoginAttempts.record_attempt now id s.attempts).0 ≡ b
        → Guessed id now s.attempts (after_attempt b rest after)
    choice true e = record { settles = h after; locked = λ f. absurd (cc) }
    choice false e = record { settles = inl refl; locked = λ _. refl }
