-- ===== src/Auth/Service/Completion.antt =====
-- What the completion of a login with a second factor does to the count of failed attempts
-- (backend/internal/core/auth/auth_service.go).
use komachi.Base.{
  ℕ, ◌≡◌, refl, subst, ◌∙◌, inl, inr, Text, Bool, true, false, ◌&&◌, not, Result, ok, err, pure,
  ◌>>=◌, ◌>>◌, continue, if◌then◌else◌,
}
use komachi.Auth.LoginAttempts
use komachi.Auth.LoginAttempts.{Entry}
use komachi.Auth.Users.Store
use komachi.Auth.Users.Store.{User, UserError, World, statement}
use komachi.Auth.Users.Transactions.{is_empty, lookup_user}
use komachi.Auth.Sessions.Manager.{AuthError, Moment, issue_session, try_revoke}
use komachi.Auth.Sessions.Store.{Sessions, revoke_session}
use komachi.Auth.Totp.{verify_totp_or_recovery_code}
use komachi.Auth.Service.{
  Setup, State, Call, Answer, LogInError, totp_not_configured, user_error, session_error, in_users,
  in_sessions, map_err, require, record_attempt, reset_attempts, issue_tokens, account_of,
}
use komachi.Auth.Service.{
  Challenge, challenge_active, parse_login_challenge, any_challenge_error, invalid_login_challenge,
  totp_invalid_code, complete_in_stores,
}
use komachi.Auth.Service.Steps.{Settles, issued_opens, after_attempt}

-- what follows the attempt of a completion
abbrev pub completed : ℕ → Moment → Text → Setup → Challenge → Call Answer
completed now m code c ch = do
  user ← in_users user_error (lookup_user (Store.get_user_by_id c.users ch.user))
  require (user.totp_enabled && not (is_empty user.totp_secret_encrypted)) invalid_login_challenge
  verified ← in_users user_error (verify_totp_or_recovery_code c.users c.verify_code user code)
  require verified.valid totp_invalid_code
  reset_attempts ch.user
  in_sessions session_error (try_revoke m ch.jti)
  in_sessions session_error (issue_tokens c m user)

-- A call that leaves the count alone comes before one that settles it.
bind_Settles :
    {A : Type 0} (id : Text) (m : Call A) (f : A → Call Answer)
    → ((s : State) → (m s).1.attempts ≡ s.attempts)
    → ((a : A) (s : State) → Settles id (f a s) s.attempts)
    → (s : State) → Settles id ((m >>= f) s) s.attempts
bind_Settles id m f quiet h s = choice (m s) (quiet s)
  where
    choice :
        (r : Result LogInError _ × State)
        → r.1.attempts ≡ s.attempts
        → Settles id (continue r f) s.attempts
    choice (ok a, s1) e = subst (Settles id (f a s1)) e (h a s1)
    choice (err x, s1) e = inl e

pub require-attempts :
    (b : Bool) (e : LogInError) (s : State) → (require b e s).1.attempts ≡ s.attempts
require-attempts true e s = refl
require-attempts false e s = refl

pub bind-attempts :
    {A B : Type 0} (m : Call A) (f : A → Call B)
    → ((s : State) → (m s).1.attempts ≡ s.attempts)
    → ((a : A) (s : State) → (f a s).1.attempts ≡ s.attempts)
    → (s : State) → ((m >>= f) s).1.attempts ≡ s.attempts
bind-attempts m f quiet h s = choice (m s) (quiet s)
  where
    choice :
        (r : Result LogInError _ × State)
        → r.1.attempts ≡ s.attempts
        → (continue r f).1.attempts ≡ s.attempts
    choice (ok a, s1) e = h a s1 ∙ e
    choice (err x, s1) e = e

module _ (m : Moment) (c : Setup) (ch : Challenge) where
  ended : User → Call Answer
  ended user = do
    reset_attempts ch.user
    in_sessions session_error (try_revoke m ch.jti)
    in_sessions session_error (issue_tokens c m user)

  ended-Settles : (user : User) (s : State) → Settles ch.user (ended user s) s.attempts
  unfolding ended reset_attempts
  ended-Settles user s = choice m.update_fails
    where
      settled :
          (rows : Sessions)
          → Settles ch.user
              (in_sessions session_error
                (issue_tokens c m user)
                (record s { attempts = LoginAttempts.reset ch.user s.attempts; sessions = rows }))
              s.attempts
      settled rows = inr (issued_opens (issue_session c.sessions m (account_of user) rows), refl)

      choice :
          (b : Bool)
          → Settles ch.user
              ((in_sessions session_error
                    (λ rows. if b then (ok tt, rows) else (ok tt, revoke_session m.now ch.jti rows))
                  >> in_sessions session_error (issue_tokens c m user))
                (record s { attempts = LoginAttempts.reset ch.user s.attempts }))
              s.attempts
      choice true = settled s.sessions
      choice false = settled (revoke_session m.now ch.jti s.sessions)

  pub completed-Settles :
      (now : ℕ) (code : Text) (s : State) → Settles ch.user (completed now m code c ch s) s.attempts
  unfolding ended
  completed-Settles now code =
      bind_Settles ch.user
        (in_users user_error (lookup_user (Store.get_user_by_id c.users ch.user))) _ (λ s. refl)
        λ user.
          bind_Settles ch.user
            (require (user.totp_enabled && not (is_empty user.totp_secret_encrypted))
              invalid_login_challenge)
            _
            (require-attempts (user.totp_enabled && not (is_empty user.totp_secret_encrypted))
              invalid_login_challenge)
            λ _.
              bind_Settles ch.user
                (in_users user_error (verify_totp_or_recovery_code c.users c.verify_code user code))
                _ (λ s. refl)
                λ verified.
                  bind_Settles ch.user (require verified.valid totp_invalid_code) _
                    (require-attempts verified.valid totp_invalid_code) λ _. ended-Settles user

-- What a completion finds out before it counts an attempt: the challenge, if it is one that is active.
abbrev pub active_challenge : Setup → Moment → Text → Call Challenge
active_challenge c m token = do
  require c.has_totp totp_not_configured
  ch ← in_sessions any_challenge_error (parse_login_challenge c m token)
  active ← in_sessions session_error (challenge_active m ch)
  require active invalid_login_challenge
  pure ch

abbrev pub after_challenge : ℕ → Moment → Text → Setup → Challenge → Call Answer
after_challenge now m code c ch =
    record_attempt now ch.user >>= λ proceed. after_attempt proceed (completed now m code c ch)

pub complete_in_stores-active_challenge :
    (now : ℕ) (m : Moment) (token code : Text) (c : Setup) (s : State)
    → complete_in_stores now m token code c s
      ≡ continue (active_challenge c m token s) (after_challenge now m code c)
unfolding complete_in_stores
complete_in_stores-active_challenge now m token code c s = has c.has_totp
  where
    found :
        (r : Result AuthError Bool × Sessions) (ch : Challenge)
        → continue
            (map_err (λ e. session_error e) r.0, record s { sessions = r.1 })
            (λ active. require active invalid_login_challenge >> after_challenge now m code c ch)
          ≡ continue
              (continue
                (map_err (λ e. session_error e) r.0, record s { sessions = r.1 })
                (λ active. require active invalid_login_challenge >> pure ch))
              (after_challenge now m code c)
    found (ok true, rows) ch = refl
    found (ok false, rows) ch = refl
    found (err e, rows) ch = refl

    read :
        (r : Result AuthError Challenge × Sessions)
        → continue
            (map_err any_challenge_error r.0, record s { sessions = r.1 })
            (λ ch. in_sessions session_error (challenge_active m ch) >>= λ active.
              require active invalid_login_challenge >> after_challenge now m code c ch)
          ≡ continue
              (continue
                (map_err any_challenge_error r.0, record s { sessions = r.1 })
                (λ ch. in_sessions session_error (challenge_active m ch) >>= λ active.
                  require active invalid_login_challenge >> pure ch))
              (after_challenge now m code c)
    read (ok ch, rows) = found (challenge_active m ch rows) ch
    read (err e, rows) = refl

    has :
        (b : Bool)
        → (require b totp_not_configured
              >> (in_sessions any_challenge_error (parse_login_challenge c m token) >>= λ ch.
                  in_sessions session_error (challenge_active m ch) >>= λ active.
                  require active invalid_login_challenge >> after_challenge now m code c ch))
            s
          ≡ continue
              ((require b totp_not_configured
                  >> (in_sessions any_challenge_error (parse_login_challenge c m token) >>= λ ch.
                      in_sessions session_error (challenge_active m ch) >>= λ active.
                      require active invalid_login_challenge >> pure ch))
                s)
              (after_challenge now m code c)
    has true = read (parse_login_challenge c m token s.sessions)
    has false = refl
