-- ===== src/Auth/Service/Proven.antt =====
-- What a login that succeeds has shown (backend/internal/core/auth/auth_service.go).
use komachi.Base.{
  ℕ, ◌+◌, ◌≡◌, refl, sym, subst, ap, ◌∙◌, ◌⊎◌, inl, inr, Text, Bool, true, false, Option, none,
  some, ◌==◌, Result, ok, err, ◌>>=◌, ◌>>◌, continue, if◌then◌else◌, arith, continue-ok, pure-ok,
}
use komachi.Auth.LoginAttempts
use komachi.Auth.Users.Store.{User, UserError, World}
use komachi.Auth.Users.Edits.{get_user_by_identifier}
use komachi.Auth.Sessions.Store.{Sessions, create_session, is_active}
use komachi.Auth.Sessions.Store.View.{is_active-create_session}
use komachi.Auth.Sessions.Manager
use komachi.Auth.Sessions.Manager.{
  AuthError, Moment, AuthToken, issue_session, or_raise, refresh, store_failed,
}
use komachi.Auth.Sessions.Manager.Calls.{or_raise-ok}
use komachi.Auth.Service.{
  Setup, State, Answer, LogInError, tokens, challenge, invalid_credentials, account_locked,
  totp_not_configured, session_error, in_sessions, map_err, require, record_attempt, reset_attempts,
  begin_totp_challenge, issue_tokens, account_of, second_step, login, insert_challenge,
  challenge_row, login_challenge, login_challenge_lifetime,
}
use komachi.Auth.Service.Steps.{after_lookup, login-after_lookup}

-- The answer to a user whose password was right: with a second factor a challenge, and no session that a
-- refresh token could name more than before; without one, tokens.
abbrev pub Answered : User → Answer → Sessions → Sessions → Type 0
Answered u a before after =
    ((u.totp_enabled ≡ true)
      × ((text : Text) × (a ≡ challenge text))
      × ((id user : Text) (t : ℕ)
          → is_active id user refresh t after ≡ is_active id user refresh t before))
    ⊎ ((u.totp_enabled ≡ false) × ((t : AuthToken) × (a ≡ tokens t)))

challenge_keeps :
    (id user : Text) (now : ℕ) (jti who : Text) (exp : ℕ) (rows after : Sessions) (t : ℕ)
    → create_session now jti who login_challenge exp rows ≡ some after
    → is_active id user refresh t after ≡ is_active id user refresh t rows
unfolding ◌==◌
challenge_keeps id user now jti who exp rows after t h =
    ground (
      arith,
      is_active-create_session id user refresh t now jti who login_challenge exp rows after h,
    )

abbrev Unnamed : Sessions → Sessions → Type 0
Unnamed before after =
    (id user : Text) (t : ℕ)
    → is_active id user refresh t after ≡ is_active id user refresh t before

inserted_keeps :
    (m : Moment) (jti who : Text) (rows after : Sessions) (x : Unit {0})
    → insert_challenge m jti who rows ≡ (ok x, after)
    → Unnamed rows after
inserted_keeps m jti who rows after x h = choice m.insert_fails h
  where
    created :
        (o : Option Sessions)
        → create_session m.now jti who login_challenge (m.now + login_challenge_lifetime) rows ≡ o
        → challenge_row o rows ≡ (ok x, after)
        → Unnamed rows after
    created none e h = absurd (ground arith)
    created (some new) e h =
        let same : new ≡ after = ground arith in
        λ id user t.
          challenge_keeps id user m.now jti who (m.now + login_challenge_lifetime) rows after t
            (e ∙ ap some same)

    choice :
        (b : Bool)
        → (if b
            then (err store_failed, rows)
            else challenge_row
                (create_session m.now jti who login_challenge
                  (m.now + login_challenge_lifetime)
                  rows)
                rows)
          ≡ (ok x, after)
        → Unnamed rows after
    choice true h = absurd (ground arith)
    choice false h =
        created
          (create_session m.now jti who login_challenge (m.now + login_challenge_lifetime) rows)
          refl h

begun :
    (c : Setup) (m : Moment) (u : User) (rows after : Sessions) (a : Answer)
    → begin_totp_challenge c m u rows ≡ (ok a, after)
    → ((text : Text) × (a ≡ challenge text)) × Unnamed rows after
unfolding begin_totp_challenge
begun c m u rows after a h =
    let (jti, s1, e1, h1) = continue-ok {r = or_raise Manager.no_random m.access_jti rows} h in
    let (text, s2, e2, h2) =
      continue-ok
        {r = or_raise Manager.not_signed
          (c.sign_challenge u.id jti (m.now + login_challenge_lifetime)) s1}
        h1 in
    let (x, s3, e3, h3) = continue-ok {r = insert_challenge m jti u.id s2} h2 in
    let (same, left) = pure-ok h3 in
    let one = or_raise-ok Manager.no_random m.access_jti rows s1 jti e1 in
    let two =
      or_raise-ok Manager.not_signed (c.sign_challenge u.id jti (m.now + login_challenge_lifetime))
        s1 s2 text e2 in
    (
      (text, sym same),
      subst (λ r. Unnamed rows r) left
          (subst (λ r. Unnamed r s3) (sym (one.1 ∙ two.1)) (inserted_keeps m jti u.id s2 s3 x e3)),
    )

challenged :
    (c : Setup) (m : Moment) (u : User) (s s2 : State) (a : Answer) (b : Bool)
    → (require b totp_not_configured >> in_sessions session_error (begin_totp_challenge c m u)) s
      ≡ (ok a, s2)
    → ((text : Text) × (a ≡ challenge text)) × Unnamed s.sessions s2.sessions
challenged c m u s s2 a false h = absurd (ground arith)
challenged c m u s s2 a true h = choice (begin_totp_challenge c m u s.sessions) refl h
  where
    choice :
        (r : Result AuthError Answer × Sessions)
        → begin_totp_challenge c m u s.sessions ≡ r
        → ◌≡◌ {A = Result LogInError Answer × State}
            (map_err (λ e. session_error e) r.0, record s { sessions = r.1 })
            (ok a, s2)
        → ((text : Text) × (a ≡ challenge text)) × Unnamed s.sessions s2.sessions
    choice (ok b, rows) e h =
        let same : b ≡ a = ground arith in
        let left : rows ≡ s2.sessions =
          ap (λ (r : Result LogInError Answer × State). r.1.sessions) h in
        let (shown, kept) = begun c m u s.sessions rows b e in
        ((shown.0, sym same ∙ shown.1), subst (λ r. Unnamed s.sessions r) left kept)
    choice (err x, rows) e h = absurd (ground arith)

issued :
    (c : Setup) (m : Moment) (u : User) (s s2 : State) (a : Answer)
    → (reset_attempts u.id >> in_sessions session_error (issue_tokens c m u)) s ≡ (ok a, s2)
    → (t : AuthToken) × (a ≡ tokens t)
unfolding reset_attempts
issued c m u s s2 a h =
    choice (issue_session c.sessions m (account_of u) s.sessions)
      (ap (λ (r : Result LogInError Answer × State). r.0) h)
  where
    choice :
        (r : Result AuthError AuthToken × Sessions)
        → map_err (λ e. session_error e) (continue r (λ t s. (ok (tokens t), s))).0 ≡ ok a
        → (t : AuthToken) × (a ≡ tokens t)
    choice (ok t, rows) h = (t, ground arith)
    choice (err e, rows) h = absurd (ground arith)

second_step-Answered :
    (c : Setup) (m : Moment) (u : User) (s s2 : State) (a : Answer)
    → second_step c m u s ≡ (ok a, s2)
    → Answered u a s.sessions s2.sessions
unfolding second_step
second_step-Answered c m u s s2 a h = choice u.totp_enabled refl h
  where
    choice :
        (b : Bool)
        → u.totp_enabled ≡ b
        → (if b
              then require c.has_totp totp_not_configured
                >> in_sessions session_error (begin_totp_challenge c m u)
              else reset_attempts u.id >> in_sessions session_error (issue_tokens c m u))
            s
          ≡ (ok a, s2)
        → Answered u a s.sessions s2.sessions
    choice true e h =
        let (shown, kept) = challenged c m u s s2 a c.has_totp h in inl (e, shown, kept)
    choice false e h = inr (e, issued c m u s s2 a h)

-- the checks between the lookup and the answer
passed :
    (c : Setup) (now : ℕ) (m : Moment) (secret : Text) (u : User) (s s2 : State) (a : Answer)
    → (record_attempt now u.id >>= λ proceed.
          require proceed account_locked
          >> (require (c.users.compare_hash u.password secret) invalid_credentials
              >> second_step c m u))
        s
      ≡ (ok a, s2)
    → ((LoginAttempts.record_attempt now u.id s.attempts).0 ≡ true)
      × (c.users.compare_hash u.password secret ≡ true)
      × Answered u a s.sessions s2.sessions
unfolding record_attempt
passed c now m secret u s s2 a h =
    gates (LoginAttempts.record_attempt now u.id s.attempts).0
      (c.users.compare_hash u.password secret) h
  where
    after : State
    after = record s { attempts = (LoginAttempts.record_attempt now u.id s.attempts).1 }

    gates :
        (b p : Bool)
        → (require b account_locked >> (require p invalid_credentials >> second_step c m u)) after
          ≡ (ok a, s2)
        → (b ≡ true) × (p ≡ true) × Answered u a s.sessions s2.sessions
    gates true true h = (refl, refl, second_step-Answered c m u after s2 a h)
    gates true false h = absurd (ground arith)
    gates false p h = absurd (ground arith)

-- A login succeeds only for a user whom the identifier names, whose account is not locked and whose
-- password it is. A user with a second factor gets a challenge, and the refresh sessions that are active
-- stay the same; a user without one gets tokens.
pub login-Answered :
    (c : Setup) (now : ℕ) (m : Moment) (identifier secret : Text) (s s2 : State) (a : Answer)
    → login c now m identifier secret s ≡ (ok a, s2)
    → (u : User) × ((get_user_by_identifier c.users identifier s.users).0 ≡ ok u)
      × ((LoginAttempts.record_attempt now u.id s.attempts).0 ≡ true)
      × (c.users.compare_hash u.password secret ≡ true)
      × Answered u a s.sessions s2.sessions
login-Answered c now m identifier secret s s2 a h =
    choice (get_user_by_identifier c.users identifier s.users) refl
      (sym (login-after_lookup c now m identifier secret s) ∙ h)
  where
    choice :
        (r : Result UserError User × World)
        → (get_user_by_identifier c.users identifier s.users) ≡ r
        → after_lookup c now m secret r s ≡ (ok a, s2)
        → (u : User) × ((get_user_by_identifier c.users identifier s.users).0 ≡ ok u)
          × ((LoginAttempts.record_attempt now u.id s.attempts).0 ≡ true)
          × (c.users.compare_hash u.password secret ≡ true)
          × Answered u a s.sessions s2.sessions
    choice (err e, w) g h = absurd (ground arith)
    choice (ok u, w) g h =
        let checks = passed c now m secret u (record s { users = w }) s2 a h in
        (u, ap (λ (r : Result UserError User × World). r.0) g, checks.0, checks.1, checks.2)
