-- ===== src/Auth/Service/Effects.antt =====
-- What a completion of a login does to the count of failed attempts of the user whose challenge it
-- presents, in a transaction or not (backend/internal/core/auth/auth_service.go).
use komachi.Base.{
  ℕ, suc, ◌≡◌, refl, subst, ◌∙◌, ◌⊎◌, inl, inr, Text, Dict, Bool, true, false, Option, none, some,
  Result, ok, err, pure, ◌>>=◌, ◌>>◌, continue, if◌then◌else◌,
}
use komachi.Auth.LoginAttempts
use komachi.Auth.LoginAttempts.{Entry}
use komachi.Auth.Users.Store.{UserError, World, statement}
use komachi.Auth.Sessions.Manager.{AuthError, Moment}
use komachi.Auth.Sessions.Store.{Sessions}
use komachi.Auth.Service.{
  Setup, State, Call, Answer, LogInError, totp_not_configured, user_error, session_error, in_users,
  in_sessions, map_err, require,
}
use komachi.Auth.Service.{
  Challenge, challenge_active, parse_login_challenge, any_challenge_error, invalid_login_challenge,
  complete_in_stores, complete_totp_login, locked, committed, commit, bound, roll_back,
}
use komachi.Auth.Service.Steps.{Settles, opens, is_locked, Guessed, attempt-Guessed}
use komachi.Auth.Service.Completion.{
  completed, completed-Settles, require-attempts, bind-attempts, active_challenge, after_challenge,
  complete_in_stores-active_challenge,
}

-- What a call does where it concerns a user: a store failed before the attempt, or it was counted.
abbrev pub Effect : Text → ℕ → Dict Entry → Result LogInError Answer × State → Type 0
Effect id now before r = ((opens r.0 ≡ true) × (r.1.attempts ≡ before)) ⊎ Guessed id now before r

abbrev pub target_of : Result LogInError Challenge → Option Text
target_of (ok ch) = some ch.user
target_of (err e) = none

-- What a call does, by the user whom it concerns.
abbrev pub Acts : Option Text → ℕ → Dict Entry → Result LogInError Answer × State → Type 0
Acts none now before r = r.1.attempts ≡ before
Acts (some id) now before r = Effect id now before r

active_challenge-attempts :
    (c : Setup) (m : Moment) (token : Text) (s : State)
    → (active_challenge c m token s).1.attempts ≡ s.attempts
active_challenge-attempts c m token =
    bind-attempts (require c.has_totp totp_not_configured) _
      (require-attempts c.has_totp totp_not_configured)
      λ _.
        bind-attempts (in_sessions any_challenge_error (parse_login_challenge c m token)) _
          (λ s. refl)
          λ ch.
            bind-attempts (in_sessions session_error (challenge_active m ch)) _ (λ s. refl)
              λ active.
                bind-attempts (require active invalid_login_challenge) _
                  (require-attempts active invalid_login_challenge) λ _ s. refl

pub complete_in_stores-Acts :
    (now : ℕ) (m : Moment) (token code : Text) (c : Setup) (s : State)
    → Acts
        (target_of (active_challenge c m token s).0)
        now
        s.attempts
        (complete_in_stores now m token code c s)
complete_in_stores-Acts now m token code c s =
    rw (complete_in_stores-active_challenge now m token code c s)
      (choice (active_challenge c m token s) (active_challenge-attempts c m token s))
  where
    choice :
        (r : Result LogInError Challenge × State)
        → r.1.attempts ≡ s.attempts
        → Acts (target_of r.0) now s.attempts (continue r (after_challenge now m code c))
    choice (err x, s1) e = e
    choice (ok ch, s1) e = inr (
        subst (λ a. Guessed ch.user now a (after_challenge now m code c ch s1)) e
          (attempt-Guessed ch.user now s1 (completed now m code c ch)
            (completed-Settles m c ch now code)))

-- The challenge is found out without the table of users.
active_challenge-users :
    (c : Setup) (m : Moment) (token : Text) (s : State) (w : World)
    → (active_challenge (bound c) m token (record s { users = w })).0
      ≡ (active_challenge c m token s).0
unfolding parse_login_challenge
active_challenge-users c m token s w = has c.has_totp
  where
    last :
        (ch : Challenge) (r : Result AuthError Bool × Sessions)
        → (continue
            (map_err (λ e. session_error e) r.0, record s { users = w; sessions = r.1 })
            (λ active. require active invalid_login_challenge >> pure ch)).0
          ≡ (continue
              (map_err (λ e. session_error e) r.0, record s { sessions = r.1 })
              (λ active. require active invalid_login_challenge >> pure ch)).0
    last ch (ok true, rows) = refl
    last ch (ok false, rows) = refl
    last ch (err e, rows) = refl

    middle :
        (r : Result AuthError Challenge × Sessions)
        → (continue
            (map_err any_challenge_error r.0, record s { users = w; sessions = r.1 })
            (λ ch. in_sessions session_error (challenge_active m ch) >>= λ active.
              require active invalid_login_challenge >> pure ch)).0
          ≡ (continue
              (map_err any_challenge_error r.0, record s { sessions = r.1 })
              (λ ch. in_sessions session_error (challenge_active m ch) >>= λ active.
                require active invalid_login_challenge >> pure ch)).0
    middle (ok ch, rows) = last ch (challenge_active m ch rows)
    middle (err e, rows) = refl

    rest : Call Challenge
    rest = in_sessions any_challenge_error (parse_login_challenge c m token) >>= λ ch.
        in_sessions session_error (challenge_active m ch) >>= λ active.
        require active invalid_login_challenge >> pure ch

    has :
        (b : Bool)
        → ((require b totp_not_configured >> rest) (record s { users = w })).0
          ≡ ((require b totp_not_configured >> rest) s).0
    has true = middle (parse_login_challenge c m token s.sessions)
    has false = refl

-- A commit that fails is a store that failed, and the count stays.
moved_Guessed :
    (id : Text) (now : ℕ) (a : Dict Entry) (r q : Result LogInError Answer × State)
    → q.1.attempts ≡ r.1.attempts
    → (opens r.0 ≡ true → opens q.0 ≡ true)
    → (is_locked r.0 ≡ true → is_locked q.0 ≡ true)
    → Guessed id now a r
    → Guessed id now a q
moved_Guessed id now a r q e o l g = record {
  settles = moved g.settles;
  locked = λ f. l (g.locked f);
}
  where
    moved :
        Settles id r (LoginAttempts.record_attempt now id a).1
        → Settles id q (LoginAttempts.record_attempt now id a).1
    moved (inl x) = inl (e ∙ x)
    moved (inr (y, x)) = inr (o y, e ∙ x)

moved_Acts :
    (target : Option Text) (now : ℕ) (a : Dict Entry) (r q : Result LogInError Answer × State)
    → q.1.attempts ≡ r.1.attempts
    → (opens r.0 ≡ true → opens q.0 ≡ true)
    → (is_locked r.0 ≡ true → is_locked q.0 ≡ true)
    → Acts target now a r
    → Acts target now a q
moved_Acts none now a r q e o l h = e ∙ h
moved_Acts (some id) now a r q e o l (inl (x, y)) = inl (o x, e ∙ y)
moved_Acts (some id) now a r q e o l (inr g) = inr (moved_Guessed id now a r q e o l g)

committed-Acts :
    (c : Setup) (before : State) (target : Option Text) (now : ℕ) (a : Dict Entry)
    (r : Result LogInError Answer × State)
    → Acts target now a r
    → Acts target now a (committed c before r)
committed-Acts c before target now a (err e, s) h =
    moved_Acts target now a (err e, s) (err e, roll_back before s) refl (λ o. o) (λ l. l) h
committed-Acts c before target now a (ok x, s) h = choice (c.users.fault s.users.step)
  where
    after : State
    after = record s { users = record { rows = s.users.rows; step = suc s.users.step } }

    choice : (o : Option UserError) → Acts target now a (commit o before x after)
    choice none = moved_Acts target now a (ok x, s) (ok x, after) refl (λ o. o) (λ l. l) h
    choice (some e) =
        moved_Acts target now a (ok x, s) (err (user_error e), roll_back before after) refl
          (λ o. refl) (λ l. absurd (cc)) h

pub complete_totp_login-Acts :
    (c : Setup) (now : ℕ) (m : Moment) (token code : Text) (s : State)
    → Acts
        (target_of (active_challenge c m token s).0)
        now
        s.attempts
        (complete_totp_login c now m token code s)
unfolding complete_totp_login locked
complete_totp_login-Acts c now m token code s = choice c.users.postgres
  where
    inside :
        (w : World)
        → Acts
            (target_of (active_challenge c m token s).0)
            now
            s.attempts
            (locked c (complete_in_stores now m token code) (record s { users = w }))
    inside w =
        committed-Acts c (record s { users = w }) (target_of (active_challenge c m token s).0) now
          s.attempts (complete_in_stores now m token code (bound c) (record s { users = w }))
          (subst
            (λ x.
              Acts (target_of x) now s.attempts
                (complete_in_stores now m token code (bound c) (record s { users = w })))
            (active_challenge-users c m token s w)
            (complete_in_stores-Acts now m token code (bound c) (record s { users = w })))

    started :
        (r : Result UserError (Unit {0}) × World)
        → Acts (target_of (active_challenge c m token s).0) now s.attempts (
            continue
              (map_err (λ e. user_error e) r.0, record s { users = r.1 })
              (λ _. locked c (complete_in_stores now m token code)))
    started (ok x, w) = inside w
    started (err e, w) = failed_early (target_of (active_challenge c m token s).0) e w
      where
        failed_early :
            (target : Option Text) (e : UserError) (w : World)
            → Acts target now s.attempts (err (user_error e), record s { users = w })
        failed_early none e w = refl
        failed_early (some id) e w = inl (refl, refl)

    choice :
        (b : Bool)
        → Acts (target_of (active_challenge c m token s).0) now s.attempts (
            (if b
                then in_users user_error (statement c.users (λ rows. (ok tt, rows)))
                  >> locked c (complete_in_stores now m token code)
                else complete_in_stores now m token code c)
              s)
    choice true = started (statement c.users (λ rows. (ok tt, rows)) s.users)
    choice false = complete_in_stores-Acts now m token code c s
