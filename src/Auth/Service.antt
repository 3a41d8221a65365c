-- ===== src/Auth/Service.antt =====
-- The logins of users, backend/internal/core/auth/auth_service.go: the table of users, the count of
-- failed attempts and the table of sessions together. The clock is a count of nanoseconds for the
-- attempts, and `Moment` holds its whole seconds for the sessions. The comparison with a dummy hash,
-- which only takes time, is left out.
pub mod Factor
pub mod Steps
pub mod Completion
pub mod Effects
pub mod Guesses
pub mod Proven
mod Tests
use komachi.Base.{
  ℕ, suc, ◌+◌, ◌*◌, Text, codes, Dict, Bool, true, false, Option, none, some, List, [], ◌∷◌, ◌==◌,
  ◌&&◌, ◌||◌, not, Result, ok, err, Exec, pure, raise, ◌>>=◌, ◌>>◌, continue, if◌then◌else◌,
}
use komachi.Auth.LoginAttempts
use komachi.Auth.LoginAttempts.{Entry}
use komachi.Auth.Users.Store
use komachi.Auth.Users.Store.{User, Users, UserError, World, statement}
use komachi.Auth.Users.Transactions
use komachi.Auth.Users.Transactions.{is_empty, lookup_user, attempt, map_user_lookup_err}
use komachi.Auth.Users.Edits.{get_user_by_identifier, does_id_and_password_match}
use komachi.Auth.Sessions.Store.{Sessions, create_session, is_active}
use komachi.Auth.Sessions.Manager
use komachi.Auth.Sessions.Manager.{
  Account, Parsed, AuthError, Moment, AuthToken, or_raise, require_jti, require_type, issue_session,
  try_revoke, revoke_all_user_sessions_except_current, store_failed,
}
use komachi.Auth.Totp.{Verified, verify_totp_or_recovery_code}

pub data LogInError : Type 0 where
  invalid_credentials : LogInError
  account_locked : LogInError
  totp_not_configured : LogInError
  invalid_login_challenge : LogInError
  totp_invalid_code : LogInError
  totp_already_enabled : LogInError
  totp_setup_not_started : LogInError
  totp_not_enabled : LogInError
  totp_verification_failed : LogInError
  user_error : UserError → LogInError
  session_error : AuthError → LogInError

pub record Setup : Type 0 where
  pub users : Store.Setup
  pub sessions : Manager.Setup
  -- whether there is a key for the secrets
  pub has_totp : Bool
  -- `VerifyCode`, with an encrypted secret and a code
  pub verify_code : Text → Text → Option Bool
  -- `signClaims` of the claims of a login challenge: user, id, expiry
  pub sign_challenge : Text → Text → ℕ → Option Text

pub record State : Type 0 where
  pub users : World
  pub attempts : Dict Entry
  pub sessions : Sessions

abbrev pub Call : Type 0 → Type 0
Call A = Exec State LogInError A

pub data Answer : Type 0 where
  tokens : AuthToken → Answer
  -- `RequiresTOTP`
  challenge : Text → Answer

abbrev pub map_err : {E F A : Type 0} → (E → F) → Result E A → Result F A
map_err f (ok a) = ok a
map_err f (err e) = err (f e)

-- a call of one of the parts
abbrev pub in_users : {A : Type 0} → (UserError → LogInError) → Store.Call A → Call A
in_users f m s = (map_err f (m s.users).0, record s { users = (m s.users).1 })

abbrev pub in_sessions : {A : Type 0} → (AuthError → LogInError) → Manager.Call A → Call A
in_sessions f m s = (map_err f (m s.sessions).0, record s { sessions = (m s.sessions).1 })

abbrev pub require : Bool → LogInError → Call (Unit {0})
require true e = pure tt
require false e = raise e

-- `recordAttempt` says whether the attempt may proceed.
unfoldable pub record_attempt : ℕ → Text → Call Bool
record_attempt now id s = (
  ok (LoginAttempts.record_attempt now id s.attempts).0,
  record s { attempts = (LoginAttempts.record_attempt now id s.attempts).1 },
)

unfoldable pub reset_attempts : Text → Call (Unit {0})
reset_attempts id s = (ok tt, record s { attempts = LoginAttempts.reset id s.attempts })

abbrev pub account_of : User → Account
account_of u = record { id = u.id; username = u.username; email = u.email; role = u.role }

abbrev pub login_challenge : Text
login_challenge = codes "login_challenge"

-- seconds
abbrev pub login_challenge_lifetime : ℕ
login_challenge_lifetime = 5 * 60

abbrev pub challenge_row : Option Sessions → Sessions → Result AuthError (Unit {0}) × Sessions
challenge_row none rows = (err store_failed, rows)
challenge_row (some after) rows = (ok tt, after)

abbrev pub insert_challenge : Moment → Text → Text → Manager.Call (Unit {0})
insert_challenge m jti user rows =
    if m.insert_fails
    then (err store_failed, rows)
    else challenge_row
        (create_session m.now jti user login_challenge (m.now + login_challenge_lifetime) rows) rows

unfoldable pub begin_totp_challenge : Setup → Moment → User → Manager.Call Answer
begin_totp_challenge c m u = do
  jti ← or_raise Manager.no_random m.access_jti
  text ← or_raise Manager.not_signed (c.sign_challenge u.id jti (m.now + login_challenge_lifetime))
  insert_challenge m jti u.id
  pure (challenge text)

abbrev pub issue_tokens : Setup → Moment → User → Manager.Call Answer
issue_tokens c m u = do t ← issue_session c.sessions m (account_of u); pure (tokens t)

-- after the password was right
unfoldable pub second_step : Setup → Moment → User → Call Answer
second_step c m u =
    if u.totp_enabled
    then require c.has_totp totp_not_configured
      >> in_sessions session_error (begin_totp_challenge c m u)
    else reset_attempts u.id >> in_sessions session_error (issue_tokens c m u)

abbrev pub hide_error : UserError → LogInError
hide_error e = invalid_credentials

unfoldable pub login : Setup → ℕ → Moment → Text → Text → Call Answer
login c now m identifier password = do
  user ← in_users hide_error (get_user_by_identifier c.users identifier)
  proceed ← record_attempt now user.id
  require proceed account_locked
  require (c.users.compare_hash user.password password) invalid_credentials
  second_step c m user

pub record Challenge : Type 0 where
  pub user : Text
  pub jti : Text

abbrev pub not_empty : Option Text → Manager.Call Text
not_empty o = require_jti o

abbrev pub any_challenge_error : AuthError → LogInError
any_challenge_error e = invalid_login_challenge

unfoldable pub parse_login_challenge : Setup → Moment → Text → Manager.Call Challenge
parse_login_challenge c m token = do
  claims ← or_raise Manager.invalid_token (c.sessions.parse m.now token)
  require_type login_challenge claims.typ
  user ← not_empty claims.sub
  jti ← not_empty claims.jti
  pure (record { user = user; jti = jti })

abbrev pub challenge_active : Moment → Challenge → Manager.Call Bool
challenge_active m ch rows =
    if m.select_fails
    then (err store_failed, rows)
    else (ok (is_active ch.jti ch.user login_challenge m.now rows), rows)

-- `CompleteTOTPLogin` where the stores are not bound to a transaction
unfoldable pub complete_in_stores : ℕ → Moment → Text → Text → Setup → Call Answer
complete_in_stores now m token code c = do
  require c.has_totp totp_not_configured
  ch ← in_sessions any_challenge_error (parse_login_challenge c m token)
  active ← in_sessions session_error (challenge_active m ch)
  require active invalid_login_challenge
  proceed ← record_attempt now ch.user
  require proceed account_locked
  user ← in_users user_error (lookup_user (Store.get_user_by_id c.users ch.user))
  require (user.totp_enabled && not (is_empty user.totp_secret_encrypted)) invalid_login_challenge
  verified ← in_users user_error (verify_totp_or_recovery_code c.users c.verify_code user code)
  require verified.valid totp_invalid_code
  reset_attempts ch.user
  in_sessions session_error (try_revoke m ch.jti)
  in_sessions session_error (issue_tokens c m user)

-- Users and sessions go back to what they were; the count of attempts is in memory and stays.
abbrev pub roll_back : State → State → State
roll_back before s = record s {
  users = record { rows = before.users.rows; step = s.users.step };
  sessions = before.sessions;
}

abbrev pub commit :
    {A : Type 0} → Option UserError → State → A → State → Result LogInError A × State
commit none before a s = (ok a, s)
commit (some e) before a s = (err (user_error e), roll_back before s)

abbrev pub committed :
    {A : Type 0} → Setup → State → Result LogInError A × State → Result LogInError A × State
committed c before (err e, s) = (err e, roll_back before s)
committed c before (ok a, s) =
    commit (c.users.fault s.users.step) before a
      (record s { users = record { rows = s.users.rows; step = suc s.users.step } })

abbrev pub bound : Setup → Setup
bound c = record c { users = Transactions.bound c.users }

unfoldable pub locked : {A : Type 0} → Setup → (Setup → Call A) → Call A
locked c work s = committed c s (work (bound c) s)

abbrev pub in_transaction : {A : Type 0} → Setup → (Setup → Call A) → Call A
in_transaction c work =
    if c.users.postgres
    then in_users user_error (statement c.users (λ rows. (ok tt, rows))) >> locked c work
    else work c

unfoldable pub complete_totp_login : Setup → ℕ → Moment → Text → Text → Call Answer
complete_totp_login c now m token code = in_transaction c (complete_in_stores now m token code)

-- `IssueSessionForUser`
unfoldable pub issue_session_for_user : Setup → Moment → Text → Call Answer
issue_session_for_user c m id = do
  user ← in_users user_error (lookup_user (Store.get_user_by_id c.users id))
  in_sessions session_error (issue_tokens c m user)
