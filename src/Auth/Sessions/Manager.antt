-- ===== src/Auth/Sessions/Manager.antt =====
-- Sessions and their tokens, backend/internal/core/auth/session_manager.go, over the table of
-- sessions. The signing and parsing of a JWT, which github.com/golang-jwt/jwt does, and the lookup
-- of users are fields of `Setup`; what the clock, the random source and the database answer during
-- a call are fields of `Moment`. Times are whole seconds.
pub mod Calls
pub mod Rotation
pub mod Issued
pub mod Tests
use komachi.Base.{
  ℕ, ◌+◌, Text, codes, Bool, true, false, Option, none, some, List, [], ◌∷◌, ◌==◌, ◌&&◌, not,
  Result, ok, err, Exec, pure, raise, ◌>>=◌, ◌>>◌, continue, if◌then◌else◌,
}
use komachi.Auth.Sessions.Store.{
  Sessions, create_session, is_active, revoke_session, revoke_all_sessions_for_user,
  revoke_all_sessions_for_user_except,
}

-- what a token carries of a `*User`
pub record Account : Type 0 where
  pub id : Text
  pub username : Text
  pub email : Text
  pub role : Text

-- the claims that `generateToken` signs, less the time of issue
pub record Claims : Type 0 where
  pub sub : Text
  pub role : Text
  pub email : Text
  pub exp : ℕ
  pub typ : Text
  pub jti : Text

-- the claims of a token that was parsed: none where one is missing or is not a string
pub record Parsed : Type 0 where
  pub typ : Option Text
  pub sub : Option Text
  pub jti : Option Text

pub data AuthError : Type 0 where
  invalid_token : AuthError
  not_wired : AuthError
  user_not_found : AuthError
  no_random : AuthError
  not_signed : AuthError
  store_failed : AuthError

pub record Setup : Type 0 where
  pub access_lifetime : ℕ
  pub refresh_lifetime : ℕ
  -- `signClaims`
  pub sign : Claims → Option Text
  -- `parseClaims` at a time
  pub parse : ℕ → Text → Option Parsed
  -- `resolveUser`, none where it is not set
  pub resolve : Option (Text → Option Account)
  -- whether the sessions are in PostgreSQL, where a refresh is one transaction
  pub postgres : Bool

pub record Moment : Type 0 where
  pub now : ℕ
  -- the two ids that `generateJTI` draws
  pub access_jti : Option Text
  pub refresh_jti : Option Text
  pub select_fails : Bool
  pub insert_fails : Bool
  pub update_fails : Bool
  pub begin_fails : Bool
  pub commit_fails : Bool

pub record AuthToken : Type 0 where
  pub token : Text
  pub refresh_token : Text
  pub access_token_expires_at : ℕ
  pub user : Account

abbrev pub access : Text
access = codes "access"

abbrev pub refresh : Text
refresh = codes "refresh"

abbrev pub Call : Type 0 → Type 0
Call A = Exec Sessions AuthError A

abbrev pub or_raise : {A : Type 0} → AuthError → Option A → Call A
or_raise e none = raise e
or_raise e (some a) = pure a

pub record Signed : Type 0 where
  pub text : Text
  pub jti : Text
  pub expires_at : ℕ

abbrev pub claims_of : Account → ℕ → Text → Text → Claims
claims_of u exp typ jti = record {
  sub = u.id;
  role = u.role;
  email = u.email;
  exp = exp;
  typ = typ;
  jti = jti;
}

abbrev pub generate_token : Setup → Option Text → Account → ℕ → Text → Call Signed
generate_token c drawn u exp typ = do
  jti ← or_raise no_random drawn
  text ← or_raise not_signed (c.sign (claims_of u exp typ jti))
  pure (record { text = text; jti = jti; expires_at = exp })

abbrev pub inserted : Sessions → Option Sessions → Result AuthError (Unit {0}) × Sessions
inserted rows none = (err store_failed, rows)
inserted rows (some after) = (ok tt, after)

abbrev pub insert : Moment → Signed → Text → Call (Unit {0})
insert m r user rows =
    if m.insert_fails
    then (err store_failed, rows)
    else inserted rows (create_session m.now r.jti user refresh r.expires_at rows)

abbrev pub update : Moment → (Sessions → Sessions) → Call (Unit {0})
update m f rows = if m.update_fails then (err store_failed, rows) else (ok tt, f rows)

-- the two tokens of a session that starts, and its row
unfoldable pub start_session : Setup → Moment → Account → Call AuthToken
start_session c m u = do
  a ← generate_token c m.access_jti u (m.now + c.access_lifetime) access
  r ← generate_token c m.refresh_jti u (m.now + c.refresh_lifetime) refresh
  insert m r u.id
  pure (record {
    token = a.text;
    refresh_token = r.text;
    access_token_expires_at = a.expires_at;
    user = u;
  })

-- `IssueSession`
abbrev pub issue_session : Setup → Moment → Account → Call AuthToken
issue_session c m u = start_session c m u

-- `err != nil || !active`
abbrev pub require_active : Moment → Text → Text → Call (Unit {0})
require_active m jti user rows =
    if not m.select_fails && is_active jti user refresh m.now rows
    then (ok tt, rows)
    else (err invalid_token, rows)

-- A failure to revoke the token that was used is logged.
abbrev pub try_revoke : Moment → Text → Call (Unit {0})
try_revoke m jti rows =
    if m.update_fails then (ok tt, rows) else (ok tt, revoke_session m.now jti rows)

abbrev pub require_type : Text → Option Text → Call (Unit {0})
require_type typ none = raise invalid_token
require_type typ (some found) = if found == typ then pure tt else raise invalid_token

abbrev pub require_jti : Option Text → Call Text
require_jti none = raise invalid_token
require_jti (some []) = raise invalid_token
require_jti (some (a ∷ id)) = pure (a ∷ id)

abbrev pub find_user : Setup → Text → Call (Option Account)
find_user c id = do resolve ← or_raise not_wired c.resolve; pure (resolve id)

pub record Active : Type 0 where
  pub user : Text
  pub jti : Text

-- the user and the id of an active session that the claims name
unfoldable pub active_session : Moment → Parsed → Call Active
active_session m claims = do
  require_type refresh claims.typ
  user ← or_raise invalid_token claims.sub
  jti ← require_jti claims.jti
  require_active m jti user
  pure (record { user = user; jti = jti })

-- `RefreshToken` where the store is not bound to a transaction
unfoldable pub refresh_in_store : Setup → Moment → Text → Call AuthToken
refresh_in_store c m token = do
  claims ← or_raise invalid_token (c.parse m.now token)
  used ← active_session m claims
  found ← find_user c used.user
  account ← or_raise user_not_found found
  new ← start_session c m account
  try_revoke m used.jti
  pure new

-- `WithSQLTx`: what the call wrote stays only where it succeeded and the commit does.
abbrev pub committed :
    Moment
    → Sessions
    → (Result AuthError AuthToken × Sessions)
    → Result AuthError AuthToken × Sessions
committed m before (err e, after) = (err e, before)
committed m before (ok t, after) =
    if m.commit_fails then (err store_failed, before) else (ok t, after)

unfoldable pub refresh_token : Setup → Moment → Text → Call AuthToken
refresh_token c m token rows =
    let done = refresh_in_store c m token rows in
    if c.postgres
    then (if m.begin_fails then (err store_failed, rows) else committed m rows done)
    else done

-- `RevokeRefreshToken`
unfoldable pub revoke_refresh_token : Setup → Moment → Text → Call (Unit {0})
revoke_refresh_token c m token = do
  claims ← or_raise invalid_token (c.parse m.now token)
  require_type refresh claims.typ
  jti ← require_jti claims.jti
  update m (revoke_session m.now jti)

-- `RevokeAllUserSessions`
abbrev pub revoke_all_user_sessions : Moment → Text → Call (Unit {0})
revoke_all_user_sessions m user = update m (revoke_all_sessions_for_user m.now user)

abbrev pub text_or_empty : Option Text → Text
text_or_empty none = []
text_or_empty (some t) = t

abbrev pub jti_of : Option Parsed → Text
jti_of none = []
jti_of (some p) = text_or_empty p.jti

-- `RevokeAllUserSessionsExceptCurrent`
abbrev pub revoke_all_user_sessions_except_current : Setup → Moment → Text → Text → Call (Unit {0})
revoke_all_user_sessions_except_current c m user token =
    update m (revoke_all_sessions_for_user_except m.now user (jti_of (c.parse m.now token)))

-- `ValidateToken`
unfoldable pub validate_token : Setup → Moment → Text → Call (Option Account)
validate_token c m token = do
  claims ← or_raise invalid_token (c.parse m.now token)
  require_type access claims.typ
  user ← or_raise invalid_token claims.sub
  find_user c user
