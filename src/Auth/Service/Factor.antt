-- ===== src/Auth/Service/Factor.antt =====
-- How a user sets up the second factor and gives it up, backend/internal/core/auth/auth_service.go.
use komachi.Base.{
  ℕ, zero, suc, Text, Bool, Option, none, some, List, [], ◌∷◌, not, length, ok, pure, raise, ◌>>=◌,
  ◌>>◌,
}
use komachi.Auth.Users.Store
use komachi.Auth.Users.Store.{User, UserError, World, or_failed}
use komachi.Auth.Users.Transactions.{is_empty, lookup_user}
use komachi.Auth.Users.Edits.{does_id_and_password_match}
use komachi.Auth.Sessions.Manager.{Moment, revoke_all_user_sessions_except_current}
use komachi.Auth.Totp.{verify_totp_or_recovery_code}
use komachi.Auth.Service.{
  Setup, Call, in_users, require, user_error, in_transaction, totp_not_configured,
  totp_already_enabled, totp_setup_not_started, totp_invalid_code, totp_not_enabled,
  totp_verification_failed,
}

-- A secret that was generated, in plain and encrypted, with its URL.
pub record GeneratedSecret : Type 0 where
  pub secret : Text
  pub encrypted_secret : Text
  pub otp_auth_url : Text

-- What the random source gives for a secret and for recovery codes, and bcrypt for their hashes, at a
-- call; none where it fails.
pub record Drawn : Type 0 where
  pub secret : Text → Option GeneratedSecret
  pub recovery_code : ℕ → Option Text
  pub recovery_hash : ℕ → Text → Option Text

pub record Codes : Type 0 where
  pub codes : List Text
  pub hashes : List Text

abbrev pub with_code : Text → Option Text → Option Codes → Option Codes
with_code code none rest = none
with_code code (some h) none = none
with_code code (some h) (some r) = some (record { codes = code ∷ r.codes; hashes = h ∷ r.hashes })

abbrev pub add_code : (Text → Option Text) → Option Text → Option Codes → Option Codes
add_code hash none rest = none
add_code hash (some code) rest = with_code code (hash code) rest

-- `GenerateRecoveryCodes`, with the number that are still to be drawn and that of the first
unfoldable pub draw_codes : Drawn → ℕ → ℕ → Option Codes
draw_codes d zero i = some (record { codes = []; hashes = [] })
draw_codes d (suc n) i = add_code (d.recovery_hash i) (d.recovery_code i) (draw_codes d n (suc i))

abbrev pub default_recovery_code_count : ℕ
default_recovery_code_count = 10

abbrev pub positive_or_default : ℕ → ℕ
positive_or_default zero = default_recovery_code_count
positive_or_default (suc n) = suc n

abbrev pub generate_recovery_codes : Drawn → ℕ → Option Codes
generate_recovery_codes d n = draw_codes d (positive_or_default n) 0

abbrev pub or_user_failed : {A : Type 0} → Option A → Call A
or_user_failed none = raise (user_error Store.failed)
or_user_failed (some a) = pure a

unfoldable pub start_totp_setup : Setup → Drawn → Text → Text → Call GeneratedSecret
start_totp_setup c d id password = do
  require c.has_totp totp_not_configured
  user ← in_users user_error (does_id_and_password_match c.users id password)
  require (not user.totp_enabled) totp_already_enabled
  generated ← or_user_failed (d.secret user.email)
  in_users user_error (Store.set_pending_totp_secret c.users id generated.encrypted_secret)
  pure generated

abbrev pub require_code : Option Bool → Call (Unit {0})
require_code none = raise totp_verification_failed
require_code (some valid) = require valid totp_invalid_code

-- A failure to revoke is logged.
abbrev pub try_revoke_others : Setup → Moment → Text → Text → Call (Unit {0})
try_revoke_others c m id token s = (
  ok tt,
  record s {
    sessions = (revoke_all_user_sessions_except_current c.sessions m id token s.sessions).1;
  },
)

unfoldable pub confirm_in_stores : Drawn → Moment → Text → Text → Text → Setup → Call (List Text)
confirm_in_stores d m id code token c = do
  require c.has_totp totp_not_configured
  user ← in_users user_error (lookup_user (Store.get_user_by_id c.users id))
  require (not user.totp_enabled) totp_already_enabled
  require (not (is_empty user.totp_secret_encrypted)) totp_setup_not_started
  require_code (c.verify_code user.totp_secret_encrypted code)
  new ← or_user_failed (generate_recovery_codes d 0)
  in_users user_error (Store.enable_totp c.users id user.totp_secret_encrypted new.hashes)
  try_revoke_others c m id token
  pure new.codes

unfoldable pub confirm_totp_setup : Setup → Drawn → Moment → Text → Text → Text → Call (List Text)
confirm_totp_setup c d m id code token = in_transaction c (confirm_in_stores d m id code token)

unfoldable pub disable_in_stores : Moment → Text → Text → Text → Text → Setup → Call (Unit {0})
disable_in_stores m id password code token c = do
  require c.has_totp totp_not_configured
  user ← in_users user_error (does_id_and_password_match c.users id password)
  require user.totp_enabled totp_not_enabled
  verified ← in_users user_error (verify_totp_or_recovery_code c.users c.verify_code user code)
  require verified.valid totp_invalid_code
  in_users user_error (Store.disable_totp c.users id)
  try_revoke_others c m id token

unfoldable pub disable_totp : Setup → Moment → Text → Text → Text → Text → Call (Unit {0})
disable_totp c m id password code token =
    in_transaction c (disable_in_stores m id password code token)

pub record TotpStatus : Type 0 where
  pub enabled : Bool
  pub recovery_codes_remaining : ℕ

unfoldable pub get_totp_status : Setup → Text → Call TotpStatus
get_totp_status c id = do
  user ← in_users user_error (lookup_user (Store.get_user_by_id c.users id))
  pure (record {
    enabled = user.totp_enabled;
    recovery_codes_remaining = length user.totp_recovery_code_hashes;
  })
