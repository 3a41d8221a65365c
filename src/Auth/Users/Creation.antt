-- ===== src/Auth/Users/Creation.antt =====
-- backend/internal/core/auth/user_service.go: the requests that may create a user. The length of a
-- password counts its code points, which are its bytes in ASCII.
use komachi.Base.{
  ℕ, Text, codes, true, false, [], ◌∷◌, ◌++◌, leb, trim_space, length, Result, ok, err, pure, raise,
  ◌>>=◌, ◌>>◌,
}
use komachi.Auth.Users.Store
use komachi.Auth.Users.Store.{
  User, Users, UserError, Setup, World, Call, statement, at_step, answer_or_fault, or_failed,
  get_user_by_id, get_user_by_username, get_user_by_email, get_admin_user, count_admin_users,
  count_editor_users, get_all_users, has_role, is_valid_role, is_counted, role_admin, role_editor,
  not_found, already_exists, invalid_credentials, invalid_role, admin_cannot_be_deleted,
  last_admin_cannot_be_demoted, password_too_short, editor_limit_reached,
  remote_user_email_conflict, user_store_unavailable, failed,
}
use komachi.Auth.Users.Transactions.{
  in_transaction, attempt, check_editor_limit, require, new_hash, new_id, new_password,
}
use komachi.Auth.Users.Edits.{update_password}

abbrev pub default_admin_username : Text
default_admin_username = codes "admin"

abbrev pub default_admin_email : Text
default_admin_email = codes "admin@localhost"

abbrev pub min_password_length : ℕ
min_password_length = 8

abbrev pub remote_suffix : Text
remote_suffix = codes "@remote-user.invalid"

-- `defaultIfEmpty`
abbrev pub or_fallback : Text → Text → Text
or_fallback [] fallback = fallback
or_fallback (a ∷ s) fallback = a ∷ s

abbrev pub default_if_empty : Text → Text → Text
default_if_empty value fallback = or_fallback (trim_space value) fallback

-- `err == nil` where a user may not be there
abbrev pub refuse_found : Result UserError User → Call (Unit {0})
refuse_found (ok u) = raise already_exists
refuse_found (err e) = pure tt

abbrev pub new_user : Text → Text → Text → Text → Text → User
new_user id username email hash role = record {
  id = id;
  username = username;
  password = hash;
  email = email;
  role = role;
  must_set_password = false;
  totp_enabled = false;
  totp_secret_encrypted = [];
  totp_recovery_code_hashes = [];
}

unfoldable pub create_in_store : Text → Text → Text → Text → Setup → Call User
create_in_store username email password role c = do
  same_name ← attempt (get_user_by_username c username)
  refuse_found same_name
  same_email ← attempt (get_user_by_email c email)
  refuse_found same_email
  require (is_valid_role role) invalid_role
  check_editor_limit c role
  hash ← new_hash c password
  id ← new_id c
  Store.create_user c (new_user id username email hash role)
  pure (new_user id username email hash role)

unfoldable pub create_user : Setup → Text → Text → Text → Text → Call User
create_user c username email password role =
    in_transaction c (create_in_store username email password role)

abbrev pub init_unless_found : Text → Text → Text → Setup → Result UserError User → Call (Unit {0})
init_unless_found username email password c (ok admin) = pure tt
init_unless_found username email password c (err e) = do
  require (leb min_password_length (length password)) password_too_short
  create_user c (default_if_empty username default_admin_username)
      (default_if_empty email default_admin_email) password role_admin
  pure tt

unfoldable pub init_in_store : Text → Text → Text → Setup → Call (Unit {0})
init_in_store username email password c = do
  found ← attempt (get_admin_user c)
  init_unless_found username email password c found

unfoldable pub init_default_admin : Setup → Text → Text → Text → Call (Unit {0})
init_default_admin c username email password =
    in_transaction c (init_in_store username email password)

abbrev pub or_by_email_if_missing : Setup → Text → Result UserError User → Call User
or_by_email_if_missing c identifier (ok u) = pure u
or_by_email_if_missing c identifier (err not_found) = get_user_by_email c identifier
or_by_email_if_missing c identifier (err e) = raise e

unfoldable pub lookup_remote_user_by_identifier : Setup → Text → Call User
lookup_remote_user_by_identifier c identifier = do
  by_name ← attempt (get_user_by_username c identifier)
  or_by_email_if_missing c identifier by_name

abbrev pub remote_email : Text → Text → Text
remote_email identifier [] = identifier ++ remote_suffix
remote_email identifier (a ∷ email) = a ∷ email

abbrev pub existing_or_conflict : Result UserError User → Call User
existing_or_conflict (ok u) = pure u
existing_or_conflict (err e) = raise remote_user_email_conflict

-- after the creation: a user of that name may have been made in between
abbrev pub created_or_existing : Setup → Text → Result UserError User → Call User
created_or_existing c identifier (ok u) = pure u
created_or_existing c identifier (err already_exists) =
    attempt (lookup_remote_user_by_identifier c identifier) >>= existing_or_conflict
created_or_existing c identifier (err e) = raise e

abbrev pub found_or_created : Setup → Text → Text → Text → Result UserError User → Call User
found_or_created c identifier email role (ok u) = pure u
found_or_created c identifier email role (err not_found) = do
  password ← new_password c
  created ← attempt (create_user c identifier (remote_email identifier email) password role)
  created_or_existing c identifier created
found_or_created c identifier email role (err e) = raise e

unfoldable pub get_or_create_remote_user : Setup → Text → Text → Text → Call User
get_or_create_remote_user c identifier email role = do
  found ← attempt (lookup_remote_user_by_identifier c identifier)
  found_or_created c identifier email role found

abbrev pub admin_or_created : Setup → Text → Text → Text → Result UserError User → Call User
admin_or_created c username email password (ok admin) = pure admin
admin_or_created c username email password (err not_found) =
    create_user c (default_if_empty username default_admin_username)
      (default_if_empty email default_admin_email) password role_admin
admin_or_created c username email password (err e) = raise e

-- The answer holds the password that was drawn, in plain text.
unfoldable pub reset_admin_user_password : Setup → Text → Text → Call User
reset_admin_user_password c username email = do
  password ← new_password c
  found ← attempt (get_admin_user c)
  admin ← admin_or_created c username email password found
  update_password c admin.id password
  pure (record admin { password = password })

unfoldable pub invite_in_store : Text → Text → Text → Setup → Call User
invite_in_store username email role c = do
  password ← new_password c
  user ← create_user c username email password role
  Store.set_must_set_password c user.id true
  pure (record user { must_set_password = true })

unfoldable pub invite_user : Setup → Text → Text → Text → Call User
invite_user c username email role = in_transaction c (invite_in_store username email role)

unfoldable pub complete_in_store : Text → Text → Setup → Call (Unit {0})
complete_in_store id password c = do
  update_password c id password
  Store.set_must_set_password c id false

unfoldable pub complete_invite : Setup → Text → Text → Call (Unit {0})
complete_invite c id password = in_transaction c (complete_in_store id password)
