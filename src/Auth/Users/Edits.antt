-- ===== src/Auth/Users/Edits.antt =====
-- backend/internal/core/auth/user_service.go: the requests that concern a user who is there.
use komachi.Base.{
  ℕ, Text, ◌==◌, ◌&&◌, not, ltb, trim_space, Result, ok, err, pure, ◌>>=◌, ◌>>◌, if◌then◌else◌,
}
use komachi.Auth.Users.Store
use komachi.Auth.Users.Store.{
  User, Users, UserError, Setup, World, Call, statement, at_step, answer_or_fault, or_failed,
  get_user_by_id, get_user_by_username, get_user_by_email, get_admin_user, count_admin_users,
  count_editor_users, get_all_users, has_role, is_valid_role, is_counted, role_admin, role_editor,
  not_found, already_exists, invalid_credentials, invalid_role, admin_cannot_be_deleted,
  last_admin_cannot_be_demoted, password_too_short, editor_limit_reached,
  remote_user_email_conflict, user_store_unavailable, failed,
}
use komachi.Auth.Users.Transactions.{
  in_transaction, attempt, check_editor_limit, require, new_hash, lookup_user, is_empty,
}

abbrev pub refuse_other : Text → Result UserError User → Call (Unit {0})
refuse_other id (ok u) = require (u.id == id) already_exists
refuse_other id (err e) = pure tt

-- a role that is left empty stays
abbrev pub role_or : Text → Text → Text
role_or role old = if is_empty (trim_space role) then old else role

abbrev pub more_than_one : ℕ → Call (Unit {0})
more_than_one n = require (ltb 1 n) last_admin_cannot_be_demoted

unfoldable pub check_demotion : Setup → User → Text → Call (Unit {0})
check_demotion c user role =
    if has_role role_admin user && not (role == role_admin)
    then count_admin_users c >>= more_than_one
    else pure tt

unfoldable pub check_promotion : Setup → User → Text → Call (Unit {0})
check_promotion c user role = if is_counted user then pure tt else check_editor_limit c role

abbrev pub changed_password : Setup → Text → Text → Call Text
changed_password c password old = if is_empty password then pure old else new_hash c password

abbrev pub edited : User → Text → Text → Text → Text → User
edited user username email hash role = record user {
  username = username;
  email = email;
  password = hash;
  role = role;
}

unfoldable pub update_in_store : Text → Text → Text → Text → Text → Setup → Call User
update_in_store id username email password role c = do
  user ← lookup_user (get_user_by_id c id)
  same_name ← attempt (get_user_by_username c username)
  refuse_other id same_name
  same_email ← attempt (get_user_by_email c email)
  refuse_other id same_email
  require (is_valid_role (role_or role user.role)) invalid_role
  check_demotion c user (role_or role user.role)
  check_promotion c user (role_or role user.role)
  hash ← changed_password c password user.password
  Store.update_user c (edited user username email hash (role_or role user.role))
  pure (edited user username email hash (role_or role user.role))

unfoldable pub update_user : Setup → Text → Text → Text → Text → Text → Call User
update_user c id username email password role =
    in_transaction c (update_in_store id username email password role)

unfoldable pub update_password : Setup → Text → Text → Call (Unit {0})
update_password c id password = do
  get_user_by_id c id
  hash ← new_hash c password
  Store.update_password c id hash

unfoldable pub does_id_and_password_match : Setup → Text → Text → Call User
does_id_and_password_match c id password = do
  user ← lookup_user (get_user_by_id c id)
  require (c.compare_hash user.password password) invalid_credentials
  pure user

unfoldable pub delete_in_store : Text → Setup → Call (Unit {0})
delete_in_store id c = do
  user ← lookup_user (get_user_by_id c id)
  require (not (has_role role_admin user)) admin_cannot_be_deleted
  Store.delete_user c id

unfoldable pub delete_user : Setup → Text → Call (Unit {0})
delete_user c id = in_transaction c (delete_in_store id)

unfoldable pub change_own_password : Setup → Text → Text → Text → Call (Unit {0})
change_own_password c id old new = do
  user ← lookup_user (get_user_by_id c id)
  require (c.compare_hash user.password old) invalid_credentials
  hash ← new_hash c new
  Store.update_password c id hash

-- A user of that name, or of that e-mail where the first lookup fails.
abbrev pub or_by_email : Setup → Text → Result UserError User → Call User
or_by_email c identifier (ok u) = pure u
or_by_email c identifier (err e) = lookup_user (get_user_by_email c identifier)

unfoldable pub get_user_by_identifier : Setup → Text → Call User
get_user_by_identifier c identifier = do
  by_name ← attempt (get_user_by_username c identifier)
  or_by_email c identifier by_name

unfoldable pub get_user_by_email_or_username_and_password : Setup → Text → Text → Call User
get_user_by_email_or_username_and_password c identifier password = do
  by_name ← attempt (get_user_by_username c identifier)
  user ← or_by_email c identifier by_name
  require (c.compare_hash user.password password) invalid_credentials
  pure user
