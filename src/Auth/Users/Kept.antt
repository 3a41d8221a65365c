-- ===== src/Auth/Users/Kept.antt =====
-- What every request to the service of users keeps, if the creation and the update of a user keep it.
mod Columns
use komachi.Base.{
  ◌≡◌, refl, Bool, true, false, Text, List, Result, ok, err, pure, ◌>>=◌, [], ◌==◌, length, leb,
}
use komachi.Auth.Users.Store
use komachi.Auth.Users.Store.{
  User, Users, UserError, Setup, World, Call, Statement, statement, at_step, answer_or_fault,
  or_failed, select, set_where, write, update_columns, has_id, has_role, role_admin, swap_hashes,
  holds_hashes, not_found, already_exists, invalid_credentials, password_too_short,
  remote_user_email_conflict, user_store_unavailable, failed, invalid_role, admin_cannot_be_deleted,
  last_admin_cannot_be_demoted, editor_limit_reached,
}
use komachi.Auth.Users.Transactions.{bound, in_transaction}
use komachi.Auth.Users.Valid.{KeepsKeys}
use komachi.Auth.Users.Rules.{
  Keeps, Relies, pure-Leaves, raise-Leaves, bind-Leaves, statement-Leaves, new_hash-Leaves,
  new_password-Leaves, lookup-Leaves, lookup_user-Leaves, attempt-Keeps, require-Keeps,
  in_transaction-Leaves,
}
use komachi.Auth.Users.Edits.{
  update_in_store, update_user, update_password, delete_user, change_own_password,
}
use komachi.Auth.Users.Creation.{
  create_in_store, create_user, init_unless_found, init_in_store, init_default_admin,
  or_by_email_if_missing, lookup_remote_user_by_identifier, existing_or_conflict,
  created_or_existing, found_or_created, get_or_create_remote_user, admin_or_created,
  reset_admin_user_password, invite_in_store, invite_user, complete_in_store, complete_invite,
  default_if_empty, default_admin_username, default_admin_email, remote_email, min_password_length,
}
use komachi.Auth.Users.Requests.{
  Request, create, init_admin, remote, reset_admin, invite, complete, update, set_password,
  change_password, delete, consume_code, set_pending_secret, enable_codes, disable_codes, perform,
}
use komachi.Auth.Users.Kept.Columns.{
  find-Keeps, write-Keeps, update_columns-Keeps, swap_hashes-Keeps, set_password-Keeps,
  set_must-Keeps, update_password-Keeps, change_own_password-Keeps,
}

module _ (I : Users → Type 0) (R : Setup → Type 0) (relies : (c : Setup) → R c → Relies I c)
    (binds : (c : Setup) → R c → R (bound c))
    (columns : (q : User → Bool) (f : User → User)
      → KeepsKeys f
      → (rows : Users) → I rows
      → I (set_where q f rows)) where
  same : (rows : Users) → I rows → I rows
  same rows i = i

  module _
      (creates : (username email password role : Text) (c : Setup)
        → R c
        → c.postgres ≡ false
        → Keeps I (create_in_store username email password role c))
      (edits : (id username email password role : Text) (c : Setup)
        → R c
        → c.postgres ≡ false
        → Keeps I (update_in_store id username email password role c)) where
    any_answer : {A : Type 0} {m : Call A} → Keeps I m → Keeps I (m >>= λ _. pure tt)
    any_answer h = bind-Leaves I h (λ _. pure-Leaves I same)

    transaction-Keeps :
        {A : Type 0} (c : Setup) (work : Setup → Call A)
        → R c
        → ((d : Setup) → R d → d.postgres ≡ false → Keeps I (work d))
        → Keeps I (in_transaction c work)
    transaction-Keeps c work r h =
        in_transaction-Leaves I c work (relies c r) (λ _. h (bound c) (binds c r) refl)
          (λ e. h c r e)

    create_user-Keeps :
        (c : Setup)
        → R c
        → (username email password role : Text)
        → Keeps I (create_user c username email password role)
    unfolding create_user
    create_user-Keeps c r username email password role =
        transaction-Keeps c (create_in_store username email password role) r
          (creates username email password role)

    update_user-Keeps :
        (c : Setup)
        → R c
        → (id username email password role : Text)
        → Keeps I (update_user c id username email password role)
    unfolding update_user
    update_user-Keeps c r id username email password role =
        transaction-Keeps c (update_in_store id username email password role) r
          (edits id username email password role)

    init_unless_found-Keeps :
        (c : Setup)
        → R c
        → (username email password : Text) (found : Result UserError User)
        → Keeps I (init_unless_found username email password c found)
    init_unless_found-Keeps c r username email password (ok admin) = pure-Leaves I same
    init_unless_found-Keeps c r username email password (err e) =
        bind-Leaves I
          (require-Keeps I (leb min_password_length (length password)) password_too_short)
          λ _. any_answer (
            create_user-Keeps c r (default_if_empty username default_admin_username)
              (default_if_empty email default_admin_email) password role_admin)

    init_default_admin-Keeps :
        (c : Setup)
        → R c
        → (username email password : Text) → Keeps I (init_default_admin c username email password)
    unfolding init_default_admin init_in_store
    init_default_admin-Keeps c r username email password =
        transaction-Keeps c (init_in_store username email password) r λ d s _.
          bind-Leaves I
            (attempt-Keeps I (find-Keeps I R relies binds columns d s (has_role role_admin)))
            (init_unless_found-Keeps d s username email password)

    invite_user-Keeps :
        (c : Setup)
        → R c
        → (username email role : Text) → Keeps I (invite_user c username email role)
    unfolding invite_user invite_in_store
    invite_user-Keeps c r username email role =
        transaction-Keeps c (invite_in_store username email role) r λ d s _.
          bind-Leaves I (new_password-Leaves I d same) λ password.
            bind-Leaves I (create_user-Keeps d s username email password role) λ u.
              bind-Leaves I (set_must-Keeps I R relies binds columns d s u.id true)
                λ _. pure-Leaves I same

    complete_invite-Keeps :
        (c : Setup) → R c → (id password : Text) → Keeps I (complete_invite c id password)
    unfolding complete_invite complete_in_store
    complete_invite-Keeps c r id password =
        transaction-Keeps c (complete_in_store id password) r λ d s _.
          bind-Leaves I (update_password-Keeps I R relies binds columns d s id password)
            λ _. set_must-Keeps I R relies binds columns d s id false

    or_by_email_if_missing-Keeps :
        (c : Setup)
        → R c
        → (identifier : Text) (found : Result UserError User)
        → Keeps I (or_by_email_if_missing c identifier found)
    or_by_email_if_missing-Keeps c r identifier (ok u) = pure-Leaves I same
    or_by_email_if_missing-Keeps c r identifier (err not_found) =
        find-Keeps I R relies binds columns c r (λ u. u.email == identifier)
    or_by_email_if_missing-Keeps c r identifier (err _) = raise-Leaves I same

    lookup_remote-Keeps :
        (c : Setup)
        → R c
        → (identifier : Text) → Keeps I (lookup_remote_user_by_identifier c identifier)
    unfolding lookup_remote_user_by_identifier
    lookup_remote-Keeps c r identifier =
        bind-Leaves I
          (attempt-Keeps I
            (find-Keeps I R relies binds columns c r (λ u. u.username == identifier)))
          (or_by_email_if_missing-Keeps c r identifier)

    existing_or_conflict-Keeps :
        (found : Result UserError User) → Keeps I (existing_or_conflict found)
    existing_or_conflict-Keeps (ok u) = pure-Leaves I same
    existing_or_conflict-Keeps (err e) = raise-Leaves I same

    created_or_existing-Keeps :
        (c : Setup)
        → R c
        → (identifier : Text) (created : Result UserError User)
        → Keeps I (created_or_existing c identifier created)
    created_or_existing-Keeps c r identifier (ok u) = pure-Leaves I same
    created_or_existing-Keeps c r identifier (err already_exists) =
        bind-Leaves I (attempt-Keeps I (lookup_remote-Keeps c r identifier))
          existing_or_conflict-Keeps
    created_or_existing-Keeps c r identifier (err _) = raise-Leaves I same

    found_or_created-Keeps :
        (c : Setup)
        → R c
        → (identifier email role : Text) (found : Result UserError User)
        → Keeps I (found_or_created c identifier email role found)
    found_or_created-Keeps c r identifier email role (ok u) = pure-Leaves I same
    found_or_created-Keeps c r identifier email role (err not_found) =
        bind-Leaves I (new_password-Leaves I c same) λ password.
          bind-Leaves I
            (attempt-Keeps I
              (create_user-Keeps c r identifier (remote_email identifier email) password role))
            (created_or_existing-Keeps c r identifier)
    found_or_created-Keeps c r identifier email role (err _) = raise-Leaves I same

    get_or_create_remote_user-Keeps :
        (c : Setup)
        → R c
        → (identifier email role : Text)
        → Keeps I (get_or_create_remote_user c identifier email role)
    unfolding get_or_create_remote_user
    get_or_create_remote_user-Keeps c r identifier email role =
        bind-Leaves I (attempt-Keeps I (lookup_remote-Keeps c r identifier))
          (found_or_created-Keeps c r identifier email role)

    admin_or_created-Keeps :
        (c : Setup)
        → R c
        → (username email password : Text) (found : Result UserError User)
        → Keeps I (admin_or_created c username email password found)
    admin_or_created-Keeps c r username email password (ok u) = pure-Leaves I same
    admin_or_created-Keeps c r username email password (err not_found) =
        create_user-Keeps c r (default_if_empty username default_admin_username)
          (default_if_empty email default_admin_email) password role_admin
    admin_or_created-Keeps c r username email password (err _) = raise-Leaves I same

    reset_admin_user_password-Keeps :
        (c : Setup)
        → R c
        → (username email : Text) → Keeps I (reset_admin_user_password c username email)
    unfolding reset_admin_user_password
    reset_admin_user_password-Keeps c r username email =
        bind-Leaves I (new_password-Leaves I c same) λ password.
          bind-Leaves I
            (attempt-Keeps I (find-Keeps I R relies binds columns c r (has_role role_admin)))
            λ found.
              bind-Leaves I (admin_or_created-Keeps c r username email password found) λ admin.
                bind-Leaves I (update_password-Keeps I R relies binds columns c r admin.id password)
                  λ _. pure-Leaves I {a = record admin { password = password }} same

    pub perform-Keeps :
        (c : Setup)
        → R c
        → (request : Request) → ((id : Text) → request ≡ delete id → Keeps I (delete_user c id))
        → Keeps I (perform c request)
    unfolding perform
    perform-Keeps c r (create username email password role) d =
        any_answer (create_user-Keeps c r username email password role)
    perform-Keeps c r (init_admin username email password) d =
        init_default_admin-Keeps c r username email password
    perform-Keeps c r (remote identifier email role) d =
        any_answer (get_or_create_remote_user-Keeps c r identifier email role)
    perform-Keeps c r (reset_admin username email) d =
        any_answer (reset_admin_user_password-Keeps c r username email)
    perform-Keeps c r (invite username email role) d =
        any_answer (invite_user-Keeps c r username email role)
    perform-Keeps c r (complete id password) d = complete_invite-Keeps c r id password
    perform-Keeps c r (update id username email password role) d =
        any_answer (update_user-Keeps c r id username email password role)
    perform-Keeps c r (set_password id password) d =
        update_password-Keeps I R relies binds columns c r id password
    perform-Keeps c r (change_password id old new) d =
        change_own_password-Keeps I R relies binds columns c r id old new
    perform-Keeps c r (delete id) d = d id refl
    perform-Keeps c r (consume_code id old new) d =
        any_answer (swap_hashes-Keeps I R relies binds columns c r id old new)
    perform-Keeps c r (set_pending_secret id secret) d =
        update_columns-Keeps I R relies binds columns c r id
          (λ u. record u { totp_secret_encrypted = secret })
          (record { id = λ r. refl; username = λ r. refl; email = λ r. refl; role = λ r. refl })
    perform-Keeps c r (enable_codes id secret hashes) d =
        update_columns-Keeps I R relies binds columns c r id
          (λ u. record u {
            totp_secret_encrypted = secret;
            totp_enabled = true;
            totp_recovery_code_hashes = hashes;
          })
          (record { id = λ r. refl; username = λ r. refl; email = λ r. refl; role = λ r. refl })
    perform-Keeps c r (disable_codes id) d =
        update_columns-Keeps I R relies binds columns c r id
          (λ u. record u {
            totp_secret_encrypted = [];
            totp_enabled = false;
            totp_recovery_code_hashes = [];
          })
          (record { id = λ r. refl; username = λ r. refl; email = λ r. refl; role = λ r. refl })
