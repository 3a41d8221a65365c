-- ===== src/Auth/Users/Kept/Columns.antt =====
-- The requests that change other columns than those that identify a user, with what they keep.
use komachi.Base.{refl, Bool, Text, List}
use komachi.Auth.Users.Store
use komachi.Auth.Users.Store.{
  User, Users, UserError, Setup, World, Call, Statement, statement, at_step, answer_or_fault,
  or_failed, select, set_where, write, update_columns, has_id, has_role, role_admin, swap_hashes,
  holds_hashes, not_found, already_exists, invalid_credentials, password_too_short,
  remote_user_email_conflict, user_store_unavailable, failed, invalid_role, admin_cannot_be_deleted,
  last_admin_cannot_be_demoted, editor_limit_reached,
}
use komachi.Auth.Users.Transactions.{bound}
use komachi.Auth.Users.Valid.{KeepsKeys}
use komachi.Auth.Users.Rules.{
  Keeps, Relies, bind-Leaves, statement-Leaves, new_hash-Leaves, lookup-Leaves, lookup_user-Leaves,
  require-Keeps,
}
use komachi.Auth.Users.Edits.{update_password, change_own_password}

module _ (I : Users → Type 0) (R : Setup → Type 0) (relies : (c : Setup) → R c → Relies I c)
    (binds : (c : Setup) → R c → R (bound c))
    (columns : (q : User → Bool) (f : User → User)
      → KeepsKeys f
      → (rows : Users) → I rows
      → I (set_where q f rows)) where
  same : (rows : Users) → I rows → I rows
  same rows i = i

  -- a lookup, for any setup
  pub find-Keeps : (c : Setup) → R c → (p : User → Bool) → Keeps I (statement c (select p))
  find-Keeps c r p = lookup-Leaves I I c (relies c r) p same

  pub write-Keeps :
      (c : Setup)
      → R c
      → (q : User → Bool) (f : User → User) → KeepsKeys f
      → Keeps I (statement c (write q f))
  unfolding write
  write-Keeps c r q f k = statement-Leaves I c (write q f) (relies c r) same (columns q f k)

  pub update_columns-Keeps :
      (c : Setup)
      → R c
      → (id : Text) (f : User → User) → KeepsKeys f
      → Keeps I (update_columns c id f)
  unfolding update_columns
  update_columns-Keeps c r id f k =
      bind-Leaves I (find-Keeps c r (has_id id)) (λ _. write-Keeps c r (has_id id) f k)

  pub swap_hashes-Keeps :
      (c : Setup)
      → R c
      → (id : Text) (old new : List Text) → Keeps I (Store.consume_recovery_code_hash c id old new)
  unfolding swap_hashes
  swap_hashes-Keeps c r id old new =
      statement-Leaves I c (swap_hashes id old new) (relies c r) same (
        columns (holds_hashes id old) (λ r. record r { totp_recovery_code_hashes = new })
          (record { id = λ r. refl; username = λ r. refl; email = λ r. refl; role = λ r. refl }))

  pub set_password-Keeps :
      (c : Setup) → R c → (id hash : Text) → Keeps I (Store.update_password c id hash)
  set_password-Keeps c r id hash =
      update_columns-Keeps c r id (λ r. record r { password = hash })
        (record { id = λ r. refl; username = λ r. refl; email = λ r. refl; role = λ r. refl })

  pub set_must-Keeps :
      (c : Setup) → R c → (id : Text) (b : Bool) → Keeps I (Store.set_must_set_password c id b)
  set_must-Keeps c r id b =
      update_columns-Keeps c r id (λ r. record r { must_set_password = b })
        (record { id = λ r. refl; username = λ r. refl; email = λ r. refl; role = λ r. refl })

  pub update_password-Keeps :
      (c : Setup) → R c → (id password : Text) → Keeps I (update_password c id password)
  unfolding update_password
  update_password-Keeps c r id password =
      bind-Leaves I (find-Keeps c r (has_id id)) λ _.
        bind-Leaves I (new_hash-Leaves I c same password) λ hash. set_password-Keeps c r id hash

  pub change_own_password-Keeps :
      (c : Setup) → R c → (id old new : Text) → Keeps I (change_own_password c id old new)
  unfolding change_own_password
  change_own_password-Keeps c r id old new =
      bind-Leaves I (lookup_user-Leaves I (find-Keeps c r (has_id id)) (λ u. same)) λ u.
        bind-Leaves I (require-Keeps I (c.compare_hash u.password old) invalid_credentials)
          λ _. bind-Leaves I (new_hash-Leaves I c same new) λ hash. set_password-Keeps c r id hash
