-- ===== src/Auth/Users/Store.antt =====
-- The table of users, backend/internal/core/auth/user_store.go and models.go. A statement of SQL is
-- one step: what other requests did to the table since the last step comes before it, and where the
-- database does not execute it, or a row does not scan, the answer is a fault. What a fault is, what
-- the others do, bcrypt and the random source are parameters, indexed by the number of the step. The
-- order of the rows is that of no query. The times of the TOTP columns are left out.
use komachi.Base.{
  ℕ, suc, ◌+◌, Text, codes, Bool, true, false, Option, none, some, List, [], ◌∷◌, ◌==◌, ◌&&◌, ◌||◌,
  not, leb, any, Result, ok, err, Exec, pure, raise, ◌>>=◌, ◌>>◌, if◌then◌else◌,
}

pub record User : Type 0 where
  pub id : Text
  pub username : Text
  pub password : Text
  pub email : Text
  pub role : Text
  pub must_set_password : Bool
  pub totp_enabled : Bool
  pub totp_secret_encrypted : Text
  pub totp_recovery_code_hashes : List Text

abbrev pub Users : Type 0
Users = List User

abbrev pub role_admin : Text
role_admin = codes "admin"

abbrev pub role_editor : Text
role_editor = codes "editor"

abbrev pub role_viewer : Text
role_viewer = codes "viewer"

abbrev pub is_valid_role : Text → Bool
is_valid_role role = (role == role_admin) || (role == role_editor) || (role == role_viewer)

abbrev pub has_role : Text → User → Bool
has_role role u = u.role == role

-- the errors of the package, and any other error as `failed`
pub data UserError : Type 0 where
  not_found : UserError
  already_exists : UserError
  invalid_credentials : UserError
  invalid_role : UserError
  admin_cannot_be_deleted : UserError
  last_admin_cannot_be_demoted : UserError
  password_too_short : UserError
  editor_limit_reached : UserError
  remote_user_email_conflict : UserError
  user_store_unavailable : UserError
  failed : UserError

pub record Setup : Type 0 where
  -- 0 where there is no limit
  pub editor_limit : ℕ
  -- `store.pg != nil && store.tx == nil`
  pub postgres : Bool
  -- why the step is not executed, if it is not
  pub fault : ℕ → Option UserError
  pub others : ℕ → Users → Users
  -- `bcrypt.GenerateFromPassword`, which salts a hash at random and refuses a long password
  pub hash : ℕ → Text → Option Text
  -- `bcrypt.CompareHashAndPassword`
  pub compare_hash : Text → Text → Bool
  -- `shared.GenerateUniqueID` and `shared.GenerateRandomPassword`
  pub unique_id : ℕ → Option Text
  pub random_password : ℕ → Option Text

pub record World : Type 0 where
  pub rows : Users
  pub step : ℕ

abbrev pub Call : Type 0 → Type 0
Call A = Exec World UserError A

-- what a statement answers, and the table after it
abbrev pub Statement : Type 0 → Type 0
Statement A = Users → Result UserError A × Users

abbrev pub answer_or_fault : {A : Type 0} → Option UserError → Statement A → Statement A
answer_or_fault none f rows = f rows
answer_or_fault (some e) f rows = (err e, rows)

abbrev pub at_step : {A : Type 0} → ℕ → Result UserError A × Users → Result UserError A × World
at_step n (r, rows) = (r, record { rows = rows; step = n })

unfoldable pub statement : {A : Type 0} → Setup → Statement A → Call A
statement c f w = at_step (suc w.step) (answer_or_fault (c.fault w.step) f (c.others w.step w.rows))

-- A value that the random source or bcrypt gives, or does not.
abbrev pub or_failed : {A : Type 0} → Option A → Call A
or_failed none = raise failed
or_failed (some a) = pure a

abbrev pub find : (User → Bool) → Users → Option User
find p [] = none
find p (u ∷ rows) = if p u then some u else find p rows

abbrev pub row_or_not_found : Option User → Result UserError User
row_or_not_found none = err not_found
row_or_not_found (some u) = ok u

-- `SELECT … WHERE …`, one row
unfoldable pub select : (User → Bool) → Statement User
select p rows = (row_or_not_found (find p rows), rows)

abbrev pub get_user_by_id : Setup → Text → Call User
get_user_by_id c id = statement c (select (λ u. u.id == id))

abbrev pub get_user_by_username : Setup → Text → Call User
get_user_by_username c name = statement c (select (λ u. u.username == name))

abbrev pub get_user_by_email : Setup → Text → Call User
get_user_by_email c email = statement c (select (λ u. u.email == email))

abbrev pub get_admin_user : Setup → Call User
get_admin_user c = statement c (select (has_role role_admin))

abbrev pub count : (User → Bool) → Users → ℕ
count p [] = 0
count p (u ∷ rows) = (if p u then 1 else 0) + count p rows

abbrev pub is_counted : User → Bool
is_counted u = has_role role_admin u || has_role role_editor u

unfoldable pub select_count : (User → Bool) → Statement ℕ
select_count p rows = (ok (count p rows), rows)

abbrev pub count_admin_users : Setup → Call ℕ
count_admin_users c = statement c (select_count (has_role role_admin))

abbrev pub count_editor_users : Setup → Call ℕ
count_editor_users c = statement c (select_count is_counted)

abbrev pub get_all_users : Setup → Call Users
get_all_users c = statement c (λ rows. (ok rows, rows))

-- `INSERT`: the primary key and the two unique columns refuse a row; the other columns have their
-- defaults.
unfoldable pub insert : User → Statement (Unit {0})
insert u rows =
    if any (λ (r : User). (r.username == u.username) || (r.email == u.email)) rows
    then (err already_exists, rows)
    else if any (λ (r : User). r.id == u.id) rows
    then (err failed, rows)
    else (ok tt, u ∷ rows)

unfoldable pub create_user : Setup → User → Call (Unit {0})
create_user c u = statement c (insert u)

-- `UPDATE … WHERE …`, which touches the columns that the uniqueness does not concern
unfoldable pub set_where : (User → Bool) → (User → User) → Users → Users
set_where p f [] = []
set_where p f (r ∷ rows) = (if p r then f r else r) ∷ set_where p f rows

unfoldable pub write : (User → Bool) → (User → User) → Statement (Unit {0})
write p f rows = (ok tt, set_where p f rows)

abbrev pub has_id : Text → User → Bool
has_id id r = r.id == id

-- the columns that `UpdateUser` sets
abbrev pub with_fields : User → User → User
with_fields u r = record r {
  username = u.username;
  password = u.password;
  email = u.email;
  role = u.role;
}

-- `NOT (role = admin AND new role != admin AND (SELECT COUNT(*) …) <= 1)`
abbrev pub keeps_admin : User → Users → User → Bool
keeps_admin u rows r = not (
    has_role role_admin r
    && not (has_role role_admin u)
    && leb (count (has_role role_admin) rows) 1)

abbrev pub clashes : User → User → Bool
clashes u r = not (r.id == u.id) && ((r.username == u.username) || (r.email == u.email))

-- the number of rows is that of whether there is one, since the id is the primary key
unfoldable pub update_row : User → Statement Bool
update_row u rows =
    if not (any (λ (r : User). (r.id == u.id) && keeps_admin u rows r) rows)
    then (ok false, rows)
    else if any (clashes u) rows
    then (err already_exists, rows)
    else (ok true, set_where (has_id u.id) (with_fields u) rows)

abbrev pub demotes : Bool → User → User → Bool
demotes affected existing u =
    not affected && has_role role_admin existing && not (has_role role_admin u)

unfoldable pub update_user : Setup → User → Call (Unit {0})
update_user c u = do
  existing ← get_user_by_id c u.id
  affected ← statement c (update_row u)
  if demotes affected existing u then raise last_admin_cannot_be_demoted else pure tt

unfoldable pub remove : (User → Bool) → Users → Users
remove p [] = []
remove p (r ∷ rows) = let rest = remove p rows in if p r then rest else r ∷ rest

unfoldable pub delete_row : Text → Statement (Unit {0})
delete_row id rows = (ok tt, remove (has_id id) rows)

unfoldable pub delete_user : Setup → Text → Call (Unit {0})
delete_user c id = do get_user_by_id c id; statement c (delete_row id)

-- an update of other columns of the row of a user that is there
unfoldable pub update_columns : Setup → Text → (User → User) → Call (Unit {0})
update_columns c id f = do get_user_by_id c id; statement c (write (has_id id) f)

abbrev pub update_password : Setup → Text → Text → Call (Unit {0})
update_password c id hash = update_columns c id (λ r. record r { password = hash })

abbrev pub set_pending_totp_secret : Setup → Text → Text → Call (Unit {0})
set_pending_totp_secret c id secret =
    update_columns c id (λ r. record r { totp_secret_encrypted = secret })

abbrev pub enable_totp : Setup → Text → Text → List Text → Call (Unit {0})
enable_totp c id secret hashes = update_columns c id (λ r. record r {
  totp_secret_encrypted = secret;
  totp_enabled = true;
  totp_recovery_code_hashes = hashes;
})

abbrev pub disable_totp : Setup → Text → Call (Unit {0})
disable_totp c id = update_columns c id (λ r. record r {
  totp_secret_encrypted = [];
  totp_enabled = false;
  totp_recovery_code_hashes = [];
})

abbrev pub set_must_set_password : Setup → Text → Bool → Call (Unit {0})
set_must_set_password c id value = update_columns c id (λ r. record r { must_set_password = value })

-- Two lists of hashes have the same JSON where they are equal.
unfoldable pub eq_texts : List Text → List Text → Bool
eq_texts [] [] = true
eq_texts [] (t ∷ ts) = false
eq_texts (s ∷ ss) [] = false
eq_texts (s ∷ ss) (t ∷ ts) = (s == t) && eq_texts ss ts

abbrev pub holds_hashes : Text → List Text → User → Bool
holds_hashes id old r = (r.id == id) && eq_texts r.totp_recovery_code_hashes old

unfoldable pub swap_hashes : Text → List Text → List Text → Statement Bool
swap_hashes id old new rows = (
  ok (any (holds_hashes id old) rows),
  set_where (holds_hashes id old) (λ r. record r { totp_recovery_code_hashes = new }) rows,
)

abbrev pub consume_recovery_code_hash : Setup → Text → List Text → List Text → Call Bool
consume_recovery_code_hash c id old new = statement c (swap_hashes id old new)
