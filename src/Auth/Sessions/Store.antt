-- ===== src/Auth/Sessions/Store.antt =====
-- The table of sessions, backend/internal/core/auth/session_store.go. Each statement of SQL is a
-- function on the list of rows, in the meaning that SQL gives it; the answer of the database to a
-- statement that it does not execute is a fault. Times in the table are whole seconds.
pub mod View
pub mod Statements
pub mod Revoked
pub mod Tests
use komachi.Base.{
  ℕ, Text, Bool, true, false, Option, none, some, List, [], ◌∷◌, ◌==◌, ◌&&◌, not, ltb, leb, is_none,
  any, map, if◌then◌else◌,
}

pub record Session : Type 0 where
  pub id : Text
  pub user_id : Text
  pub token_type : Text
  pub created_at : ℕ
  pub expires_at : ℕ
  pub revoked_at : Option ℕ

abbrev pub Sessions : Type 0
Sessions = List Session

abbrev pub new_session : ℕ → Text → Text → Text → ℕ → Session
new_session now id user token_type expires = record {
  id = id;
  user_id = user;
  token_type = token_type;
  created_at = now;
  expires_at = expires;
  revoked_at = none;
}

-- `INSERT`, which the primary key refuses where the id is there; none is the refusal.
unfoldable pub create_session : ℕ → Text → Text → Text → ℕ → Sessions → Option Sessions
create_session now id user token_type expires rows =
    if any (λ (r : Session). r.id == id) rows
    then none
    else some (new_session now id user token_type expires ∷ rows)

-- the row that `IsActive` selects
unfoldable pub select_session : Text → Text → Text → Sessions → Option Session
select_session id user token_type [] = none
select_session id user token_type (r ∷ rows) =
    if (r.id == id) && (r.user_id == user) && (r.token_type == token_type)
    then some r
    else select_session id user token_type rows

abbrev pub row_active : ℕ → Option Session → Bool
row_active now none = false
row_active now (some r) = is_none r.revoked_at && not (ltb r.expires_at now)

unfoldable pub is_active : Text → Text → Text → ℕ → Sessions → Bool
is_active id user token_type now rows = row_active now (select_session id user token_type rows)

-- `UPDATE sessions SET revoked_at = now WHERE … AND revoked_at IS NULL`
abbrev pub revoke_if : (Session → Bool) → ℕ → Session → Session
revoke_if p now r = if is_none r.revoked_at && p r then record r { revoked_at = some now } else r

unfoldable pub revoke_where : (Session → Bool) → ℕ → Sessions → Sessions
revoke_where p now [] = []
revoke_where p now (r ∷ rows) = revoke_if p now r ∷ revoke_where p now rows

abbrev pub revoke_session : ℕ → Text → Sessions → Sessions
revoke_session now id = revoke_where (λ r. r.id == id) now

abbrev pub revoke_all_sessions_for_user : ℕ → Text → Sessions → Sessions
revoke_all_sessions_for_user now user = revoke_where (λ r. r.user_id == user) now

abbrev pub revoke_all_sessions_for_user_except : ℕ → Text → Text → Sessions → Sessions
revoke_all_sessions_for_user_except now user except =
    revoke_where (λ r. (r.user_id == user) && not (r.id == except)) now

abbrev pub delete_all_sessions : Sessions → Sessions
delete_all_sessions rows = []

unfoldable pub cleanup_expired_sessions : ℕ → Sessions → Sessions
cleanup_expired_sessions now [] = []
cleanup_expired_sessions now (r ∷ rows) =
    let rest = cleanup_expired_sessions now rows in if leb r.expires_at now then rest else r ∷ rest

pub data Statement : Type 0 where
  create : Text → Text → Text → ℕ → Statement
  revoke : Text → Statement
  revoke_all_for_user : Text → Statement
  revoke_all_for_user_except : Text → Text → Statement
  delete_all : Statement
  cleanup_expired : Statement

-- what a statement leaves at the time of its execution; none where it is refused
unfoldable pub execute : ℕ → Statement → Sessions → Option Sessions
execute now (create id user token_type expires) rows =
    create_session now id user token_type expires rows
execute now (revoke id) rows = some (revoke_session now id rows)
execute now (revoke_all_for_user user) rows = some (revoke_all_sessions_for_user now user rows)
execute now (revoke_all_for_user_except user id) rows =
    some (revoke_all_sessions_for_user_except now user id rows)
execute now delete_all rows = some (delete_all_sessions rows)
execute now cleanup_expired rows = some (cleanup_expired_sessions now rows)
