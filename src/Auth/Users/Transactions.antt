-- ===== src/Auth/Users/Transactions.antt =====
-- backend/internal/core/auth/user_service.go: its transactions over the table, its limit of editors,
-- and how it reads the errors of the store. In SQLite each statement stands for itself. An error that
-- wraps another is that error, and what is logged is left out.
use komachi.Base.{
  ℕ, suc, Text, Bool, true, false, Option, none, some, [], ◌∷◌, ◌==◌, ◌||◌, not, leb, eqb, Result,
  ok, err, pure, raise, ◌>>=◌, ◌>>◌, if◌then◌else◌,
}
use komachi.Auth.Users.Store.{
  User, Users, UserError, Setup, World, Call, statement, or_failed, count_editor_users, role_admin,
  role_editor, not_found, editor_limit_reached, user_store_unavailable,
}

-- The store that is bound to a transaction: no other request writes to the locked table.
abbrev pub bound : Setup → Setup
bound c = record c { postgres = false; others = λ n rows. rows }

-- `WithSQLTx`: what was written stays only where the work succeeded and the commit does.
abbrev pub commit : {A : Type 0} → Option UserError → Users → A → World → Result UserError A × World
commit none before a w = (ok a, w)
commit (some e) before a w = (err e, record w { rows = before })

abbrev pub committed :
    {A : Type 0} → Setup → Users → Result UserError A × World → Result UserError A × World
committed c before (err e, w) = (err e, record w { rows = before })
committed c before (ok a, w) = commit (c.fault w.step) before a (record w { step = suc w.step })

unfoldable pub locked : {A : Type 0} → Setup → (Setup → Call A) → Call A
locked c work w = committed c w.rows (work (bound c) w)

-- `postgresTransaction`; taking the lock on the table is one step
unfoldable pub postgres_transaction : {A : Type 0} → Setup → (Setup → Call A) → Call A
postgres_transaction c work = do statement c (λ rows. (ok tt, rows)); locked c work

abbrev pub in_transaction : {A : Type 0} → Setup → (Setup → Call A) → Call A
in_transaction c work = if c.postgres then postgres_transaction c work else work c

-- How a call goes on from a lookup: the error is looked at, or ignored.
abbrev pub attempt : {A : Type 0} → Call A → Call (Result UserError A)
attempt m w = (ok (m w).0, (m w).1)

abbrev pub limit_reached : ℕ → ℕ → Call (Unit {0})
limit_reached limit n = if leb limit n then raise editor_limit_reached else pure tt

unfoldable pub check_editor_limit : Setup → Text → Call (Unit {0})
check_editor_limit c role =
    if eqb c.editor_limit 0 || not ((role == role_admin) || (role == role_editor))
    then pure tt
    else count_editor_users c >>= limit_reached c.editor_limit

abbrev pub require : Bool → UserError → Call (Unit {0})
require true e = pure tt
require false e = raise e

abbrev pub new_hash : Setup → Text → Call Text
new_hash c password w = or_failed (c.hash w.step password) w

abbrev pub new_id : Setup → Call Text
new_id c w = or_failed (c.unique_id w.step) w

abbrev pub new_password : Setup → Call Text
new_password c w = or_failed (c.random_password w.step) w

abbrev pub is_empty : Text → Bool
is_empty [] = true
is_empty (a ∷ s) = false

abbrev pub map_user_lookup_err : {A : Type 0} → Result UserError A → Call A
map_user_lookup_err (ok a) = pure a
map_user_lookup_err (err user_store_unavailable) = raise user_store_unavailable
map_user_lookup_err (err e) = raise not_found

-- a lookup whose error is mapped
abbrev pub lookup_user : Call User → Call User
lookup_user m = attempt m >>= map_user_lookup_err
