-- ===== src/Auth/Sessions/Store/Revoked.antt =====
-- A revocation holds for good (backend/internal/core/auth/session_store.go).
use komachi.Base.{
  ℕ, ◌≡◌, refl, inl, inr, Text, Bool, true, false, Option, none, some, List, [], ◌∷◌, arith, ◌==◌,
  not, is_none, all, if◌then◌else◌, Bool-cases,
}
use komachi.Auth.Sessions.Store.{
  Session, Sessions, create_session, select_session, is_active, revoke_where, revoke_session,
  cleanup_expired_sessions, Statement, create, revoke, revoke_all_for_user,
  revoke_all_for_user_except, delete_all, cleanup_expired, execute,
}

-- statements in sequence, each with its time; one that is refused changes nothing
pub record Timed : Type 0 where
  pub time : ℕ
  pub statement : Statement

abbrev pub left_by : Option Sessions → Sessions → Sessions
left_by none rows = rows
left_by (some after) rows = after

unfoldable pub execute_all : List Timed → Sessions → Sessions
execute_all [] rows = rows
execute_all (s ∷ rest) rows = execute_all rest (left_by (execute s.time s.statement rows) rows)

abbrev pub creates : Text → Statement → Bool
creates id (create new user token_type expires) = new == id
creates id s = false

-- every row with the id is revoked
abbrev has_ended : Text → Session → Bool
has_ended id r = if r.id == id then not (is_none r.revoked_at) else true

abbrev all_ended : Text → Sessions → Bool
all_ended id rows = all (has_ended id) rows

all_ended-revoke_where :
    (p : Session → Bool) (t : ℕ) (id : Text) (rows : Sessions)
    → all_ended id rows ≡ true
    → all_ended id (revoke_where p t rows) ≡ true
unfolding revoke_where
all_ended-revoke_where p t id [] h = refl
all_ended-revoke_where p t id (r ∷ rows) h = ground (arith, all_ended-revoke_where p t id rows)

all_ended-revoke_session :
    (t : ℕ) (id : Text) (rows : Sessions) → all_ended id (revoke_session t id rows) ≡ true
unfolding revoke_where
all_ended-revoke_session t id [] = refl
all_ended-revoke_session t id (r ∷ rows) = ground (arith, all_ended-revoke_session t id rows)

all_ended-cleanup :
    (t : ℕ) (id : Text) (rows : Sessions)
    → all_ended id rows ≡ true
    → all_ended id (cleanup_expired_sessions t rows) ≡ true
unfolding cleanup_expired_sessions
all_ended-cleanup t id [] h = refl
all_ended-cleanup t id (r ∷ rows) h = ground (arith, all_ended-cleanup t id rows)

all_ended-is_active :
    (id user token_type : Text) (now : ℕ) (rows : Sessions)
    → all_ended id rows ≡ true
    → is_active id user token_type now rows ≡ false
unfolding is_active select_session
all_ended-is_active id user token_type now [] h = refl
all_ended-is_active id user token_type now (r ∷ rows) h =
    ground (arith, all_ended-is_active id user token_type now rows)

all_ended-execute :
    (t : ℕ) (id : Text) (s : Statement) (rows : Sessions)
    → creates id s ≡ false
    → all_ended id rows ≡ true
    → all_ended id (left_by (execute t s rows) rows) ≡ true
unfolding execute create_session
all_ended-execute t id (create new user token_type expires) rows c h = ground arith
all_ended-execute t id (revoke old) rows c h = all_ended-revoke_where _ t id rows h
all_ended-execute t id (revoke_all_for_user user) rows c h = all_ended-revoke_where _ t id rows h
all_ended-execute t id (revoke_all_for_user_except user kept) rows c h =
    all_ended-revoke_where _ t id rows h
all_ended-execute t id delete_all rows c h = refl
all_ended-execute t id cleanup_expired rows c h = all_ended-cleanup t id rows h

all_ended-execute_all :
    (id : Text) (l : List Timed) (rows : Sessions)
    → all (λ (s : Timed). not (creates id s.statement)) l ≡ true
    → all_ended id rows ≡ true
    → all_ended id (execute_all l rows) ≡ true
unfolding execute_all
all_ended-execute_all id [] rows c h = h
all_ended-execute_all id (s ∷ rest) rows c h = elim (Bool-cases (creates id s.statement)) [
  | inl e ↦ ground arith
  | inr e ↦
      all_ended-execute_all id rest (left_by (execute s.time s.statement rows) rows) (ground arith)
        (all_ended-execute s.time id s.statement rows e h)
]

-- Once a session is revoked it is never active again, for whatever user, type and time it is asked
-- and whatever statements follow, where none of these creates a session with its id.
pub is_active-execute_all_revoked :
    (id user token_type : Text) (t now : ℕ) (l : List Timed) (rows : Sessions)
    → all (λ (s : Timed). not (creates id s.statement)) l ≡ true
    → is_active id user token_type now (execute_all l (revoke_session t id rows)) ≡ false
is_active-execute_all_revoked id user token_type t now l rows c =
    all_ended-is_active id user token_type now (execute_all l (revoke_session t id rows))
      (all_ended-execute_all id l (revoke_session t id rows) c (all_ended-revoke_session t id rows))
