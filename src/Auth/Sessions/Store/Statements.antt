-- ===== src/Auth/Sessions/Store/Statements.antt =====
-- Statements against the sessions that are active, one and in sequence
-- (backend/internal/core/auth/session_store.go).
use komachi.Base.{
  ℕ, ◌<◌, ◌≡◌, refl, ap, inl, inr, Text, Bool, false, some, [], ◌∷◌, arith, ◌==◌, ◌&&◌, not, ltb,
  leb, any, eq_text_iff, if◌then◌else◌, Bool-cases,
}
use komachi.Auth.Sessions.Store.{
  Session, Sessions, new_session, create_session, select_session, is_active, revoke_if,
  revoke_where, revoke_session, revoke_all_sessions_for_user, revoke_all_sessions_for_user_except,
  cleanup_expired_sessions, Statement, create, revoke, revoke_all_for_user,
  revoke_all_for_user_except, delete_all, cleanup_expired, execute,
}
use komachi.Auth.Sessions.Store.View.{
  is_active-revoke_where, is_active-create_session, select_session-absent,
}

abbrev pub has_id : Text → Sessions → Bool
has_id id rows = any (λ (r : Session). r.id == id) rows

-- what the primary key keeps up: no two rows have one id
abbrev pub IsKeyed : Sessions → Type 0
IsKeyed [] = Unit {0}
IsKeyed (r ∷ rows) = (has_id r.id rows ≡ false) × IsKeyed rows

-- What a statement executed at a time before `now` makes of the answer whether a session with
-- the id, of the user and with the type is active at `now`.
abbrev pub activity_after : Statement → (id user token_type : Text) → ℕ → Bool → Bool
activity_after (create new owner kind expires) id user token_type now before =
    if (new == id) && (owner == user) && (kind == token_type) then not (ltb expires now) else before
activity_after (revoke old) id user token_type now before = if id == old then false else before
activity_after (revoke_all_for_user owner) id user token_type now before =
    if user == owner then false else before
activity_after (revoke_all_for_user_except owner kept) id user token_type now before =
    if (user == owner) && not (id == kept) then false else before
activity_after delete_all id user token_type now before = false
activity_after cleanup_expired id user token_type now before = before

has_id-cleanup :
    (t : ℕ) (id : Text) (rows : Sessions)
    → has_id id rows ≡ false
    → has_id id (cleanup_expired_sessions t rows) ≡ false
unfolding cleanup_expired_sessions
has_id-cleanup t id [] h = refl
has_id-cleanup t id (r ∷ rows) h = ground (arith, has_id-cleanup t id rows)

has_id-revoke_where :
    (p : Session → Bool) (t : ℕ) (id : Text) (rows : Sessions)
    → has_id id (revoke_where p t rows) ≡ has_id id rows
unfolding revoke_where
has_id-revoke_where p t id [] = refl
has_id-revoke_where p t id (r ∷ rows) = ground (arith, has_id-revoke_where p t id rows)

IsKeyed-cleanup :
    (t : ℕ) (rows : Sessions) → IsKeyed rows → IsKeyed (cleanup_expired_sessions t rows)
unfolding cleanup_expired_sessions
IsKeyed-cleanup t [] h = tt
IsKeyed-cleanup t (r ∷ rows) (h, k) = elim (Bool-cases (leb r.expires_at t)) [
  | inl e ↦ rw e (IsKeyed-cleanup t rows k)
  | inr e ↦ rw e (has_id-cleanup t r.id rows h, IsKeyed-cleanup t rows k)
]

is_active-cleanup :
    (id user token_type : Text) (now t : ℕ) (rows : Sessions)
    → IsKeyed rows
    → t < now
    → is_active id user token_type now (cleanup_expired_sessions t rows)
      ≡ is_active id user token_type now rows
unfolding is_active select_session cleanup_expired_sessions
is_active-cleanup id user token_type now t [] k l = refl
is_active-cleanup id user token_type now t (r ∷ rows) (h, k) l = ground (
  arith,
  h,
  select_session-absent r.id user token_type now rows,
  eq_text_iff r.id id,
  is_active-cleanup id user token_type now t rows k l,
)

IsKeyed-revoke_where :
    (p : Session → Bool) (t : ℕ) (rows : Sessions) → IsKeyed rows → IsKeyed (revoke_where p t rows)
unfolding revoke_where
IsKeyed-revoke_where p t [] h = tt
IsKeyed-revoke_where p t (r ∷ rows) (h, k) =
    let e : (revoke_if p t r).id ≡ r.id = ground arith in
    (rw (e, has_id-revoke_where p t r.id rows) h, IsKeyed-revoke_where p t rows k)

IsKeyed-create_session :
    (t : ℕ) (id user token_type : Text) (expires : ℕ) (rows after : Sessions)
    → IsKeyed rows
    → create_session t id user token_type expires rows ≡ some after
    → IsKeyed after
unfolding create_session
IsKeyed-create_session t id user token_type expires rows after k h =
    elim (Bool-cases (has_id id rows)) [
      | inl e ↦ ground arith
      | inr e ↦
          let e2 : after ≡ new_session t id user token_type expires ∷ rows = ground arith in
          rw e2 (e, k)
    ]

module _ (t : ℕ) where
  -- A statement executed before `now` changes whether a session is active at `now` as its abstract
  -- description says: a new session is active until it expires, a revocation ends the sessions it
  -- names, and the removal of expired sessions ends none.
  pub is_active-execute :
      (s : Statement) (id user token_type : Text) (now : ℕ) (rows after : Sessions)
      → IsKeyed rows
      → t < now
      → execute t s rows ≡ some after
      → is_active id user token_type now after
        ≡ activity_after s id user token_type now (is_active id user token_type now rows)
  unfolding execute
  is_active-execute (create new owner kind expires) id user token_type now rows after k l h =
      is_active-create_session id user token_type now t new owner kind expires rows after h
  is_active-execute (revoke old) id user token_type now rows after k l h =
      let e : after ≡ revoke_session t old rows = cc in
      rw e (
        is_active-revoke_where id user token_type now _ (id == old) t rows
          (λ r e e2. ap (λ x. x == old) e))
  is_active-execute (revoke_all_for_user owner) id user token_type now rows after k l h =
      let e : after ≡ revoke_all_sessions_for_user t owner rows = cc in
      rw e (
        is_active-revoke_where id user token_type now _ (user == owner) t rows
          (λ r e e2. ap (λ x. x == owner) e2))
  is_active-execute (revoke_all_for_user_except owner kept) id user token_type now rows after k l
        h =
      let e : after ≡ revoke_all_sessions_for_user_except t owner kept rows = cc in
      rw e (
        is_active-revoke_where id user token_type now _ ((user == owner) && not (id == kept)) t rows
          (λ r e e2. cc))
  is_active-execute delete_all id user token_type now rows after k l h =
      let e : after ≡ [] = cc in rw e (unfold is_active in unfold select_session in refl)
  is_active-execute cleanup_expired id user token_type now rows after k l h =
      let e : after ≡ cleanup_expired_sessions t rows = cc in
      rw e (is_active-cleanup id user token_type now t rows k l)

  -- A statement that is executed leaves the ids of the rows distinct.
  execute-IsKeyed :
      (s : Statement) (rows after : Sessions)
      → IsKeyed rows
      → execute t s rows ≡ some after
      → IsKeyed after
  unfolding execute
  execute-IsKeyed (create id user token_type expires) rows after k h =
      IsKeyed-create_session t id user token_type expires rows after k h
  execute-IsKeyed (revoke id) rows after k h =
      let e : after ≡ revoke_session t id rows = cc in rw e (IsKeyed-revoke_where _ t rows k)
  execute-IsKeyed (revoke_all_for_user user) rows after k h =
      let e : after ≡ revoke_all_sessions_for_user t user rows = cc in
      rw e (IsKeyed-revoke_where _ t rows k)
  execute-IsKeyed (revoke_all_for_user_except user id) rows after k h =
      let e : after ≡ revoke_all_sessions_for_user_except t user id rows = cc in
      rw e (IsKeyed-revoke_where _ t rows k)
  execute-IsKeyed delete_all rows after k h = let e : after ≡ [] = cc in rw e tt
  execute-IsKeyed cleanup_expired rows after k h =
      let e : after ≡ cleanup_expired_sessions t rows = cc in rw e (IsKeyed-cleanup t rows k)
