-- ===== src/Auth/Sessions/Store/View.antt =====
-- What each statement does to the sessions that are active
-- (backend/internal/core/auth/session_store.go).
use komachi.Base.{
  ℕ, ◌≡◌, refl, Text, Bool, false, none, some, [], ◌∷◌, arith, ◌==◌, ◌&&◌, not, ltb, any,
  eq_text_iff, if◌then◌else◌,
}
use komachi.Auth.Sessions.Store.{
  Session, Sessions, create_session, select_session, is_active, revoke_where,
}

module _ (id user token_type : Text) (now : ℕ) where
  -- For a condition that holds of the key's row alone as it holds of the values `c`.
  pub is_active-revoke_where :
      (p : Session → Bool) (c : Bool) (t : ℕ) (rows : Sessions)
      → ((r : Session) → r.id ≡ id → r.user_id ≡ user → p r ≡ c)
      → is_active id user token_type now (revoke_where p t rows)
        ≡ (if c then false else is_active id user token_type now rows)
  unfolding is_active select_session revoke_where
  is_active-revoke_where p c t [] h = ground arith
  is_active-revoke_where p c t (r ∷ rows) h = ground (
    arith,
    h r,
    eq_text_iff r.id id,
    eq_text_iff r.user_id user,
    is_active-revoke_where p c t rows h,
  )

  pub is_active-create_session :
      (t : ℕ) (new owner kind : Text) (expires : ℕ) (rows after : Sessions)
      → create_session t new owner kind expires rows ≡ some after
      → is_active id user token_type now after ≡ (
          if (new == id) && (owner == user) && (kind == token_type)
          then not (ltb expires now)
          else is_active id user token_type now rows)
  unfolding is_active select_session create_session
  is_active-create_session t new owner kind expires rows after h = ground arith

  -- No row has the id twice, which the primary key sees to.
  pub select_session-absent :
      (rows : Sessions)
      → any (λ (r : Session). r.id == id) rows ≡ false
      → select_session id user token_type rows ≡ none
  unfolding select_session
  select_session-absent [] h = refl
  select_session-absent (r ∷ rows) h = ground (arith, select_session-absent rows)
