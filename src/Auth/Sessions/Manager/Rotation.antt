-- ===== src/Auth/Sessions/Manager/Rotation.antt =====
-- A refresh token is used once (backend/internal/core/auth/session_manager.go).
use komachi.Base.{
  ℕ, ◌≡◌, refl, sym, ap, subst, ◌∙◌, inl, inr, Text, true, false, Option, none, some, List, [], ◌∷◌,
  arith, ◌==◌, not, all, ok, err, continue-ok, pure-ok, Answer-cases, Bool-cases, Option-cases,
}
use komachi.Auth.Sessions.Store.{Sessions, is_active, revoke_session}
use komachi.Auth.Sessions.Store.Revoked.{Timed, execute_all, creates, is_active-execute_all_revoked}
use komachi.Auth.Sessions.Manager.Calls.{or_raise-ok, require_jti-ok, try_revoke-ok}
use komachi.Auth.Sessions.Manager.{
  Parsed, invalid_token, user_not_found, Setup, Moment, AuthToken, refresh, or_raise, start_session,
  require_active, Active, active_session, try_revoke, require_type, require_jti, find_user,
  refresh_in_store, refresh_token,
}

-- What a token says does not depend on the time at which it is parsed: only whether it is accepted
-- does.
abbrev pub IsStable : (ℕ → Text → Option Parsed) → Type 0
IsStable parse =
    (t t2 : ℕ) (token : Text) (p p2 : Parsed)
    → parse t token ≡ some p
    → parse t2 token ≡ some p2
    → p ≡ p2

active_session-ok :
    (m : Moment) (p : Parsed) (s s2 : Sessions) (a : Active)
    → active_session m p s ≡ (ok a, s2)
    → p.jti ≡ some a.jti
unfolding active_session
active_session-ok m p s s2 a h =
    let (_, s3, e3, h3) = continue-ok {r = require_type refresh p.typ s} h in
    let (user, s4, e4, h4) = continue-ok {r = or_raise invalid_token p.sub s3} h3 in
    let (jti, s5, e5, h5) = continue-ok {r = require_jti p.jti s4} h4 in
    let (_, s6, e6, h6) = continue-ok {r = require_active m jti user s5} h5 in
    let (e, _) = pure-ok h6 in
    subst (λ x. p.jti ≡ some x) (ap (λ (x : Active). x.jti) e) (require_jti-ok p.jti s4 s5 jti e5)

-- Claims that name a session that is not active are refused.
active_session-refused :
    (m : Moment) (typ sub id : Option Text) (rows : Sessions)
    → ((jti user : Text) → id ≡ some jti → is_active jti user refresh m.now rows ≡ false)
    → active_session m (record { typ = typ; sub = sub; jti = id }) rows ≡ (err invalid_token, rows)
unfolding active_session
active_session-refused m none sub id rows h = refl
active_session-refused m (some t) none id rows h = ground arith
active_session-refused m (some t) (some u) none rows h = ground arith
active_session-refused m (some t) (some u) (some []) rows h = ground arith
active_session-refused m (some t) (some u) (some (x ∷ xs)) rows h =
    elim (Bool-cases (t == refresh)) [
      | inl e ↦ rw (e, h (x ∷ xs) u refl) (ground arith)
      | inr e ↦ rw e refl
    ]

module _ (c : Setup) (m : Moment) (token : Text) where
  -- the claims of a token that was refreshed, and the revocation that its refresh ended in
  abbrev Refreshed : Sessions → Type 0
  Refreshed after =
      (p : Parsed) × (jti : Text) × (mid : Sessions) × (c.parse m.now token ≡ some p)
      × (p.jti ≡ some jti)
      × (after ≡ revoke_session m.now jti mid)

  refresh_in_store-Refreshed :
      (rows after : Sessions) (new : AuthToken)
      → refresh_in_store c m token rows ≡ (ok new, after)
      → m.update_fails ≡ false
      → Refreshed after
  unfolding refresh_in_store
  refresh_in_store-Refreshed rows after new h u =
      let (p, s1, e1, h1) = continue-ok {r = or_raise invalid_token (c.parse m.now token) rows} h in
      let (used, s2, e2, h2) = continue-ok {r = active_session m p s1} h1 in
      let (found, s3, e3, h3) = continue-ok {r = find_user c used.user s2} h2 in
      let (account, s4, e4, h4) = continue-ok {r = or_raise user_not_found found s3} h3 in
      let (fresh, s5, e5, h5) = continue-ok {r = start_session c m account s4} h4 in
      let (x, s6, e6, h6) = continue-ok {r = try_revoke m used.jti s5} h5 in
      let (_, e7) = pure-ok h6 in
      (
        p,
        used.jti,
        s5,
        (or_raise-ok invalid_token _ rows s1 p e1).0,
        active_session-ok m p s1 s2 used e2,
        sym e7 ∙ try_revoke-ok m used.jti s5 s6 x e6 u,
      )

  refresh_token-Refreshed :
      (rows after : Sessions) (new : AuthToken)
      → refresh_token c m token rows ≡ (ok new, after)
      → m.update_fails ≡ false
      → Refreshed after
  unfolding refresh_token
  refresh_token-Refreshed rows after new h u =
      elim (Answer-cases (refresh_in_store c m token rows)) [
        | inl (a, s, e) ↦
            let e2 : after ≡ s = ground arith in
            let e3 : a ≡ new = ground arith in
            rw e2 (refresh_in_store-Refreshed rows s new (rw (e, e3) refl) u)
        | inr (x, s, e) ↦ ground arith
      ]

  -- A token whose session is not active is refused, and changes nothing.
  refresh_token-refused :
      (rows : Sessions)
      → ((p : Parsed) (jti user : Text)
          → c.parse m.now token ≡ some p
          → p.jti ≡ some jti
          → is_active jti user refresh m.now rows ≡ false)
      → m.begin_fails ≡ false
      → refresh_token c m token rows ≡ (err invalid_token, rows)
  unfolding refresh_token refresh_in_store
  refresh_token-refused rows h b = elim (Option-cases (c.parse m.now token)) [
    | inl e ↦ rw e (ground arith)
    | inr (p, e) ↦
        rw (e, active_session-refused m p.typ p.sub p.jti rows (λ jti user. h p jti user e))
          (ground arith)
  ]

-- Where a refresh succeeded and could revoke the session of its token, the token is refused at any
-- later call, whatever statements are executed on the table between, so long as none of them
-- creates a session with the token's id, where a transaction can begin; and the refusal changes
-- nothing.
pub refresh_token-single_use :
    (c : Setup) (m later : Moment) (token jti : Text) (p : Parsed) (rows after : Sessions)
    (new : AuthToken) (l : List Timed)
    → IsStable c.parse
    → c.parse m.now token ≡ some p
    → p.jti ≡ some jti
    → refresh_token c m token rows ≡ (ok new, after)
    → m.update_fails ≡ false
    → all (λ (s : Timed). not (creates jti s.statement)) l ≡ true
    → later.begin_fails ≡ false
    → refresh_token c later token (execute_all l after) ≡ (err invalid_token, execute_all l after)
refresh_token-single_use c m later token jti p rows after new l stable e1 e2 h u n b =
    let (q, id, mid, f1, f2, f3) = refresh_token-Refreshed c m token rows after new h u in
    refresh_token-refused c later token (execute_all l after)
      (λ p2 id2 user g1 g2.
        let same : p ≡ p2 = stable m.now later.now token p p2 e1 g1 in
        let used : id ≡ jti = cc in
        let asked : id2 ≡ jti = cc in
        rw (asked, f3, used)
          (is_active-execute_all_revoked jti user refresh m.now later.now l mid n))
      b
