-- ===== src/Auth/Sessions/Manager/Calls.antt =====
-- What a call that succeeded found (backend/internal/core/auth/session_manager.go).
use komachi.Base.{
  ℕ, ◌≡◌, Text, Option, none, some, [], ◌∷◌, arith, ok, continue-ok, pure-ok, inl, inr, Bool-cases,
  false, ap, sym, ◌∙◌,
}
use komachi.Auth.Sessions.Store.{Sessions, create_session, revoke_session}
use komachi.Auth.Sessions.Manager.{
  Account, AuthError, no_random, not_signed, Setup, Moment, refresh, or_raise, Signed, claims_of,
  generate_token, insert, inserted, require_jti, try_revoke,
}

pub or_raise-ok :
    {A : Type 0} (e : AuthError) (o : Option A) (s s2 : Sessions) (a : A)
    → or_raise e o s ≡ (ok a, s2)
    → (o ≡ some a) × (s ≡ s2)
or_raise-ok e none s s2 a h = ground arith
or_raise-ok e (some x) s s2 a h = (cc, cc)

pub require_jti-ok :
    (o : Option Text) (s s2 : Sessions) (id : Text) → require_jti o s ≡ (ok id, s2) → o ≡ some id
require_jti-ok none s s2 id h = ground arith
require_jti-ok (some []) s s2 id h = ground arith
require_jti-ok (some (x ∷ xs)) s s2 id h = ground arith

pub try_revoke-ok :
    (m : Moment) (jti : Text) (s s2 : Sessions) (x : Unit {0})
    → try_revoke m jti s ≡ (ok x, s2)
    → m.update_fails ≡ false
    → s2 ≡ revoke_session m.now jti s
try_revoke-ok m jti s s2 x h u = ground arith

pub generate_token-ok :
    (c : Setup) (drawn : Option Text) (u : Account) (exp : ℕ) (typ : Text) (s s2 : Sessions)
    (g : Signed)
    → generate_token c drawn u exp typ s ≡ (ok g, s2)
    → (c.sign (claims_of u exp typ g.jti) ≡ some g.text)
      × (drawn ≡ some g.jti)
      × (g.expires_at ≡ exp)
      × (s ≡ s2)
generate_token-ok c drawn u exp typ s s2 g h =
    let (id, s3, e3, h3) = continue-ok {r = or_raise no_random drawn s} h in
    let (text, s4, e4, h4) =
      continue-ok {r = or_raise not_signed (c.sign (claims_of u exp typ id)) s3} h3 in
    let (e5, s5) = pure-ok h4 in
    let (e6, s6) = or_raise-ok no_random drawn s s3 id e3 in
    let (e7, s7) = or_raise-ok not_signed _ s3 s4 text e4 in
    let id_e : id ≡ g.jti = ap (λ (x : Signed). x.jti) e5 in
    let text_e : text ≡ g.text = ap (λ (x : Signed). x.text) e5 in
    (
      rw (sym id_e, sym text_e) e7,
      rw (sym id_e) e6,
      sym (ap (λ (x : Signed). x.expires_at) e5),
      s6 ∙ s7 ∙ s5,
    )

inserted-ok :
    (s s2 : Sessions) (o : Option Sessions) (x : Unit {0}) → inserted s o ≡ (ok x, s2) → o ≡ some s2
inserted-ok s s2 none x h = ground arith
inserted-ok s s2 (some after) x h = cc

pub insert-ok :
    (m : Moment) (g : Signed) (user : Text) (s s2 : Sessions) (x : Unit {0})
    → insert m g user s ≡ (ok x, s2)
    → create_session m.now g.jti user refresh g.expires_at s ≡ some s2
insert-ok m g user s s2 x h = elim (Bool-cases m.insert_fails) [
  | inl e ↦ ground arith
  | inr e ↦ inserted-ok s s2 (create_session m.now g.jti user refresh g.expires_at s) x (rw e at h)
]
