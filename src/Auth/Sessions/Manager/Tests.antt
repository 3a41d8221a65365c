-- ===== src/Auth/Sessions/Manager/Tests.antt =====
-- A session of one user, with a codec that writes the claims behind one another.
use komachi.Base.{
  ℕ, ◌≡◌, refl, codes, Text, Bool, false, Option, none, some, [], ◌∷◌, ◌==◌, eqb, err,
  if◌then◌else◌,
}
use komachi.Auth.Sessions.Store.{
  Sessions, new_session, create_session, is_active, select_session, revoke_where,
}
use komachi.Auth.Sessions.Store.Revoked.{execute_all}
use komachi.Auth.Sessions.Manager.{
  Account, Claims, Parsed, Setup, Moment, AuthToken, invalid_token, access, refresh,
  refresh_in_store, refresh_token, start_session, active_session,
}
use komachi.Auth.Sessions.Manager.Rotation.{refresh_token-single_use}

-- a character for the type of a token of the one user, then its id
abbrev encode : Claims → Option Text
encode cl =
    if cl.sub == codes "u1"
    then (if cl.typ == access
        then some (97 ∷ cl.jti)
        else (if cl.typ == refresh then some (114 ∷ cl.jti) else none))
    else none

abbrev kind : Bool → Text
kind b = if b then access else refresh

abbrev decode : ℕ → Text → Option Parsed
decode t [] = none
decode t (k ∷ id) =
    some (record { typ = some (kind (eqb k 97)); sub = some (codes "u1"); jti = some id })

abbrev user : Account
user = record {
  id = codes "u1";
  username = codes "ann";
  email = codes "a@b";
  role = codes "viewer";
}

abbrev setup : Setup
setup = record {
  access_lifetime = 15;
  refresh_lifetime = 100;
  sign = encode;
  parse = decode;
  resolve = some (λ id. some user);
  postgres = false;
}

abbrev moment : ℕ → Text → Text → Moment
moment now a r = record {
  now = now;
  access_jti = some a;
  refresh_jti = some r;
  select_fails = false;
  insert_fails = false;
  update_fails = false;
  begin_fails = false;
  commit_fails = false;
}

abbrev issued : Sessions
issued = new_session 10 (codes "r1") (codes "u1") refresh 110 ∷ []

abbrev first : AuthToken
first = record {
  token = codes "aa1";
  refresh_token = codes "rr1";
  access_token_expires_at = 25;
  user = user;
}

abbrev second : AuthToken
second = record {
  token = codes "aa2";
  refresh_token = codes "rr2";
  access_token_expires_at = 35;
  user = user;
}

abbrev refreshed : Sessions
refreshed =
    new_session 20 (codes "r2") (codes "u1") refresh 120
    ∷ (record (new_session 10 (codes "r1") (codes "u1") refresh 110) { revoked_at = some 20 })
    ∷ []

refresh_token-single_use_example :
    refresh_token setup
      (moment 30 (codes "a3") (codes "r3"))
      (codes "rr1")
      (execute_all [] refreshed)
    ≡ (err invalid_token, execute_all [] refreshed)
unfolding start_session ◌==◌ create_session refresh_token refresh_in_store active_session is_active
    select_session revoke_where
refresh_token-single_use_example =
    refresh_token-single_use setup (moment 20 (codes "a2") (codes "r2"))
      (moment 30 (codes "a3") (codes "r3")) (codes "rr1") (codes "r1")
      (record { typ = some refresh; sub = some (codes "u1"); jti = some (codes "r1") }) issued
      refreshed second [] (λ t t2 token p p2 e e2. cc) refl refl refl refl refl refl
