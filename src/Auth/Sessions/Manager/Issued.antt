-- ===== src/Auth/Sessions/Manager/Issued.antt =====
-- What the tokens of a session that starts are good for
-- (backend/internal/core/auth/session_manager.go).
use komachi.Base.{ℕ, ◌+◌, ◌<◌, ◌≡◌, Text, some}
use komachi.Auth.Sessions.Store.{Sessions, create_session}
use komachi.Auth.Sessions.Manager.{
  Account, Claims, Parsed, Setup, Moment, AuthToken, refresh, access, Signed, claims_of,
  refresh_token,
}

abbrev pub parsed : Claims → Parsed
parsed cl = record { typ = some cl.typ; sub = some cl.sub; jti = some cl.jti }

-- A token that was signed is read back until it expires.
abbrev pub IsReadable : Setup → Type 0
IsReadable c =
    (cl : Claims) (t : ℕ) (token : Text)
    → c.sign cl ≡ some token
    → t < cl.exp
    → c.parse t token ≡ some (parsed cl)

module _ (c : Setup) (m : Moment) (u : Account) where
  -- the two tokens that were signed, and the row of the second
  abbrev Started : AuthToken → Sessions → Sessions → Type 0
  Started new rows after =
      (a r : Signed) × (c.sign (claims_of u (m.now + c.access_lifetime) access a.jti)
        ≡ some new.token)
      × (c.sign (claims_of u (m.now + c.refresh_lifetime) refresh r.jti) ≡ some new.refresh_token)
      × (m.refresh_jti ≡ some r.jti)
      × (create_session m.now r.jti u.id refresh (m.now + c.refresh_lifetime) rows ≡ some after)
