-- ===== src/Http/ApiKey.antt =====
-- The gate InjectAPIKeyUser of backend/internal/http/middleware/auth/apikey.go, with the rate limiter it
-- shares between requests, and InjectPublicEditor of inject_public_editor.go. The answer of
-- `APIKeyService.Resolve`, the Authorization header and the client's key are inputs.
pub mod Laws
mod Tests
use komachi.Base.{
  ℕ, Text, codes, Bool, true, false, Option, none, some, List, [], ◌∷◌, ◌==◌, eqb, not, trim_space,
  if◌then◌else◌,
}
use komachi.Http.Guards.{
  User, role_editor, Stored, nothing, no_user, user, Context, Verdict, next, abort, set_user,
}
use komachi.Http.RateLimiter.{KeyedLimiter, allow, notify_result}

-- the text after a prefix, as `strings.HasPrefix` and `strings.TrimPrefix` find it
abbrev pub after_prefix : Text → Text → Option Text
after_prefix [] s = some s
after_prefix (p ∷ ps) [] = none
after_prefix (p ∷ ps) (c ∷ s) = let rest = after_prefix ps s in if eqb p c then rest else none

abbrev pub trimmed : Option Text → Text
trimmed none = []
trimmed (some s) = trim_space s

unfoldable pub bearer_token : Text → Text
bearer_token header = trimmed (after_prefix (codes "Bearer ") header)

abbrev found : Option Text → Bool
found none = false
found (some s) = true

unfoldable pub looks_like_api_key_token : Text → Bool
looks_like_api_key_token raw = found (after_prefix (codes "lw_") raw)

-- `Resolve`: a user, an error that the store is suspended, or another error
pub data Resolved : Type 0 where
  resolved : User → Resolved
  store_unavailable rejected : Resolved

abbrev pub Limiter : Type 0
Limiter = Option KeyedLimiter

abbrev pub notify : Text → Bool → Limiter → Limiter
notify key success none = none
notify key success (some rl) = some (notify_result key success rl)

abbrev pub set_api_key_user : Context → User → Context
set_api_key_user c u = record (set_user c u) { is_api_key = true }

abbrev pub answer : Context → Text → Resolved → Limiter → Verdict × Limiter
answer c key store_unavailable rl = (abort 503, notify key true rl)
answer c key (resolved u) rl = (next (set_api_key_user c u), notify key true rl)
answer c key rejected rl = (abort 401, notify key false rl)

abbrev pub admitted : Context → Text → Resolved → Bool × KeyedLimiter → Verdict × Limiter
admitted c key r (false, rl) = (abort 429, some rl)
admitted c key r (true, rl) = answer c key r (some rl)

-- `before` and `now` are the readings of the clock in `Allow`.
abbrev pub limited : ℕ → ℕ → Context → Text → Resolved → Limiter → Verdict × Limiter
limited before now c key r none = answer c key r none
limited before now c key r (some rl) = admitted c key r (allow before now key rl)

abbrev pub by_key : ℕ → ℕ → Text → (Text → Resolved) → Text → Context → Limiter → Verdict × Limiter
by_key before now key resolve token c rl =
    if token == []
    then (next c, rl)
    else if not (looks_like_api_key_token token)
    then (next c, rl)
    else limited before now c key (resolve token) rl

abbrev pub unless_set :
    Stored → ℕ → ℕ → Text → (Text → Resolved) → Text → Context → Limiter → Verdict × Limiter
unless_set nothing before now key resolve token c rl = by_key before now key resolve token c rl
unless_set _ before now key resolve token c rl = (next c, rl)

-- none is a service that is not configured
unfoldable pub inject_api_key_user :
    ℕ → ℕ → Text → Option (Text → Resolved) → Text → Context → Limiter → Verdict × Limiter
unfolding bearer_token looks_like_api_key_token
inject_api_key_user before now key none header c rl = (next c, rl)
inject_api_key_user before now key (some resolve) header c rl =
    unless_set c.stored before now key resolve (bearer_token header) c rl

abbrev editor_unless_set : Stored → Context → Context
editor_unless_set nothing c = set_user c (record { id = codes "public-editor"; role = role_editor })
editor_unless_set _ c = c

unfoldable pub inject_public_editor : Bool → Context → Verdict
inject_public_editor auth_disabled c =
    next (if auth_disabled then editor_unless_set c.stored c else c)
