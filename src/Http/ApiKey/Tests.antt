-- ===== src/Http/ApiKey/Tests.antt =====
-- Requests with an API key, and with another bearer token.
use komachi.Base.{
  ◌≡◌, refl, Text, codes, true, false, none, some, [], ◌==◌, trim_space, lookup, set_key,
  if◌then◌else◌,
}
use komachi.Http.Guards.{User, role_viewer, nothing, Context, next, abort}
use komachi.Http.RateLimiter.{KeyedLimiter, allow, notify_result, recent}
use komachi.Http.ApiKey.{Resolved, resolved, rejected, set_api_key_user, inject_api_key_user}

abbrev agent : User
agent = record { id = codes "u2"; role = role_viewer }

abbrev resolve : Text → Resolved
resolve t = if t == codes "lw_a_b" then resolved agent else rejected

abbrev anonymous : Context
anonymous = record { stored = nothing; is_api_key = false; param_id = []; access = none }

abbrev limiter : KeyedLimiter
limiter = record { hits = []; limit = 1; window = 100; reset_on_success = true }

identified :
    (inject_api_key_user 5 6
      (codes "ip")
      (some resolve)
      (codes "Bearer lw_a_b")
      anonymous
      (some limiter)).0
    ≡ next (set_api_key_user anonymous agent)
unfolding inject_api_key_user ◌==◌ trim_space allow recent lookup
identified = refl

refused_twice :
    (inject_api_key_user 5 6
      (codes "ip")
      (some resolve)
      (codes "Bearer lw_x")
      anonymous
      (inject_api_key_user 3 4
        (codes "ip")
        (some resolve)
        (codes "Bearer lw_x")
        anonymous
        (some limiter)).1).0
    ≡ abort 429
unfolding inject_api_key_user ◌==◌ trim_space allow recent lookup notify_result set_key
refused_twice = refl
