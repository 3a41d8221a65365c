-- ===== src/Http/ApiKey/Laws.antt =====
-- What an API key lets through (backend/internal/http/middleware/auth/apikey.go).
use komachi.Base.{
  ℕ, ◌≡◌, refl, ap, ◌⊎◌, inl, inr, Text, Bool, true, false, none, some, [], arith, ◌==◌, Bool-cases,
}
use komachi.Http.Guards.{
  User, Stored, nothing, no_user, user, Context, Verdict, next, abort, require_cookie_session,
  ◌>=>◌,
}
use komachi.Http.RateLimiter.{KeyedLimiter, allow}
use komachi.Http.ApiKey.{
  bearer_token, looks_like_api_key_token, Resolved, resolved, store_unavailable, rejected, Limiter,
  set_api_key_user, answer, admitted, limited, by_key, unless_set, inject_api_key_user,
}

-- what a request that passes did: it carries no key of the wiki and goes on as it came, or its key
-- stands for the user that is set
abbrev pub IsPassed : (Text → Resolved) → Text → Context → Verdict → Type 0
IsPassed resolve token c (abort status) = (status ≡ 401) ⊎ ((status ≡ 429) ⊎ (status ≡ 503))
IsPassed resolve token c (next c') =
    (c' ≡ c)
    ⊎ ((u : User) × (resolve token ≡ resolved u)
        × (c.stored ≡ nothing)
        × (looks_like_api_key_token token ≡ true)
        × (c' ≡ set_api_key_user c u))

module _ (before now : ℕ) (key : Text) (resolve : Text → Resolved) (token : Text)
    (c : Context) where
  answer-IsPassed :
      (r : Resolved) (rl : Limiter)
      → resolve token ≡ r
      → c.stored ≡ nothing
      → looks_like_api_key_token token ≡ true
      → IsPassed resolve token c (answer c key r rl).0
  answer-IsPassed store_unavailable rl e s l = inr (inr refl)
  answer-IsPassed rejected rl e s l = inl refl
  answer-IsPassed (resolved u) rl e s l = inr (u, e, s, l, refl)

  admitted-IsPassed :
      (r : Resolved) (allowed : Bool × KeyedLimiter)
      → resolve token ≡ r
      → c.stored ≡ nothing
      → looks_like_api_key_token token ≡ true
      → IsPassed resolve token c (admitted c key r allowed).0
  admitted-IsPassed r (false, rl) e s l = inr (inl refl)
  admitted-IsPassed r (true, rl) e s l = answer-IsPassed r (some rl) e s l

  limited-IsPassed :
      (rl : Limiter)
      → c.stored ≡ nothing
      → looks_like_api_key_token token ≡ true
      → IsPassed resolve token c (limited before now c key (resolve token) rl).0
  limited-IsPassed none s l = answer-IsPassed (resolve token) none refl s l
  limited-IsPassed (some rl) s l =
      admitted-IsPassed (resolve token) (allow before now key rl) refl s l

  by_key-IsPassed :
      (rl : Limiter)
      → c.stored ≡ nothing
      → IsPassed resolve token c (by_key before now key resolve token c rl).0
  by_key-IsPassed rl s = elim (Bool-cases (token == [])) [
    | inl e ↦ rw e (inl refl)
    | inr e ↦ elim (Bool-cases (looks_like_api_key_token token)) [
      | inl l ↦ rw (e, l) (limited-IsPassed rl s l)
      | inr l ↦ rw (e, l) (inl refl)
    ]
  ]

  unless_set-IsPassed :
      (stored : Stored) (rl : Limiter)
      → c.stored ≡ stored
      → IsPassed resolve token c (unless_set stored before now key resolve token c rl).0
  unless_set-IsPassed nothing rl s = by_key-IsPassed rl s
  unless_set-IsPassed no_user rl s = inl refl
  unless_set-IsPassed (user u) rl s = inl refl

pub inject_api_key_user-IsPassed :
    (before now : ℕ) (key : Text) (resolve : Text → Resolved) (header : Text) (c : Context)
    (rl : Limiter)
    → IsPassed resolve
        (bearer_token header)
        c
        (inject_api_key_user before now key (some resolve) header c rl).0
unfolding inject_api_key_user
inject_api_key_user-IsPassed before now key resolve header c rl =
    unless_set-IsPassed before now key resolve (bearer_token header) c c.stored rl refl

cookie_gate :
    (resolve : Text → Resolved) (token : Text) (c c' : Context) (v : Verdict)
    → IsPassed resolve token c v
    → ((λ _. v) >=> require_cookie_session) c ≡ next c'
    → c' ≡ c
unfolding require_cookie_session
cookie_gate resolve token c c' (abort status) p h = absurd (ground arith)
cookie_gate resolve token c c' (next d) (inl e) h = ground arith
cookie_gate resolve token c c' (next d) (inr (u, r, s, l, e)) h =
    let keyed : d.is_api_key ≡ true = ap (λ (x : Context). x.is_api_key) e in absurd (ground arith)

-- A request that passes both InjectAPIKeyUser and RequireCookieSession goes on as it came: behind
-- RequireCookieSession no API key has identified anyone.
require_cookie_session-inject_api_key_user :
    (before now : ℕ) (key : Text) (resolve : Text → Resolved) (header : Text) (rl : Limiter)
    (c c' : Context)
    → ((λ x. (inject_api_key_user before now key (some resolve) header x rl).0)
          >=> require_cookie_session)
        c
      ≡ next c'
    → c' ≡ c
require_cookie_session-inject_api_key_user before now key resolve header rl c c' h =
    cookie_gate resolve (bearer_token header) c c'
      (inject_api_key_user before now key (some resolve) header c rl).0
      (inject_api_key_user-IsPassed before now key resolve header c rl) h
