-- ===== src/Http/Guards/Laws.antt =====
-- Who gets through the gates (backend/internal/http/middleware/auth).
use komachi.Base.{
  ◌≡◌, refl, ◌↔◌, ◌⊎◌, inl, inr, ◌≢◌, Text, Bool, true, false, Option, none, some, [], arith, ◌==◌,
  eq_text_iff, Bool-cases, Option-cases, Result-cases, ok, err,
}
use komachi.Http.Guards.{
  User, role_admin, Stored, nothing, no_user, user, Context, next, token_of, Validate, has_role,
  by_stored, validated, set_user, resolve_session, require_auth, require_auth_or_public_read,
  require_admin, optional_check, optional_auth, ◌>=>◌,
}

-- Where a context's user comes from: it was there before, or the service validated the token of the
-- cookie, which was not empty, with authentication enabled and no user there before.
pub data Identified (validate : Validate) (disabled : Bool) (c : Context) (u : User) : Type 0 where
  upstream : c.stored ≡ user u → Identified validate disabled c u
  by_cookie :
      (check : Text → Option User)
      → c.stored ≡ nothing
      → disabled ≡ false
      → token_of c.access ≢ []
      → validate ≡ some check
      → check (token_of c.access) ≡ some u
      → Identified validate disabled c u

module _ (validate : Validate) (disabled : Bool) (c : Context) where
  -- where no user is known, the cookie decides
  validated-ok :
      (check : Text → Option User) (c' : Context) (u : User)
      → c.stored ≡ nothing
      → disabled ≡ false
      → token_of c.access ≢ []
      → validate ≡ some check
      → (o : Option User) → check (token_of c.access) ≡ o
      → validated c o ≡ ok (u, c')
      → Identified validate disabled c u × (c'.stored ≡ user u)
  validated-ok check c' u e off full there none valid h = absurd (ground arith)
  validated-ok check c' u e off full there (some u') valid h =
      (by_cookie check e off full there (ground arith), ground arith)

  by_cookie-ok :
      (c' : Context) (u : User)
      → c.stored ≡ nothing
      → by_stored nothing validate disabled c ≡ ok (u, c')
      → Identified validate disabled c u × (c'.stored ≡ user u)
  by_cookie-ok c' u e h = elim (Bool-cases disabled) [
    | inl on ↦ absurd (ground arith)
    | inr off ↦ elim (Bool-cases (token_of c.access == [])) [
      | inl empty ↦ absurd (ground arith)
      | inr full ↦ elim (Option-cases validate) [
        | inl missing ↦ absurd (ground arith)
        | inr (check, there) ↦
            validated-ok check c' u e off (λ z. ground (arith, eq_text_iff (token_of c.access) []))
              there (check (token_of c.access)) refl (ground arith)
      ]
    ]
  ]

  by_stored-unauthorized :
      (s : Stored) → c.stored ≡ s → by_stored s validate disabled c ≡ err 401 → c.stored ≡ nothing
  by_stored-unauthorized nothing e h = e
  by_stored-unauthorized no_user e h = absurd (ground arith)
  by_stored-unauthorized (user u') e h = absurd (ground arith)

  unauthorized : resolve_session validate disabled c ≡ err 401 → c.stored ≡ nothing
  unfolding resolve_session
  unauthorized h = by_stored-unauthorized c.stored refl h

module _ (validate : Validate) (disabled : Bool) (c c' : Context) (u : User) where
  by_stored-ok :
      (s : Stored)
      → c.stored ≡ s
      → by_stored s validate disabled c ≡ ok (u, c')
      → Identified validate disabled c u × (c'.stored ≡ user u)
  by_stored-ok nothing e h = by_cookie-ok validate disabled c c' u e h
  by_stored-ok no_user e h = absurd (ground arith)
  by_stored-ok (user u') e h = (upstream (ground arith), ground arith)

  resolve_session-ok :
      resolve_session validate disabled c ≡ ok (u, c')
      → Identified validate disabled c u × (c'.stored ≡ user u)
  unfolding resolve_session
  resolve_session-ok h = by_stored-ok c.stored refl h

  resolve_session-Identified :
      Identified validate disabled c u
      → (c'' : Context) × (resolve_session validate disabled c ≡ ok (u, c''))
        × (c''.stored ≡ user u)
  unfolding resolve_session
  resolve_session-Identified (upstream e) = (c, rw e refl, e)
  resolve_session-Identified (by_cookie check e off full there valid) =
      (set_user c u, ground (arith, eq_text_iff (token_of c.access) []), refl)

-- The routes behind `RequireAuth` and then `RequireAdmin` are reached exactly where authentication
-- is enabled and the request is identified as a user whose role is admin.
pub require_admin_route_iff :
    (validate : Validate) (disabled : Bool) (c : Context)
    → ((c' : Context) × ((require_auth validate disabled >=> require_admin disabled) c ≡ next c'))
      ↔ ((disabled ≡ false)
          × ((u : User) × Identified validate disabled c u × (u.role ≡ role_admin)))
unfolding require_auth require_admin has_role
require_admin_route_iff validate disabled c = (
  λ (c', h). elim (Result-cases (resolve_session validate disabled c)) [
    | inl ((u, c1), e) ↦
        let (i, e1) = resolve_session-ok validate disabled c c1 u e in
        (ground arith, (u, i, ground (arith, eq_text_iff u.role role_admin)))
    | inr (s, e) ↦ absurd (ground arith)
  ],
  λ (on, (u, i, admin)).
      let (c1, e, e1) = resolve_session-Identified validate disabled c c u i in
      (c1, ground (arith, eq_text_iff u.role role_admin)),
)

-- Public read access lets a request through anonymously only where public access is on, no user is
-- known and the token does not identify one; every other request that gets through is identified.
require_auth_or_public_read-next :
    (validate : Validate) (disabled public : Bool) (c c' : Context)
    → require_auth_or_public_read validate disabled public c ≡ next c'
    → ((u : User) × Identified validate disabled c u × (c'.stored ≡ user u))
      ⊎ ((public ≡ true)
          × (c' ≡ c)
          × (c.stored ≡ nothing)
          × ((u : User) → ¬ Identified validate disabled c u))
unfolding require_auth_or_public_read
require_auth_or_public_read-next validate disabled public c c' h =
    elim (Result-cases (resolve_session validate disabled c)) [
      | inl ((u, c1), e) ↦
          let (i, e1) = resolve_session-ok validate disabled c c1 u e in inl (u, i, ground arith)
      | inr (s, e) ↦ inr (
        ground arith,
        ground arith,
        unauthorized validate disabled c (let four : s ≡ 401 = ground arith in rw four at e),
        λ u i.
            let (c1, e1, e2) = resolve_session-Identified validate disabled c c u i in ground arith,
      )
    ]

optional_check-next :
    (validate : Validate) (c c' : Context) (s : Stored)
    → c.stored ≡ s
    → optional_check s validate c ≡ next c'
    → (c' ≡ c) ⊎ ((u : User) × Identified validate false c u × (c'.stored ≡ user u))
optional_check-next validate c c' no_user e h = inl (ground arith)
optional_check-next validate c c' (user u) e h = inl (ground arith)
optional_check-next validate c c' nothing e h = elim (Bool-cases (token_of c.access == [])) [
  | inl empty ↦ inl (ground arith)
  | inr full ↦ elim (Option-cases validate) [
    | inl missing ↦ absurd (ground arith)
    | inr (check, there) ↦ elim (Option-cases (check (token_of c.access))) [
      | inl invalid ↦ inl (ground arith)
      | inr (u, valid) ↦ inr (
        u,
        by_cookie check e refl (λ z. ground (arith, eq_text_iff (token_of c.access) [])) there
            valid,
        ground arith,
      )
    ]
  ]
]

-- `OptionalAuth` lets a request through with the user it came with, or with one that the service
-- validated the token for.
optional_auth-next :
    (validate : Validate) (c c' : Context)
    → optional_auth validate c ≡ next c'
    → (c' ≡ c) ⊎ ((u : User) × Identified validate false c u × (c'.stored ≡ user u))
unfolding optional_auth
optional_auth-next validate c c' h = optional_check-next validate c c' c.stored refl h
