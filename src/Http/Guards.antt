-- ===== src/Http/Guards.antt =====
-- The gates of backend/internal/http/middleware/auth/auth.go and require_auth_or_public.go. A
-- request's context is a record; a gate answers with the context that the next handler sees, or
-- with the status it aborts with. The access-token cookie and the answer of
-- `AuthService.ValidateToken` are inputs.
pub mod Laws
mod Tests
use komachi.Base.{
  ℕ, Text, codes, Bool, true, false, Option, none, some, [], ◌==◌, ◌&&◌, ◌||◌, not, eqb, Result, ok,
  err, if◌then◌else◌,
}

pub record User : Type 0 where
  pub id : Text
  pub role : Text

abbrev pub role_admin : Text
role_admin = codes "admin"

abbrev pub role_editor : Text
role_editor = codes "editor"

abbrev pub role_viewer : Text
role_viewer = codes "viewer"

unfoldable pub is_valid_role : Text → Bool
is_valid_role role = role == role_admin || role == role_editor || role == role_viewer

unfoldable pub has_role : Text → User → Bool
has_role role u = u.role == role

-- What `c.Get("user")` finds: nothing, a value of another type than `*auth.User`, or a user. A nil
-- user pointer, which no handler stores, is left out.
pub data Stored : Type 0 where
  nothing : Stored
  no_user : Stored
  user : User → Stored

pub record Context : Type 0 where
  pub stored : Stored
  -- `IsAPIKeyAuth(c)`
  pub is_api_key : Bool
  -- `c.Param("id")`
  pub param_id : Text
  -- the access-token cookie, none where reading it fails
  pub access : Option Text

-- A gate passes the request on, with a context, or aborts it with a status.
pub data Verdict : Type 0 where
  next : Context → Verdict
  abort : ℕ → Verdict

abbrev pub token_of : Option Text → Text
token_of none = []
token_of (some t) = t

-- `AuthService.ValidateToken`, or none where there is no such service.
abbrev pub Validate : Type 0
Validate = Option (Text → Option User)

abbrev pub set_user : Context → User → Context
set_user c u = record c { stored = user u }

abbrev validated : Context → Option User → Result ℕ (User × Context)
validated c none = err 401
validated c (some u) = ok (u, set_user c u)

abbrev by_token : Validate → Context → Result ℕ (User × Context)
by_token none c = err 500
by_token (some validate) c = validated c (validate (token_of c.access))

abbrev pub by_stored : Stored → Validate → Bool → Context → Result ℕ (User × Context)
by_stored (user u) validate disabled c = ok (u, c)
by_stored no_user validate disabled c = err 500
by_stored nothing validate disabled c =
    if disabled then err 401 else if token_of c.access == [] then err 401 else by_token validate c

-- The user, and the context with the user set; or the status to deny with.
unfoldable pub resolve_session : Validate → Bool → Context → Result ℕ (User × Context)
resolve_session validate disabled c = by_stored c.stored validate disabled c

abbrev pass_or_abort : Result ℕ (User × Context) → Verdict
pass_or_abort (ok (u, c)) = next c
pass_or_abort (err status) = abort status

unfoldable pub require_auth : Validate → Bool → Context → Verdict
unfolding resolve_session
require_auth validate disabled c = pass_or_abort (resolve_session validate disabled c)

-- `public` is the answer of `publicaccess.ReadGate.Enabled`, false where there is no gate.
abbrev pass_or_public : Bool → Context → Result ℕ (User × Context) → Verdict
pass_or_public public c (ok (u, c')) = next c'
pass_or_public public c (err status) = if eqb status 401 && public then next c else abort status

unfoldable pub require_auth_or_public_read : Validate → Bool → Bool → Context → Verdict
unfolding resolve_session
require_auth_or_public_read validate disabled public c =
    pass_or_public public c (resolve_session validate disabled c)

abbrev admin_check : Stored → Context → Verdict
admin_check nothing c = abort 403
admin_check no_user c = abort 403
admin_check (user u) c = if has_role role_admin u then next c else abort 403

unfoldable pub require_admin : Bool → Context → Verdict
unfolding has_role
require_admin disabled c = if disabled then abort 403 else admin_check c.stored c

unfoldable pub require_cookie_session : Context → Verdict
require_cookie_session c = if c.is_api_key then abort 403 else next c

abbrev self_or_admin_check : Stored → Context → Verdict
self_or_admin_check nothing c = abort 403
self_or_admin_check no_user c = abort 403
self_or_admin_check (user u) c =
    if u.id == c.param_id then next c else if not (has_role role_admin u) then abort 403 else next c

unfoldable pub require_self_or_admin : Bool → Context → Verdict
unfolding has_role
require_self_or_admin disabled c = if disabled then abort 403 else self_or_admin_check c.stored c

abbrev optional_user : Context → Option User → Context
optional_user c none = c
optional_user c (some u) = set_user c u

abbrev optional_token : Validate → Context → Verdict
optional_token none c = abort 500
optional_token (some validate) c = next (optional_user c (validate (token_of c.access)))

abbrev pub optional_check : Stored → Validate → Context → Verdict
optional_check nothing validate c =
    if token_of c.access == [] then next c else optional_token validate c
optional_check _ validate c = next c

unfoldable pub optional_auth : Validate → Context → Verdict
optional_auth validate c = optional_check c.stored validate c

abbrev editor_check : Stored → Context → Verdict
editor_check nothing c = abort 403
editor_check no_user c = abort 403
editor_check (user u) c =
    if has_role role_admin u || has_role role_editor u then next c else abort 403

unfoldable pub require_editor_or_admin : Context → Verdict
unfolding has_role
require_editor_or_admin c = editor_check c.stored c

abbrev self_check : Stored → Context → Verdict
self_check nothing c = abort 403
self_check no_user c = abort 403
self_check (user u) c = if not (u.id == c.param_id) then abort 403 else next c

unfoldable pub require_self : Context → Verdict
require_self c = self_check c.stored c

-- Gates in a row, as a route group registers them.
infixl 10 ◌>=>◌
abbrev pub ◌>=>◌ : (Context → Verdict) → (Context → Verdict) → Context → Verdict
◌>=>◌ f g c = elim (f c) [ abort status ↦ abort status | next c' ↦ g c' ]
