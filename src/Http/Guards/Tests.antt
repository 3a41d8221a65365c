-- ===== src/Http/Guards/Tests.antt =====
-- Instances of the theorems of the gates.
use komachi.Base.{◌≡◌, Text, codes, false, Option, none, some, ◌==◌, if◌then◌else◌, ◌↔◌, []}
use komachi.Http.Guards.{
  User, role_admin, Context, nothing, next, require_auth, require_admin, ◌>=>◌,
}
use komachi.Http.Guards.Laws.{Identified, require_admin_route_iff}

abbrev kanako : User
kanako = record { id = codes "u1"; role = role_admin }

abbrev check : Text → Option User
check t = if t == codes "jwt" then some kanako else none

abbrev with_cookie : Context
with_cookie = record {
  stored = nothing;
  is_api_key = false;
  param_id = [];
  access = some (codes "jwt");
}

abbrev anonymous : Context
anonymous = record { stored = nothing; is_api_key = false; param_id = []; access = none }

require_admin_route_iff_example :
    ((c' : Context) × ((require_auth (some check) false >=> require_admin false) with_cookie
        ≡ next c'))
    ↔ ((false ≡ false)
        × ((u : User) × Identified (some check) false with_cookie u × (u.role ≡ role_admin)))
require_admin_route_iff_example = require_admin_route_iff (some check) false with_cookie
