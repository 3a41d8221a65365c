-- ===== src/Http/RemoteUser/Tests.antt =====
-- Proxies whose addresses are single characters, and whose networks are a character and a slash.
use komachi.Base.{
  ℕ, ◌≡◌, refl, Text, codes, true, false, Option, none, some, [], ◌∷◌, ◌==◌, eqb, ◌-◌, any, map,
  split, trim_space, if◌then◌else◌,
}
use komachi.Http.Guards.{User, role_viewer, nothing, Context, next, set_user}
use komachi.Http.RemoteUser.{
  Net, TrustedProxies, parse_entries, parse_trusted_proxies, is_trusted, matched, not_found,
  RemoteUserConfig, inject_remote_user,
}
use komachi.Http.RemoteUser.Laws.{
  entry_trusts, IsAsserted, is_trusted-parse_trusted_proxies, inject_remote_user-IsAsserted,
}

abbrev one : Text → Option ℕ
one (c ∷ []) = some c
one _ = none

abbrev first : Text → Option ℕ
first (c ∷ s) = some c
first [] = none

abbrev net : Net ℕ ℕ
net = record {
  host_of = λ addr. addr;
  parse_ip = one;
  parse_cidr = first;
  same_ip = eqb;
  contains_ip = λ n ip. eqb n (ip - 1);
}

abbrev proxies : TrustedProxies ℕ ℕ
proxies = record { nets = b'3' ∷ []; ips = b'7' ∷ [] }

abbrev anonymous : Context
anonymous = record { stored = nothing; is_api_key = false; param_id = []; access = none }

abbrev ann : User
ann = record { id = codes "u1"; role = role_viewer }

abbrev config : RemoteUserConfig ℕ ℕ
config = record {
  enabled = true;
  auto_create = false;
  trusted_proxies = some proxies;
  get_or_create = some (λ name email. not_found);
  get_by_identifier = λ name. if name == codes "ann" then matched ann else not_found;
}

identified :
    inject_remote_user net config (codes "4") (codes " ann") [] anonymous
    ≡ next (set_user anonymous ann)
unfolding inject_remote_user ◌==◌ trim_space
identified = refl

is_trusted-parse_trusted_proxies_example :
    is_trusted net proxies (codes "4")
    ≡ any (entry_trusts net (some b'4')) (map trim_space (split b',' (codes " 7,3/8")))
unfolding parse_trusted_proxies parse_entries ◌==◌ trim_space
is_trusted-parse_trusted_proxies_example =
    is_trusted-parse_trusted_proxies net (codes " 7,3/8") (codes "4") proxies refl

inject_remote_user-IsAsserted_example :
    IsAsserted net config
      (codes "4")
      (codes "ann")
      []
      anonymous
      (inject_remote_user net config (codes "4") (codes "ann") [] anonymous)
inject_remote_user-IsAsserted_example =
    inject_remote_user-IsAsserted net config (codes "4") (codes "ann") [] anonymous
