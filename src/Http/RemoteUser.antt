-- ===== src/Http/RemoteUser.antt =====
-- Identities that a reverse proxy asserts: InjectRemoteUser of
-- backend/internal/http/middleware/auth/reverse_proxy.go and the trusted addresses of
-- trusted_proxies.go. What Go's package net does is a record of functions; the headers and
-- the answers of the user service are inputs.
pub mod Laws
mod Tests
use komachi.Base.{
  ℕ, Text, codes, Bool, true, false, Option, none, some, List, [], ◌∷◌, ◌==◌, ◌||◌, eqb, not, any,
  map, split, trim_space, Result, ok, err, if◌then◌else◌,
}
use komachi.Http.Guards.{User, Context, Verdict, next, abort, set_user}

pub record Net (I N : Type 0) : Type 0 where
  -- the host of `SplitHostPort`, or the whole address where that fails
  pub host_of : Text → Text
  pub parse_ip : Text → Option I
  pub parse_cidr : Text → Option N
  -- `IP.Equal`
  pub same_ip : I → I → Bool
  -- `IPNet.Contains`
  pub contains_ip : N → I → Bool

pub record TrustedProxies (I N : Type 0) : Type 0 where
  pub nets : List N
  pub ips : List I

pub data ProxyError : Type 0 where
  invalid_cidr invalid_ip : Text → ProxyError

abbrev pub is_network : Text → Bool
is_network entry = any (λ c. eqb c b'/') entry

module _ {I N : Type 0} (net : Net I N) where
  abbrev pub with_net :
      N → Result ProxyError (TrustedProxies I N) → Result ProxyError (TrustedProxies I N)
  with_net n (ok tp) = ok (record tp { nets = n ∷ tp.nets })
  with_net n (err e) = err e

  abbrev pub with_ip :
      I → Result ProxyError (TrustedProxies I N) → Result ProxyError (TrustedProxies I N)
  with_ip i (ok tp) = ok (record tp { ips = i ∷ tp.ips })
  with_ip i (err e) = err e

  abbrev pub add_cidr :
      Text
      → Option N
      → Result ProxyError (TrustedProxies I N)
      → Result ProxyError (TrustedProxies I N)
  add_cidr entry none rest = err (invalid_cidr entry)
  add_cidr entry (some n) rest = with_net n rest

  abbrev pub add_ip :
      Text
      → Option I
      → Result ProxyError (TrustedProxies I N)
      → Result ProxyError (TrustedProxies I N)
  add_ip entry none rest = err (invalid_ip entry)
  add_ip entry (some i) rest = with_ip i rest

  unfoldable pub parse_entries : List Text → Result ProxyError (TrustedProxies I N)
  parse_entries [] = ok (record { nets = []; ips = [] })
  parse_entries (entry ∷ entries) =
      let rest = parse_entries entries in
      if entry == []
      then rest
      else if is_network entry
      then add_cidr entry (net.parse_cidr entry) rest
      else add_ip entry (net.parse_ip entry) rest

  unfoldable pub parse_trusted_proxies : Text → Result ProxyError (TrustedProxies I N)
  parse_trusted_proxies raw = parse_entries (map trim_space (split b',' raw))

  abbrev pub trusts : TrustedProxies I N → Option I → Bool
  trusts tp none = false
  trusts tp (some ip) =
      any (λ i. net.same_ip i ip) tp.ips || any (λ n. net.contains_ip n ip) tp.nets

  unfoldable pub is_trusted : TrustedProxies I N → Text → Bool
  is_trusted tp addr = trusts tp (net.parse_ip (net.host_of addr))

-- what the user service answers: a user, none that matches, or another failure
pub data Lookup : Type 0 where
  matched : User → Lookup
  not_found failed : Lookup

-- `GetOrCreateRemoteUser` where users are created, where `not_found` is the conflict of e-mails, and
-- `GetUserByIdentifier` else, whose every error answers 401
pub record RemoteUserConfig (I N : Type 0) : Type 0 where
  pub enabled : Bool
  pub auto_create : Bool
  pub trusted_proxies : Option (TrustedProxies I N)
  pub get_or_create : Option (Text → Text → Lookup)
  pub get_by_identifier : Text → Lookup

abbrev pub created_answer : Context → Lookup → Verdict
created_answer c (matched u) = next (set_user c u)
created_answer c not_found = abort 401
created_answer c failed = abort 500

abbrev pub found_answer : Context → Lookup → Verdict
found_answer c (matched u) = next (set_user c u)
found_answer c _ = abort 401

module _ {I N : Type 0} (net : Net I N) where
  abbrev pub by_identifier :
      RemoteUserConfig I N → (Text → Text → Lookup) → Text → Text → Context → Verdict
  by_identifier cfg create identifier email c =
      if identifier == []
      then next c
      else if cfg.auto_create
      then created_answer c (create identifier email)
      else found_answer c (cfg.get_by_identifier identifier)

  abbrev pub from_proxy :
      RemoteUserConfig I N
      → Option (TrustedProxies I N)
      → Option (Text → Text → Lookup)
      → Text
      → Text
      → Text
      → Context
      → Verdict
  from_proxy cfg none create addr header email c = abort 500
  from_proxy cfg (some tp) none addr header email c = abort 500
  from_proxy cfg (some tp) (some create) addr header email c =
      if not (is_trusted net tp addr)
      then next c
      else by_identifier cfg create (trim_space header) (trim_space email) c

  unfoldable pub inject_remote_user : RemoteUserConfig I N → Text → Text → Text → Context → Verdict
  unfolding is_trusted
  inject_remote_user cfg addr header email c =
      if not cfg.enabled
      then next c
      else from_proxy cfg cfg.trusted_proxies cfg.get_or_create addr header email c
