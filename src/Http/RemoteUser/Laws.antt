-- ===== src/Http/RemoteUser/Laws.antt =====
-- Which requests a proxy may identify (backend/internal/http/middleware/auth/reverse_proxy.go and
-- trusted_proxies.go).
use komachi.Base.{
  ◌≡◌, refl, sym, ap, ◌∙◌, ◌⊎◌, inl, inr, Text, Bool, true, false, Option, none, some, List, [],
  ◌∷◌, ◌==◌, ◌||◌, any, map, split, trim_space, Result, ok, err, if◌then◌else◌, arith, Bool-cases,
}
use komachi.Http.Guards.{User, Context, Verdict, next, abort, set_user}
use komachi.Http.RemoteUser.{
  Net, TrustedProxies, ProxyError, is_network, add_cidr, add_ip, parse_entries,
  parse_trusted_proxies, trusts, is_trusted, Lookup, matched, not_found, failed, RemoteUserConfig,
  created_answer, found_answer, by_identifier, from_proxy, inject_remote_user,
}

module _ {I N : Type 0} (net : Net I N) where
  abbrev network_has : I → Option N → Bool
  network_has ip none = false
  network_has ip (some n) = net.contains_ip n ip

  abbrev address_is : I → Option I → Bool
  address_is ip none = false
  address_is ip (some i) = net.same_ip i ip

  -- an entry of the list, by itself
  abbrev pub entry_trusts : Option I → Text → Bool
  entry_trusts none entry = false
  entry_trusts (some ip) entry =
      if entry == []
      then false
      else if is_network entry
      then network_has ip (net.parse_cidr entry)
      else address_is ip (net.parse_ip entry)

  trusts-add_cidr :
      (ip : I) (entry : Text) (o : Option N) (rest : Result ProxyError (TrustedProxies I N))
      (tp : TrustedProxies I N)
      → add_cidr net entry o rest ≡ ok tp
      → (tp' : TrustedProxies I N) × (rest ≡ ok tp')
        × (trusts net tp (some ip) ≡ network_has ip o || trusts net tp' (some ip))
  trusts-add_cidr ip entry none rest tp h = absurd (ground arith)
  trusts-add_cidr ip entry (some n) (err e) tp h = absurd (ground arith)
  trusts-add_cidr ip entry (some n) (ok tp') tp h = (tp', refl, ground arith)

  trusts-add_ip :
      (ip : I) (entry : Text) (o : Option I) (rest : Result ProxyError (TrustedProxies I N))
      (tp : TrustedProxies I N)
      → add_ip net entry o rest ≡ ok tp
      → (tp' : TrustedProxies I N) × (rest ≡ ok tp')
        × (trusts net tp (some ip) ≡ address_is ip o || trusts net tp' (some ip))
  trusts-add_ip ip entry none rest tp h = absurd (ground arith)
  trusts-add_ip ip entry (some i) (err e) tp h = absurd (ground arith)
  trusts-add_ip ip entry (some i) (ok tp') tp h = (tp', refl, ground arith)

  parse_entries-trusts :
      (ip : I) (entries : List Text) (tp : TrustedProxies I N)
      → parse_entries net entries ≡ ok tp
      → trusts net tp (some ip) ≡ any (entry_trusts (some ip)) entries
  unfolding parse_entries
  parse_entries-trusts ip [] tp h = ground arith
  parse_entries-trusts ip (entry ∷ entries) tp h = elim (Bool-cases (entry == [])) [
    | inl e ↦ rw e (parse_entries-trusts ip entries tp (rw e at h))
    | inr e ↦ elim (Bool-cases (is_network entry)) [
      | inl n ↦
          let (tp', f, g) =
            trusts-add_cidr ip entry (net.parse_cidr entry) (parse_entries net entries) tp
              (rw (e, n) at h) in
          rw (e, n)
            (g
              ∙ ap (λ b. network_has ip (net.parse_cidr entry) || b)
                  (parse_entries-trusts ip entries tp' f))
      | inr n ↦
          let (tp', f, g) =
            trusts-add_ip ip entry (net.parse_ip entry) (parse_entries net entries) tp
              (rw (e, n) at h) in
          rw (e, n)
            (g
              ∙ ap (λ b. address_is ip (net.parse_ip entry) || b)
                  (parse_entries-trusts ip entries tp' f))
    ]
  ]

  any-none : (entries : List Text) → any (entry_trusts none) entries ≡ false
  any-none [] = refl
  any-none (entry ∷ entries) = any-none entries

  -- Where the list of trusted proxies was parsed, an address is trusted exactly where its host is an
  -- IP address, and some entry of the list, between commas and without the spaces around it, is that
  -- address or a network that contains it.
  pub is_trusted-parse_trusted_proxies :
      (raw addr : Text) (tp : TrustedProxies I N)
      → parse_trusted_proxies net raw ≡ ok tp
      → is_trusted net tp addr
        ≡ any (entry_trusts (net.parse_ip (net.host_of addr))) (map trim_space (split b',' raw))
  unfolding is_trusted parse_trusted_proxies
  is_trusted-parse_trusted_proxies raw addr tp h = by_ip (net.parse_ip (net.host_of addr))
    where
      entries : List Text
      entries = map trim_space (split b',' raw)

      by_ip : (o : Option I) → trusts net tp o ≡ any (entry_trusts o) entries
      by_ip none = sym (any-none entries)
      by_ip (some ip) = parse_entries-trusts ip entries tp h

  -- the user service matched the name that the header has
  abbrev pub IsMatched : RemoteUserConfig I N → Text → Text → User → Type 0
  IsMatched cfg header email u =
      (cfg.get_by_identifier (trim_space header) ≡ matched u)
      ⊎ ((create : (Text → Text → Lookup)) × (cfg.get_or_create ≡ some create)
          × (create (trim_space header) (trim_space email) ≡ matched u))

  abbrev pub IsAsserted : RemoteUserConfig I N → Text → Text → Text → Context → Verdict → Type 0
  IsAsserted cfg addr header email c (abort status) = (status ≡ 401) ⊎ (status ≡ 500)
  IsAsserted cfg addr header email c (next c') =
      (c' ≡ c)
      ⊎ ((tp : TrustedProxies I N) × (u : User) × (cfg.enabled ≡ true)
          × (cfg.trusted_proxies ≡ some tp)
          × (is_trusted net tp addr ≡ true)
          × IsMatched cfg header email u
          × (c' ≡ set_user c u))

  module _ (cfg : RemoteUserConfig I N) (addr header email : Text) (c : Context)
      (on : cfg.enabled ≡ true) (tp : TrustedProxies I N) (has : cfg.trusted_proxies ≡ some tp)
      (trusted : is_trusted net tp addr ≡ true) where
    created_answer-IsAsserted :
        (create : Text → Text → Lookup) (l : Lookup)
        → cfg.get_or_create ≡ some create
        → create (trim_space header) (trim_space email) ≡ l
        → IsAsserted cfg addr header email c (created_answer c l)
    created_answer-IsAsserted create (matched u) g e =
        inr (tp, u, on, has, trusted, inr (create, g, e), refl)
    created_answer-IsAsserted create not_found g e = inl refl
    created_answer-IsAsserted create failed g e = inr refl

    found_answer-IsAsserted :
        (l : Lookup)
        → cfg.get_by_identifier (trim_space header) ≡ l
        → IsAsserted cfg addr header email c (found_answer c l)
    found_answer-IsAsserted (matched u) e = inr (tp, u, on, has, trusted, inl e, refl)
    found_answer-IsAsserted not_found e = inl refl
    found_answer-IsAsserted failed e = inl refl

    by_identifier-IsAsserted :
        (create : Text → Text → Lookup)
        → cfg.get_or_create ≡ some create
        → IsAsserted cfg addr header email c
            (by_identifier net cfg create (trim_space header) (trim_space email) c)
    by_identifier-IsAsserted create g = choice (trim_space header == []) cfg.auto_create
      where
        choice :
            (b a : Bool)
            → IsAsserted cfg addr header email c (
                if b
                then next c
                else if a
                then created_answer c (create (trim_space header) (trim_space email))
                else found_answer c (cfg.get_by_identifier (trim_space header)))
        choice true a = inl refl
        choice false true = created_answer-IsAsserted create _ g refl
        choice false false = found_answer-IsAsserted _ refl

  from_proxy-IsAsserted :
      (cfg : RemoteUserConfig I N) (addr header email : Text) (c : Context)
      (proxies : Option (TrustedProxies I N)) (create : Option (Text → Text → Lookup))
      → cfg.enabled ≡ true
      → cfg.trusted_proxies ≡ proxies
      → cfg.get_or_create ≡ create
      → IsAsserted cfg addr header email c (from_proxy net cfg proxies create addr header email c)
  from_proxy-IsAsserted cfg addr header email c none create on has g = inr refl
  from_proxy-IsAsserted cfg addr header email c (some tp) none on has g = inr refl
  from_proxy-IsAsserted cfg addr header email c (some tp) (some create) on has g =
      elim (Bool-cases (is_trusted net tp addr)) [
        | inl t ↦ rw t (by_identifier-IsAsserted cfg addr header email c on tp has t create g)
        | inr t ↦ rw t (inl refl)
      ]

  -- InjectRemoteUser passes a request on as it came, or, where it is enabled and the request comes
  -- from a trusted proxy, with the user that the user service matched to the name in the header; it
  -- aborts only with 401 or 500.
  pub inject_remote_user-IsAsserted :
      (cfg : RemoteUserConfig I N) (addr header email : Text) (c : Context)
      → IsAsserted cfg addr header email c (inject_remote_user net cfg addr header email c)
  unfolding inject_remote_user
  inject_remote_user-IsAsserted cfg addr header email c = elim (Bool-cases cfg.enabled) [
    | inl on ↦ simp on (from_proxy-IsAsserted cfg addr header email c _ _ on refl refl)
    | inr off ↦ simp off (inl refl)
  ]
