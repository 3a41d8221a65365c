-- ===== src/Http/RateLimiter/Window.antt =====
-- How many hits of a key the limiter lets through in a window, while requests take turns at its mutex
-- (backend/internal/http/middleware/security/rate_limiter.go).
use komachi.Base.{
  ℕ, suc, ◌+◌, ltb, ◌≤◌, ◌<◌, ◌≡◌, refl, sym, subst, ◌∙◌, ap, Text, Dict, Bool, true, false, none,
  List, [], ◌∷◌, ◌++◌, arith, length, length-append, ◌⊎◌, ◌==◌, eq_text_iff, eq_text_refl, lookup,
  lookup-set_key, lookup-erase, Bool-cases, inl, inr, if◌then◌else◌,
}
use komachi.Http.RateLimiter.{
  KeyedLimiter, recent, keep_key, cleanup_hits, cleanup, events_of, admit,
}

-- What requests of one or more keys do under the mutex, in the order in which they hold it: the cleanup
-- of one, with its clock, or its test, with the clock that it read before it took the mutex, and the
-- time at which it has the mutex.
pub data Section : Type 0 where
  cleaning : ℕ → Section
  testing : Text → ℕ → ℕ → Section

-- The times at which hits of `key` were let through.
unfoldable pub admitted : Text → KeyedLimiter → List Section → List ℕ
admitted key rl [] = []
admitted key rl (cleaning now ∷ rest) = admitted key (cleanup now rl) rest
admitted key rl (testing k now held ∷ rest) =
    let (granted, rl') = admit now k rl in
    let later = admitted key rl' rest in
    if k == key then (if granted then now ∷ later else later) else later

-- how many hits are less than `window` before `end`
abbrev pub hits_within : ℕ → ℕ → List ℕ → ℕ
hits_within window end [] = 0
hits_within window end (t ∷ ts) =
    if ltb end (t + window) then suc (hits_within window end ts) else hits_within window end ts

recent-append :
    (w now : ℕ) (xs ys : List ℕ) → recent w now (xs ++ ys) ≡ recent w now xs ++ recent w now ys
unfolding recent
recent-append w now [] ys = refl
recent-append w now (x ∷ xs) ys = ground (arith, recent-append w now xs ys)

-- What an earlier cleanup dropped is outside every later window.
recent-recent : (w a b : ℕ) (xs : List ℕ) → a ≤ b → recent w b (recent w a xs) ≡ recent w b xs
unfolding recent
recent-recent w a b [] l = refl
recent-recent w a b (x ∷ xs) l = ground (arith, recent-recent w a b xs l)

events_of-keep_key :
    (k key : Text) (ts : List ℕ) (m : Dict (List ℕ))
    → events_of (lookup key (keep_key k ts m)) ≡ (if k == key then ts else events_of (lookup key m))
unfolding lookup
events_of-keep_key k key [] m = ground (arith, lookup-erase k key m)
events_of-keep_key k key (t ∷ ts) m = ground arith

-- A cleanup of the table changes no later window.
recent-cleanup :
    (w a b : ℕ) (key : Text) (m : Dict (List ℕ))
    → a ≤ b
    → recent w b (events_of (lookup key (cleanup_hits w a m)))
      ≡ recent w b (events_of (lookup key m))
unfolding lookup cleanup_hits
recent-cleanup w a b key [] l = refl
recent-cleanup w a b key ((k, ts) ∷ m) l = ground (
  arith,
  events_of-keep_key k key (recent w a ts) (cleanup_hits w a m),
  recent-recent w a b ts,
  recent-cleanup w a b key m,
)

-- The stored hits of `key` agree with the hits let through, `past`, in every window that ends at
-- `now` or later.
abbrev Agrees : Text → KeyedLimiter → ℕ → List ℕ → Type 0
Agrees key rl now past =
    (b : ℕ)
    → now ≤ b
    → recent rl.window b (events_of (lookup key rl.hits)) ≡ recent rl.window b past

length-recent : (w b : ℕ) (xs : List ℕ) → length (recent w b xs) ≡ hits_within w b xs
unfolding recent
length-recent w b [] = refl
length-recent w b (x ∷ xs) = ground (arith, length-recent w b xs)

length-recent-le : (w b : ℕ) (xs : List ℕ) → length (recent w b xs) ≤ length xs
unfolding recent
length-recent-le w b [] = omega arith
length-recent-le w b (x ∷ xs) = ground (arith, length-recent-le w b xs)

-- Of each hit let through and those before it, `past` first, at most `limit` are less than `window`
-- before `delay` after it.
abbrev pub IsLimited : ℕ → ℕ → ℕ → List ℕ → List ℕ → Type 0
IsLimited window limit delay past [] = Unit
IsLimited window limit delay past (t ∷ ts) =
    (hits_within window (t + delay) (past ++ t ∷ []) ≤ limit)
    × IsLimited window limit delay (past ++ t ∷ []) ts

-- The clock does not run backwards, and a test has the mutex within `delay` of its reading of it.
abbrev pub Ticks : ℕ → ℕ → List Section → Type 0
Ticks delay last [] = Unit
Ticks delay last (cleaning now ∷ rest) = (last ≤ now) × Ticks delay now rest
Ticks delay last (testing k now held ∷ rest) =
    (last ≤ held) × (now ≤ held) × (held ≤ now + delay) × Ticks delay held rest

-- the events of a key that the test counts
abbrev seen : Text → KeyedLimiter → ℕ → List ℕ
seen key rl now = recent rl.window now (events_of (lookup key rl.hits))

cleanup-Agrees :
    (key : Text) (rl : KeyedLimiter) (last now : ℕ) (past : List ℕ)
    → Agrees key rl last past
    → last ≤ now
    → Agrees key (cleanup now rl) now past
unfolding cleanup
cleanup-Agrees key rl last now past agrees l b h =
    recent-cleanup rl.window now b key rl.hits h ∙ agrees b (omega arith)

module _ (key : Text) (rl : KeyedLimiter) (last now held : ℕ) (past : List ℕ)
    (agrees : Agrees key rl last past) (l : last ≤ held) (l' : now ≤ held) where
  events-past : (b : ℕ) → held ≤ b → recent rl.window b (seen key rl now) ≡ recent rl.window b past
  events-past b h =
      recent-recent rl.window now b (events_of (lookup key rl.hits)) (omega arith)
      ∙ agrees b (omega arith)

  granted-Agrees :
      (b : ℕ)
      → held ≤ b
      → recent rl.window b (seen key rl now ++ now ∷ []) ≡ recent rl.window b (past ++ now ∷ [])
  granted-Agrees b h =
      recent-append rl.window b (seen key rl now) (now ∷ [])
      ∙ ap (λ (x : List ℕ). x ++ recent rl.window b (now ∷ [])) (events-past b h)
      ∙ sym (recent-append rl.window b past (now ∷ []))

  -- a hit that is let through is within the limit
  granted_limited :
      (delay : ℕ)
      → held ≤ now + delay
      → length (seen key rl now) < rl.limit
      → hits_within rl.window (now + delay) (past ++ now ∷ []) ≤ rl.limit
  granted_limited delay d h =
      let stored : List ℕ = seen key rl now ++ now ∷ [] in
      omega (
        arith,
        length-recent rl.window (now + delay) (past ++ now ∷ []),
        ap length (granted-Agrees (now + delay) d),
        length-recent-le rl.window (now + delay) stored,
        length-append (seen key rl now) (now ∷ []),
      )

  -- a request of another key
  other-Agrees : (k : Text) → (k == key) ≡ false → Agrees key (admit now k rl).1 held past
  unfolding admit
  other-Agrees k ne b h = ground (
    arith,
    lookup-set_key k key (recent rl.window now (events_of (lookup k rl.hits))) rl.hits,
    lookup-set_key k key (recent rl.window now (events_of (lookup k rl.hits)) ++ now ∷ []) rl.hits,
    agrees b,
  )

admit_settings :
    (now : ℕ) (k : Text) (rl : KeyedLimiter)
    → ((admit now k rl).1.window ≡ rl.window) × ((admit now k rl).1.limit ≡ rl.limit)
unfolding admit
admit_settings now k rl = ground arith

-- What a request of the key does to its stored hits: let through and added, or refused.
abbrev Served : Text → KeyedLimiter → ℕ → Bool × KeyedLimiter → Type 0
Served key rl now r =
    ((r.0 ≡ true)
      × (length (seen key rl now) < rl.limit)
      × (events_of (lookup key r.1.hits) ≡ seen key rl now ++ now ∷ []))
    ⊎ ((r.0 ≡ false) × (events_of (lookup key r.1.hits) ≡ seen key rl now))

admit_self : (key : Text) (rl : KeyedLimiter) (now : ℕ) → Served key rl now (admit now key rl)
unfolding admit
admit_self key rl now = ground (
  arith,
  lookup-set_key key key (seen key rl now) rl.hits,
  lookup-set_key key key (seen key rl now ++ now ∷ []) rl.hits,
  eq_text_refl key,
)

admit_same :
    (k key : Text) (rl : KeyedLimiter) (now : ℕ)
    → (k == key) ≡ true
    → Served key rl now (admit now k rl)
admit_same k key rl now e =
    subst (λ x. Served key rl now (admit now x rl)) (sym ((eq_text_iff k key).0 e))
      (admit_self key rl now)

admitted-IsLimited_from :
    (key : Text) (delay : ℕ) (rl : KeyedLimiter) (last : ℕ) (past : List ℕ)
    (sections : List Section)
    → Agrees key rl last past
    → Ticks delay last sections
    → IsLimited rl.window rl.limit delay past (admitted key rl sections)
unfolding admitted cleanup
admitted-IsLimited_from key delay rl last past [] a t = tt
admitted-IsLimited_from key delay rl last past (cleaning now ∷ rest) a t =
    admitted-IsLimited_from key delay (cleanup now rl) now past rest
      (cleanup-Agrees key rl last now past a t.0) t.1
admitted-IsLimited_from key delay rl last past (testing k now held ∷ rest) a t =
    let rl' = (admit now k rl).1 in
    let (w, m) = admit_settings now k rl in
    elim (Bool-cases (k == key)) [
      | inr other ↦ rw other (
          rw (w, m) at
            (admitted-IsLimited_from key delay rl' held past rest
              (other-Agrees key rl last now held past a t.0 t.1 k other) t.3))
      | inl same ↦ elim (admit_same k key rl now same) [
        | inl (g, free, stored) ↦
            rw (same, g)
              (
                granted_limited key rl last now held past a t.0 t.1 delay t.2 free,
                rw (w, m) at
                    (admitted-IsLimited_from key delay rl' held (past ++ now ∷ []) rest
                      (λ b h.
                        rw (w, stored) (granted-Agrees key rl last now held past a t.0 t.1 b h))
                      t.3),
              )
        | inr (g, stored) ↦
            rw (same, g)
              (rw (w, m) at
                (admitted-IsLimited_from key delay rl' held past rest
                  (λ b h. rw (w, stored) (events-past key rl last now held past a t.0 t.1 b h))
                  t.3))
      ]
    ]

-- From a limiter with no hit of the key stored, whatever the requests of all keys and however they
-- take turns at the mutex, where none is notified as a success, the clock does not run backwards and
-- a test has the mutex within `delay` of its reading of the clock: of any hit of the key let through
-- and those let through before it, at most `limit` are after the time `window` before the hit's
-- reading plus `delay`.
pub admitted-IsLimited :
    (key : Text) (rl : KeyedLimiter) (delay start : ℕ) (sections : List Section)
    → lookup key rl.hits ≡ none
    → Ticks delay start sections
    → IsLimited rl.window rl.limit delay [] (admitted key rl sections)
admitted-IsLimited key rl delay start sections e t =
    admitted-IsLimited_from key delay rl start [] sections
      (λ b h. ap (λ o. recent rl.window b (events_of o)) e) t
