-- ===== src/Http/RateLimiter.antt =====
-- `KeyedLimiter` of backend/internal/http/middleware/security/rate_limiter.go. A time is a count of
-- nanoseconds, and each reading of the clock is an argument; `t.After(now - window)` is
-- `now < t + window`. `Allow` takes the mutex twice, so that other requests may come between: `cleanup`
-- and `admit` are its two sections, each of them one step, and the clock of the second is read before
-- the mutex is taken.
pub mod Window
mod Tests
use komachi.Base.{
  ℕ, ◌+◌, Text, Dict, Bool, true, false, Option, none, some, List, [], ◌∷◌, ◌++◌, length, lookup,
  set_key, erase, ltb, leb, not, ◌||◌, if◌then◌else◌,
}

pub record KeyedLimiter : Type 0 where
  pub hits : Dict (List ℕ)
  pub limit : ℕ
  pub window : ℕ
  pub reset_on_success : Bool

-- the events still inside the window
unfoldable pub recent : ℕ → ℕ → List ℕ → List ℕ
recent window now [] = []
recent window now (t ∷ ts) =
    let rest = recent window now ts in if ltb now (t + window) then t ∷ rest else rest

abbrev pub keep_key : Text → List ℕ → Dict (List ℕ) → Dict (List ℕ)
keep_key k [] m = erase k m
keep_key k (t ∷ ts) m = (k, t ∷ ts) ∷ m

-- the loop of `cleanup`: a key with no event left is removed
unfoldable pub cleanup_hits : ℕ → ℕ → Dict (List ℕ) → Dict (List ℕ)
cleanup_hits window now [] = []
cleanup_hits window now ((k, ts) ∷ m) =
    keep_key k (recent window now ts) (cleanup_hits window now m)

unfoldable pub cleanup : ℕ → KeyedLimiter → KeyedLimiter
unfolding cleanup_hits
cleanup now rl = record rl { hits = cleanup_hits rl.window now rl.hits }

abbrev pub events_of : Option (List ℕ) → List ℕ
events_of none = []
events_of (some ts) = ts

-- The second section of `Allow`, for a clock that was read as `now`.
unfoldable pub admit : ℕ → Text → KeyedLimiter → Bool × KeyedLimiter
admit now key rl =
    let events = recent rl.window now (events_of (lookup key rl.hits)) in
    if leb rl.limit (length events)
    then (false, record rl { hits = set_key key events rl.hits })
    else (true, record rl { hits = set_key key (events ++ now ∷ []) rl.hits })

-- `Allow` where no other request comes between, whose cleanup reads the clock at `before`.
unfoldable pub allow : ℕ → ℕ → Text → KeyedLimiter → Bool × KeyedLimiter
unfolding cleanup admit
allow before now key rl = admit now key (cleanup before rl)

unfoldable pub notify_result : Text → Bool → KeyedLimiter → KeyedLimiter
notify_result key success rl =
    if not rl.reset_on_success || not success then rl else record rl { hits = erase key rl.hits }
