-- ===== src/Http/RateLimiter/Tests.antt =====
-- Runs of the rate limiter and instances of its theorems.
use komachi.Base.{◌≡◌, refl, set_key, erase, codes, true, false, List, [], ◌∷◌, arith, ◌==◌, lookup}
use komachi.Http.RateLimiter.{KeyedLimiter, recent, cleanup, admit, allow}
use komachi.Http.RateLimiter.Window.{
  Section, cleaning, testing, IsLimited, admitted, admitted-IsLimited,
}

abbrev two_per_second : KeyedLimiter
two_per_second = record { hits = []; limit = 2; window = 1000; reset_on_success = false }

-- The test at 1021 has the mutex after the cleanup of another request at 1025.
abbrev burst : List Section
burst =
    cleaning 10
    ∷ testing (codes "a") 11 12
    ∷ cleaning 20
    ∷ testing (codes "b") 20 21
    ∷ testing (codes "a") 21 22
    ∷ cleaning 30
    ∷ testing (codes "a") 31 31
    ∷ cleaning 1020
    ∷ cleaning 1025
    ∷ testing (codes "a") 1021 1026
    ∷ []

burst_runs : admitted (codes "a") two_per_second burst ≡ 11 ∷ 21 ∷ 1021 ∷ []
unfolding admitted cleanup admit lookup set_key erase recent ◌==◌
burst_runs = refl

allowed : (allow 10 11 (codes "a") two_per_second).0 ≡ true
unfolding allow lookup set_key erase recent ◌==◌
allowed = refl

admitted-IsLimited_example : IsLimited 1000 2 5 [] (admitted (codes "a") two_per_second burst)
unfolding lookup
admitted-IsLimited_example =
    admitted-IsLimited (codes "a") two_per_second 5 5 burst refl (omega arith)
