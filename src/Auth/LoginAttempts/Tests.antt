-- ===== src/Auth/LoginAttempts/Tests.antt =====
-- Runs of the login tracker and instances of its theorems.
use komachi.Base.{
  ℕ, ◌≤◌, ◌≡◌, refl, Text, codes, List, [], ◌∷◌, arith, ◌==◌, lookup, set_key, erase,
}
use komachi.Auth.LoginAttempts.{attempt, record_attempt}
use komachi.Auth.LoginAttempts.Bound.{admitted, admitted-le-max}

abbrev tries : List (ℕ × Text)
tries =
    (7, codes "ann")
    ∷ (7, codes "bob")
    ∷ (8, codes "ann")
    ∷ (9, codes "ann")
    ∷ (9, codes "ann")
    ∷ (10, codes "ann")
    ∷ (11, codes "ann")
    ∷ []

admitted_runs : admitted (codes "ann") [] tries ≡ 5
unfolding admitted record_attempt attempt lookup set_key erase ◌==◌
admitted_runs = refl

admitted-le-max_example : admitted (codes "ann") [] tries ≤ 5
unfolding lookup
admitted-le-max_example = admitted-le-max 7 (codes "ann") [] tries (omega arith) (omega arith)
