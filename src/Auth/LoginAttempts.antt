-- ===== src/Auth/LoginAttempts.antt =====
-- backend/internal/core/auth/login_attempt_tracker.go. A time is a count of nanoseconds from Go's
-- zero time, and the clock is an argument; each method holds the mutex throughout, so it is one
-- step.
pub mod Bound
mod Tests
use komachi.Base.{
  ℕ, ◌+◌, ◌*◌, Text, Dict, Bool, true, false, Option, none, some, lookup, set_key, erase, ltb, leb,
  eqb, not, if◌then◌else◌,
}

abbrev pub login_max_failures : ℕ
login_max_failures = 5

-- 15 minutes
abbrev pub login_lock_duration : ℕ
login_lock_duration = 15 * 60 * 1000000000

pub record Entry : Type 0 where
  pub failures : ℕ
  pub locked_until : ℕ

abbrev pub entry_or_new : Option Entry → Entry
entry_or_new none = record { failures = 0; locked_until = 0 }
entry_or_new (some e) = e

-- an expired lock starts a fresh window
abbrev pub fresh_window : Entry → Entry
fresh_window e = if not (eqb e.locked_until 0) then record { failures = 0; locked_until = 0 } else e

abbrev pub count_failure : ℕ → Entry → Entry
count_failure now e =
    if leb login_max_failures (e.failures + 1)
    then record { failures = 0; locked_until = now + login_lock_duration }
    else record e { failures = e.failures + 1 }

unfoldable pub attempt : ℕ → Entry → Bool × Entry
attempt now e =
    if ltb now e.locked_until then (false, e) else (true, count_failure now (fresh_window e))

unfoldable pub record_attempt : ℕ → Text → Dict Entry → Bool × Dict Entry
record_attempt now user m =
    let (proceed, e) = attempt now (entry_or_new (lookup user m)) in (proceed, set_key user e m)

unfoldable pub reset : Text → Dict Entry → Dict Entry
reset user m = erase user m
