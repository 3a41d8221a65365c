-- ===== src/Restore/WriteGate.antt =====
-- `WriteGate` of backend/internal/restore/writegate.go. Each of its critical sections is one step
-- of the relation below, so that a run is an interleaving of the requests' steps and of those of
-- the operations that freeze the gate. The start of `Freeze` has two of them, but only the holder of
-- `operation` writes `engaged`, so they are one step. The clock and the context of `Freeze` are left
-- out: a wait gives up at any time. `WaitForDrain` and the direct calls of `Engage` belong to the
-- restore without PostgreSQL (manager.go), which is not modelled.
pub mod Drain
mod Tests
use komachi.Base.{
  ℕ, ◌+◌, ◌-◌, ◌≡◌, Bool, true, false, Option, none, some, eqb, ok, err, Result, if◌then◌else◌, not,
}

pub record WriteGate : Type 0 where
  -- whether the mutex `operation` is held
  pub operation : Bool
  pub engaged : Bool
  pub inflight : ℕ

abbrev pub new_write_gate : WriteGate
new_write_gate = record { operation = false; engaged = false; inflight = 0 }

unfoldable pub engage : WriteGate → WriteGate
engage g = record g { engaged = true }

unfoldable pub disengage : WriteGate → WriteGate
disengage g = record g { engaged = false }

unfoldable pub try_enter : WriteGate → Bool × WriteGate
try_enter g = if g.engaged then (false, g) else (true, record g { inflight = g.inflight + 1 })

-- the closure that `TryEnter` returns
unfoldable pub leave : WriteGate → WriteGate
leave g = record g { inflight = g.inflight - 1 }

pub data FreezeError : Type 0 where
  another_operation : FreezeError
  already_engaged : FreezeError
  not_drained : FreezeError

abbrev unlock : WriteGate → WriteGate
unlock g = record g { operation = false }

-- `Freeze` up to its wait.
unfoldable pub freeze_start : WriteGate → Result FreezeError (Unit {0}) × WriteGate
unfolding engage
freeze_start g =
    if g.operation
    then (err another_operation, g)
    else if g.engaged
    then (err already_engaged, g)
    else (ok tt, engage (record g { operation = true }))

-- One look at the counter: none while requests are still in flight.
abbrev pub drained : WriteGate → Bool
drained g = eqb g.inflight 0

-- `Freeze` when its wait is cancelled or times out.
unfoldable pub freeze_abort : WriteGate → Result FreezeError (Unit {0}) × WriteGate
unfolding disengage
freeze_abort g = (err not_drained, unlock (disengage g))

-- the function that a `Freeze` which succeeds returns, at its first call
unfoldable pub thaw : WriteGate → WriteGate
unfolding disengage
thaw g = unlock (disengage g)
