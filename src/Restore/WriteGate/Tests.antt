-- ===== src/Restore/WriteGate/Tests.antt =====
-- Runs of the write gate and instances of its theorems.
use komachi.Base.{ℕ, ◌≡◌, refl, true, false, ok, err}
use komachi.Restore.WriteGate.{
  try_enter, leave, engage, disengage, freeze_start, thaw, another_operation,
}
use komachi.Restore.WriteGate.Drain.{
  Holder, idle, System, Steps, here, then_step, initial, waiting, frozen, enter, finish, start,
  freeze, release, frozen-exclusive, idle-open,
}

-- a request is on its way when an operation starts to wait
abbrev entered : System
entered = record {
  gate = record { operation = false; engaged = false; inflight = 1 };
  holder = idle;
  writing = 1;
}

abbrev engaged_by : Holder → ℕ → System
engaged_by k n = record {
  gate = record { operation = true; engaged = true; inflight = n };
  holder = k;
  writing = n;
}

run : Steps initial (engaged_by frozen 0)
unfolding try_enter leave freeze_start engage
run =
    then_step initial (engaged_by waiting 0) (engaged_by frozen 0)
      (then_step initial (engaged_by waiting 1) (engaged_by waiting 0)
        (then_step initial entered (engaged_by waiting 1)
          (then_step initial initial entered (here initial) (enter initial refl))
          (start entered refl))
        (finish (engaged_by waiting 1) 0 refl))
      (freeze (engaged_by waiting 0) refl refl)

frozen-exclusive_example :
    ((engaged_by frozen 0).writing ≡ 0)
    × ((try_enter (engaged_by frozen 0).gate).0 ≡ false)
    × ((freeze_start (engaged_by frozen 0).gate).0 ≡ err another_operation)
frozen-exclusive_example = frozen-exclusive (engaged_by frozen 0) run refl

idle-open_example : ((try_enter initial.gate).0 ≡ true) × ((freeze_start initial.gate).0 ≡ ok tt)
unfolding thaw disengage
idle-open_example =
    idle-open initial
      (then_step initial (engaged_by frozen 0) initial run (release (engaged_by frozen 0) refl))
      refl
