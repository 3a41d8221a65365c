-- ===== src/Restore/Middleware/Tests.antt =====
-- Runs of the middleware and instances of its theorems.
use komachi.Base.{◌≡◌, refl, codes, true, false, ◌==◌}
use komachi.Restore.WriteGate.{WriteGate}
use komachi.Restore.Middleware.{
  path_contains_segments, is_exempt_path, write_gate_middleware, refused, contains_segments,
  matches_at,
}

restore_exempt : is_exempt_path (codes "/wiki/api/admin/restore") ≡ true
unfolding is_exempt_path path_contains_segments contains_segments matches_at ◌==◌
restore_exempt = refl

policy_not_exempt : is_exempt_path (codes "/api/admin/restore-policy") ≡ false
unfolding is_exempt_path path_contains_segments contains_segments matches_at ◌==◌
policy_not_exempt = refl

abbrev engaged_gate : WriteGate
engaged_gate = record { operation = true; engaged = true; inflight = 0 }

write_refused : (write_gate_middleware (codes "POST") (codes "/api/pages") engaged_gate).0 ≡ refused
unfolding write_gate_middleware is_exempt_path path_contains_segments contains_segments matches_at
    ◌==◌ komachi.Restore.WriteGate.try_enter
write_refused = refl
