-- ===== src/Restore/Middleware.antt =====
-- `WriteGateMiddleware` of backend/internal/http/middleware/maintenance/writegate.go: which
-- requests meet the gate.
mod Tests
use komachi.Base.{
  ℕ, zero, suc, Text, codes, Bool, true, false, List, [], ◌∷◌, ◌==◌, ◌||◌, ◌&&◌, any, split, trim,
  eqb, if◌then◌else◌,
}
use komachi.Restore.WriteGate.{WriteGate, try_enter, leave}

abbrev pub exempt_path_segment_sequences : List (List Text)
exempt_path_segment_sequences =
    (codes "api" ∷ codes "admin" ∷ codes "restore" ∷ [])
    ∷ (codes "api" ∷ codes "auth" ∷ codes "login" ∷ [])
    ∷ (codes "api" ∷ codes "auth" ∷ codes "refresh-token" ∷ [])
    ∷ (codes "api" ∷ codes "auth" ∷ codes "logout" ∷ [])
    ∷ []

-- the inner loop: the segments begin with the ones wanted
unfoldable pub matches_at : List Text → List Text → Bool
matches_at [] segments = true
matches_at (w ∷ ws) [] = false
matches_at (w ∷ ws) (s ∷ segments) = (s == w) && matches_at ws segments

-- the outer loop
unfoldable pub contains_segments : List Text → List Text → Bool
unfolding matches_at
contains_segments want [] = matches_at want []
contains_segments want (s ∷ segments) =
    matches_at want (s ∷ segments) || contains_segments want segments

abbrev pub segments_of : Text → List Text
segments_of path = split b'/' (trim (λ c. eqb c b'/') path)

unfoldable pub path_contains_segments : Text → List Text → Bool
path_contains_segments path want = contains_segments want (segments_of path)

unfoldable pub is_exempt_path : Text → Bool
is_exempt_path path = any (path_contains_segments path) exempt_path_segment_sequences

abbrev pub is_read : Text → Bool
is_read method = method == codes "GET" || method == codes "HEAD" || method == codes "OPTIONS"

pub data Admission : Type 0 where
  pass : Admission
  counted : Admission
  refused : Admission

-- What the middleware does before the handler: pass the request on without the gate, or counted by
-- it (`leave` is called after the handler), or refuse it with 503.
unfoldable pub write_gate_middleware : Text → Text → WriteGate → Admission × WriteGate
write_gate_middleware method path g =
    if is_read method
    then (pass, g)
    else if is_exempt_path path
    then (pass, g)
    else let (entered, g') = try_enter g in if entered then (counted, g') else (refused, g')
