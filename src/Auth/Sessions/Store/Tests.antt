-- ===== src/Auth/Sessions/Store/Tests.antt =====
-- The statements on a table of two sessions.
use komachi.Base.{◌≡◌, refl, codes, false, List, [], ◌∷◌, arith, ◌==◌}
use komachi.Auth.Sessions.Store.{
  Sessions, new_session, is_active, select_session, revoke, cleanup_expired, create, execute,
  revoke_session,
}
use komachi.Auth.Sessions.Store.Statements.{is_active-execute}
use komachi.Auth.Sessions.Store.Revoked.{Timed, execute_all, is_active-execute_all_revoked}

abbrev two_sessions : Sessions
two_sessions =
    new_session 10 (codes "j2") (codes "u1") (codes "refresh") 100
    ∷ new_session 5 (codes "j1") (codes "u1") (codes "refresh") 50
    ∷ []

abbrev statements : List Timed
statements =
    record { time = 21; statement = create (codes "j3") (codes "u1") (codes "refresh") 90 }
    ∷ record { time = 60; statement = cleanup_expired }
    ∷ []

expired : is_active (codes "j1") (codes "u1") (codes "refresh") 51 two_sessions ≡ false
unfolding ◌==◌ is_active select_session
expired = refl

is_active-execute_example :
    is_active
      (codes "j1")
      (codes "u1")
      (codes "refresh")
      30
      (revoke_session 20 (codes "j2") two_sessions)
    ≡ is_active (codes "j1") (codes "u1") (codes "refresh") 30 two_sessions
unfolding ◌==◌ execute
is_active-execute_example =
    is_active-execute 20 (revoke (codes "j2")) (codes "j1") (codes "u1") (codes "refresh") 30
      two_sessions (revoke_session 20 (codes "j2") two_sessions) (refl, (refl, tt)) (ground arith)
      refl

is_active-execute_all_revoked_example :
    is_active
      (codes "j1")
      (codes "u1")
      (codes "refresh")
      70
      (execute_all statements (revoke_session 20 (codes "j1") two_sessions))
    ≡ false
unfolding ◌==◌
is_active-execute_all_revoked_example =
    is_active-execute_all_revoked (codes "j1") (codes "u1") (codes "refresh") 20 70 statements
      two_sessions refl
