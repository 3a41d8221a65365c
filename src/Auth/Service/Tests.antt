-- ===== src/Auth/Service/Tests.antt =====
-- Tests of the logins, and the theorems at concrete inputs.
use komachi.Base.{
  ◌≡◌, ◌≤◌, refl, codes, true, false, none, some, List, [], ◌∷◌, ◌==◌, lookup, set_key, ok, arith,
}
use komachi.Auth.LoginAttempts
use komachi.Auth.LoginAttempts.{login_max_failures}
use komachi.Auth.Users.Store.{User, role_viewer, statement, select}
use komachi.Auth.Users.Creation.{new_user}
use komachi.Auth.Users.Edits.{get_user_by_identifier}
use komachi.Auth.Sessions.Manager.{Moment}
use komachi.Auth.Service.{
  Setup, State, login, record_attempt, challenge, login_challenge, second_step,
  begin_totp_challenge,
}
use komachi.Auth.Service.Proven.{Answered, login-Answered}
use komachi.Auth.Sessions.Store.{new_session, create_session}
use komachi.Auth.Service.Guesses.{Timed, password, tried, all_fail, tried-le-max}

abbrev plain : Setup
plain = record {
  users = record {
    editor_limit = 0;
    postgres = false;
    fault = λ n. none;
    others = λ n rows. rows;
    hash = λ n password. some password;
    compare_hash = λ hash password. hash == password;
    unique_id = λ n. none;
    random_password = λ n. none;
  };
  sessions = record {
    access_lifetime = 900;
    refresh_lifetime = 9000;
    sign = λ claims. some claims.jti;
    parse = λ now token. none;
    resolve = none;
    postgres = false;
  };
  has_totp = false;
  verify_code = λ secret code. none;
  sign_challenge = λ user jti exp. some jti;
}

abbrev calm : Moment
calm = record {
  now = 100;
  access_jti = some (codes "x");
  refresh_jti = some (codes "y");
  select_fails = false;
  insert_fails = false;
  update_fails = false;
  begin_fails = false;
  commit_fails = false;
}

abbrev ada : User
ada = new_user (codes "1") (codes "a") (codes "c") (codes "p") role_viewer

abbrev start : State
start = record { users = record { rows = ada ∷ []; step = 0 }; attempts = []; sessions = [] }

abbrev wrong : Timed
wrong = record { now = 100000000000; moment = calm; given = password (codes "a") (codes "q") }

abbrev tries : List Timed
tries = wrong ∷ wrong ∷ wrong ∷ wrong ∷ wrong ∷ wrong ∷ []

-- The sixth wrong password is not looked at.
five_tries : tried plain (codes "1") tries start ≡ 5
unfolding tried get_user_by_identifier statement select ◌==◌ login record_attempt
    LoginAttempts.record_attempt LoginAttempts.attempt lookup set_key
five_tries = refl

all_wrong : all_fail plain (codes "1") tries start ≡ true
unfolding all_fail get_user_by_identifier statement select ◌==◌ login record_attempt
    LoginAttempts.record_attempt LoginAttempts.attempt lookup set_key
all_wrong = refl

tried-le-max_example : tried plain (codes "1") tries start ≤ login_max_failures
unfolding lookup
tried-le-max_example =
    tried-le-max plain 0 (codes "1") tries start (omega arith) (omega arith) all_wrong

-- A user with a second factor.
abbrev eve : User
eve = record (new_user (codes "2") (codes "e") (codes "f") (codes "p") role_viewer) {
  totp_enabled = true;
  totp_secret_encrypted = codes "s";
}

abbrev two_factor : Setup
two_factor = record plain { has_totp = true }

abbrev before : State
before = record { users = record { rows = eve ∷ []; step = 0 }; attempts = []; sessions = [] }

abbrev after : State
after = record {
  users = record { rows = eve ∷ []; step = 1 };
  attempts = (codes "2", record { failures = 1; locked_until = 0 }) ∷ [];
  sessions = new_session 100 (codes "x") (codes "2") login_challenge 400 ∷ [];
}

eve_logs_in :
    login two_factor 100000000000 calm (codes "e") (codes "p") before
    ≡ (ok (challenge (codes "x")), after)
unfolding get_user_by_identifier statement select ◌==◌ login record_attempt
    LoginAttempts.record_attempt LoginAttempts.attempt lookup set_key second_step
    begin_totp_challenge create_session
eve_logs_in = refl

login-Answered_example :
    (u : User) × ((get_user_by_identifier two_factor.users (codes "e") before.users).0 ≡ ok u)
    × ((LoginAttempts.record_attempt 100000000000 u.id before.attempts).0 ≡ true)
    × (two_factor.users.compare_hash u.password (codes "p") ≡ true)
    × Answered u (challenge (codes "x")) before.sessions after.sessions
login-Answered_example =
    login-Answered two_factor 100000000000 calm (codes "e") (codes "p") before after
      (challenge (codes "x")) eve_logs_in
