-- ===== src/Auth/Users/Tests.antt =====
-- Tests of the service of users on small tables, and the theorems at concrete inputs.
use komachi.Base.{
  ℕ, zero, suc, is_space, ◌≡◌, refl, inl, inr, codes, false, none, some, List, [], ◌∷◌, ◌==◌,
  trim_space, ok, err, arith,
}
use komachi.Auth.Users.Store
use komachi.Auth.Users.Store.{
  User, Users, Setup, World, statement, has_role, remove, delete_row, failed, select, select_count,
  insert, role_admin, role_editor, role_viewer, is_counted, count, find,
  last_admin_cannot_be_demoted, already_exists, editor_limit_reached, admin_cannot_be_deleted,
}
use komachi.Auth.Users.Valid.{IsValid}
use komachi.Auth.Users.Creation.{
  create_user, create_in_store, new_user, init_default_admin, init_in_store,
}
use komachi.Auth.Users.Transactions.{check_editor_limit}
use komachi.Auth.Users.Edits.{
  update_user, delete_in_store, update_in_store, check_demotion, delete_user,
}
use komachi.Auth.Users.Requests.{Request, create, update, delete, perform_all}
use komachi.Auth.Users.Invariant.{perform_all-IsValid}
use komachi.Auth.Users.Limit.{IsWithin}
use komachi.Auth.Users.Bounded.{perform_all-IsWithin}

abbrev plain : Setup
plain = record {
  editor_limit = 2;
  postgres = false;
  fault = λ n. none;
  others = λ n rows. rows;
  hash = λ n password. some password;
  compare_hash = λ hash password. hash == password;
  unique_id = λ n. some (n ∷ []);
  random_password = λ n. some (codes "random");
}

abbrev ada : User
ada = new_user (codes "1") (codes "a") (codes "c") (codes "p") role_admin

abbrev start : World
start = record { rows = ada ∷ []; step = 0 }

abbrev requests : List Request
requests =
    create (codes "b") (codes "d") (codes "q") role_editor
    ∷ update (codes "1") (codes "a") (codes "c") [] role_viewer
    ∷ create (codes "e") (codes "f") (codes "r") role_editor
    ∷ delete (codes "1")
    ∷ []

-- The last admin is not demoted.
demoted_last :
    (update_user plain (codes "1") (codes "a") (codes "c") [] role_viewer start).0
    ≡ err last_admin_cannot_be_demoted
unfolding update_user update_in_store statement select ◌==◌ trim_space check_demotion select_count
demoted_last = refl

start_IsValid : IsValid start.rows
unfolding ◌==◌
start_IsValid = record {
  ids = (refl, tt);
  usernames = (refl, tt);
  emails = (refl, tt);
  roles = refl;
  admin = omega arith;
}

perform_all-IsValid_example : IsValid (perform_all plain requests start).rows
perform_all-IsValid_example =
    perform_all-IsValid plain requests start (λ n rows v. v) (inl (inr (λ n rows. refl)))
      start_IsValid

perform_all-IsWithin_example :
    IsValid (perform_all plain requests start).rows
    × IsWithin 2 (perform_all plain requests start).rows
unfolding ◌==◌
perform_all-IsWithin_example =
    perform_all-IsWithin plain requests start (λ n rows v. v) (inr (λ n rows. refl)) start_IsValid
      (inr (omega arith))

abbrev bob : User
bob = new_user (3 ∷ []) (codes "b") (codes "d") (codes "q") role_editor

abbrev with_bob : World
with_bob = record { rows = bob ∷ ada ∷ []; step = 4 }

bob_created :
    create_user plain (codes "b") (codes "d") (codes "q") role_editor start ≡ (ok bob, with_bob)
unfolding create_user create_in_store statement select select_count insert Store.create_user
    check_editor_limit ◌==◌
bob_created = refl

-- A second request, which demotes the admin and promotes the user who is being deleted after the user
-- was looked up, leaves a table without an admin in SQLite.
abbrev two : Users
two =
    new_user (codes "1") (codes "a") (codes "c") (codes "p") role_admin
    ∷ new_user (codes "2") (codes "b") (codes "d") (codes "q") role_viewer
    ∷ []

abbrev swapped : Users
swapped =
    new_user (codes "1") (codes "a") (codes "c") (codes "p") role_viewer
    ∷ new_user (codes "2") (codes "b") (codes "d") (codes "q") role_admin
    ∷ []

abbrev meanwhile : ℕ → Users → Users
meanwhile zero rows = rows
meanwhile (suc n) rows = swapped

abbrev raced : Setup
raced = record plain { others = meanwhile }

delete_user_race :
    count
      (has_role role_admin)
      (delete_user raced (codes "2") (record { rows = two; step = 0 })).1.rows
    ≡ 0
unfolding delete_user delete_in_store Store.delete_user statement select delete_row remove ◌==◌
delete_user_race = refl

-- Where the first lookup fails, the bootstrap makes a second admin.
abbrev flaky : Setup
flaky = record plain { fault = λ n. elim n [ zero ↦ some failed | _ ↦ none ] }

init_default_admin_fault :
    count
      (has_role role_admin)
      (init_default_admin flaky (codes "z") (codes "y") (codes "12345678") start).1.rows
    ≡ 2
unfolding init_default_admin init_in_store create_user create_in_store statement select select_count
    insert Store.create_user check_editor_limit trim_space is_space ◌==◌
init_default_admin_fault = refl
