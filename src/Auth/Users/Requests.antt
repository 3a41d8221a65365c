-- ===== src/Auth/Users/Requests.antt =====
-- The requests to the service of users that write, one after another.
use komachi.Base.{Text, List, [], ◌∷◌, pure, ◌>>=◌}
use komachi.Auth.Users.Store.{Setup, World, Call, UserError}
use komachi.Auth.Users.Store
use komachi.Auth.Users.Creation.{
  create_user, init_default_admin, get_or_create_remote_user, reset_admin_user_password,
  invite_user, complete_invite,
}
use komachi.Auth.Users.Edits.{update_user, update_password, delete_user, change_own_password}

pub data Request : Type 0 where
  create : Text → Text → Text → Text → Request
  init_admin : Text → Text → Text → Request
  remote : Text → Text → Text → Request
  reset_admin : Text → Text → Request
  invite : Text → Text → Text → Request
  complete : Text → Text → Request
  update : Text → Text → Text → Text → Text → Request
  set_password : Text → Text → Request
  change_password : Text → Text → Text → Request
  delete : Text → Request
  consume_code : Text → List Text → List Text → Request
  set_pending_secret : Text → Text → Request
  enable_codes : Text → Text → List Text → Request
  disable_codes : Text → Request

abbrev pub drop_answer : {A : Type 0} → Call A → Call (Unit {0})
drop_answer m = m >>= λ _. pure tt

unfoldable pub perform : Setup → Request → Call (Unit {0})
perform c (create username email password role) =
    drop_answer (create_user c username email password role)
perform c (init_admin username email password) = init_default_admin c username email password
perform c (remote identifier email role) =
    drop_answer (get_or_create_remote_user c identifier email role)
perform c (reset_admin username email) = drop_answer (reset_admin_user_password c username email)
perform c (invite username email role) = drop_answer (invite_user c username email role)
perform c (complete id password) = complete_invite c id password
perform c (update id username email password role) =
    drop_answer (update_user c id username email password role)
perform c (set_password id password) = update_password c id password
perform c (change_password id old new) = change_own_password c id old new
perform c (delete id) = delete_user c id
perform c (consume_code id old new) = drop_answer (Store.consume_recovery_code_hash c id old new)
perform c (set_pending_secret id secret) = Store.set_pending_totp_secret c id secret
perform c (enable_codes id secret hashes) = Store.enable_totp c id secret hashes
perform c (disable_codes id) = Store.disable_totp c id

-- A request that fails does not keep the next from being served.
unfoldable pub perform_all : Setup → List Request → World → World
perform_all c [] w = w
perform_all c (r ∷ rs) w = perform_all c rs (perform c r w).1
