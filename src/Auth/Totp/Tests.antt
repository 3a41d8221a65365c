-- ===== src/Auth/Totp/Tests.antt =====
-- Tests of the recovery codes, and the theorems at concrete inputs.
use komachi.Base.{
  ◌≡◌, ◌≤◌, refl, codes, false, none, some, List, [], ◌∷◌, ◌==◌, trim_space, is_space,
}
use komachi.Auth.Users.Store.{
  User, Users, Setup, World, swap_hashes, eq_texts, set_where, role_viewer,
}
use komachi.Auth.Users.Creation.{new_user}
use komachi.Auth.Totp.{first_match, normalize_code}
use komachi.Auth.Totp.Race.{Request, swapping, turn, advance, interleave}
use komachi.Auth.Totp.Single.{accepted_count, matches, stored, interleave-single_use}

abbrev plain : Setup
plain = record {
  editor_limit = 0;
  postgres = false;
  fault = λ n. none;
  others = λ n rows. rows;
  hash = λ n password. some password;
  compare_hash = λ hash password. hash == password;
  unique_id = λ n. none;
  random_password = λ n. none;
}

abbrev ada : User
ada = record (new_user (codes "1") (codes "a") (codes "c") (codes "p") role_viewer) {
  totp_recovery_code_hashes = codes "AB" ∷ codes "CD" ∷ [];
}

abbrev rows : Users
rows = ada ∷ []

abbrev twice : List Request
twice =
    record { code = codes "ab"; phase = swapping (codes "AB" ∷ codes "CD" ∷ []) 3 }
    ∷ record { code = codes "AB"; phase = swapping (codes "AB" ∷ codes "CD" ∷ []) 3 }
    ∷ []

-- The second request loses the race, reads the hashes again and is refused.
raced :
    accepted_count
      (codes "ab")
      (interleave plain.compare_hash (codes "1") (0 ∷ 1 ∷ 1 ∷ 1 ∷ []) twice rows).0
    ≡ 1
unfolding interleave turn advance first_match swap_hashes set_where eq_texts trim_space is_space
    ◌==◌
raced = refl

interleave-single_use_example :
    accepted_count
      (codes "ab")
      (interleave plain.compare_hash (codes "1") (0 ∷ 1 ∷ 1 ∷ 1 ∷ []) twice rows).0
    ≤ matches (λ h. h == normalize_code (codes "ab")) (stored (codes "1") rows)
unfolding trim_space is_space ◌==◌
interleave-single_use_example =
    interleave-single_use plain.compare_hash (codes "1") (codes "ab") (0 ∷ 1 ∷ 1 ∷ 1 ∷ []) twice
      rows (refl, tt) refl

abbrev start : World
start = record { rows = rows; step = 0 }
