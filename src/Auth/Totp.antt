-- ===== src/Auth/Totp.antt =====
-- The second factor of a login: backend/internal/core/auth/totp_service.go and the part of
-- auth_service.go that consumes a recovery code. The check of a code of six digits, with the clock and
-- the decryption of the secret, is a parameter; it is none where the secret does not decrypt, and the
-- error that this comes to is `failed`.
pub mod Race
pub mod Single
mod Tests
use komachi.Base.{
  ℕ, zero, suc, ◌-◌, Text, Bool, true, false, Option, none, some, List, [], ◌∷◌, ◌++◌, ◌&&◌, leb,
  map, take, drop, trim_space, Result, ok, err, Exec, pure, raise, ◌>>=◌, ◌>>◌, continue,
  if◌then◌else◌,
}
use komachi.Auth.Users.Store.{
  User, UserError, Setup, World, Call, statement, failed, consume_recovery_code_hash,
  get_user_by_id,
}
use komachi.Auth.Users.Transactions.{lookup_user, attempt, map_user_lookup_err}

abbrev pub upper_code : ℕ → ℕ
upper_code c = if leb b'a' c && leb c b'z' then c - 32 else c

-- `strings.ToUpper(strings.TrimSpace(code))`
abbrev pub normalize_code : Text → Text
normalize_code code = map upper_code (trim_space code)

abbrev pub later : Option ℕ → Option ℕ
later none = none
later (some i) = some (suc i)

-- the first hash that the code is that of
unfoldable pub first_match : (Text → Bool) → List Text → Option ℕ
first_match p [] = none
first_match p (h ∷ hashes) = let rest = first_match p hashes in if p h then some 0 else later rest

abbrev pub verify_recovery_code : (Text → Text → Bool) → Text → List Text → Option ℕ
verify_recovery_code compare_hash code hashes =
    first_match (λ h. compare_hash h (normalize_code code)) hashes

abbrev pub remaining : ℕ → List Text → List Text
remaining i hashes = take i hashes ++ drop (suc i) hashes

pub record Verified : Type 0 where
  pub valid : Bool
  pub via_recovery_code : Bool

abbrev pub max_recovery_code_consume_attempts : ℕ
max_recovery_code_consume_attempts = 3

abbrev pub refused : Verified
refused = record { valid = false; via_recovery_code = false }

abbrev pub by_recovery_code : Verified
by_recovery_code = record { valid = true; via_recovery_code = true }

abbrev pub swapped_or : Bool → Call Verified → Call Verified
swapped_or true retry = pure by_recovery_code
swapped_or false retry = retry

-- One attempt, and what is done with the hashes that are read again.
abbrev pub consume_match :
    Setup → Text → List Text → (List Text → Call Verified) → Option ℕ → Call Verified
consume_match c id hashes retry none = pure refused
consume_match c id hashes retry (some i) = do
  swapped ← consume_recovery_code_hash c id hashes (remaining i hashes)
  swapped_or swapped (lookup_user (get_user_by_id c id) >>= λ u. retry u.totp_recovery_code_hashes)

-- The loop that compares and swaps, with the attempts that are left and the hashes that were read.
unfoldable pub consume_code : Setup → Text → Text → ℕ → List Text → Call Verified
consume_code c id code zero hashes = pure refused
consume_code c id code (suc left) hashes =
    let retry = λ (read : List Text). consume_code c id code left read in
    consume_match c id hashes retry (verify_recovery_code c.compare_hash code hashes)

abbrev pub by_digits_or : Option Bool → UserError → Call Verified → Call Verified
by_digits_or none e rest = raise e
by_digits_or (some true) e rest = pure (record { valid = true; via_recovery_code = false })
by_digits_or (some false) e rest = rest

unfoldable pub verify_totp_or_recovery_code :
    Setup → (Text → Text → Option Bool) → User → Text → Call Verified
verify_totp_or_recovery_code c verify_code user code =
    by_digits_or (verify_code user.totp_secret_encrypted code) failed (
      consume_code c user.id code max_recovery_code_consume_attempts user.totp_recovery_code_hashes)
