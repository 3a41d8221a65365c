-- ===== src/Auth/Totp/Race.antt =====
-- Requests that present recovery codes of one user at the same time. A request is in a phase; with
-- each step it makes one statement on the table of users, and any request may make the next step.
use komachi.Base.{ℕ, zero, suc, Text, Bool, Option, none, some, List, [], ◌∷◌, any, if◌then◌else◌}
use komachi.Auth.Users.Store.{User, Users, find, has_id, holds_hashes, swap_hashes}
use komachi.Auth.Totp.{verify_recovery_code, remaining}

pub data Phase : Type 0 where
  -- about to compare and swap, with the hashes that were read and the attempts that are left
  swapping : List Text → ℕ → Phase
  -- about to read the hashes again
  reading : ℕ → Phase
  accepted : Phase
  refused : Phase
  missing : Phase

pub record Request : Type 0 where
  pub code : Text
  pub phase : Phase

abbrev pub read_again : ℕ → Option User → Phase
read_again left none = missing
read_again left (some u) = swapping u.totp_recovery_code_hashes left

module _ (compare_hash : Text → Text → Bool) (id : Text) where
  abbrev pub swap_phase : ℕ → Bool → Phase
  swap_phase left swapped = if swapped then accepted else reading left

  abbrev pub compare_and_swap : ℕ → List Text → Users → Option ℕ → Phase × Users
  compare_and_swap left hashes rows none = (refused, rows)
  compare_and_swap left hashes rows (some i) = (
    swap_phase left (any (holds_hashes id hashes) rows),
    (swap_hashes id hashes (remaining i hashes) rows).1,
  )

  unfoldable pub advance : Text → Phase → Users → Phase × Users
  advance code (swapping hashes zero) rows = (refused, rows)
  advance code (swapping hashes (suc left)) rows =
      compare_and_swap left hashes rows (verify_recovery_code compare_hash code hashes)
  advance code (reading left) rows = (read_again left (find (has_id id) rows), rows)
  advance code accepted rows = (accepted, rows)
  advance code refused rows = (refused, rows)
  advance code missing rows = (missing, rows)

  -- the step of the request at a place, if there is one
  unfoldable pub turn : ℕ → List Request → Users → List Request × Users
  turn n [] rows = ([], rows)
  turn zero (r ∷ rs) rows =
      let (p, after) = advance r.code r.phase rows in (record r { phase = p } ∷ rs, after)
  turn (suc n) (r ∷ rs) rows = let (rest, after) = turn n rs rows in (r ∷ rest, after)

  -- steps in any order
  unfoldable pub interleave : List ℕ → List Request → Users → List Request × Users
  interleave [] rs rows = (rs, rows)
  interleave (n ∷ schedule) rs rows =
      let (rest, after) = turn n rs rows in interleave schedule rest after
