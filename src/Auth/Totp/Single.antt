-- ===== src/Auth/Totp/Single.antt =====
-- A recovery code is good for as many logins as it has hashes, however the requests interleave.
use komachi.Base.{
  ℕ, zero, suc, ◌+◌, ◌≤◌, ◌≡◌, ◌≢◌, refl, subst, ◌↔◌, inl, inr, Text, Bool, true, false, Option,
  none, some, List, [], ◌∷◌, ◌==◌, ◌&&◌, any, if◌then◌else◌, eq_text_iff, Bool-cases, Option-cases,
  arith,
}
use komachi.Auth.Users.Store.{
  User, Users, find, has_id, set_where, holds_hashes, swap_hashes, eq_texts,
}
use komachi.Auth.Users.Table.{Distinct, Distinct-set_where, find-any, weight}
use komachi.Auth.Totp.{verify_recovery_code, first_match, later, remaining, normalize_code}
use komachi.Auth.Totp.Race.{
  Phase, Request, swapping, reading, accepted, refused, missing, compare_and_swap, advance, turn,
  interleave,
}

pub eq_texts_iff : (ss ts : List Text) → (eq_texts ss ts ≡ true) ↔ (ss ≡ ts)
unfolding eq_texts
eq_texts_iff [] [] = ground arith
eq_texts_iff [] (t ∷ ts) = ground arith
eq_texts_iff (s ∷ ss) [] = ground arith
eq_texts_iff (s ∷ ss) (t ∷ ts) = ground (arith, eq_text_iff s t, eq_texts_iff ss ts)

abbrev pub matches : (Text → Bool) → List Text → ℕ
matches p [] = 0
matches p (h ∷ hashes) = weight (p h) + matches p hashes

later-ne-zero : (o : Option ℕ) → later o ≢ some 0
later-ne-zero none h = absurd (ground arith)
later-ne-zero (some i) h = absurd (ground arith)

later-eq-suc : {i : ℕ} (o : Option ℕ) → later o ≡ some (suc i) → o ≡ some i
later-eq-suc none h = absurd (ground arith)
later-eq-suc (some j) h = ground arith

-- What is left of the hashes has one fewer that the code fits.
matches-remaining :
    (p : Text → Bool) (i : ℕ) (hashes : List Text)
    → first_match p hashes ≡ some i
    → matches p (remaining i hashes) + 1 ≡ matches p hashes
unfolding first_match
matches-remaining p i [] h = absurd (cc)
matches-remaining p zero (x ∷ hashes) h = zero_case (p x) refl h
  where
    zero_case :
        (b : Bool)
        → p x ≡ b
        → (if b then some 0 else later (first_match p hashes)) ≡ some 0
        → matches p hashes + 1 ≡ weight (p x) + matches p hashes
    zero_case true e h = ground (arith, e)
    zero_case false e h = absurd (later-ne-zero (first_match p hashes) h)
matches-remaining p (suc i) (x ∷ hashes) h = suc_case (p x) refl h (matches-remaining p i hashes)
  where
    suc_case :
        (b : Bool)
        → p x ≡ b
        → (if b then some 0 else later (first_match p hashes)) ≡ some (suc i)
        → (first_match p hashes ≡ some i → matches p (remaining i hashes) + 1 ≡ matches p hashes)
        → matches p (x ∷ remaining i hashes) + 1 ≡ weight (p x) + matches p hashes
    suc_case true e h rest = absurd (ground arith)
    suc_case false e h rest =
        let r : matches p (remaining i hashes) + 1 ≡ matches p hashes =
          rest (later-eq-suc (first_match p hashes) h) in
        ground (arith, e, r)

matches-remaining_le :
    (p : Text → Bool) (i : ℕ) (hashes : List Text)
    → matches p (remaining i hashes) ≤ matches p hashes
matches-remaining_le p zero [] = omega arith
matches-remaining_le p (suc i) [] = omega arith
matches-remaining_le p zero (x ∷ hashes) = omega arith
matches-remaining_le p (suc i) (x ∷ hashes) = omega (arith, matches-remaining_le p i hashes)

abbrev pub hashes_or_none : Option User → List Text
hashes_or_none none = []
hashes_or_none (some u) = u.totp_recovery_code_hashes

abbrev pub stored : Text → Users → List Text
stored id rows = hashes_or_none (find (has_id id) rows)

unswapped :
    (id : Text) (old new : List Text) (rows : Users)
    → any (holds_hashes id old) rows ≡ false
    → (swap_hashes id old new rows).1 ≡ rows
unfolding swap_hashes set_where
unswapped id old new [] h = refl
unswapped id old new (r ∷ rows) h = ground (arith, unswapped id old new rows)

find-swapped :
    (id : Text) (old new : List Text) (rows : Users) {u : User}
    → find (has_id id) rows ≡ some u
    → eq_texts u.totp_recovery_code_hashes old ≡ true
    → stored id (swap_hashes id old new rows).1 ≡ new
unfolding swap_hashes set_where
find-swapped id old new [] found e = absurd (cc)
find-swapped id old new (r ∷ rows) {u = u} found e =
    ground (arith, find-swapped id old new rows {u = u})

-- The swap took place on the hashes that were read.
swapped :
    (id : Text) (old new : List Text) (rows : Users)
    → Distinct (λ r. r.id) rows
    → any (holds_hashes id old) rows ≡ true
    → (stored id rows ≡ old) × (stored id (swap_hashes id old new rows).1 ≡ new)
swapped id old new rows d h =
    let (u, found, e) = find-any id (λ r. eq_texts r.totp_recovery_code_hashes old) rows d h in
    (
      rw found ((eq_texts_iff u.totp_recovery_code_hashes old).0 e),
      find-swapped id old new rows {u = u} found e,
    )

pub swap_Distinct :
    (id : Text) (old new : List Text) (rows : Users)
    → Distinct (λ r. r.id) rows
    → Distinct (λ r. r.id) (swap_hashes id old new rows).1
unfolding swap_hashes
swap_Distinct id old new rows d =
    Distinct-set_where (λ r. r.id) (holds_hashes id old)
      (λ r. record r { totp_recovery_code_hashes = new }) (λ r. refl) rows d

-- whether a request was accepted that presented the code
abbrev pub is_accepted : Phase → Bool
is_accepted accepted = true
is_accepted _ = false

abbrev pub accepts : Text → Request → Bool
accepts code r = (normalize_code r.code == normalize_code code) && is_accepted r.phase

abbrev pub accepted_count : Text → List Request → ℕ
accepted_count code [] = 0
accepted_count code (r ∷ rs) = weight (accepts code r) + accepted_count code rs

module _ (compare_hash : Text → Text → Bool) (id code : Text) where
  fits : Text → Bool
  fits h = compare_hash h (normalize_code code)

  taken :
      (code' : Text) (i : ℕ) (hashes : List Text)
      → verify_recovery_code compare_hash code' hashes ≡ some i
      → weight ((normalize_code code' == normalize_code code) && true)
          + matches fits (remaining i hashes)
        ≤ matches fits hashes
  unfolding fits
  taken code' i hashes h = elim (Bool-cases (normalize_code code' == normalize_code code)) [
    | inl e ↦
        let same : normalize_code code' ≡ normalize_code code =
          (eq_text_iff (normalize_code code') (normalize_code code)).0 e in
        let first : first_match fits hashes ≡ some i =
          subst (λ (t : Text). first_match (λ x. compare_hash x t) hashes ≡ some i) same h in
        rw e (omega (arith, matches-remaining fits i hashes first))
    | inr e ↦ rw e (omega (arith, matches-remaining_le fits i hashes))
  ]

  swap_counts :
      (code' : Text) (left i : ℕ) (hashes : List Text) (rows : Users)
      → Distinct (λ r. r.id) rows
      → verify_recovery_code compare_hash code' hashes ≡ some i
      → weight (
            accepts code (record {
              code = code';
              phase = (compare_and_swap compare_hash id left hashes rows (some i)).0;
            }))
          + matches fits (stored id (compare_and_swap compare_hash id left hashes rows (some i)).1)
        ≤ matches fits (stored id rows)
  swap_counts code' left i hashes rows d h = elim (Bool-cases (any (holds_hashes id hashes) rows)) [
    | inl e ↦
        let (before, after) = swapped id hashes (remaining i hashes) rows d e in
        rw (e, after, before) (taken code' i hashes h)
    | inr e ↦
        let u : (swap_hashes id hashes (remaining i hashes) rows).1 ≡ rows =
          unswapped id hashes (remaining i hashes) rows e in
        rw (e, u) (ground arith)
  ]

  advance_counts :
      (code' : Text) (p : Phase) (rows : Users)
      → Distinct (λ r. r.id) rows
      → weight (
            accepts code
              (record { code = code'; phase = (advance compare_hash id code' p rows).0 }))
          + matches fits (stored id (advance compare_hash id code' p rows).1)
        ≤ weight (accepts code (record { code = code'; phase = p })) + matches fits (stored id rows)
  unfolding advance
  advance_counts code' (swapping hashes zero) rows d = ground arith
  advance_counts code' (swapping hashes (suc left)) rows d =
      elim (Option-cases (verify_recovery_code compare_hash code' hashes)) [
        | inl e ↦ rw e (ground arith)
        | inr (i, e) ↦ rw e (ground (arith, swap_counts code' left i hashes rows d e))
      ]
  advance_counts code' (reading left) rows d = elim (Option-cases (find (has_id id) rows)) [
    | inl e ↦ rw e (ground arith)
    | inr (u, e) ↦ rw e (ground arith)
  ]
  advance_counts code' accepted rows d = ground arith
  advance_counts code' refused rows d = ground arith
  advance_counts code' missing rows d = ground arith

  advance-Distinct :
      (code' : Text) (p : Phase) (rows : Users)
      → Distinct (λ r. r.id) rows
      → Distinct (λ r. r.id) (advance compare_hash id code' p rows).1
  unfolding advance
  advance-Distinct code' (swapping hashes zero) rows d = d
  advance-Distinct code' (swapping hashes (suc left)) rows d =
      choice (verify_recovery_code compare_hash code' hashes)
    where
      choice :
          (o : Option ℕ)
          → Distinct (λ r. r.id) (compare_and_swap compare_hash id left hashes rows o).1
      choice none = d
      choice (some i) = swap_Distinct id hashes (remaining i hashes) rows d
  advance-Distinct code' (reading left) rows d = d
  advance-Distinct code' accepted rows d = d
  advance-Distinct code' refused rows d = d
  advance-Distinct code' missing rows d = d

  turn_counts :
      (n : ℕ) (rs : List Request) (rows : Users)
      → Distinct (λ r. r.id) rows
      → accepted_count code (turn compare_hash id n rs rows).0
          + matches fits (stored id (turn compare_hash id n rs rows).1)
        ≤ accepted_count code rs + matches fits (stored id rows)
  unfolding turn
  turn_counts n [] rows d = omega arith
  turn_counts zero (r ∷ rs) rows d = omega (arith, advance_counts r.code r.phase rows d)
  turn_counts (suc n) (r ∷ rs) rows d = omega (arith, turn_counts n rs rows d)

  turn-Distinct :
      (n : ℕ) (rs : List Request) (rows : Users)
      → Distinct (λ r. r.id) rows
      → Distinct (λ r. r.id) (turn compare_hash id n rs rows).1
  unfolding turn
  turn-Distinct n [] rows d = d
  turn-Distinct zero (r ∷ rs) rows d = advance-Distinct r.code r.phase rows d
  turn-Distinct (suc n) (r ∷ rs) rows d = turn-Distinct n rs rows d

  interleave_counts :
      (schedule : List ℕ) (rs : List Request) (rows : Users)
      → Distinct (λ r. r.id) rows
      → accepted_count code (interleave compare_hash id schedule rs rows).0
          + matches fits (stored id (interleave compare_hash id schedule rs rows).1)
        ≤ accepted_count code rs + matches fits (stored id rows)
  unfolding interleave
  interleave_counts [] rs rows d = omega arith
  interleave_counts (n ∷ schedule) rs rows d = omega (
    arith,
    turn_counts n rs rows d,
    interleave_counts schedule (turn compare_hash id n rs rows).0 (turn compare_hash id n rs rows).1
        (turn-Distinct n rs rows d),
  )

-- However the statements of any number of requests interleave, and whatever hashes each of them read
-- before: no more requests are accepted that present a recovery code than it has hashes in the table,
-- so a code with one hash is accepted at most once. The table has one row for an id, and no hashes are
-- added meanwhile.
pub interleave-single_use :
    (compare_hash : Text → Text → Bool) (id code : Text) (schedule : List ℕ) (rs : List Request)
    (rows : Users)
    → Distinct (λ r. r.id) rows
    → accepted_count code rs ≡ 0
    → accepted_count code (interleave compare_hash id schedule rs rows).0
      ≤ matches (λ h. compare_hash h (normalize_code code)) (stored id rows)
unfolding fits
interleave-single_use compare_hash id code schedule rs rows d none_yet =
    omega (arith, none_yet, interleave_counts compare_hash id code schedule rs rows d)
