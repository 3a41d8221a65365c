-- ===== src/Base/Retry.antt =====
-- The loop `for bad(s) { s = candidate(i); i++ }`, and that it ends where the candidates differ and
-- only finitely many texts are bad.
use Prim.Native.Nat.{ℕ, zero, suc, ◌≤◌, ◌<◌}
use mathlib.Core.Path.{◌≡◌, refl}
use mathlib.Core.Logic.{◌⊎◌, inl, inr, ◌≢◌}
use mathlib.Core.Bool.{Bool, true, false, ◌||◌}
use mathlib.Core.Option.{Option, none, some}
use mathlib.Core.List.{List, [], ◌∷◌}
use native.Mathlib.Omega.{arith}
use komachi.Base.Tests.{Bool-cases, if◌then◌else◌}
use komachi.Base.Lists.{length}
use komachi.Base.Strings.{Text, ◌==◌, eq_text_iff}

-- With fuel for as many tests; none where the fuel runs out.
unfoldable pub retry : (Text → Bool) → (ℕ → Text) → ℕ → ℕ → Text → Option Text
retry bad candidate zero i s = none
retry bad candidate (suc fuel) i s = elim (bad s) [
  | true ↦ retry bad candidate fuel (suc i) (candidate i)
  | false ↦ some s
]

abbrev pub contains : Text → List Text → Bool
contains s [] = false
contains s (t ∷ ts) = t == s || contains s ts

remove : Text → List Text → List Text
remove s [] = []
remove s (t ∷ ts) = let rest = remove s ts in if t == s then rest else t ∷ rest

length-remove_le : (s : Text) (ts : List Text) → length (remove s ts) ≤ length ts
unfolding remove
length-remove_le s [] = omega arith
length-remove_le s (t ∷ ts) = ground (arith, length-remove_le s ts)

length-remove :
    (s : Text) (ts : List Text) → contains s ts ≡ true → length (remove s ts) < length ts
unfolding remove
length-remove s [] e = absurd (ground arith)
length-remove s (t ∷ ts) e = ground (arith, length-remove_le s ts, length-remove s ts)

contains-remove :
    (s x : Text) (ts : List Text) → x ≢ s → contains x ts ≡ true → contains x (remove s ts) ≡ true
unfolding remove
contains-remove s x [] ne e = e
contains-remove s x (t ∷ ts) ne e =
    ground (arith, contains-remove s x ts ne, eq_text_iff t s, eq_text_iff t x)

module _ (bad : Text → Bool) (candidate key : ℕ → Text)
    (distinct : (i j : ℕ) → key i ≡ key j → i ≡ j) where
  -- from the candidate `j` on, with the keys that can still be met among `ts`
  retry-candidate :
      (n j : ℕ) (ts : List Text)
      → length ts ≤ n
      → ((i : ℕ) → j ≤ i → bad (candidate i) ≡ true → contains (key i) ts ≡ true)
      → (k : ℕ) × (retry bad candidate (suc n) (suc j) (candidate j) ≡ some (candidate k))
        × (bad (candidate k) ≡ false)
  unfolding retry
  retry-candidate zero j [] h met = (j, ground (arith, met j), ground (arith, met j))
  retry-candidate zero j (t ∷ ts) h met = absurd (omega arith)
  retry-candidate (suc n) j ts h met = elim (Bool-cases (bad (candidate j))) [
    | inr good ↦ (j, rw (good, retry) refl, good)
    | inl b ↦
        let here = met j (omega arith) b in
        let (k, e, good) =
          retry-candidate n (suc j) (remove (key j) ts)
            (omega (arith, length-remove (key j) ts here))
            (λ i l b'.
              contains-remove (key j) (key i) ts (λ same. absurd (omega (arith, distinct i j same)))
                (met i (omega arith) b')) in
        (k, rw (b, retry) e, good)
  ]

  -- The loop ends, with enough fuel, at a text that is not bad: the first one, or a candidate.
  pub retry_ends :
      (s : Text) (ts : List Text) (fuel : ℕ)
      → ((i : ℕ) → 1 ≤ i → bad (candidate i) ≡ true → contains (key i) ts ≡ true)
      → suc (suc (length ts)) ≤ fuel
      → (r : Text) × (retry bad candidate fuel 1 s ≡ some r)
        × (bad r ≡ false)
        × ((r ≡ s) ⊎ ((k : ℕ) × (r ≡ candidate k)))
  unfolding retry
  retry_ends s ts zero met h = absurd (omega arith)
  retry_ends s ts (suc zero) met h = absurd (omega arith)
  retry_ends s ts (suc (suc n)) met h = elim (Bool-cases (bad s)) [
    | inr good ↦ (s, rw (good, retry) refl, good, inl refl)
    | inl b ↦
        let (k, e, good) = retry-candidate n 1 ts (omega arith) met in
        (candidate k, rw (b, retry) e, good, inr (k, refl))
  ]

-- Where every text that the loop comes to is bad, it does not end.
pub retry_loops :
    (bad : Text → Bool) (candidate : ℕ → Text)
    → ((i : ℕ) → bad (candidate i) ≡ true)
    → (fuel i : ℕ) (s : Text) → bad s ≡ true
    → retry bad candidate fuel i s ≡ none
unfolding retry
retry_loops bad candidate all_bad zero i s b = refl
retry_loops bad candidate all_bad (suc fuel) i s b =
    rw (b, retry) (retry_loops bad candidate all_bad fuel (suc i) (candidate i) (all_bad i))
