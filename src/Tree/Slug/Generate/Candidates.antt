-- ===== src/Tree/Slug/Generate/Candidates.antt =====
-- A slug with a number appended is valid where the slug has the pattern, and two numbers give slugs
-- that differ, in any case of their letters (backend/internal/core/tree/slug_service.go).
use mathlib.Core.List.{append-nil, map-append, reverse-append, reverse-reverse, append_assoc}
use komachi.Base.{
  ℕ, ◌≡◌, refl, sym, ap, ◌∙◌, ◌≢◌, inl, inr, Text, Bool, true, false, List, [], ◌∷◌, ◌++◌, reverse,
  arith, ◌==◌, ◌&&◌, not, eqb, any, all, lower, lower_code, split, split_from, starts_with,
  ends_with, eq_text_iff, Bool-cases,
}
use komachi.Base.Decimal.{decimal, decimal_injective, is_digit, decimal_digits, decimal-ne-nil}
use komachi.Tree.Slug.{
  reserved_slugs, is_alphanumeric, is_word, slug_pattern, slug_error, is_valid_slug,
}
use komachi.Tree.Slug.Generate.{numbered}

hyphen_free : Text → Bool
hyphen_free s = all (λ c. not (eqb c b'-')) s

split_from-hyphen :
    (part s t : Text)
    → split_from b'-' part (s ++ (b'-' ∷ t)) ≡ split_from b'-' part s ++ split b'-' t
split_from-hyphen part [] t = refl
split_from-hyphen part (c ∷ s) t = elim (Bool-cases (eqb c b'-')) [
  | inl h ↦ rw (h, split_from) (ap (λ x. reverse part ∷ x) (split_from-hyphen [] s t))
  | inr h ↦ rw (h, split_from) (split_from-hyphen (c ∷ part) s t)
]

split_digits :
    (part d : Text) → all is_digit d ≡ true → split_from b'-' part d ≡ (reverse part ++ d) ∷ []
split_digits part [] h = ap (λ x. x ∷ []) (sym (append-nil (reverse part)))
split_digits part (c ∷ d) h = elim (Bool-cases (eqb c b'-')) [
  | inl e ↦ absurd (ground arith)
  | inr e ↦
      rw (e, split_from)
        (split_digits (c ∷ part) d (ground arith)
          ∙ ap (λ x. x ∷ [])
              (ap (λ x. x ++ d) (reverse-append (c ∷ []) part)
                ∙ append_assoc (reverse part) (c ∷ []) d))
]

all-append {ℓ} :
    {A : Type ℓ} (p : A → Bool) (xs ys : List A) → all p (xs ++ ys) ≡ (all p xs && all p ys)
all-append p [] ys = refl
all-append p (x ∷ xs) ys = ground (arith, all-append p xs ys)

all_alphanumeric : (d : Text) → all is_digit d ≡ true → all is_alphanumeric d ≡ true
all_alphanumeric [] h = refl
all_alphanumeric (c ∷ d) h = ground (arith, all_alphanumeric d)

is_word_digits : (d : Text) → d ≢ [] → all is_digit d ≡ true → is_word d ≡ true
is_word_digits [] ne h = absurd (ne refl)
is_word_digits (c ∷ d) ne h = ground (arith, all_alphanumeric d)

slug_pattern-numbered :
    (s : Text) (i : ℕ) → slug_pattern s ≡ true → slug_pattern (numbered s i) ≡ true
unfolding slug_pattern numbered
slug_pattern-numbered s i h =
    let word = is_word_digits (decimal i) (decimal-ne-nil i) (decimal_digits i) in
    ap (all is_word) (split_from-hyphen [] s (decimal i))
    ∙ all-append is_word (split b'-' s) (split b'-' (decimal i))
    ∙ rw (split_digits [] (decimal i) (decimal_digits i)) (ground arith)

hyphened : Text → Bool
hyphened s = any (λ c. eqb c b'-') s

hyphened-lower : (s t : Text) → hyphened (lower (s ++ (b'-' ∷ t))) ≡ true
unfolding hyphened lower_code
hyphened-lower [] t = refl
hyphened-lower (c ∷ s) t = ground (arith, hyphened-lower s t)

any_plain :
    (rs : List Text) (x : Text)
    → all (λ r. not (hyphened r)) rs ≡ true
    → any (λ r. r == x) rs ≡ true
    → hyphened x ≡ false
any_plain [] x h e = absurd (ground arith)
any_plain (r ∷ rs) x h e = elim (Bool-cases (r == x)) [
  | inl y ↦ rw (← ((eq_text_iff r x).0 y)) (ground arith)
  | inr n ↦ any_plain rs x (ground arith) (ground arith)
]

reserved_plain : all (λ r. not (hyphened r)) reserved_slugs ≡ true
unfolding hyphened
reserved_plain = refl

not_reserved : (s : Text) (i : ℕ) → any (λ r. r == lower (numbered s i)) reserved_slugs ≡ false
unfolding numbered
not_reserved s i = elim (Bool-cases (any (λ r. r == lower (numbered s i)) reserved_slugs)) [
  | inr free ↦ free
  | inl taken ↦ absurd (
      ground (
        arith,
        any_plain reserved_slugs (lower (numbered s i)) reserved_plain taken,
        hyphened-lower s (decimal i),
      ))
]

split_from-ne-nil : (part s : Text) → split_from b'-' part s ≡ [] → ⊥
split_from-ne-nil part [] e = ground arith
split_from-ne-nil part (c ∷ s) e = elim (Bool-cases (eqb c b'-')) [
  | inl h ↦ let z = rw (h, split_from) at e in ground arith
  | inr h ↦ split_from-ne-nil (c ∷ part) s (rw (h, split_from) at e)
]

pattern_start : (s : Text) → slug_pattern s ≡ true → starts_with b'-' s ≡ false
unfolding slug_pattern
pattern_start [] h = refl
pattern_start (c ∷ s) h = elim (Bool-cases (eqb c b'-')) [
  | inr e ↦ e
  | inl e ↦ let z = rw (e, split_from) at h in absurd (ground arith)
]

all-reverse : (d : Text) → all is_digit d ≡ true → all is_digit (reverse d) ≡ true
all-reverse [] h = refl
all-reverse (c ∷ d) h =
    rw (reverse-append (c ∷ []) d)
      (all-append is_digit (reverse d) (c ∷ []) ∙ ground (arith, all-reverse d))

starts_digits : (d t : Text) → d ≢ [] → all is_digit d ≡ true → starts_with b'-' (d ++ t) ≡ false
starts_digits [] t ne h = absurd (ne refl)
starts_digits (c ∷ d) t ne h = ground arith

reverse-ne-nil : (d : Text) → d ≢ [] → reverse d ≢ []
reverse-ne-nil d ne e = ne (sym (reverse-reverse d) ∙ ap reverse e)

numbered_end : (s : Text) (i : ℕ) → ends_with b'-' (numbered s i) ≡ false
unfolding numbered
numbered_end s i =
    rw
      (
        reverse-append s (b'-' ∷ decimal i),
        reverse-append (b'-' ∷ []) (decimal i),
        append_assoc (reverse (decimal i)) (b'-' ∷ []) (reverse s),
      )
      (starts_digits (reverse (decimal i)) (b'-' ∷ reverse s)
        (reverse-ne-nil (decimal i) (decimal-ne-nil i))
        (all-reverse (decimal i) (decimal_digits i)))

numbered-ne-nil : (s : Text) (i : ℕ) → numbered s i ≢ []
unfolding numbered
numbered-ne-nil [] i e = ground arith
numbered-ne-nil (c ∷ s) i e = ground arith

-- A number makes a valid slug of every text with the pattern, also of a reserved one.
pub numbered_valid :
    (s : Text) (i : ℕ) → slug_pattern s ≡ true → is_valid_slug (numbered s i) ≡ true
unfolding slug_error
numbered_valid s i h = ground (
  arith,
  eq_text_iff (numbered s i) [],
  numbered-ne-nil s i,
  not_reserved s i,
  slug_pattern-numbered s i h,
  pattern_start (numbered s i),
  numbered_end s i,
)

append_cancel : (s t u : Text) → s ++ t ≡ s ++ u → t ≡ u
append_cancel [] t u e = e
append_cancel (c ∷ s) t u e = append_cancel s t u (ground arith)

lower_digits : (d : Text) → all is_digit d ≡ true → lower d ≡ d
unfolding lower_code
lower_digits [] h = refl
lower_digits (c ∷ d) h = ground (arith, lower_digits d)

pub numbered_injective : (s : Text) (i j : ℕ) → lower (numbered s i) ≡ lower (numbered s j) → i ≡ j
unfolding numbered
numbered_injective s i j e =
    let f =
      sym (map-append lower_code s (b'-' ∷ decimal i))
      ∙ e
      ∙ map-append lower_code s (b'-' ∷ decimal j) in
    let g = append_cancel (lower s) (lower (b'-' ∷ decimal i)) (lower (b'-' ∷ decimal j)) f in
    let h : lower (decimal i) ≡ lower (decimal j) = ground arith in
    decimal_injective i j (
      sym (lower_digits (decimal i) (decimal_digits i))
      ∙ h
      ∙ lower_digits (decimal j) (decimal_digits j))

append_cancel_right : (s t u : Text) → s ++ u ≡ t ++ u → s ≡ t
append_cancel_right s t u e =
    let r =
      append_cancel (reverse u) (reverse s) (reverse t)
        (sym (reverse-append s u) ∙ ap reverse e ∙ reverse-append t u) in
    sym (reverse-reverse s) ∙ ap reverse r ∙ reverse-reverse t

pub numbered_filename_injective :
    (s ext : Text) (i j : ℕ) → numbered s i ++ ext ≡ numbered s j ++ ext → i ≡ j
numbered_filename_injective s ext i j e =
    numbered_injective s i j (ap lower (append_cancel_right (numbered s i) (numbered s j) ext e))
