-- ===== src/Base/Strings.antt =====
-- Go strings as lists of code points. `strings.ToLower` and `strings.EqualFold` are modelled on the
-- ASCII letters; other code points have no case here.
use Prim.Native.Nat.{ℕ, ◌+◌}
use Prim.Native.Char.{code}
use Prim.Native.String.{String}
use mathlib.Core.Path.{◌≡◌, refl}
use mathlib.Core.Logic.{◌↔◌}
use mathlib.Core.Bool.{Bool, true, false, ◌&&◌, ◌||◌}
use mathlib.Core.List.{List, [], ◌∷◌, ◌++◌, map, reverse}
use native.Mathlib.Omega.{arith}
use komachi.Base.Tests.{leb, eqb, if◌then◌else◌}

abbrev pub Text : Type 0
Text = List ℕ

-- A literal.
abbrev pub codes : String → Text
codes String.[] = []
codes (String.◌∷◌ c s) = code c ∷ codes s

infix 50 ◌==◌
unfoldable pub ◌==◌ : Text → Text → Bool
[] == [] = true
[] == (b ∷ t) = false
(a ∷ s) == [] = false
(a ∷ s) == (b ∷ t) = eqb a b && (s == t)

pub eq_text_iff : (s t : Text) → ((s == t) ≡ true) ↔ (s ≡ t)
unfolding ◌==◌
eq_text_iff [] [] = ground arith
eq_text_iff [] (b ∷ t) = ground arith
eq_text_iff (a ∷ s) [] = ground arith
eq_text_iff (a ∷ s) (b ∷ t) = ground (arith, eq_text_iff s t)

pub eq_text_refl : (s : Text) → (s == s) ≡ true
eq_text_refl s = (eq_text_iff s s).1 refl

pub eq_text-sym : (s t : Text) → (s == t) ≡ (t == s)
eq_text-sym s t = ground (arith, eq_text_iff s t, eq_text_iff t s)

unfoldable pub lower_code : ℕ → ℕ
lower_code c = if leb b'A' c && leb c b'Z' then c + 32 else c

abbrev pub lower : Text → Text
lower s = map lower_code s

abbrev pub eq_fold : Text → Text → Bool
eq_fold s t = lower s == lower t

abbrev pub starts_with : ℕ → Text → Bool
starts_with c [] = false
starts_with c (d ∷ s) = eqb d c

abbrev pub ends_with : ℕ → Text → Bool
ends_with c s = starts_with c (reverse s)

-- `unicode.IsSpace`
unfoldable pub is_space : ℕ → Bool
is_space c =
    (leb 9 c && leb c 13)
    || eqb c 32
    || eqb c 0x85
    || eqb c 0xa0
    || eqb c 0x1680
    || (leb 0x2000 c && leb c 0x200a)
    || eqb c 0x2028
    || eqb c 0x2029
    || eqb c 0x202f
    || eqb c 0x205f
    || eqb c 0x3000

abbrev pub trim_left : (ℕ → Bool) → Text → Text
trim_left p [] = []
trim_left p (c ∷ s) = let rest = trim_left p s in if p c then rest else c ∷ s

-- `strings.TrimFunc`
abbrev pub trim : (ℕ → Bool) → Text → Text
trim p s = reverse (trim_left p (reverse (trim_left p s)))

unfoldable pub trim_space : Text → Text
unfolding is_space
trim_space s = trim is_space s

-- `strings.Split` at one code point: there is always at least one part.
abbrev pub split_from : ℕ → Text → Text → List Text
split_from c part [] = reverse part ∷ []
split_from c part (d ∷ s) = elim (eqb d c) [
  | true ↦ reverse part ∷ split_from c [] s
  | false ↦ split_from c (d ∷ part) s
]

abbrev pub split : ℕ → Text → List Text
split c s = split_from c [] s

-- `strings.Join` with one code point between the parts.
abbrev pub join : ℕ → List Text → Text
join c [] = []
join c (s ∷ []) = s
join c (s ∷ t ∷ ts) = s ++ (c ∷ join c (t ∷ ts))
