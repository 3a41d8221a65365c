-- ===== src/Base/Maps.antt =====
-- Go's `map[string]V` as an association list in which the first entry of a key counts.
use mathlib.Core.Path.{◌≡◌}
use mathlib.Core.Option.{Option, none, some}
use mathlib.Core.List.{List, [], ◌∷◌}
use native.Mathlib.Omega.{arith}
use komachi.Base.Tests.{if◌then◌else◌}
use komachi.Base.Strings.{Text, ◌==◌, eq_text_iff}

abbrev pub Dict {ℓ} : Type ℓ → Type ℓ
Dict V = List (Text × V)

module _ {ℓ} {V : Type ℓ} where
  unfoldable pub lookup : Text → Dict V → Option V
  lookup k [] = none
  lookup k ((j, v) ∷ m) = if j == k then some v else lookup k m

  unfoldable pub erase : Text → Dict V → Dict V
  erase k [] = []
  erase k ((j, v) ∷ m) = let rest = erase k m in if j == k then rest else (j, v) ∷ rest

  unfoldable pub set_key : Text → V → Dict V → Dict V
  unfolding erase
  set_key k v m = (k, v) ∷ erase k m

  pub lookup-erase :
      (k j : Text) (m : Dict V) → lookup j (erase k m) ≡ (if k == j then none else lookup j m)
  unfolding lookup erase
  lookup-erase k j [] = ground arith
  lookup-erase k j ((i, v) ∷ m) =
      ground (arith, lookup-erase k j m, eq_text_iff i k, eq_text_iff i j, eq_text_iff k j)

  pub lookup-set_key :
      (k j : Text) (v : V) (m : Dict V)
      → lookup j (set_key k v m) ≡ (if k == j then some v else lookup j m)
  unfolding lookup set_key
  lookup-set_key k j v m = ground (arith, lookup-erase k j m)
