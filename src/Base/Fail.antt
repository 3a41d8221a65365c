-- ===== src/Base/Fail.antt =====
-- Go calls that return `(T, error)`, and methods that change a shared object and may return early.
-- What was written before an error stays written, so the state comes back beside the error too.
use mathlib.Core.Path.{◌≡◌, refl}
use mathlib.Core.Logic.{◌⊎◌, inl, inr}
use native.Mathlib.Omega.{arith}

pub data Result {ℓ κ} (E : Type ℓ) (A : Type κ) : Type (ℓ ⊔ κ) where
  ok : A → Result E A
  err : E → Result E A

abbrev pub Exec {ℓ} : Type ℓ → Type ℓ → Type ℓ → Type ℓ
Exec S E A = S → Result E A × S

module _ {ℓ} {S E A : Type ℓ} where
  abbrev pub pure : A → Exec S E A
  pure a s = (ok a, s)

  abbrev pub raise : E → Exec S E A
  raise e s = (err e, s)

module _ {ℓ} {S E A B : Type ℓ} where
  infixl 10 ◌>>=◌ ◌>>◌
  abbrev pub continue : Result E A × S → (A → Exec S E B) → Result E B × S
  continue (ok a, s) f = f a s
  continue (err e, s) f = (err e, s)

  abbrev pub ◌>>=◌ : Exec S E A → (A → Exec S E B) → Exec S E B
  ◌>>=◌ m f s = continue (m s) f

  abbrev pub ◌>>◌ : Exec S E A → Exec S E B → Exec S E B
  m >> n = m >>= λ _. n

module _ {ℓ} {S E A B : Type ℓ} where
  -- A chain of calls that succeeds began with a call that did.
  pub continue-ok :
      {r : Result E A × S} {f : A → Exec S E B} {b : B} {s : S}
      → continue r f ≡ (ok b, s)
      → (a : A) × (mid : S) × (r ≡ (ok a, mid)) × (f a mid ≡ (ok b, s))
  continue-ok {r = (ok a, mid)} h = (a, mid, refl, h)
  continue-ok {r = (err e, mid)} h = ground arith

module _ {ℓ} {S E A : Type ℓ} where
  pub pure-ok : {a b : A} {s s2 : S} → pure {E = E} a s ≡ (ok b, s2) → (a ≡ b) × (s ≡ s2)
  pure-ok h = (cc, cc)

  pub Answer-cases :
      (r : Result E A × S)
      → ((a : A) × (s : S) × (r ≡ (ok a, s))) ⊎ ((e : E) × (s : S) × (r ≡ (err e, s)))
  Answer-cases (ok a, s) = inl (a, s, refl)
  Answer-cases (err e, s) = inr (e, s, refl)

module _ {ℓ} {E A : Type ℓ} where
  pub Result-cases : (r : Result E A) → ((a : A) × (r ≡ ok a)) ⊎ ((e : E) × (r ≡ err e))
  Result-cases (ok a) = inl (a, refl)
  Result-cases (err e) = inr (e, refl)
