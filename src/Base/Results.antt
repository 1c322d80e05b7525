-- ===== src/Base/Results.antt =====
-- Go's `(value, error)` results.
use mathlib.Core.Bool.{Bool, false}
use mathlib.Core.Path.{◌≡◌, refl}
use mathlib.Core.Logic.{◌⊎◌, inl, inr}

pub data Result {ℓ κ} (E : Type ℓ) (A : Type κ) : Type (ℓ ⊔ κ) where
  ok : A → Result E A
  err : E → Result E A

infixl 5 ◌>>=◌
abbrev pub ◌>>=◌ {ℓ κ μ} :
    {E : Type ℓ} {V : Type κ} {W : Type μ} → Result E V → (V → Result E W) → Result E W
ok v >>= next = next v
err problem >>= next = err problem

module _ {ℓ κ μ} {E : Type ℓ} {V : Type κ} {W : Type μ} where
  -- A chain gives a value only where its first part does.
  pub >>=-eq-ok :
      (first : Result E V) (next : V → Result E W) {out : W}
      → (first >>= next) ≡ ok out
      → (v : V) × (first ≡ ok v) × (next v ≡ ok out)
  >>=-eq-ok (err problem) next e = cc
  >>=-eq-ok (ok v) next e = (v, refl, e)

pub ok-injective {ℓ κ} :
    {E : Type ℓ} {A : Type κ} (a b : A) → ◌≡◌ {A = Result E A} (ok a) (ok b) → a ≡ b
ok-injective a b h = cc

-- A failure with an error that passes a test.
abbrev pub fails_with {ℓ κ} : {E : Type ℓ} {A : Type κ} → (E → Bool) → Result E A → Bool
fails_with p (ok a) = false
fails_with p (err e) = p e

pub fails_with-bind {ℓ κ μ} :
    {E : Type ℓ} {A : Type κ} {B : Type μ} (p : E → Bool) (r : Result E A) (f : A → Result E B)
    → fails_with p r ≡ false
    → ((a : A) → r ≡ ok a → fails_with p (f a) ≡ false)
    → fails_with p (r >>= f) ≡ false
fails_with-bind p (ok a) f h k = k a refl
fails_with-bind p (err e) f h k = h

pub Result-cases {ℓ κ} :
    {E : Type ℓ} {A : Type κ} (r : Result E A) → ((a : A) × (r ≡ ok a)) ⊎ ((e : E) × (r ≡ err e))
Result-cases (ok a) = inl (a, refl)
Result-cases (err e) = inr (e, refl)
