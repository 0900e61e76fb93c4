-- ===== src/Common/Results.antt =====
-- A Go result with an error: `(A, error)` where the value is not read when the error is set.
use mathlib.Core.Path.{ap, ◌≡◌, refl}

pub data Result {ℓ} (E : Type 0) (A : Type ℓ) : Type ℓ where
  ok : A → Result E A
  err : E → Result E A

module _ {E : Type 0} where
  abbrev pub and_then {ℓ κ} : {A : Type ℓ} {B : Type κ} → Result E A → (A → Result E B) → Result E B
  and_then (ok a) f = f a
  and_then (err e) f = err e

  -- Inversion of a successful chain.
  pub and_then-eq-ok {ℓ κ} :
      {A : Type ℓ} {B : Type κ} (m : Result E A) (f : A → Result E B) {b : B}
      → and_then m f ≡ ok b
      → (a : A) × (m ≡ ok a) × (f a ≡ ok b)
  and_then-eq-ok (ok a) f h = (a, refl, h)
  and_then-eq-ok (err e) f h = cc

  pub ok-inj {ℓ} : {A : Type ℓ} {a b : A} → Path (Result E A) (ok a) (ok b) → a ≡ b
  ok-inj {A = A} {a = a} p = ap get p
    where
      get : Result E A → A
      get (ok x) = x
      get (err e) = a

  pub err-inj {ℓ} : {A : Type ℓ} {d e : E} → Path (Result E A) (err d) (err e) → d ≡ e
  err-inj {A = A} {d = d} p = ap get p
    where
      get : Result E A → E
      get (ok x) = d
      get (err e) = e
