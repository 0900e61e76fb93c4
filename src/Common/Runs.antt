-- ===== src/Common/Runs.antt =====
-- The outcome of a step that may panic, or that the fuel of a model cut short.
use mathlib.Core.Path.{ap, ◌≡◌, refl}

pub data Run {ℓ} (A : Type ℓ) : Type ℓ where
  done : A → Run A
  panic : Run A
  out_of_fuel : Run A

infixl 5 ◌>>=◌
abbrev pub ◌>>=◌ {ℓ κ} : {A : Type ℓ} {B : Type κ} → Run A → (A → Run B) → Run B
done a >>= f = f a
panic >>= f = panic
out_of_fuel >>= f = out_of_fuel

-- The run ends with a value, and `P` holds of it.
abbrev pub Returns {ℓ} : {A : Type ℓ} → (A → Type 0) → Run A → Type 0
Returns P (done a) = P a
Returns P _ = ⊥

pub >>=-Returns {ℓ κ} :
    {A : Type ℓ} {B : Type κ} (P : A → Type 0) (Q : B → Type 0) (m : Run A) (f : A → Run B)
    → Returns P m
    → ((a : A) → P a → Returns Q (f a))
    → Returns Q (m >>= f)
>>=-Returns P Q (done a) f h k = k a h
>>=-Returns P Q panic f h k = absurd h
>>=-Returns P Q out_of_fuel f h k = absurd h

pub Returns-mono {ℓ} :
    {A : Type ℓ} (P Q : A → Type 0) (m : Run A) → ((a : A) → P a → Q a) → Returns P m → Returns Q m
Returns-mono P Q (done a) f h = f a h
Returns-mono P Q panic f h = absurd h
Returns-mono P Q out_of_fuel f h = absurd h

pub Returns-done {ℓ} :
    {A : Type ℓ} (P : A → Type 0) (m : Run A) → Returns P m → (a : A) × (m ≡ done a) × P a
Returns-done P (done a) h = (a, refl, h)
Returns-done P panic h = absurd h
Returns-done P out_of_fuel h = absurd h

-- If the run ends with a value, `P` holds of it.
abbrev pub IfDone {ℓ} : {A : Type ℓ} → (A → Type 0) → Run A → Type 0
IfDone P (done a) = P a
IfDone P _ = Unit

pub >>=-IfDone {ℓ κ} :
    {A : Type ℓ} {B : Type κ} (P : A → Type 0) (Q : B → Type 0) (m : Run A) (f : A → Run B)
    → IfDone P m
    → ((a : A) → P a → IfDone Q (f a))
    → IfDone Q (m >>= f)
>>=-IfDone P Q (done a) f h k = k a h
>>=-IfDone P Q panic f h k = tt
>>=-IfDone P Q out_of_fuel f h k = tt

pub IfDone-always {ℓ} : {A : Type ℓ} (P : A → Type 0) (m : Run A) → ((a : A) → P a) → IfDone P m
IfDone-always P (done a) f = f a
IfDone-always P panic f = tt
IfDone-always P out_of_fuel f = tt

pub IfDone-mono {ℓ} :
    {A : Type ℓ} (P Q : A → Type 0) (m : Run A) → ((a : A) → P a → Q a) → IfDone P m → IfDone Q m
IfDone-mono P Q (done a) f h = f a h
IfDone-mono P Q panic f h = tt
IfDone-mono P Q out_of_fuel f h = tt

pub done-inj {ℓ} : {A : Type ℓ} {a b : A} → Path (Run A) (done a) (done b) → a ≡ b
done-inj {A = A} {a = a} p = ap get p
  where
    get : Run A → A
    get (done x) = x
    get panic = a
    get out_of_fuel = a
