-- ===== src/Common/Decimals.antt =====
-- Go's `int` and its decimal text: `%d`, and `strconv.Atoi` on a 64-bit platform.
use Prim.Native.Nat.{ℕ, zero, suc, ◌+◌, ◌-◌, ◌*◌, ◌/◌, ◌%◌, ◌^◌, ◌≤◌, ◌<◌}
use mathlib.Core.Path.{◌≡◌, refl, subst}
use mathlib.Core.Logic.{inl, inr}
use mathlib.Core.Bool.{Bool, true, false, not, ◌&&◌}
use mathlib.Core.Option.{Option, none, some}
use mathlib.Core.List.{[], ◌∷◌, ◌++◌}
use native.Mathlib.Omega.{arith}
use kubernetes_resource_orch.Common.Tests.{ltb, leb, ◌==◌, if◌then◌else◌, Bool-cases}
use kubernetes_resource_orch.Common.Texts.{Text}

-- `negsuc n` is -(n + 1).
pub data ℤ : Type 0 where
  pos : ℕ → ℤ
  negsuc : ℕ → ℤ

abbrev pub int_max : ℕ
int_max = 2 ^ 63 - 1

-- The digits of a number. The fuel is more than the number.
decimal_fuel : ℕ → ℕ → Text
decimal_fuel zero n = []
decimal_fuel (suc f) n =
    let front = decimal_fuel f (n / 10) in
    if ltb n 10 then (48 + n) ∷ [] else front ++ (48 + n % 10) ∷ []

unfoldable pub decimal : ℕ → Text
unfolding decimal_fuel
decimal n = decimal_fuel (suc n) n

-- `%d`
unfoldable pub format_int : ℤ → Text
unfolding decimal
format_int (pos n) = decimal n
format_int (negsuc n) = b'-' ∷ decimal (suc n)

abbrev pub is_digit : ℕ → Bool
is_digit c = leb b'0' c && leb c b'9'

-- The value of a run of digits behind those that make `acc`.
unfoldable pub digits_onto : ℕ → Text → Option ℕ
digits_onto acc [] = some acc
digits_onto acc (c ∷ cs) =
    let rest = digits_onto (acc * 10 + (c - 48)) cs in if is_digit c then rest else none

-- At least one digit is wanted.
abbrev unsigned : Text → Option ℕ
unsigned [] = none
unsigned (c ∷ cs) = digits_onto 0 (c ∷ cs)

abbrev in_range : Bool → Option ℕ → Option ℤ
in_range negative none = none
in_range false (some n) = if leb n int_max then some (pos n) else none
in_range true (some zero) = some (pos 0)
in_range true (some (suc n)) = if leb n int_max then some (negsuc n) else none

unfoldable pub atoi : Text → Option ℤ
atoi [] = none
atoi (c ∷ cs) =
    if c == b'-'
    then in_range true (unsigned cs)
    else if c == b'+'
    then in_range false (unsigned cs)
    else in_range false (unsigned (c ∷ cs))

abbrev bind_digit : Option ℕ → ℕ → Option ℕ
bind_digit none c = none
bind_digit (some acc) c = if is_digit c then some (acc * 10 + (c - 48)) else none

digits_onto-concat :
    (acc : ℕ) (xs : Text) (c : ℕ)
    → digits_onto acc (xs ++ c ∷ []) ≡ bind_digit (digits_onto acc xs) c
unfolding digits_onto
digits_onto-concat acc [] c = refl
digits_onto-concat acc (x ∷ xs) c = ground (arith, digits_onto-concat (acc * 10 + (x - 48)) xs c)

digits_onto-decimal_fuel : (f n : ℕ) → n < f → digits_onto 0 (decimal_fuel f n) ≡ some n
unfolding decimal_fuel
digits_onto-decimal_fuel zero n h = absurd (omega arith)
digits_onto-decimal_fuel (suc f) n h = ground (
  arith,
  digits_onto-concat 0 [] (48 + n),
  digits_onto-concat 0 (decimal_fuel f (n / 10)) (48 + n % 10),
  digits_onto-decimal_fuel f (n / 10),
  digits_zero,
)
  where
    digits_zero : digits_onto 0 [] ≡ some 0
    digits_zero = unfold digits_onto in refl

unfoldable pub all_digits : Text → Bool
all_digits [] = true
all_digits (c ∷ cs) = is_digit c && all_digits cs

-- No byte `b` stands in the text.
unfoldable pub lacks : ℕ → Text → Bool
lacks b [] = true
lacks b (c ∷ cs) = not (c == b) && lacks b cs

pub lacks-append : (b : ℕ) (s t : Text) → lacks b (s ++ t) ≡ (lacks b s && lacks b t)
unfolding lacks
lacks-append b [] t = refl
lacks-append b (c ∷ s) t = ground (arith, lacks-append b s t)

all_digits-append : (s t : Text) → all_digits (s ++ t) ≡ (all_digits s && all_digits t)
unfolding all_digits
all_digits-append [] t = refl
all_digits-append (c ∷ s) t = ground (arith, all_digits-append s t)

pub all_digits-lacks :
    (b : ℕ) (t : Text) → is_digit b ≡ false → all_digits t ≡ true → lacks b t ≡ true
unfolding all_digits lacks
all_digits-lacks b [] h k = refl
all_digits-lacks b (c ∷ t) h k = ground (arith, all_digits-lacks b t h)

all_digits-decimal_fuel : (f n : ℕ) → all_digits (decimal_fuel f n) ≡ true
unfolding all_digits decimal_fuel
all_digits-decimal_fuel zero n = refl
all_digits-decimal_fuel (suc f) n = ground (
  arith,
  all_digits-decimal_fuel f (n / 10),
  all_digits-append (decimal_fuel f (n / 10)) ((48 + n % 10) ∷ []),
)

concat_cases : (xs : Text) (x : ℕ) → (c : ℕ) × (cs : Text) × (xs ++ x ∷ [] ≡ c ∷ cs)
concat_cases [] x = (x, [], refl)
concat_cases (y ∷ ys) x = (y, ys ++ x ∷ [], refl)

-- The text of a number is one digit or more.
pub decimal_cases :
    (n : ℕ) → (c : ℕ) × (cs : Text) × (decimal n ≡ c ∷ cs) × (all_digits (c ∷ cs) ≡ true)
unfolding decimal
decimal_cases n = elim (Bool-cases (ltb n 10)) [
  | inl low ↦ (48 + n, [], rw low, unfold all_digits in ground arith)
  | inr high ↦
      let (c, cs, e) = concat_cases (decimal_fuel n (n / 10)) (48 + n % 10) in
      let split : decimal_fuel (suc n) n ≡ c ∷ cs = rw high e in
      (c, cs, split, subst (λ t. all_digits t ≡ true) split (all_digits-decimal_fuel (suc n) n))
]

-- `Atoi` reads back what `%d` writes of a number that fits in an `int`.
pub atoi-decimal : (n : ℕ) → n ≤ int_max → atoi (decimal n) ≡ some (pos n)
atoi-decimal n h =
    let (c, cs, e, d) = decimal_cases n in
    rw e (unfold atoi all_digits in ground (arith, value c cs e))
  where
    value : (c : ℕ) (cs : Text) → decimal n ≡ c ∷ cs → digits_onto 0 (c ∷ cs) ≡ some n
    value c cs e =
        subst (λ t. digits_onto 0 t ≡ some n) e
          (unfold decimal in digits_onto-decimal_fuel (suc n) n (omega arith))
