-- ===== src/Common/Quoting.antt =====
-- `strconv.Quote`, which `%q` writes, without the quotes: the runes of a string in UTF-8, with escapes
-- for quotes, backslashes, runes that are not printed and bytes that are no UTF-8.
use Prim.Native.Nat.{ℕ, zero, suc, ◌+◌, ◌-◌, ◌*◌, ◌/◌, ◌%◌}
use mathlib.Core.Path.{◌≡◌, refl}
use mathlib.Core.Bool.{Bool, true, not, ◌&&◌, ◌||◌}
use mathlib.Core.Option.{Option, none, some}
use mathlib.Core.List.{[], ◌∷◌, ◌++◌}
use native.Mathlib.Omega.{arith}
use kubernetes_resource_orch.Common.Tests.{ltb, leb, ◌==◌, if◌then◌else◌}
use kubernetes_resource_orch.Common.Texts.{Text, codes}
use kubernetes_resource_orch.Common.Printable.{is_print}

abbrev between : ℕ → ℕ → ℕ → Bool
between low high c = leb low c && leb c high

-- A rune and the number of its bytes behind the first, by the first byte and the rest.
decode_two : ℕ → Text → Option (ℕ × ℕ)
decode_two a [] = none
decode_two a (b ∷ _) = if between 128 191 b then some ((a - 192) * 64 + (b - 128), 1) else none

decode_three : ℕ → Text → Option (ℕ × ℕ)
decode_three a (b ∷ c ∷ _) =
    if between (if a == 224 then 160 else 128) (if a == 237 then 159 else 191) b
      && between 128 191 c
    then some (((a - 224) * 64 + (b - 128)) * 64 + (c - 128), 2)
    else none
decode_three a _ = none

decode_four : ℕ → Text → Option (ℕ × ℕ)
decode_four a (b ∷ c ∷ d ∷ _) =
    if between (if a == 240 then 144 else 128) (if a == 244 then 143 else 191) b
      && (between 128 191 c && between 128 191 d)
    then some ((((a - 240) * 64 + (b - 128)) * 64 + (c - 128)) * 64 + (d - 128), 3)
    else none
decode_four a _ = none

-- `utf8.DecodeRuneInString`; nothing where it answers `RuneError` and one byte.
unfoldable pub decode_rune : ℕ → Text → Option (ℕ × ℕ)
unfolding decode_two decode_three decode_four
decode_rune a rest =
    if ltb a 128
    then some (a, 0)
    else if between 194 223 a
    then decode_two a rest
    else if between 224 239 a
    then decode_three a rest
    else if between 240 244 a
    then decode_four a rest
    else none

abbrev hex_digit : ℕ → ℕ
hex_digit n = if ltb n 10 then 48 + n else 87 + n

-- The last digits of a number in base 16.
unfoldable pub hex : ℕ → ℕ → Text
hex zero n = []
hex (suc digits) n = hex digits (n / 16) ++ hex_digit (n % 16) ∷ []

-- A rune, with the bytes that it stands in.
unfoldable pub quote_rune : ℕ → Text → Text
unfolding hex
quote_rune r bytes =
    if r == b'"'
    then codes "\\\""
    else if r == b'\\'
    then codes "\\\\"
    else if is_print r
    then bytes
    else if r == 7
    then codes "\\a"
    else if r == 8
    then codes "\\b"
    else if r == 9
    then codes "\\t"
    else if r == 10
    then codes "\\n"
    else if r == 11
    then codes "\\v"
    else if r == 12
    then codes "\\f"
    else if r == 13
    then codes "\\r"
    else if ltb r 32 || r == 127
    then codes "\\x" ++ hex 2 r
    else if ltb r 65536
    then codes "\\u" ++ hex 4 r
    else codes "\\U" ++ hex 8 r

first_bytes : ℕ → Text → Text
first_bytes (suc n) (c ∷ cs) = c ∷ first_bytes n cs
first_bytes _ _ = []

quote_decoded : ℕ → Text → Option (ℕ × ℕ) → Text × ℕ
quote_decoded c cs none = (codes "\\x" ++ hex 2 c, 0)
quote_decoded c cs (some (r, more)) = (quote_rune r (c ∷ first_bytes more cs), more)

-- What is written for the rune at the front, and how many of the bytes behind the first it takes.
unfoldable pub quote_front : ℕ → Text → Text × ℕ
unfolding quote_decoded first_bytes hex
quote_front c cs = quote_decoded c cs (decode_rune c cs)

-- The counter says how many bytes of a rune are still to be passed over.
unfoldable pub quote_from : ℕ → Text → Text
quote_from skip [] = []
quote_from (suc skip) (c ∷ cs) = quote_from skip cs
quote_from zero (c ∷ cs) = (quote_front c cs).0 ++ quote_from (quote_front c cs).1 cs

unfoldable pub quote_bytes : Text → Text
quote_bytes t = quote_from 0 t

-- The bytes of ASCII that `%q` leaves as they are.
abbrev pub is_simple : ℕ → Bool
is_simple c = not (c == b'"') && not (c == b'\\') && leb 32 c && ltb c 127

quote_front-simple : (c : ℕ) (cs : Text) → is_simple c ≡ true → quote_front c cs ≡ (c ∷ [], 0)
unfolding quote_front decode_rune quote_rune quote_decoded first_bytes is_print
quote_front-simple c cs h = ground arith

pub quote_from-simple :
    (c : ℕ) (cs : Text) → is_simple c ≡ true → quote_from 0 (c ∷ cs) ≡ c ∷ quote_from 0 cs
unfolding quote_from
quote_from-simple c cs h = rw (quote_front-simple c cs h) refl
