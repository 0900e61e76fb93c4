-- ===== src/Expressions/Scanning.antt =====
-- The search for the start and the end of an expression (internal/graph/parser/cel.go).
use kubernetes_resource_orch.Common.{
  ℕ, zero, suc, ◌≤◌, ◌<◌, ◌≡◌, refl, ap, Bool, true, false, not, ◌&&◌, Bool-cases, inl, inr, [],
  ◌∷◌, ◌++◌, none, some, ◌==◌, if◌then◌else◌, arith, length, Text, lacks,
}
use mathlib.Core.Option.{some-injective}
use kubernetes_resource_orch.Expressions.{
  starts_with_brace, find_start, Scan, closed, incomplete, nested, keep, scan_to_end,
}

pub find_start-length : (t rest : Text) → find_start t ≡ some rest → length rest < length t
unfolding find_start
find_start-length [] rest h = ground (arith, h)
find_start-length (c ∷ []) rest h = ground (arith, h)
find_start-length (c ∷ d ∷ cs) rest h = elim (Bool-cases (c == b'$' && d == b'{')) [
  | inl here ↦
      let same : cs ≡ rest = some-injective _ _ (ground (arith, h, here)) in
      omega (arith, ap length same)
  | inr other ↦ omega (arith, find_start-length (d ∷ cs) rest (ground (arith, h, other)))
]

abbrev pub rest_of : Scan → Text
rest_of (closed expr rest) = rest
rest_of _ = []

rest_of-keep : (c : ℕ) (s : Scan) → rest_of (keep c s) ≡ rest_of s
rest_of-keep c (closed expr rest) = refl
rest_of-keep c incomplete = refl
rest_of-keep c nested = refl

chosen_le :
    (is_open is_close is_start : Bool) (deeper shallower same : Scan) (n : ℕ)
    → length (rest_of deeper) ≤ n
    → length (rest_of shallower) ≤ n
    → length (rest_of same) ≤ n
    → length (
        rest_of (
          if is_open
          then deeper
          else if is_close
          then shallower
          else if is_start
          then nested
          else same))
      ≤ n
chosen_le true is_close is_start deeper shallower same n h k l = h
chosen_le false true is_start deeper shallower same n h k l = k
chosen_le false false true deeper shallower same n h k l = omega arith
chosen_le false false false deeper shallower same n h k l = l

-- What is left over after a scan is no longer than the text.
pub scan_to_end-length : (n : ℕ) (cs : Text) → length (rest_of (scan_to_end n cs)) ≤ length cs
unfolding scan_to_end
scan_to_end-length n [] = omega arith
scan_to_end-length n (c ∷ cs) =
    step
      (λ m. omega (arith, scan_to_end-length m cs, ap length (rest_of-keep c (scan_to_end m cs))))
  where
    shallow :
        (m : ℕ)
        → ((k : ℕ) → length (rest_of (keep c (scan_to_end k cs))) ≤ suc (length cs))
        → length (
            rest_of
              (elim m as (λ _. Scan) [ zero ↦ closed [] cs | suc k ↦ keep c (scan_to_end k cs) ]))
          ≤ suc (length cs)
    shallow zero below = omega arith
    shallow (suc m) below = below m

    step :
        ((k : ℕ) → length (rest_of (keep c (scan_to_end k cs))) ≤ suc (length cs))
        → length (rest_of (scan_to_end n (c ∷ cs))) ≤ suc (length cs)
    step below =
        chosen_le (c == b'{') (c == b'}') (c == b'$' && starts_with_brace cs)
          (keep c (scan_to_end (suc n) cs))
          (elim n as (λ _. Scan) [ zero ↦ closed [] cs | suc m ↦ keep c (scan_to_end m cs) ])
          (keep c (scan_to_end n cs)) (suc (length cs)) (below (suc n)) (shallow n below) (below n)

-- The brackets of the text match, at a depth, and no dollar stands in it.
unfoldable pub is_balanced : ℕ → Text → Bool
is_balanced zero [] = true
is_balanced (suc depth) [] = false
is_balanced depth (c ∷ cs) =
    let deeper = is_balanced (suc depth) cs in
    let same = is_balanced depth cs in
    let shallower : Bool = elim depth [ zero ↦ false | suc n ↦ is_balanced n cs ] in
    if c == b'{' then deeper else if c == b'}' then shallower else not (c == b'$') && same

pub scan_to_end-closed :
    (depth : ℕ) (expr rest : Text)
    → is_balanced depth expr ≡ true
    → scan_to_end depth (expr ++ b'}' ∷ rest) ≡ closed expr rest
unfolding is_balanced scan_to_end
scan_to_end-closed zero [] rest h = refl
scan_to_end-closed (suc depth) [] rest h = ground (arith, h)
scan_to_end-closed zero (c ∷ cs) rest h = elim (Bool-cases (c == b'{')) [
  | inl is ↦ rw (is, scan_to_end-closed 1 cs rest (ground (arith, h, is))) refl
  | inr not_open ↦ elim (Bool-cases (c == b'}')) [
    | inl is ↦ ground (arith, h, not_open, is)
    | inr not_close ↦
        let plain : (c == b'$') ≡ false = ground (arith, h, not_open, not_close) in
        rw
          (
            not_open,
            not_close,
            plain,
            scan_to_end-closed 0 cs rest (ground (arith, h, not_open, not_close)),
          )
          refl
  ]
]
scan_to_end-closed (suc depth) (c ∷ cs) rest h = elim (Bool-cases (c == b'{')) [
  | inl is ↦ rw (is, scan_to_end-closed (suc (suc depth)) cs rest (ground (arith, h, is))) refl
  | inr not_open ↦ elim (Bool-cases (c == b'}')) [
    | inl is ↦
        rw (not_open, is, scan_to_end-closed depth cs rest (ground (arith, h, not_open, is))) refl
    | inr not_close ↦
        let plain : (c == b'$') ≡ false = ground (arith, h, not_open, not_close) in
        rw
          (
            not_open,
            not_close,
            plain,
            scan_to_end-closed (suc depth) cs rest (ground (arith, h, not_open, not_close)),
          )
          refl
  ]
]

pub find_start-append :
    (t rest : Text) → lacks b'$' t ≡ true → find_start (t ++ b'$' ∷ b'{' ∷ rest) ≡ some rest
unfolding find_start lacks
find_start-append [] rest h = refl
find_start-append (c ∷ []) rest h = ground (arith, h)
find_start-append (c ∷ d ∷ cs) rest h = ground (arith, h, find_start-append (d ∷ cs) rest)

pub find_start-absent : (t : Text) → lacks b'$' t ≡ true → find_start t ≡ none
unfolding find_start lacks
find_start-absent [] h = refl
find_start-absent (c ∷ []) h = refl
find_start-absent (c ∷ d ∷ cs) h = ground (arith, h, find_start-absent (d ∷ cs))
