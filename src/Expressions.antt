-- ===== src/Expressions.antt =====
-- internal/graph/parser/cel.go: how CEL expressions are found in a text.
pub mod Scanning
pub mod Extraction
mod Examples
use kubernetes_resource_orch.Common.{
  ℕ, zero, suc, Bool, true, false, ◌&&◌, List, [], ◌∷◌, ◌++◌, Option, none, some, ◌==◌,
  if◌then◌else◌, length, Text, text_eq, Run, done, panic, out_of_fuel, ◌>>=◌, Result, ok, err,
}

pub data ErrNestedExpression : Type 0 where
  nested_expression : ErrNestedExpression

abbrev pub starts_with_brace : Text → Bool
starts_with_brace [] = false
starts_with_brace (c ∷ cs) = c == b'{'

-- What follows the first "${", if there is one.
unfoldable pub find_start : Text → Option Text
find_start [] = none
find_start (c ∷ []) = none
find_start (c ∷ d ∷ cs) =
    let rest = find_start (d ∷ cs) in if c == b'$' && d == b'{' then some cs else rest

-- What the inner loop comes to: the closing bracket with what stands before and behind it, the end
-- of the text, or a nested expression.
pub data Scan : Type 0 where
  closed : Text → Text → Scan
  incomplete nested : Scan

abbrev pub keep : ℕ → Scan → Scan
keep c (closed expr rest) = closed (c ∷ expr) rest
keep c incomplete = incomplete
keep c nested = nested

-- The inner loop, with one open bracket more than the counter says.
unfoldable pub scan_to_end : ℕ → Text → Scan
scan_to_end open_ [] = incomplete
scan_to_end open_ (c ∷ cs) =
    let deeper = keep c (scan_to_end (suc open_) cs) in
    let same = keep c (scan_to_end open_ cs) in
    let shallower : Scan = elim open_ [ zero ↦ closed [] cs | suc n ↦ keep c (scan_to_end n cs) ] in
    if c == b'{'
    then deeper
    else if c == b'}'
    then shallower
    else if c == b'$' && starts_with_brace cs
    then nested
    else same

abbrev pub after_scan :
    (List Text → Text → Run (Result ErrNestedExpression (List Text)))
    → List Text
    → Text
    → Scan
    → Run (Result ErrNestedExpression (List Text))
after_scan next expressions cs (closed expr rest) = next (expressions ++ expr ∷ []) rest
after_scan next expressions cs incomplete = next expressions cs
after_scan next expressions cs nested = done (err nested_expression)

abbrev pub after_start :
    (List Text → Text → Run (Result ErrNestedExpression (List Text)))
    → List Text
    → Text
    → Option Text
    → Run (Result ErrNestedExpression (List Text))
after_start next expressions cs none = done (ok expressions)
after_start next expressions cs (some rest) = after_scan next expressions cs (scan_to_end 0 rest)

-- The outer loop. An expression without an end is passed over one byte at a time.
unfoldable pub extract_loop : ℕ → List Text → Text → Run (Result ErrNestedExpression (List Text))
extract_loop fuel expressions [] = done (ok expressions)
extract_loop zero expressions (c ∷ cs) = out_of_fuel
extract_loop (suc fuel) expressions (c ∷ cs) =
    after_start (extract_loop fuel) expressions cs (find_start (c ∷ cs))

-- Each round takes a byte at least.
unfoldable pub extract_expressions : Text → Run (Result ErrNestedExpression (List Text))
extract_expressions str = extract_loop (length str) [] str

abbrev pub wrap : Text → Text
wrap expr = b'$' ∷ b'{' ∷ (expr ++ b'}' ∷ [])

abbrev pub is_only : Text → List Text → Bool
is_only str (expr ∷ []) = text_eq str (wrap expr)
is_only str _ = false

abbrev pub standalone_answer :
    Text → Result ErrNestedExpression (List Text) → Run (Result ErrNestedExpression Bool)
standalone_answer str (err e) = done (err e)
standalone_answer str (ok expressions) = done (ok (is_only str expressions))

unfoldable pub is_standalone_expression : Text → Run (Result ErrNestedExpression Bool)
is_standalone_expression str = extract_expressions str >>= standalone_answer str
