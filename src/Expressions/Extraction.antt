-- ===== src/Expressions/Extraction.antt =====
-- internal/graph/parser/cel.go: which expressions are found.
use kubernetes_resource_orch.Common.{
  ℕ, zero, suc, ◌≤◌, ◌<◌, ◌≡◌, refl, sym, ap, ◌∙◌, true, List, [], ◌∷◌, ◌++◌, Option, none, some,
  All, arith, length, length-append, Text, text_eq_refl, lacks, Run, done, panic, out_of_fuel,
  Returns, Result, ok,
}
use mathlib.Core.List.{append_assoc, append-nil}
use kubernetes_resource_orch.Expressions.{
  ErrNestedExpression, find_start, Scan, closed, incomplete, nested, scan_to_end, after_scan,
  after_start, extract_loop, extract_expressions, wrap, is_standalone_expression,
}
use kubernetes_resource_orch.Expressions.Scanning.{
  find_start-length, rest_of, scan_to_end-length, is_balanced, scan_to_end-closed,
  find_start-append, find_start-absent,
}

abbrev Outcome : Result ErrNestedExpression (List Text) → Type 0
Outcome _ = Unit

extract_loop-Returns :
    (fuel : ℕ) (expressions : List Text) (t : Text)
    → length t ≤ fuel
    → Returns Outcome (extract_loop fuel expressions t)
unfolding extract_loop
extract_loop-Returns zero expressions [] h = tt
extract_loop-Returns (suc fuel) expressions [] h = tt
extract_loop-Returns zero expressions (c ∷ cs) h = ground (arith, h)
extract_loop-Returns (suc fuel) expressions (c ∷ cs) h =
    started (λ acc t k. extract_loop-Returns fuel acc t k) (find_start (c ∷ cs))
      (find_start-length (c ∷ cs))
  where
    ended :
        ((acc : List Text) (t : Text) → length t ≤ fuel → Returns Outcome (extract_loop fuel acc t))
        → (s : Scan) → length (rest_of s) ≤ fuel
        → Returns Outcome (after_scan (extract_loop fuel) expressions cs s)
    ended later (closed expr rest) k = later (expressions ++ expr ∷ []) rest k
    ended later incomplete k = later expressions cs (omega (arith, h))
    ended later nested k = tt

    started :
        ((acc : List Text) (t : Text) → length t ≤ fuel → Returns Outcome (extract_loop fuel acc t))
        → (m : Option Text) → ((rest : Text) → m ≡ some rest → length rest < length (c ∷ cs))
        → Returns Outcome (after_start (extract_loop fuel) expressions cs m)
    started later none k = tt
    started later (some rest) k =
        ended later (scan_to_end 0 rest) (omega (arith, h, k rest refl, scan_to_end-length 0 rest))

returned {ℓ} : {A : Type ℓ} (m : Run A) → Returns (λ _. Unit {0}) m → (r : A) × (m ≡ done r)
returned (done r) h = (r, refl)
returned panic h = absurd h
returned out_of_fuel h = absurd h

-- `extractExpressions` comes to an end on every text: its length bounds the rounds of the loop.
pub extract_expressions-done :
    (str : Text) → (r : Result ErrNestedExpression (List Text)) × (extract_expressions str ≡ done r)
unfolding extract_expressions
extract_expressions-done str = returned _ (extract_loop-Returns (length str) [] str (omega arith))

-- A text with expressions in it, each behind a plain text, and a plain text at the end.
abbrev pub join : List (Text × Text) → Text → Text
join [] tail = tail
join ((plain, expr) ∷ pieces) tail = plain ++ b'$' ∷ b'{' ∷ (expr ++ b'}' ∷ join pieces tail)

abbrev pub expressions_of : List (Text × Text) → List Text
expressions_of [] = []
expressions_of ((plain, expr) ∷ pieces) = expr ∷ expressions_of pieces

abbrev pub IsPiece : Text × Text → Type 0
IsPiece (plain, expr) = (lacks b'$' plain ≡ true) × (is_balanced 0 expr ≡ true)

extract_loop-plain :
    (fuel : ℕ) (acc : List Text) (t : Text)
    → lacks b'$' t ≡ true
    → length t ≤ fuel
    → extract_loop fuel acc t ≡ done (ok acc)
unfolding extract_loop
extract_loop-plain zero acc [] h k = refl
extract_loop-plain (suc fuel) acc [] h k = refl
extract_loop-plain zero acc (c ∷ cs) h k = ground (arith, k)
extract_loop-plain (suc fuel) acc (c ∷ cs) h k = rw (find_start-absent (c ∷ cs) h) refl

-- A round that finds an expression.
extract_loop-found :
    (fuel : ℕ) (acc : List Text) (t rest expr more : Text)
    → find_start t ≡ some rest
    → scan_to_end 0 rest ≡ closed expr more
    → extract_loop (suc fuel) acc t ≡ extract_loop fuel (acc ++ expr ∷ []) more
unfolding extract_loop find_start
extract_loop-found fuel acc [] rest expr more h k = ground (arith, h)
extract_loop-found fuel acc (c ∷ cs) rest expr more h k = rw (h, k) refl

extract_loop-join :
    (pieces : List (Text × Text)) (tail : Text) (fuel : ℕ) (acc : List Text)
    → All IsPiece pieces
    → lacks b'$' tail ≡ true
    → length (join pieces tail) ≤ fuel
    → extract_loop fuel acc (join pieces tail) ≡ done (ok (acc ++ expressions_of pieces))
extract_loop-join [] tail fuel acc good plain h =
    extract_loop-plain fuel acc tail plain h ∙ ap (λ l. done (ok l)) (sym (append-nil acc))
extract_loop-join ((before, expr) ∷ pieces) tail zero acc (good, rest) plain h =
    ground (arith, h, length-append before (b'$' ∷ b'{' ∷ (expr ++ b'}' ∷ join pieces tail)))
extract_loop-join ((before, expr) ∷ pieces) tail (suc fuel) acc (good, rest) plain h =
    extract_loop-found fuel acc _ _ expr (join pieces tail)
      (find_start-append before (expr ++ b'}' ∷ join pieces tail) good.0)
      (scan_to_end-closed 0 expr (join pieces tail) good.1)
    ∙ extract_loop-join pieces tail fuel (acc ++ expr ∷ []) rest plain (
        omega (
          arith,
          h,
          length-append before (b'$' ∷ b'{' ∷ (expr ++ b'}' ∷ join pieces tail)),
          length-append expr (b'}' ∷ join pieces tail),
        ))
    ∙ ap (λ l. done (ok l)) (append_assoc acc (expr ∷ []) (expressions_of pieces))

-- In a text of plain pieces without a dollar and of expressions without one, whose brackets match,
-- `extractExpressions` finds just the expressions, in order.
pub extract_expressions-join :
    (pieces : List (Text × Text)) (tail : Text)
    → All IsPiece pieces
    → lacks b'$' tail ≡ true
    → extract_expressions (join pieces tail) ≡ done (ok (expressions_of pieces))
unfolding extract_expressions
extract_expressions-join pieces tail good plain =
    extract_loop-join pieces tail (length (join pieces tail)) [] good plain (omega arith)

-- "${", an expression without a dollar whose brackets match, and "}" are a standalone expression.
pub is_standalone_expression-wrap :
    (expr : Text)
    → is_balanced 0 expr ≡ true
    → is_standalone_expression (wrap expr) ≡ done (ok true)
unfolding is_standalone_expression lacks
is_standalone_expression-wrap expr good =
    rw (extract_expressions-join (([], expr) ∷ []) [] ((refl, good), tt) refl)
      (ap (λ b. done (ok b)) (text_eq_refl (wrap expr)))
