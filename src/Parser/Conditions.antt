-- ===== src/Parser/Conditions.antt =====
-- internal/graph/parser/conditions.go: the conditions of a resource.
use kubernetes_resource_orch.Common.{
  not, ◌&&◌, if-true, if-false, ℕ, ◌≡◌, ◌↔◌, refl, sym, ap, ◌∙◌, Bool, true, false, inl, inr, List,
  [], ◌∷◌, ◌++◌, map, All, arith, Bool-cases, Text, Run, done, panic, out_of_fuel, ◌>>=◌, Result,
  ok, err, ok-inj, done-inj,
}
use kubernetes_resource_orch.Resolver.{in_cutset, trim_left, trim_right, trim_expression}
use kubernetes_resource_orch.Expressions.{ErrNestedExpression, is_standalone_expression, wrap}
use kubernetes_resource_orch.Expressions.Extraction.{is_standalone_expression-wrap}
use kubernetes_resource_orch.Expressions.Scanning.{is_balanced}
use kubernetes_resource_orch.Parser.{
  ParserError, ◌>>?◌, or_nested, add_condition, parse_condition_expressions,
}

abbrev pub IsStandalone : Text → Type 0
IsStandalone e = is_standalone_expression e ≡ done (ok true)

IsStandalone-parse :
    (conditions : List Text)
    → All IsStandalone conditions
    → parse_condition_expressions conditions ≡ done (ok (map trim_expression conditions))
unfolding parse_condition_expressions
IsStandalone-parse [] h = refl
IsStandalone-parse (e ∷ conditions) h = rw (h.0, IsStandalone-parse conditions h.1) refl

abbrev Expressions : Type 0
Expressions = Run (Result ParserError (List Text))

-- The first condition is standalone, and the others are parsed.
first_condition :
    (e : Text) (standalone : Run (Result ErrNestedExpression Bool)) (rest : Expressions)
    {es : List Text}
    → ((standalone >>= or_nested) >>? (λ is. add_condition e is rest)) ≡ done (ok es)
    → (more : List Text) × (standalone ≡ done (ok true))
      × (rest ≡ done (ok more))
      × (trim_expression e ∷ more ≡ es)
first_condition e (done (ok true)) (done (ok more)) h = (more, refl, refl, ok-inj (done-inj h))
first_condition e (done (ok true)) (done (err x)) h = cc
first_condition e (done (ok true)) panic h = cc
first_condition e (done (ok true)) out_of_fuel h = cc
first_condition e (done (ok false)) rest h = cc
first_condition e (done (err x)) rest h = cc
first_condition e panic rest h = cc
first_condition e out_of_fuel rest h = cc

parse-IsStandalone :
    (conditions : List Text) {es : List Text}
    → parse_condition_expressions conditions ≡ done (ok es)
    → All IsStandalone conditions × (es ≡ map trim_expression conditions)
unfolding parse_condition_expressions
parse-IsStandalone [] h = (tt, sym (ok-inj (done-inj h)))
parse-IsStandalone (e ∷ conditions) h =
    let (more, standalone, rest, joined) =
      first_condition e (is_standalone_expression e) (parse_condition_expressions conditions) h in
    let (all, same) = parse-IsStandalone conditions rest in
    ((standalone, all), sym joined ∙ ap (λ l. trim_expression e ∷ l) same)

-- `ParseConditionExpressions` accepts conditions exactly when each is a standalone expression, and
-- then returns each of them trimmed, in order.
pub parse_condition_expressions-IsStandalone :
    (conditions es : List Text)
    → (parse_condition_expressions conditions ≡ done (ok es))
      ↔ (All IsStandalone conditions × (es ≡ map trim_expression conditions))
parse_condition_expressions-IsStandalone conditions es = (
  parse-IsStandalone conditions,
  λ h. IsStandalone-parse conditions h.0 ∙ ap (λ l. done (ok l)) (sym h.1),
)

trim_right_end : (t : Text) (c : ℕ) → in_cutset c ≡ true → trim_right (t ++ c ∷ []) ≡ trim_right t
unfolding trim_right
trim_right_end [] c h = rw h refl
trim_right_end (d ∷ t) c h = rw (trim_right_end t c h) refl

trim_end :
    (t : Text) (c : ℕ)
    → in_cutset c ≡ true
    → trim_right (trim_left (t ++ c ∷ [])) ≡ trim_right (trim_left t)
unfolding trim_left trim_right
trim_end [] c h = rw h refl
trim_end (d ∷ t) c h = elim (Bool-cases (in_cutset d)) [
  | inl is ↦ rw is (trim_end t c h)
  | inr other ↦ rw other (trim_right_end (d ∷ t) c h)
]

trim-wrap : (e : Text) → trim_expression (wrap e) ≡ trim_expression e
unfolding trim_expression trim_left
trim-wrap e = trim_end e b'}' refl

-- Texts whose bytes at the front and at the end are not of the cutset.
abbrev pub starts_apart : Text → Bool
starts_apart [] = false
starts_apart (c ∷ cs) = not (in_cutset c)

abbrev pub ends_apart : Text → Bool
ends_apart [] = false
ends_apart (c ∷ []) = not (in_cutset c)
ends_apart (c ∷ d ∷ ds) = ends_apart (d ∷ ds)

abbrev pub all_in_cutset : Text → Bool
all_in_cutset [] = true
all_in_cutset (c ∷ cs) = in_cutset c && all_in_cutset cs

trim_right_tail : (tail : Text) → all_in_cutset tail ≡ true → trim_right tail ≡ []
unfolding trim_right
trim_right_tail [] h = refl
trim_right_tail (c ∷ cs) h =
    let is : in_cutset c ≡ true = ground (arith, h) in
    rw (trim_right_tail cs (ground (arith, h))) (if-true _ _ is)

-- The end goes, and the rest stays.
trim_right_core :
    (core tail : Text)
    → ends_apart core ≡ true
    → all_in_cutset tail ≡ true
    → trim_right (core ++ tail) ≡ core
unfolding trim_right
trim_right_core [] tail apart h = absurd (ground (arith, apart))
trim_right_core (c ∷ []) tail apart h =
    let other : in_cutset c ≡ false = ground (arith, apart) in
    rw (trim_right_tail tail h) (if-false _ _ other)
trim_right_core (c ∷ d ∷ ds) tail apart h = rw (trim_right_core (d ∷ ds) tail apart h) refl

trim_left_core :
    (core tail : Text) → starts_apart core ≡ true → trim_left (core ++ tail) ≡ core ++ tail
unfolding trim_left
trim_left_core [] tail h = absurd (ground (arith, h))
trim_left_core (c ∷ cs) tail h =
    let other : in_cutset c ≡ false = ground (arith, h) in if-false _ _ other

trim_brace :
    (core tail : Text)
    → starts_apart core ≡ true
    → ends_apart core ≡ true
    → all_in_cutset tail ≡ true
    → trim_expression (b'{' ∷ (core ++ tail)) ≡ core
unfolding trim_expression trim_left
trim_brace core tail first last h =
    ap trim_right (trim_left_core core tail first) ∙ trim_right_core core tail last h

-- `ParseConditionExpressions` takes more than the brackets of an expression away. A condition of "${",
-- an expression whose brackets match and that starts with a brace, and "}" comes back without that
-- brace, and without the braces at its end, such as the one that closes a map: what is left is the
-- text between them.
pub parse_condition_expressions-brace :
    (core tail : Text)
    → starts_apart core ≡ true
    → ends_apart core ≡ true
    → all_in_cutset tail ≡ true
    → is_balanced 0 (b'{' ∷ (core ++ tail)) ≡ true
    → parse_condition_expressions (wrap (b'{' ∷ (core ++ tail)) ∷ []) ≡ done (ok (core ∷ []))
parse_condition_expressions-brace core tail first last ends h =
    let e = b'{' ∷ (core ++ tail) in
    IsStandalone-parse (wrap e ∷ []) (is_standalone_expression-wrap e h, tt)
    ∙ ap (λ t. done (ok (t ∷ []))) (trim-wrap e ∙ trim_brace core tail first last ends)
