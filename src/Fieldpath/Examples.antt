-- ===== src/Fieldpath/Examples.antt =====
-- Paths of the tests, and the theorems at them.
use kubernetes_resource_orch.Common.{
  ◌↔◌, ℕ, ◌++◌, quote_bytes, quote_from, quote_front, decode_rune, quote_rune, is_print, hex, ◌≡◌,
  refl, true, List, [], ◌∷◌, codes, done, out_of_fuel, ok, err, pos, format_int, atoi, digits_onto,
  lacks, arith,
}
use kubernetes_resource_orch.Fieldpath.{
  Segment, unterminated_index, new_named_segment, new_indexed_segment, parse, parse_loop,
  parse_round, parse_field, parse_index, parse_quoted_field, parse_unquoted_field,
  parse_array_index, split_at, skip_dot, build, build_onto, write_segment, ends_with_bracket,
}
use kubernetes_resource_orch.Fieldpath.Progress.{LeavesByte, parse-Hangs}
use kubernetes_resource_orch.Fieldpath.Scan.{IsPlain}
use kubernetes_resource_orch.Fieldpath.Hanging.{parse_loop-dotted}
use kubernetes_resource_orch.Fieldpath.Render.{all_simple, plain, quoted, index, AreSegments}
use kubernetes_resource_orch.Fieldpath.RoundTrip.{parse-build}

program : Unit {0}
unfolding parse parse_loop parse_round parse_field parse_index parse_quoted_field
    parse_unquoted_field parse_array_index split_at skip_dot build build_onto write_segment
    ends_with_bracket quote_bytes quote_from quote_front decode_rune quote_rune is_print hex
    format_int atoi digits_onto lacks all_simple
program = tt

abbrev segments : List Segment
segments =
    new_named_segment (codes "spec")
    ∷ new_named_segment (codes "my.field")
    ∷ new_indexed_segment (pos 10)
    ∷ new_named_segment (codes "items")
    ∷ []

parse-quoted : parse (codes "spec[\"my.field\"][10].items") ≡ done (ok segments)
unfolding program
parse-quoted = refl

parse_unterminated : parse (codes "items[1") ≡ done (err unterminated_index)
unfolding program
parse_unterminated = refl

-- An index of -1 reads as a segment with an empty name.
parse_minus_one :
    parse (codes "items[-1]")
    ≡ done (ok (new_named_segment (codes "items") ∷ new_named_segment [] ∷ []))
unfolding program
parse_minus_one = refl

build_dotted : build segments ≡ codes "spec.[\"my.field\"][10]items"
unfolding program
build_dotted = refl

-- A no-break space is escaped, a letter with an accent is not, and a byte that is no UTF-8 is.
quote_bytes-runes :
    quote_bytes (codes "a." ++ 194 ∷ 160 ∷ 195 ∷ 169 ∷ 255 ∷ [])
    ≡ codes "a.\\u00a0" ++ 195 ∷ 169 ∷ codes "\\xff"
unfolding program
quote_bytes-runes = refl

segments-AreSegments : AreSegments segments
unfolding lacks all_simple
segments-AreSegments = (
  plain (record { ne_nil = λ e. ground (arith, e); no_dot = refl; no_bracket = refl }) refl
      (λ e. omega arith),
  (
    quoted refl refl,
    (
      index (omega arith),
      (
        plain (record { ne_nil = λ e. ground (arith, e); no_dot = refl; no_bracket = refl }) refl
            (λ e. omega arith),
        tt,
      ),
    ),
  ),
)

parse-build_example : parse (build segments) ≡ done (ok segments)
parse-build_example = parse-build segments segments-AreSegments

parse-one_byte : parse (codes "x") ≡ out_of_fuel
unfolding program
parse-one_byte = refl

parse-Hangs_example :
    ((parse (codes "x") ≡ out_of_fuel) ↔ LeavesByte (codes "x"))
    × (LeavesByte (codes "x") → (fuel : ℕ) → parse_loop fuel [] (codes "x") ≡ out_of_fuel)
parse-Hangs_example = parse-Hangs (codes "x")

IsPlain-field : IsPlain (codes "spec")
unfolding lacks
IsPlain-field = record { ne_nil = λ e. ground (arith, e); no_dot = refl; no_bracket = refl }

parse_loop-dotted_example : parse_loop 1000 [] (codes "spec.x") ≡ out_of_fuel
parse_loop-dotted_example =
    parse_loop-dotted (codes "spec" ∷ []) b'x' (IsPlain-field, tt) (λ e. omega arith)
      (λ e. omega arith) 1000

IsPlain-containers : IsPlain (codes "containers")
unfolding lacks
IsPlain-containers = record { ne_nil = λ e. ground (arith, e); no_dot = refl; no_bracket = refl }

no_bracket : lacks b']' (codes "containers") ≡ true
unfolding lacks
no_bracket = refl
