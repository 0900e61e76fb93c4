-- ===== src/Parser/Examples.antt =====
-- A deployment with expressions in it, and the theorems at it.
use kubernetes_resource_orch.Common.{
  quote_bytes, quote_from, quote_front, decode_rune, quote_rune, is_print, hex, ◌≡◌, ◌≢◌, ◌↔◌, refl,
  Bool, true, false, Option, none, some, List, [], ◌∷◌, All, map, Text, codes, lacks, decimal,
  lookup, done, ok, err, arith, pos, text_eq,
}
use kubernetes_resource_orch.Values.{
  Value, text, integer, array, object, nil, cons, end, field, get_field,
}
use kubernetes_resource_orch.Fieldpath.{Segment, new_named_segment, new_indexed_segment, parse}
use kubernetes_resource_orch.Fieldpath.Scan.{IsPlain}
use kubernetes_resource_orch.Fieldpath.Render.{all_simple}
use kubernetes_resource_orch.Resolver.{trim_expression, trim_left, trim_right}
use kubernetes_resource_orch.Expressions.{
  find_start, scan_to_end, extract_loop, extract_expressions, is_standalone_expression,
}
use kubernetes_resource_orch.Expressions.Scanning.{is_balanced}
use kubernetes_resource_orch.Parser.{
  ParsedField, not_a_single_type, parse_resource, parse_schemaless_resource,
  parse_schemaless_string, parse_condition_expressions, parse_fields, validate_schema,
  get_expected_type, get_field_schema, get_array_item_schema, preserves_unknown_fields,
  parse_object, parse_array, parse_string, parse_scalar_types, join_path_and_field_name,
}
use kubernetes_resource_orch.Parser.OpenApi.{
  Schema, schema, no_more, property, no_additional, additional, no_schema, to_schema, find_property,
}
use kubernetes_resource_orch.Parser.Strings.{strings, path_onto}
use kubernetes_resource_orch.Parser.Written.{AreWritten, plain, quoted, index}
use kubernetes_resource_orch.Parser.Paths.{parse-path_of}
use kubernetes_resource_orch.Parser.Sources.{
  HasDistinctKeys, LeadsTo, parse_schemaless_resource-LeadsTo,
}
use kubernetes_resource_orch.Parser.Agreement.{FindsAlike, parse_resource-FindsAlike}
use kubernetes_resource_orch.Parser.Strictness.{IsStrict, PointerIsStrict}
use kubernetes_resource_orch.Parser.Conditions.{
  IsStandalone, parse_condition_expressions-IsStandalone, parse_condition_expressions-brace,
}
use kubernetes_resource_orch.Parser.Refusals.{parse_fields-allowed}

abbrev image_path : List Segment
image_path =
    new_named_segment (codes "spec")
    ∷ new_named_segment (codes "app.io/tags")
    ∷ new_indexed_segment (pos 12)
    ∷ new_named_segment (codes "image")
    ∷ []

name-IsPlain :
    (name : Text) → name ≢ [] → lacks b'.' name ≡ true → lacks b'[' name ≡ true → IsPlain name
name-IsPlain name a b c = record { ne_nil = a; no_dot = b; no_bracket = c }

written : AreWritten image_path
unfolding lacks all_simple
written = (
  plain (name-IsPlain (codes "spec") (λ e. cc e) refl refl) (λ e. omega arith),
  (
    quoted refl refl,
    (
      index (omega arith),
      (plain (name-IsPlain (codes "image") (λ e. cc e) refl refl) (λ e. omega arith), tt),
    ),
  ),
)

parse-path_of_example : parse (codes "spec[\"app.io/tags\"][12].image") ≡ done (ok image_path)
unfolding path_onto join_path_and_field_name lacks decimal quote_bytes quote_from quote_front
    decode_rune quote_rune is_print hex
parse-path_of_example = parse-path_of image_path written

abbrev container : Value
container = object (field (codes "image") (text (codes "${app.image}")) end)

abbrev deployment : Value
deployment = object (
    field (codes "name") (text (codes "web-${app.name}")) (
      field (codes "replicas") (integer (pos 3))
        (field (codes "containers") (array (cons container nil)) end)))

abbrev text_schema : Schema
text_schema = schema (codes "string" ∷ []) [] no_more no_additional no_schema []

abbrev integer_schema : Schema
integer_schema = schema (codes "integer" ∷ []) [] no_more no_additional no_schema []

abbrev container_schema : Schema
container_schema =
    schema (codes "object" ∷ []) [] (property (codes "image") text_schema no_more) no_additional
      no_schema []

abbrev deployment_schema : Schema
deployment_schema =
    schema (codes "object" ∷ []) []
      (property (codes "name") text_schema (
        property (codes "replicas") integer_schema (
          property (codes "containers")
            (schema (codes "array" ∷ []) [] no_more no_additional (to_schema container_schema) [])
            no_more)))
      no_additional no_schema []

abbrev parsed : Text → Text → Text → Bool → Option Schema → ParsedField
parsed path expr expected_type standalone s = record {
  descriptor = record {
    path = path;
    expressions = expr ∷ [];
    expected_type = expected_type;
    standalone_expression = standalone;
  };
  expected_schema = s;
}

abbrev found : List ParsedField
found =
    parsed (codes "name") (codes "app.name") (codes "string") false none
    ∷ parsed (codes "containers[0].image") (codes "app.image") (codes "string") true
        (some text_schema)
    ∷ []

abbrev found_schemaless : List ParsedField
found_schemaless =
    parsed (codes "name") (codes "app.name") (codes "any") false none
    ∷ parsed (codes "containers[0].image") (codes "app.image") (codes "any") true none
    ∷ []

with_schema : parse_resource deployment (to_schema deployment_schema) [] ≡ done (ok found)
unfolding parse_resource validate_schema get_expected_type parse_object parse_array parse_string
    parse_scalar_types preserves_unknown_fields get_field_schema get_array_item_schema find_property
    join_path_and_field_name is_standalone_expression extract_expressions extract_loop find_start
    scan_to_end trim_expression trim_left trim_right lookup text_eq lacks decimal
with_schema = refl

without_schema : parse_schemaless_resource deployment [] ≡ done (ok found_schemaless)
unfolding parse_schemaless_resource parse_schemaless_string join_path_and_field_name
    is_standalone_expression extract_expressions extract_loop find_start scan_to_end trim_expression
    trim_left trim_right text_eq lacks decimal
without_schema = refl

strict : PointerIsStrict (to_schema deployment_schema)
unfolding IsStrict PointerIsStrict preserves_unknown_fields lookup
strict = (
  refl,
  (
    (refl, tt, tt, tt),
    ((refl, tt, tt, tt), ((refl, tt, tt, (refl, ((refl, tt, tt, tt), tt), tt, tt)), tt)),
  ),
  tt,
  tt,
)

parse_resource-FindsAlike_example : FindsAlike found (parse_schemaless_resource deployment [])
parse_resource-FindsAlike_example =
    parse_resource-FindsAlike deployment (to_schema deployment_schema) [] found strict with_schema

distinct : HasDistinctKeys deployment
unfolding HasDistinctKeys get_field text_eq
distinct = (refl, tt, (refl, tt, (refl, ((refl, tt, tt), tt), tt)))

deployment-AreWritten : All (λ p. AreWritten p.0) (strings deployment)
unfolding strings lacks
deployment-AreWritten = (
  (plain (name-IsPlain (codes "name") (λ e. cc e) refl refl) (λ e. omega arith), tt),
  (
    (
      plain (name-IsPlain (codes "containers") (λ e. cc e) refl refl) (λ e. cc e),
      (
        index (omega arith),
        (plain (name-IsPlain (codes "image") (λ e. cc e) refl refl) (λ e. omega arith), tt),
      ),
    ),
    tt,
  ),
)

parse_schemaless_resource-LeadsTo_example :
    All (λ f. LeadsTo deployment f.descriptor) found_schemaless
parse_schemaless_resource-LeadsTo_example =
    parse_schemaless_resource-LeadsTo deployment found_schemaless distinct deployment-AreWritten
      without_schema

parse_condition_expressions-IsStandalone_example :
    (parse_condition_expressions (codes "${a > 1}" ∷ codes "b" ∷ []) ≡ done (ok [])) ↔ (
      All IsStandalone (codes "${a > 1}" ∷ codes "b" ∷ [])
      × ([] ≡ map trim_expression (codes "${a > 1}" ∷ codes "b" ∷ [])))
parse_condition_expressions-IsStandalone_example =
    parse_condition_expressions-IsStandalone (codes "${a > 1}" ∷ codes "b" ∷ []) []

parse_condition_expressions-brace_example :
    parse_condition_expressions (codes "${{'a': x}}" ∷ []) ≡ done (ok (codes "'a': x" ∷ []))
unfolding is_balanced
parse_condition_expressions-brace_example =
    parse_condition_expressions-brace (codes "'a': x") (codes "}") refl refl refl refl

abbrev open_schema : Schema
open_schema = schema (codes "object" ∷ []) [] no_more (additional true no_schema) no_schema []

parse_fields-allowed_example :
    parse_fields (field (codes "color") (text (codes "red")) end) open_schema []
    ≡ done (err not_a_single_type)
unfolding find_property
parse_fields-allowed_example =
    parse_fields-allowed (codes "color") (text (codes "red")) end open_schema [] refl refl
