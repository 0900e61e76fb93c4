-- ===== src/Parser.antt =====
-- internal/graph/parser: the walk over a resource that collects the fields with expressions, with a
-- schema (parser.go) and without one (schemaless.go), and the conditions of a resource
-- (conditions.go).
pub mod OpenApi
pub mod Strings
pub mod Written
pub mod Paths
pub mod Sources
pub mod Strictness
pub mod Agreement
pub mod Conditions
pub mod Refusals
mod Examples
use kubernetes_resource_orch.Common.{
  quote_bytes, ℕ, zero, suc, Bool, true, false, not, ◌&&◌, ◌||◌, List, [], ◌∷◌, ◌++◌, Option, none,
  some, if◌then◌else◌, Text, text_eq, codes, lacks, is_empty_text, decimal, lookup, Run, done,
  panic, out_of_fuel, ◌>>=◌, Result, ok, err,
}
use kubernetes_resource_orch.Values.{
  Value, null, bool, integer, float, text, array, object, Items, nil, cons, Fields, end, field,
}
use kubernetes_resource_orch.Resolver.{FieldDescriptor, trim_expression}
use kubernetes_resource_orch.Expressions.{
  ErrNestedExpression, extract_expressions, is_standalone_expression,
}
use kubernetes_resource_orch.Parser.OpenApi.{
  Schema, SchemaPointer, no_schema, to_schema, Additional, no_additional, additional, Extension,
  flag, other_extension, find_property, types_of, one_of, properties_of, additional_of, items_of,
  extensions_of, set_type, empty_schema,
}

-- A descriptor with the schema that is expected. The schema is the value that the pointer leads to
-- when the field is met.
pub record ParsedField : Type 0 where
  pub descriptor : FieldDescriptor
  pub expected_schema : Option Schema

pub data ParserError : Type 0 where
  nil_schema not_a_single_type expected_object field_schema_missing expected_array invalid_array
        expected_string expected_number expected_integer expected_boolean unexpected_type
        only_standalone :
      ParserError
  nested : ErrNestedExpression → ParserError

-- `v, err := m; if err != nil { return nil, err }; f(v)`
infixl 5 ◌>>?◌
abbrev pub ◌>>?◌ {ℓ κ} :
    {A : Type ℓ} {B : Type κ}
    → Run (Result ParserError A)
    → (A → Run (Result ParserError B))
    → Run (Result ParserError B)
done (ok a) >>? f = f a
done (err e) >>? f = done (err e)
panic >>? f = panic
out_of_fuel >>? f = out_of_fuel

abbrev pub or_nested {ℓ} : {A : Type ℓ} → Result ErrNestedExpression A → Run (Result ParserError A)
or_nested (ok a) = done (ok a)
or_nested (err e) = done (err (nested e))

-- The schema with the type that the code sets in it. `schema.OneOf[0].Type[0]` panics if the first
-- schema has no type.
abbrev first_type : Schema → List (List Text) → Run (Result ParserError Schema)
first_type s [] = done (err not_a_single_type)
first_type s ([] ∷ more) = panic
first_type s ((t ∷ ts) ∷ more) = done (ok (set_type t s))

abbrev single_type : Schema → List Text → Run (Result ParserError Schema)
single_type s (t ∷ []) = done (ok s)
single_type s _ = first_type s (one_of s)

unfoldable pub validate_schema : SchemaPointer → Run (Result ParserError Schema)
validate_schema no_schema = done (err nil_schema)
validate_schema (to_schema s) = single_type s (types_of s)

-- `schema.AdditionalProperties != nil && schema.AdditionalProperties.Allows`
abbrev pub allows : Additional → Bool
allows no_additional = false
allows (additional b s) = b

-- Only called on a schema with a type.
abbrev expected_from : Additional → List Text → Text
expected_from a [] = []
expected_from a (t ∷ ts) = if not (is_empty_text t) then t else if allows a then codes "any" else []

unfoldable pub get_expected_type : Schema → Text
get_expected_type s = expected_from (additional_of s) (types_of s)

abbrev additional_schema : Additional → Result ParserError Schema
additional_schema no_additional = err field_schema_missing
additional_schema (additional b (to_schema s)) = ok s
additional_schema (additional true no_schema) = ok empty_schema
additional_schema (additional false no_schema) = err field_schema_missing

abbrev property_or : Additional → Option Schema → Result ParserError Schema
property_or a (some s) = ok s
property_or a none = additional_schema a

unfoldable pub get_field_schema : Schema → Text → Result ParserError Schema
get_field_schema s name = property_or (additional_of s) (find_property name (properties_of s))

-- The second `if` of `getArrayItemSchema` asks for what the first one has returned on already.
abbrev item_schema : SchemaPointer → Result ParserError Schema
item_schema (to_schema s) = ok s
item_schema no_schema = err invalid_array

unfoldable pub get_array_item_schema : Schema → Result ParserError Schema
get_array_item_schema s = item_schema (items_of s)

unfoldable pub join_path_and_field_name : Text → Text → Text
join_path_and_field_name path name =
    if is_empty_text name || not (lacks b'.' name)
    then path ++ b'[' ∷ b'"' ∷ (quote_bytes name ++ b'"' ∷ b']' ∷ [])
    else if is_empty_text path
    then name
    else path ++ b'.' ∷ name

-- `fmt.Sprintf("%s[%d]", path, i)`
abbrev pub join_index : Text → ℕ → Text
join_index path i = path ++ b'[' ∷ (decimal i ++ b']' ∷ [])

abbrev pub Found : Type 0
Found = Run (Result ParserError (List ParsedField))

abbrev standalone_field : Text → Schema → Text → Text → ParsedField
standalone_field s sch path expected_type = record {
  descriptor = record {
    path = path;
    expressions = trim_expression s ∷ [];
    expected_type = expected_type;
    standalone_expression = true;
  };
  expected_schema = some sch;
}

abbrev embedded_fields : Text → Text → List Text → List ParsedField
embedded_fields path expected_type [] = []
embedded_fields path expected_type (e ∷ es) =
    record {
      descriptor = record {
        path = path;
        expressions = e ∷ es;
        expected_type = expected_type;
        standalone_expression = false;
      };
      expected_schema = none;
    }
    ∷ []

abbrev parse_embedded : Text → Text → Text → Found
parse_embedded s path expected_type =
    if text_eq expected_type (codes "string") || text_eq expected_type (codes "any")
    then ((extract_expressions s >>= or_nested)
        >>? (λ es. done (ok (embedded_fields path expected_type es))))
    else done (err expected_string)

unfoldable pub parse_string : Text → Schema → Text → Text → Found
parse_string s sch path expected_type = (is_standalone_expression s >>= or_nested) >>? λ standalone.
    if standalone
    then done (ok (standalone_field s sch path expected_type ∷ []))
    else parse_embedded s path expected_type

abbrev is_float : Value → Bool
is_float (float n) = true
is_float _ = false

-- Decoded objects hold `int64` numbers.
abbrev is_integer : Value → Bool
is_integer (integer n) = true
is_integer _ = false

abbrev is_bool : Value → Bool
is_bool (bool b) = true
is_bool _ = false

abbrev nothing_if : Bool → ParserError → Found
nothing_if holds e = if holds then done (ok []) else done (err e)

unfoldable pub parse_scalar_types : Value → Text → Found
parse_scalar_types v expected_type =
    if text_eq expected_type (codes "any")
    then done (ok [])
    else if text_eq expected_type (codes "number")
    then nothing_if (is_float v) expected_number
    else if text_eq expected_type (codes "integer")
    then nothing_if (is_integer v) expected_integer
    else if text_eq expected_type (codes "boolean")
    then nothing_if (is_bool v) expected_boolean
    else done (err unexpected_type)

-- `enabled, ok := extensions["x-kubernetes-preserve-unknown-fields"]; ok && enabled.(bool)`
abbrev enabled_flag : Option Extension → Run Bool
enabled_flag none = done false
enabled_flag (some (flag b)) = done b
enabled_flag (some other_extension) = panic

unfoldable pub preserves_unknown_fields : Schema → Run Bool
preserves_unknown_fields s =
    enabled_flag (lookup (codes "x-kubernetes-preserve-unknown-fields") (extensions_of s))

-- The loop over the fields is passed in.
unfoldable pub parse_object : Found → Schema → Text → Found
parse_object loop s expected_type =
    if not (text_eq expected_type (codes "object")) && not (allows (additional_of s))
    then done (err expected_object)
    else preserves_unknown_fields s >>= λ preserved. if preserved then done (ok []) else loop

-- The loop over the items, at the schema of the items, is passed in.
unfoldable pub parse_array : (Schema → Found) → Schema → Text → Found
parse_array loop s expected_type =
    if not (text_eq expected_type (codes "array"))
    then done (err expected_array)
    else done (get_array_item_schema s) >>? loop

-- `expressionsFields = append(expressionsFields, more...)` behind a call that may fail.
abbrev pub append_fields : Found → Found → Found
append_fields first rest = first >>? λ fs. rest >>? λ more. done (ok (fs ++ more))

unfoldable mutual
  pub parse_resource : Value → SchemaPointer → Text → Found
  parse_resource (object fs) s path = validate_schema s >>? λ sch.
      parse_object (parse_fields fs sch path) sch (get_expected_type sch)
  parse_resource (array vs) s path = validate_schema s >>? λ sch.
      parse_array (λ item. parse_items vs item path 0) sch (get_expected_type sch)
  parse_resource (text t) s path =
      validate_schema s >>? λ sch. parse_string t sch path (get_expected_type sch)
  parse_resource null s path = validate_schema s >>? λ sch. done (ok [])
  parse_resource (bool b) s path =
      validate_schema s >>? λ sch. parse_scalar_types (bool b) (get_expected_type sch)
  parse_resource (integer n) s path =
      validate_schema s >>? λ sch. parse_scalar_types (integer n) (get_expected_type sch)
  parse_resource (float n) s path =
      validate_schema s >>? λ sch. parse_scalar_types (float n) (get_expected_type sch)

  pub parse_fields : Fields → Schema → Text → Found
  parse_fields end s path = done (ok [])
  parse_fields (field name v fs) s path = done (get_field_schema s name) >>? λ sch.
      append_fields (parse_resource v (to_schema sch) (join_path_and_field_name path name))
        (parse_fields fs s path)

  pub parse_items : Items → Schema → Text → ℕ → Found
  parse_items nil s path i = done (ok [])
  parse_items (cons v vs) s path i =
      append_fields (parse_resource v (to_schema s) (join_index path i))
        (parse_items vs s path (suc i))

-- `ParseResource`
unfoldable pub parse : Fields → SchemaPointer → Found
parse resource s = parse_resource (object resource) s []

-- schemaless.go

abbrev any_field : Text → Text → ParsedField
any_field s path = record {
  descriptor = record {
    path = path;
    expressions = trim_expression s ∷ [];
    expected_type = codes "any";
    standalone_expression = true;
  };
  expected_schema = none;
}

unfoldable pub parse_schemaless_string : Text → Text → Found
parse_schemaless_string s path = (is_standalone_expression s >>= or_nested) >>? λ standalone.
    if standalone
    then done (ok (any_field s path ∷ []))
    else (extract_expressions s >>= or_nested) >>? λ es.
        done (ok (embedded_fields path (codes "any") es))

unfoldable mutual
  pub parse_schemaless_resource : Value → Text → Found
  parse_schemaless_resource (object fs) path = parse_schemaless_fields fs path
  parse_schemaless_resource (array vs) path = parse_schemaless_items vs path 0
  parse_schemaless_resource (text t) path = parse_schemaless_string t path
  parse_schemaless_resource _ path = done (ok [])

  pub parse_schemaless_fields : Fields → Text → Found
  parse_schemaless_fields end path = done (ok [])
  parse_schemaless_fields (field name v fs) path =
      append_fields (parse_schemaless_resource v (join_path_and_field_name path name))
        (parse_schemaless_fields fs path)

  pub parse_schemaless_items : Items → Text → ℕ → Found
  parse_schemaless_items nil path i = done (ok [])
  parse_schemaless_items (cons v vs) path i =
      append_fields (parse_schemaless_resource v (join_index path i))
        (parse_schemaless_items vs path (suc i))

-- conditions.go

abbrev add_condition :
    Text → Bool → Run (Result ParserError (List Text)) → Run (Result ParserError (List Text))
add_condition e standalone rest =
    if standalone
    then (rest >>? (λ es. done (ok (trim_expression e ∷ es))))
    else done (err only_standalone)

unfoldable pub parse_condition_expressions : List Text → Run (Result ParserError (List Text))
parse_condition_expressions [] = done (ok [])
parse_condition_expressions (e ∷ conditions) =
    (is_standalone_expression e >>= or_nested) >>? λ standalone.
    add_condition e standalone (parse_condition_expressions conditions)
