-- ===== src/Parser/Refusals.antt =====
-- internal/graph/parser/parser.go: fields that only `additionalProperties: true` allows.
use kubernetes_resource_orch.Common.{◌≡◌, refl, true, none, Text, done, err}
use kubernetes_resource_orch.Values.{
  Value, null, bool, integer, float, text, array, object, Fields, field,
}
use kubernetes_resource_orch.Parser.{
  not_a_single_type, validate_schema, get_field_schema, parse_resource, parse_fields,
  join_path_and_field_name,
}
use kubernetes_resource_orch.Parser.OpenApi.{
  Schema, no_schema, to_schema, additional, find_property, properties_of, additional_of,
  empty_schema,
}

-- The empty schema is refused for every value.
empty-refused :
    (v : Value) (path : Text)
    → parse_resource v (to_schema empty_schema) path ≡ done (err not_a_single_type)
unfolding parse_resource validate_schema
empty-refused null path = refl
empty-refused (bool b) path = refl
empty-refused (integer n) path = refl
empty-refused (float n) path = refl
empty-refused (text t) path = refl
empty-refused (array vs) path = refl
empty-refused (object fs) path = refl

-- A field that only `additionalProperties: true` allows is an error, whatever its value is.
pub parse_fields-allowed :
    (name : Text) (v : Value) (fs : Fields) (s : Schema) (path : Text)
    → find_property name (properties_of s) ≡ none
    → additional_of s ≡ additional true no_schema
    → parse_fields (field name v fs) s path ≡ done (err not_a_single_type)
unfolding parse_fields get_field_schema
parse_fields-allowed name v fs s path missing allowed =
    rw (missing, allowed, empty-refused v (join_path_and_field_name path name)) refl
