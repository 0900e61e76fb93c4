-- ===== src/Parser/OpenApi.antt =====
-- spec.Schema of kube-openapi: the fields of it that internal/graph/parser reads.
use kubernetes_resource_orch.Common.{
  Bool, List, [], ◌∷◌, Option, none, some, if◌then◌else◌, Text, text_eq, Map,
}

-- A value of `VendorExtensible.Extensions`: a Boolean, or something else.
pub data Extension : Type 0 where
  flag : Bool → Extension
  other_extension : Extension

-- A schema by its Type, the Type of each schema of OneOf, Properties, AdditionalProperties,
-- Items.Schema (nil too where Items is) and the extensions.
mutual
  pub data Schema : Type 0 where
    schema :
        List Text
        → List (List Text)
        → Properties
        → Additional
        → SchemaPointer
        → Map Extension
        → Schema

  pub data Properties : Type 0 where
    no_more : Properties
    property : Text → Schema → Properties → Properties

  -- `*SchemaOrBool`: Allows and Schema.
  pub data Additional : Type 0 where
    no_additional : Additional
    additional : Bool → SchemaPointer → Additional

  pub data SchemaPointer : Type 0 where
    no_schema : SchemaPointer
    to_schema : Schema → SchemaPointer

unfoldable pub find_property : Text → Properties → Option Schema
find_property k no_more = none
find_property k (property j s ps) = if text_eq k j then some s else find_property k ps

abbrev pub types_of : Schema → List Text
types_of (schema types alternatives ps a items es) = types

abbrev pub one_of : Schema → List (List Text)
one_of (schema types alternatives ps a items es) = alternatives

abbrev pub properties_of : Schema → Properties
properties_of (schema types alternatives ps a items es) = ps

abbrev pub additional_of : Schema → Additional
additional_of (schema types alternatives ps a items es) = a

abbrev pub items_of : Schema → SchemaPointer
items_of (schema types alternatives ps a items es) = items

abbrev pub extensions_of : Schema → Map Extension
extensions_of (schema types alternatives ps a items es) = es

-- `schema.Type = []string{t}`
abbrev pub set_type : Text → Schema → Schema
set_type t (schema types alternatives ps a items es) = schema (t ∷ []) alternatives ps a items es

-- `&spec.Schema{}`
abbrev pub empty_schema : Schema
empty_schema = schema [] [] no_more no_additional no_schema []
