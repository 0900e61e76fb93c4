-- ===== src/Parser/Strictness.antt =====
-- Schemas in which every part says what it allows (internal/graph/parser/parser.go).
use kubernetes_resource_orch.Common.{
  ◌≡◌, refl, subst, true, false, inl, inr, List, [], ◌∷◌, some, arith, Bool-cases, Option-cases,
  Text, text_eq, Run, done, panic, out_of_fuel, ok-inj, done-inj, Result, ok, err, lookup,
}
use mathlib.Core.Option.{some-injective}
use kubernetes_resource_orch.Parser.{
  ParserError, ◌>>?◌, validate_schema, get_field_schema, get_array_item_schema,
  preserves_unknown_fields, single_type, first_type, additional_schema,
}
use kubernetes_resource_orch.Parser.OpenApi.{
  Schema, schema, SchemaPointer, no_schema, to_schema, Properties, no_more, property, Additional,
  no_additional, additional, find_property, types_of, one_of, set_type,
}

-- No schema that can be reached keeps unknown fields: none has the extension with the value true.
unfoldable mutual
  pub IsStrict : Schema → Type 0
  IsStrict (schema types alternatives ps a items es) =
      (preserves_unknown_fields (schema types alternatives ps a items es) ≡ done false)
      × PropertiesAreStrict ps
      × AdditionalIsStrict a
      × PointerIsStrict items

  pub PropertiesAreStrict : Properties → Type 0
  PropertiesAreStrict no_more = Unit
  PropertiesAreStrict (property k s ps) = IsStrict s × PropertiesAreStrict ps

  pub AdditionalIsStrict : Additional → Type 0
  AdditionalIsStrict no_additional = Unit
  AdditionalIsStrict (additional b s) = PointerIsStrict s

  pub PointerIsStrict : SchemaPointer → Type 0
  PointerIsStrict no_schema = Unit
  PointerIsStrict (to_schema s) = IsStrict s

pub preserves-IsStrict : (s : Schema) → IsStrict s → preserves_unknown_fields s ≡ done false
unfolding IsStrict
preserves-IsStrict (schema types alternatives ps a items es) h = h.0

set_type-IsStrict : (t : Text) (s : Schema) → IsStrict s → IsStrict (set_type t s)
unfolding IsStrict preserves_unknown_fields
set_type-IsStrict t (schema types alternatives ps a items es) h = h

find_property-IsStrict :
    (k : Text) (ps : Properties) {s : Schema}
    → PropertiesAreStrict ps
    → find_property k ps ≡ some s
    → IsStrict s
unfolding IsStrict find_property
find_property-IsStrict k no_more h e = cc
find_property-IsStrict k (property j t ps) h e = elim (Bool-cases (text_eq k j)) [
  | inl same ↦ subst IsStrict (some-injective _ _ (ground (arith, e, same))) h.0
  | inr other ↦ find_property-IsStrict k ps h.1 (ground (arith, e, other))
]

pub >>?-eq-ok {ℓ κ} :
    {A : Type ℓ} {B : Type κ} (m : Run (Result ParserError A)) (f : A → Run (Result ParserError B))
    {b : B}
    → (m >>? f) ≡ done (ok b)
    → (a : A) × (m ≡ done (ok a)) × (f a ≡ done (ok b))
>>?-eq-ok (done (ok a)) f h = (a, refl, h)
>>?-eq-ok (done (err e)) f h = cc
>>?-eq-ok panic f h = cc
>>?-eq-ok out_of_fuel f h = cc

first_type-IsStrict :
    (s : Schema) (alternatives : List (List Text)) {sch : Schema}
    → IsStrict s
    → first_type s alternatives ≡ done (ok sch)
    → IsStrict sch
first_type-IsStrict s [] h e = cc
first_type-IsStrict s ([] ∷ more) h e = cc
first_type-IsStrict s ((t ∷ ts) ∷ more) h e =
    subst IsStrict (ok-inj (done-inj e)) (set_type-IsStrict t s h)

single_type-IsStrict :
    (s : Schema) (types : List Text) {sch : Schema}
    → IsStrict s
    → single_type s types ≡ done (ok sch)
    → IsStrict sch
single_type-IsStrict s [] h e = first_type-IsStrict s (one_of s) h e
single_type-IsStrict s (t ∷ []) h e = subst IsStrict (ok-inj (done-inj e)) h
single_type-IsStrict s (t ∷ u ∷ us) h e = first_type-IsStrict s (one_of s) h e

pub validate_schema-IsStrict :
    (s : SchemaPointer) {sch : Schema}
    → PointerIsStrict s
    → validate_schema s ≡ done (ok sch)
    → IsStrict sch
unfolding IsStrict validate_schema
validate_schema-IsStrict no_schema h e = cc
validate_schema-IsStrict (to_schema s) h e = single_type-IsStrict s (types_of s) h e

additional_schema-IsStrict :
    (a : Additional) {sch : Schema}
    → AdditionalIsStrict a
    → additional_schema a ≡ ok sch
    → IsStrict sch
unfolding IsStrict
additional_schema-IsStrict no_additional h e = cc
additional_schema-IsStrict (additional b (to_schema s)) h e = subst IsStrict (ok-inj e) h
additional_schema-IsStrict (additional true no_schema) h e =
    subst IsStrict (ok-inj e) (unfold preserves_unknown_fields lookup in (refl, tt, tt, tt))
additional_schema-IsStrict (additional false no_schema) h e = cc

pub get_field_schema-IsStrict :
    (s : Schema) (name : Text) {sch : Schema}
    → IsStrict s
    → get_field_schema s name ≡ ok sch
    → IsStrict sch
unfolding IsStrict get_field_schema
get_field_schema-IsStrict (schema types alternatives ps a items es) name h e =
    elim (Option-cases (find_property name ps)) [
      | inl absent ↦ additional_schema-IsStrict a h.2 (rw absent at e)
      | inr (s, found) ↦
          subst IsStrict (ok-inj (rw found at e)) (find_property-IsStrict name ps h.1 found)
    ]

pub get_array_item_schema-IsStrict :
    (s : Schema) {sch : Schema} → IsStrict s → get_array_item_schema s ≡ ok sch → IsStrict sch
unfolding IsStrict get_array_item_schema
get_array_item_schema-IsStrict (schema types alternatives ps a no_schema es) h e = cc
get_array_item_schema-IsStrict (schema types alternatives ps a (to_schema s) es) h e =
    subst IsStrict (ok-inj e) h.3
