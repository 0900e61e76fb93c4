-- ===== src/Parser/Agreement.antt =====
-- internal/graph/parser: the walk with a schema (parser.go) against the walk without one
-- (schemaless.go).
use kubernetes_resource_orch.Common.{
  ℕ, suc, ◌≡◌, refl, sym, ap, ◌∙◌, Bool, true, false, ◌||◌, inl, inr, List, [], ◌∷◌, ◌++◌, map,
  arith, if◌then◌else◌, Bool-cases, Text, text_eq, codes, Run, done, panic, out_of_fuel, ◌>>=◌,
  ok-inj, done-inj, Result, ok, err,
}
use mathlib.Core.List.{map-append}
use kubernetes_resource_orch.Values.{
  Value, null, bool, integer, float, text, array, object, Items, nil, cons, Fields, end, field,
}
use kubernetes_resource_orch.Expressions.{
  ErrNestedExpression, extract_expressions, is_standalone_expression,
}
use kubernetes_resource_orch.Parser.{
  ParsedField, expected_string, Found, ◌>>?◌, or_nested, append_fields, validate_schema,
  get_field_schema, get_array_item_schema, preserves_unknown_fields, parse_object, parse_array,
  parse_string, parse_scalar_types, get_expected_type, parse_resource, parse_fields, parse_items,
  parse_schemaless_string, parse_schemaless_resource, parse_schemaless_fields,
  parse_schemaless_items, join_index, join_path_and_field_name, standalone_field, embedded_fields,
  any_field,
}
use kubernetes_resource_orch.Parser.OpenApi.{Schema, SchemaPointer, to_schema}
use kubernetes_resource_orch.Parser.Strings.{append_fields-eq-ok}
use kubernetes_resource_orch.Parser.Strictness.{
  IsStrict, PointerIsStrict, preserves-IsStrict, >>?-eq-ok, validate_schema-IsStrict,
  get_field_schema-IsStrict, get_array_item_schema-IsStrict,
}

-- A field without what the schema adds: its path, its expressions, and whether it stands alone.
abbrev pub untyped : ParsedField → Text × List Text × Bool
untyped f = (f.descriptor.path, f.descriptor.expressions, f.descriptor.standalone_expression)

abbrev pub FindsAlike : List ParsedField → Found → Type 0
FindsAlike fs found =
    (gs : List ParsedField) × (found ≡ done (ok gs)) × (map untyped gs ≡ map untyped fs)

scalar-none :
    (v : Value) (expected_type : Text) {fs : List ParsedField}
    → parse_scalar_types v expected_type ≡ done (ok fs)
    → fs ≡ []
unfolding parse_scalar_types
scalar-none v expected_type {fs} h = ground (arith, h)

module _ (t path : Text) (sch : Schema) (expected_type : Text) where
  embedded-FindsAlike :
      (found : Run (Result ErrNestedExpression (List Text))) {fs : List ParsedField}
      → ((found >>= or_nested) >>? (λ es. done (ok (embedded_fields path expected_type es))))
        ≡ done (ok fs)
      → FindsAlike fs
          ((found >>= or_nested) >>? (λ es. done (ok (embedded_fields path (codes "any") es))))
  embedded-FindsAlike (done (ok [])) h = (_, refl, ap (map untyped) (ok-inj (done-inj h)))
  embedded-FindsAlike (done (ok (e ∷ es))) h = (_, refl, ap (map untyped) (ok-inj (done-inj h)))
  embedded-FindsAlike (done (err e)) h = cc
  embedded-FindsAlike panic h = cc
  embedded-FindsAlike out_of_fuel h = cc

  string-FindsAlike :
      (standalone : Run (Result ErrNestedExpression Bool))
      (found : Run (Result ErrNestedExpression (List Text))) {fs : List ParsedField}
      → ((standalone >>= or_nested) >>? λ is.
          if is
          then done (ok (standalone_field t sch path expected_type ∷ []))
          else if text_eq expected_type (codes "string") || text_eq expected_type (codes "any")
          then ((found >>= or_nested) >>? (λ es. done (ok (embedded_fields path expected_type es))))
          else done (err expected_string))
        ≡ done (ok fs)
      → FindsAlike fs (
          (standalone >>= or_nested) >>? λ is.
          if is
          then done (ok (any_field t path ∷ []))
          else (found >>= or_nested) >>? λ es. done (ok (embedded_fields path (codes "any") es)))
  string-FindsAlike (done (ok true)) found h = (_, refl, ap (map untyped) (ok-inj (done-inj h)))
  string-FindsAlike (done (ok false)) found h =
      elim (Bool-cases
        (text_eq expected_type (codes "string") || text_eq expected_type (codes "any"))) [
          | inl is ↦ embedded-FindsAlike found (rw is at h)
          | inr other ↦ absurd (ground (arith, h, other))
        ]
  string-FindsAlike (done (err e)) found h = cc
  string-FindsAlike panic found h = cc
  string-FindsAlike out_of_fuel found h = cc

text-FindsAlike :
    (t path : Text) (sch : Schema) (expected_type : Text) {fs : List ParsedField}
    → parse_string t sch path expected_type ≡ done (ok fs)
    → FindsAlike fs (parse_schemaless_string t path)
unfolding parse_schemaless_string parse_string
text-FindsAlike t path sch expected_type h =
    string-FindsAlike t path sch expected_type (is_standalone_expression t) (extract_expressions t)
      h

append-FindsAlike :
    (x y fs : List ParsedField) (a b : Found)
    → FindsAlike x a
    → FindsAlike y b
    → x ++ y ≡ fs
    → FindsAlike fs (append_fields a b)
append-FindsAlike x y fs a b (gs, ea, same) (hs, eb, alike) e = (
  gs ++ hs,
  rw (ea, eb) refl,
  map-append untyped gs hs
      ∙ (λ i. same i ++ alike i)
      ∙ sym (map-append untyped x y)
      ∙ ap (map untyped) e,
)

parse_object-eq-ok :
    (loop : Found) (s : Schema) (expected_type : Text) {fs : List ParsedField}
    → preserves_unknown_fields s ≡ done false
    → parse_object loop s expected_type ≡ done (ok fs)
    → loop ≡ done (ok fs)
unfolding parse_object
parse_object-eq-ok loop s expected_type kept h = ground (arith, h, kept)

parse_array-eq-ok :
    (loop : Schema → Found) (s : Schema) (expected_type : Text) {fs : List ParsedField}
    → parse_array loop s expected_type ≡ done (ok fs)
    → (item : Schema) × (get_array_item_schema s ≡ ok item) × (loop item ≡ done (ok fs))
unfolding parse_array
parse_array-eq-ok loop s expected_type h =
    elim (Bool-cases (text_eq expected_type (codes "array"))) [
      | inl is ↦
          let (item, e, k) = >>?-eq-ok (done (get_array_item_schema s)) loop (rw is at h) in
          (item, done-inj e, k)
      | inr other ↦ absurd (ground (arith, h, other))
    ]

no_fields : {fs : List ParsedField} (v : Value) → fs ≡ [] → FindsAlike fs (done (ok []))
no_fields v e = ([], refl, ap (map untyped) (sym e))

scalar-FindsAlike :
    (v : Value) (s : SchemaPointer) {fs : List ParsedField}
    → (validate_schema s >>? (λ sch. parse_scalar_types v (get_expected_type sch))) ≡ done (ok fs)
    → FindsAlike fs (done (ok []))
scalar-FindsAlike v s h =
    let (sch, e, k) = >>?-eq-ok (validate_schema s) _ h in
    no_fields v (scalar-none v (get_expected_type sch) k)

mutual
  unfolding parse_resource parse_schemaless_resource IsStrict

  resource-FindsAlike :
      (v : Value) (s : SchemaPointer) (path : Text) {fs : List ParsedField}
      → PointerIsStrict s
      → parse_resource v s path ≡ done (ok fs)
      → FindsAlike fs (parse_schemaless_resource v path)
  resource-FindsAlike (object fields) s path strict h =
      let (sch, e, k) = >>?-eq-ok (validate_schema s) _ h in
      let strictly = validate_schema-IsStrict s strict e in
      fields-FindsAlike fields sch path strictly (
        parse_object-eq-ok (parse_fields fields sch path) sch (get_expected_type sch)
          (preserves-IsStrict sch strictly) k)
  resource-FindsAlike (array vs) s path strict h =
      let (sch, e, k) = >>?-eq-ok (validate_schema s) _ h in
      let (item, found, loop) =
        parse_array-eq-ok (λ item. parse_items vs item path 0) sch (get_expected_type sch) k in
      items-FindsAlike vs item path 0
        (get_array_item_schema-IsStrict sch (validate_schema-IsStrict s strict e) found) loop
  resource-FindsAlike (text t) s path strict h =
      let (sch, e, k) = >>?-eq-ok (validate_schema s) _ h in
      text-FindsAlike t path sch (get_expected_type sch) k
  resource-FindsAlike null s path strict h =
      let (sch, e, k) = >>?-eq-ok (validate_schema s) (λ sch. done (ok [])) h in
      no_fields null (sym (ok-inj (done-inj k)))
  resource-FindsAlike (bool b) s path strict h = scalar-FindsAlike (bool b) s h
  resource-FindsAlike (integer n) s path strict h = scalar-FindsAlike (integer n) s h
  resource-FindsAlike (float n) s path strict h = scalar-FindsAlike (float n) s h

  fields-FindsAlike :
      (fields : Fields) (s : Schema) (path : Text) {fs : List ParsedField}
      → IsStrict s
      → parse_fields fields s path ≡ done (ok fs)
      → FindsAlike fs (parse_schemaless_fields fields path)
  fields-FindsAlike end s path strict h = ([], refl, ap (map untyped) (ok-inj (done-inj h)))
  fields-FindsAlike (field name v fields) s path strict h =
      let (sch, e, k) = >>?-eq-ok (done (get_field_schema s name)) _ h in
      let (x, y, hx, hy, joined) = append_fields-eq-ok _ _ k in
      append-FindsAlike x y _ _ _
        (resource-FindsAlike v (to_schema sch) (join_path_and_field_name path name)
          (get_field_schema-IsStrict s name strict (done-inj e)) hx)
        (fields-FindsAlike fields s path strict hy) joined

  items-FindsAlike :
      (vs : Items) (s : Schema) (path : Text) (i : ℕ) {fs : List ParsedField}
      → IsStrict s
      → parse_items vs s path i ≡ done (ok fs)
      → FindsAlike fs (parse_schemaless_items vs path i)
  items-FindsAlike nil s path i strict h = ([], refl, ap (map untyped) (ok-inj (done-inj h)))
  items-FindsAlike (cons v vs) s path i strict h =
      let (x, y, hx, hy, joined) = append_fields-eq-ok _ _ h in
      append-FindsAlike x y _ _ _
        (resource-FindsAlike v (to_schema s) (join_index path i) strict hx)
        (items-FindsAlike vs s path (suc i) strict hy) joined

-- Where `parseResource` accepts a resource with a schema that keeps no unknown fields, at any depth,
-- `parseSchemalessResource` accepts it too and finds the same fields in the same order: their paths,
-- their expressions and whether they stand alone.
pub parse_resource-FindsAlike :
    (v : Value) (s : SchemaPointer) (path : Text) (fs : List ParsedField)
    → PointerIsStrict s
    → parse_resource v s path ≡ done (ok fs)
    → FindsAlike fs (parse_schemaless_resource v path)
parse_resource-FindsAlike v s path fs strict h = resource-FindsAlike v s path strict h
