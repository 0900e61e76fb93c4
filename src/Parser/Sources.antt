-- ===== src/Parser/Sources.antt =====
-- internal/graph/parser against internal/runtime/resolver: where the fields that a walk finds lead.
use kubernetes_resource_orch.Common.{
  ◌⊎◌, inl, inr, ◌>>=◌, ok-inj, done-inj, codes, ℕ, suc, ◌+◌, ◌≡◌, refl, sym, ap, ◌∙◌, subst, Bool,
  true, false, List, [], ◌∷◌, none, some, map, All, All-append, All-mono, All-map, arith,
  if◌then◌else◌, Text, text_eq_iff, text_eq_refl, Run, done, panic, out_of_fuel, Result, ok, err,
  and_then, ℤ, pos, negsuc, lacks,
}
use kubernetes_resource_orch.Values.{
  Value, null, bool, integer, float, text, array, object, Items, nil, cons, Fields, end, field,
  get_field, get_item,
}
use kubernetes_resource_orch.Fieldpath.{Segment, new_named_segment, new_indexed_segment}
use kubernetes_resource_orch.Resolver.{
  FieldDescriptor, trim_expression, get_path, get_segment, trim_dot, get_value_from_path,
}
use kubernetes_resource_orch.Expressions.{
  ErrNestedExpression, extract_expressions, is_standalone_expression,
}
use kubernetes_resource_orch.Parser.{
  ParsedField, ◌>>?◌, or_nested, any_field, embedded_fields, parse_schemaless_resource,
  parse_schemaless_string,
}
use kubernetes_resource_orch.Parser.Strings.{
  behind, strings, strings_of_fields, strings_of_items, path_of, append_fields-eq-ok, describe,
  describe-strings,
}
use kubernetes_resource_orch.Parser.Written.{AreWritten, plain, quoted, index, entry, path_of-entry}
use kubernetes_resource_orch.Parser.Paths.{parse-path_of}

-- No object in the value has a key twice, as in a Go map.
unfoldable mutual
  pub HasDistinctKeys : Value → Type 0
  HasDistinctKeys (object fs) = FieldsHaveDistinctKeys fs
  HasDistinctKeys (array vs) = ItemsHaveDistinctKeys vs
  HasDistinctKeys _ = Unit

  pub FieldsHaveDistinctKeys : Fields → Type 0
  FieldsHaveDistinctKeys end = Unit
  FieldsHaveDistinctKeys (field name v fs) =
      (get_field name fs ≡ none) × HasDistinctKeys v × FieldsHaveDistinctKeys fs

  pub ItemsHaveDistinctKeys : Items → Type 0
  ItemsHaveDistinctKeys nil = Unit
  ItemsHaveDistinctKeys (cons v vs) = HasDistinctKeys v × ItemsHaveDistinctKeys vs

abbrev Leads : Value → List Segment × Text → Type 0
Leads v (ss, t) = get_path ss v ≡ ok (text t)

Leads-first :
    (name : Text) (v : Value) (fs : Fields) (p : List Segment × Text)
    → Leads v p
    → Leads (object (field name v fs)) (behind (new_named_segment name) p)
unfolding get_path get_segment get_field
Leads-first name v fs (ss, t) h = rw (text_eq_refl name) h

Leads-later :
    (name : Text) (v : Value) (fs : Fields)
    → get_field name fs ≡ none
    → (p : List Segment × Text) → Leads (object fs) p
    → Leads (object (field name v fs)) p
unfolding get_path
Leads-later name v fs fresh ([], t) h = cc
Leads-later name v fs fresh (s ∷ ss, t) h = by_index s.index h
  where
    by_index :
        (i : ℤ)
        → and_then (get_segment s.name i (object fs)) (get_path ss) ≡ ok (text t)
        → and_then (get_segment s.name i (object (field name v fs))) (get_path ss) ≡ ok (text t)
    by_index (pos i) h = unfold get_segment in ground (arith, h)
    by_index (negsuc i) h =
        unfold get_segment get_field in ground (arith, h, fresh, text_eq_iff s.name name)

Leads-item :
    (i : ℕ) (v : Value) (ws : Items)
    → get_item i ws ≡ some v
    → (p : List Segment × Text) → Leads v p
    → Leads (array ws) (behind (new_indexed_segment (pos i)) p)
unfolding get_path get_segment
Leads-item i v ws e (ss, t) h = rw e h

mutual
  unfolding HasDistinctKeys strings get_path get_item

  strings-Leads : (v : Value) → HasDistinctKeys v → All (Leads v) (strings v)
  strings-Leads (object fs) h = strings_of_fields-Leads fs h
  strings-Leads (array vs) h =
      strings_of_items-Leads vs vs 0 h (λ j. ap (λ k. get_item k vs) (omega arith))
  strings-Leads (text t) h = (refl, tt)
  strings-Leads null h = tt
  strings-Leads (bool b) h = tt
  strings-Leads (integer n) h = tt
  strings-Leads (float n) h = tt

  strings_of_fields-Leads :
      (fs : Fields) → FieldsHaveDistinctKeys fs → All (Leads (object fs)) (strings_of_fields fs)
  strings_of_fields-Leads end h = tt
  strings_of_fields-Leads (field name v fs) h =
      All-append _ (map (behind (new_named_segment name)) (strings v)) (strings_of_fields fs)
        (All-map _ (behind (new_named_segment name)) (strings v)
          (All-mono _ _ (strings v) (Leads-first name v fs) (strings-Leads v h.1)))
        (All-mono _ _ (strings_of_fields fs) (Leads-later name v fs h.0)
          (strings_of_fields-Leads fs h.2))

  strings_of_items-Leads :
      (vs ws : Items) (i : ℕ)
      → ItemsHaveDistinctKeys vs
      → ((j : ℕ) → get_item (i + j) ws ≡ get_item j vs)
      → All (Leads (array ws)) (strings_of_items vs i)
  strings_of_items-Leads nil ws i h same = tt
  strings_of_items-Leads (cons v vs) ws i h same =
      All-append _ (map (behind (new_indexed_segment (pos i))) (strings v))
        (strings_of_items vs (suc i))
        (All-map _ (behind (new_indexed_segment (pos i))) (strings v) (
          All-mono _ _ (strings v)
            (Leads-item i v ws (ap (λ k. get_item k ws) (omega arith) ∙ same 0))
            (strings-Leads v h.0)))
        (strings_of_items-Leads vs ws (suc i) h.1
          (λ j. ap (λ k. get_item k ws) (omega arith) ∙ same (suc j)))

-- What a field says of the string that it was found in.
abbrev pub IsFieldOf : Text → FieldDescriptor → Type 0
IsFieldOf t d =
    ((d.standalone_expression ≡ true)
      × (is_standalone_expression t ≡ done (ok true))
      × (d.expressions ≡ trim_expression t ∷ []))
    ⊎ ((d.standalone_expression ≡ false)
        × (is_standalone_expression t ≡ done (ok false))
        × (extract_expressions t ≡ done (ok d.expressions)))

abbrev pub LeadsTo : Value → FieldDescriptor → Type 0
LeadsTo v d = (t : Text) × (get_value_from_path d.path v ≡ done (ok (text t))) × IsFieldOf t d

abbrev FieldsAt : Text → Text → List ParsedField → Type 0
FieldsAt path t fs = All (λ f. (f.descriptor.path ≡ path) × IsFieldOf t f.descriptor) fs

embedded-FieldsAt :
    (path t : Text) (es : List Text)
    → is_standalone_expression t ≡ done (ok false)
    → extract_expressions t ≡ done (ok es)
    → FieldsAt path t (embedded_fields path (codes "any") es)
embedded-FieldsAt path t [] a b = tt
embedded-FieldsAt path t (e ∷ es) a b = ((refl, inr (refl, a, b)), tt)

found-FieldsAt :
    (path t : Text) (standalone : Run (Result ErrNestedExpression Bool))
    (found : Run (Result ErrNestedExpression (List Text)))
    → is_standalone_expression t ≡ standalone
    → extract_expressions t ≡ found
    → {fs : List ParsedField}
    → ((standalone >>= or_nested) >>? λ is.
        if is
        then done (ok (any_field t path ∷ []))
        else (found >>= or_nested) >>? λ es. done (ok (embedded_fields path (codes "any") es)))
      ≡ done (ok fs)
    → FieldsAt path t fs
found-FieldsAt path t (done (ok true)) found a b h =
    subst (FieldsAt path t) (ok-inj (done-inj h)) ((refl, inl (refl, a, refl)), tt)
found-FieldsAt path t (done (ok false)) (done (ok es)) a b h =
    subst (FieldsAt path t) (ok-inj (done-inj h)) (embedded-FieldsAt path t es a b)
found-FieldsAt path t (done (ok false)) (done (err e)) a b h = cc
found-FieldsAt path t (done (ok false)) panic a b h = cc
found-FieldsAt path t (done (ok false)) out_of_fuel a b h = cc
found-FieldsAt path t (done (err e)) found a b h = cc
found-FieldsAt path t panic found a b h = cc
found-FieldsAt path t out_of_fuel found a b h = cc

parse_schemaless_string-FieldsAt :
    (t path : Text) {fs : List ParsedField}
    → parse_schemaless_string t path ≡ done (ok fs)
    → FieldsAt path t fs
unfolding parse_schemaless_string
parse_schemaless_string-FieldsAt t path h = found-FieldsAt path t _ _ refl refl h

trim_dot-entry : (ss : List Segment) (w : AreWritten ss) → trim_dot (entry ss w) ≡ entry ss w
unfolding entry
trim_dot-entry [] w = refl
trim_dot-entry (s ∷ ss) (plain {name = []} p long, w) = absurd (p.ne_nil refl)
trim_dot-entry (s ∷ ss) (plain {name = c ∷ cs} p long, w) = unfold lacks in ground (arith, p.no_dot)
trim_dot-entry (s ∷ ss) (quoted q k, w) = refl
trim_dot-entry (s ∷ ss) (index m, w) = refl

get_value_from_path-path_of :
    (v : Value) (ss : List Segment) (t : Text)
    → AreWritten ss
    → get_path ss v ≡ ok (text t)
    → get_value_from_path (path_of ss) v ≡ done (ok (text t))
unfolding get_value_from_path
get_value_from_path-path_of v ss t w h =
    let same : trim_dot (path_of ss) ≡ path_of ss = rw (path_of-entry ss w) (trim_dot-entry ss w) in
    rw (same, parse-path_of ss w, h) refl

describe-LeadsTo :
    (v : Value) (l : List (List Segment × Text)) (fs : List ParsedField)
    → All (Leads v) l
    → All (λ p. AreWritten p.0) l
    → describe [] l ≡ done (ok fs)
    → All (λ f. LeadsTo v f.descriptor) fs
unfolding describe
describe-LeadsTo v [] fs leads written h =
    subst (All (λ f. LeadsTo v f.descriptor)) (ok-inj (done-inj h)) tt
describe-LeadsTo v ((ss, t) ∷ l) fs leads written h =
    let (x, y, hx, hy, e) = append_fields-eq-ok _ _ h in
    subst (All (λ f. LeadsTo v f.descriptor)) e (
      All-append _ x y
        (All-mono _ _ x
          (λ f k. (
            t,
            ap (λ p. get_value_from_path p v) k.0
                ∙ get_value_from_path-path_of v ss t written.0 leads.0,
            k.1,
          ))
          (parse_schemaless_string-FieldsAt t (path_of ss) hx))
        (describe-LeadsTo v l y leads.1 written.1 hy))

-- What `parseSchemalessResource` finds in a resource: the path of each field leads the resolver to
-- the string that the field was found in, and the expressions are those of the string, or the one
-- that it is, trimmed. No object has a key twice, and the segments to each string of the resource
-- are indices and names that are read back from a path: a name that is written in quotes has only
-- such bytes of ASCII as `%q` leaves as they are.
pub parse_schemaless_resource-LeadsTo :
    (v : Value) (fs : List ParsedField)
    → HasDistinctKeys v
    → All (λ p. AreWritten p.0) (strings v)
    → parse_schemaless_resource v [] ≡ done (ok fs)
    → All (λ f. LeadsTo v f.descriptor) fs
parse_schemaless_resource-LeadsTo v fs distinct written h =
    describe-LeadsTo v (strings v) fs (strings-Leads v distinct) written
      (sym (describe-strings v []) ∙ h)
