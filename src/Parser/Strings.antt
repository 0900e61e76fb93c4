-- ===== src/Parser/Strings.antt =====
-- internal/graph/parser/schemaless.go: the walk against a list of the strings of a resource.
use kubernetes_resource_orch.Common.{
  ok-inj, done-inj, ℕ, suc, ◌≡◌, refl, sym, ap, ◌∙◌, List, [], ◌∷◌, ◌++◌, map, Text, done, panic,
  out_of_fuel, ok, err, ℤ, pos, negsuc,
}
use mathlib.Core.List.{append_assoc, append-nil}
use kubernetes_resource_orch.Values.{
  Value, null, bool, integer, float, text, array, object, Items, nil, cons, Fields, end, field,
}
use kubernetes_resource_orch.Fieldpath.{Segment, new_named_segment, new_indexed_segment}
use kubernetes_resource_orch.Parser.{
  ParsedField, Found, append_fields, join_path_and_field_name, join_index, parse_schemaless_string,
  parse_schemaless_resource, parse_schemaless_fields, parse_schemaless_items,
}

abbrev pub behind : Segment → List Segment × Text → List Segment × Text
behind s (ss, t) = (s ∷ ss, t)

-- The strings of a value, each with the segments that lead to it.
unfoldable mutual
  pub strings : Value → List (List Segment × Text)
  strings (object fs) = strings_of_fields fs
  strings (array vs) = strings_of_items vs 0
  strings (text t) = ([], t) ∷ []
  strings _ = []

  pub strings_of_fields : Fields → List (List Segment × Text)
  strings_of_fields end = []
  strings_of_fields (field name v fs) =
      map (behind (new_named_segment name)) (strings v) ++ strings_of_fields fs

  pub strings_of_items : Items → ℕ → List (List Segment × Text)
  strings_of_items nil i = []
  strings_of_items (cons v vs) i =
      map (behind (new_indexed_segment (pos i))) (strings v) ++ strings_of_items vs (suc i)

abbrev join_indexed : Text → Text → ℤ → Text
join_indexed path name (pos i) = join_index path i
join_indexed path name (negsuc n) = join_path_and_field_name path name

abbrev pub join_segment : Text → Segment → Text
join_segment path s = join_indexed path s.name s.index

-- The path that the walk has written behind a path when it gets to the end of the segments.
unfoldable pub path_onto : Text → List Segment → Text
path_onto path [] = path
path_onto path (s ∷ ss) = path_onto (join_segment path s) ss

abbrev pub path_of : List Segment → Text
path_of ss = path_onto [] ss

-- The fields of the strings, in order; the first error ends the walk.
unfoldable pub describe : Text → List (List Segment × Text) → Found
describe path [] = done (ok [])
describe path ((ss, t) ∷ rest) =
    append_fields (parse_schemaless_string t (path_onto path ss)) (describe path rest)

append_fields-nil : (a : Found) → append_fields (done (ok [])) a ≡ a
append_fields-nil (done (ok fs)) = refl
append_fields-nil (done (err e)) = refl
append_fields-nil panic = refl
append_fields-nil out_of_fuel = refl

pub append_fields-eq-ok :
    (a b : Found) {fs : List ParsedField}
    → append_fields a b ≡ done (ok fs)
    → (x : List ParsedField) × (y : List ParsedField) × (a ≡ done (ok x))
      × (b ≡ done (ok y))
      × (x ++ y ≡ fs)
append_fields-eq-ok (done (ok x)) (done (ok y)) h = (x, y, refl, refl, ok-inj (done-inj h))
append_fields-eq-ok (done (ok x)) (done (err e)) h = cc
append_fields-eq-ok (done (ok x)) panic h = cc
append_fields-eq-ok (done (ok x)) out_of_fuel h = cc
append_fields-eq-ok (done (err e)) b h = cc
append_fields-eq-ok panic b h = cc
append_fields-eq-ok out_of_fuel b h = cc

append_fields_right : (a : Found) → append_fields a (done (ok [])) ≡ a
append_fields_right (done (ok fs)) = ap (λ l. done (ok l)) (append-nil fs)
append_fields_right (done (err e)) = refl
append_fields_right panic = refl
append_fields_right out_of_fuel = refl

append_fields_assoc :
    (a b c : Found) → append_fields (append_fields a b) c ≡ append_fields a (append_fields b c)
append_fields_assoc (done (ok fs)) (done (ok gs)) (done (ok hs)) =
    ap (λ l. done (ok l)) (append_assoc fs gs hs)
append_fields_assoc (done (ok fs)) (done (ok gs)) (done (err e)) = refl
append_fields_assoc (done (ok fs)) (done (ok gs)) panic = refl
append_fields_assoc (done (ok fs)) (done (ok gs)) out_of_fuel = refl
append_fields_assoc (done (ok fs)) (done (err e)) c = refl
append_fields_assoc (done (ok fs)) panic c = refl
append_fields_assoc (done (ok fs)) out_of_fuel c = refl
append_fields_assoc (done (err e)) b c = refl
append_fields_assoc panic b c = refl
append_fields_assoc out_of_fuel b c = refl

describe-behind :
    (s : Segment) (path : Text) (l rest : List (List Segment × Text))
    → describe path (map (behind s) l ++ rest)
      ≡ append_fields (describe (join_segment path s) l) (describe path rest)
unfolding describe path_onto
describe-behind s path [] rest = sym (append_fields-nil _)
describe-behind s path ((ss, t) ∷ l) rest =
    ap (append_fields _) (describe-behind s path l rest) ∙ sym (append_fields_assoc _ _ _)

mutual
  unfolding parse_schemaless_resource strings describe path_onto

  pub describe-strings :
      (v : Value) (path : Text) → parse_schemaless_resource v path ≡ describe path (strings v)
  describe-strings (object fs) path = describe-strings_of_fields fs path
  describe-strings (array vs) path = describe-strings_of_items vs path 0
  describe-strings (text t) path = sym (append_fields_right _)
  describe-strings null path = refl
  describe-strings (bool b) path = refl
  describe-strings (integer n) path = refl
  describe-strings (float n) path = refl

  describe-strings_of_fields :
      (fs : Fields) (path : Text)
      → parse_schemaless_fields fs path ≡ describe path (strings_of_fields fs)
  describe-strings_of_fields end path = refl
  describe-strings_of_fields (field name v fs) path =
      (λ i.
        append_fields (describe-strings v (join_path_and_field_name path name) i)
          (describe-strings_of_fields fs path i))
      ∙ sym (describe-behind (new_named_segment name) path (strings v) _)

  describe-strings_of_items :
      (vs : Items) (path : Text) (i : ℕ)
      → parse_schemaless_items vs path i ≡ describe path (strings_of_items vs i)
  describe-strings_of_items nil path i = refl
  describe-strings_of_items (cons v vs) path i =
      (λ j.
        append_fields (describe-strings v (join_index path i) j)
          (describe-strings_of_items vs path (suc i) j))
      ∙ sym (describe-behind (new_indexed_segment (pos i)) path (strings v) _)
