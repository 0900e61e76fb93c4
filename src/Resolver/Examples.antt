-- ===== src/Resolver/Examples.antt =====
-- A small deployment, its fields resolved, and the theorems at it.
use kubernetes_resource_orch.Common.{
  ◌≡◌, ◌≢◌, refl, true, false, [], ◌∷◌, Text, codes, text_eq, text_eq_iff, Map, lookup, done,
  Returns, ok, pos, atoi, digits_onto, arith,
}
use kubernetes_resource_orch.Fieldpath.{
  new_named_segment, parse, parse_loop, parse_round, parse_field, parse_index, parse_quoted_field,
  parse_unquoted_field, parse_array_index, split_at, skip_dot,
}
use kubernetes_resource_orch.Values.{
  Value, null, integer, text, array, object, nil, cons, end, field, get_field, set_field,
  item_count, get_item, set_item, nulls, resize,
}
use kubernetes_resource_orch.Resolver.{
  FieldDescriptor, succeeded, get_segment, get_path, handle_array_segment, get_or_create_next,
  set_segment, set_path, get_value_from_path, set_value_at_path, trim_left, trim_right,
  trim_expression, has_prefix, replace_from, replace_each, resolve_field, resolve_each, resolve,
}
use kubernetes_resource_orch.Resolver.Paths.{names, below_name}
use kubernetes_resource_orch.Resolver.Resolution.{
  get_value_from_path-set, get_value_from_path-set-Apart, resolve_field_standalone,
}
use kubernetes_resource_orch.Resolver.Outcomes.{IsSafe, Outcome, resolve_field-Outcome}
use kubernetes_resource_orch.Resolver.Counting.{Counts, field_paths, resolve-Counts}

program : Unit {0}
unfolding parse parse_loop parse_round parse_field parse_index parse_quoted_field
    parse_unquoted_field parse_array_index split_at skip_dot get_field set_field item_count get_item
    set_item nulls resize get_segment get_path handle_array_segment get_or_create_next set_segment
    set_path get_value_from_path set_value_at_path trim_left trim_right trim_expression has_prefix
    replace_from replace_each resolve_field resolve_each resolve lookup text_eq atoi digits_onto
program = tt

abbrev deployment : Value → Value → Value
deployment replicas host = object (
    field (codes "spec")
      (object (field (codes "replicas") replicas (field (codes "host") host end))) end)

abbrev template : Value
template = deployment (text (codes "${schema.n}")) (text (codes "db-${db.name}:80"))

abbrev values : Map Value
values = (codes "schema.n", integer (pos 3)) ∷ (codes "db.name", text (codes "main")) ∷ []

-- Enough of `%v` for the examples.
abbrev show : Value → Text
show (text t) = t
show _ = []

abbrev replicas_field : FieldDescriptor
replicas_field = record {
  path = codes "spec.replicas";
  expressions = codes "schema.n" ∷ [];
  expected_type = codes "integer";
  standalone_expression = true;
}

abbrev host_field : FieldDescriptor
host_field = record {
  path = codes "spec.host";
  expressions = codes "db.name" ∷ [];
  expected_type = codes "string";
  standalone_expression = false;
}

resolve-template :
    resolve values show (replicas_field ∷ host_field ∷ []) template
    ≡ done (
      deployment (integer (pos 3)) (text (codes "db-main:80")),
      record {
        total_expressions = 2;
        resolved_expressions = 2;
        results =
            succeeded replicas_field (integer (pos 3))
            ∷ succeeded host_field (text (codes "db-main:80"))
            ∷ [];
        errors = [];
      },
    )
unfolding program
resolve-template = refl

set_creates :
    set_value_at_path (codes "status.ports[1].nr") (integer (pos 80)) (object end)
    ≡ done (
        ok (
          object (
            field
              (codes "status")
              (object (
                field
                  (codes "ports")
                  (array
                    (cons null (cons (object (field (codes "nr") (integer (pos 80)) end)) nil)))
                  end))
              end)))
unfolding program
set_creates = refl

get_value_from_path-set_example :
    get_value_from_path (codes "spec.replicas") (deployment (integer (pos 3)) null)
    ≡ done (ok (integer (pos 3)))
unfolding program
get_value_from_path-set_example =
    get_value_from_path-set (codes "spec.replicas") (new_named_segment (codes "spec"))
      (new_named_segment (codes "replicas") ∷ []) (integer (pos 3)) (deployment null null)
      (deployment (integer (pos 3)) null) refl refl

get_value_from_path-set-Apart_example :
    get_value_from_path (codes "spec.host") (deployment (integer (pos 3)) (text (codes "a")))
    ≡ done (ok (text (codes "a")))
unfolding program
get_value_from_path-set-Apart_example =
    get_value_from_path-set-Apart (codes "spec.replicas") (codes "spec.host")
      (new_named_segment (codes "spec")) (new_named_segment (codes "spec"))
      (new_named_segment (codes "replicas") ∷ []) (new_named_segment (codes "host") ∷ [])
      (integer (pos 3)) (deployment null (text (codes "a")))
      (deployment (integer (pos 3)) (text (codes "a"))) (text (codes "a")) refl refl
      (below_name refl (names differ)) refl refl
  where
    differ : codes "replicas" ≢ codes "host"
    differ = ground (arith, text_eq_iff (codes "replicas") (codes "host"))

resolve_field_standalone_example :
    (after : Value) × (resolve_field values show replicas_field template
      ≡ done (after, succeeded replicas_field (integer (pos 3))))
    × (get_value_from_path (codes "spec.replicas") after ≡ done (ok (integer (pos 3))))
unfolding program
resolve_field_standalone_example =
    resolve_field_standalone values show replicas_field (codes "schema.n") []
      (new_named_segment (codes "spec")) (new_named_segment (codes "replicas") ∷ [])
      (integer (pos 3)) template (text (codes "${schema.n}")) refl refl refl refl refl

replicas-IsSafe : IsSafe replicas_field
unfolding program
replicas-IsSafe = record {
  reads = ok (new_named_segment (codes "spec") ∷ new_named_segment (codes "replicas") ∷ []);
  reads_is = refl;
  writes = ok (new_named_segment (codes "spec") ∷ new_named_segment (codes "replicas") ∷ []);
  writes_is = refl;
  has_expression = λ h e. cc;
}

resolve_field-Outcome_example :
    Returns
      (Outcome values show replicas_field template)
      (resolve_field values show replicas_field template)
resolve_field-Outcome_example =
    resolve_field-Outcome values show replicas_field replicas-IsSafe template

resolve-Counts_example :
    Returns
      (λ out. Counts 1 (field_paths (replicas_field ∷ [])) out.1)
      (resolve values show (replicas_field ∷ []) template)
resolve-Counts_example =
    resolve-Counts values show (replicas_field ∷ []) template (replicas-IsSafe, tt)
