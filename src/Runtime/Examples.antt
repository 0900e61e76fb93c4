-- ===== src/Runtime/Examples.antt =====
-- A group of a database and a service that uses it, and the theorems at it.
use kubernetes_resource_orch.Common.{
  if◌then◌else◌, ◌≡◌, ◌↔◌, refl, true, false, [], ◌∷◌, ◌++◌, some, none, Option, Text, codes,
  text_eq, Map, mem, keys, lookup, insert, done, Returns, Result, ok, err, length,
}
use kubernetes_resource_orch.Values.{Value, null, text, bool, object, end, field}
use kubernetes_resource_orch.Runtime.{
  Resource, ResourceField, dynamic, Cel, ResourceGroupRuntime, waiting_on_dependencies, schema_id,
  set_resource, get_resource, any_ignored, addresses_of, all_resolved, resource_variables_resolved,
  dependencies_resolved, can_process_resource, all_cached_resolved, all_expressions_are_resolved,
  contains_all_elements, are_dependencies_ignored, each_cached,
}
use kubernetes_resource_orch.Runtime.Collect.{
  allocate, collect_expression, collect_expressions, collect_variables, collect_ready_when,
  collect_resources, collect,
}
use kubernetes_resource_orch.Runtime.Evaluate.{
  context_of, dynamic_body, evaluate_dynamic_variables, synchronize,
}
use kubernetes_resource_orch.Runtime.Conditions.{
  all_true, is_resource_ready, want_to_create_resource,
}
use kubernetes_resource_orch.Runtime.Wanted.{
  Holds, Blocked, want_to_create_resource-Holds, get_resource-Waits,
}
use kubernetes_resource_orch.Runtime.Evaluation.{Progress, evaluate_dynamic_variables-Progress}
use kubernetes_resource_orch.Runtime.Collected.{IsCollected, collect-IsCollected}
use kubernetes_resource_orch.Runtime.Synchronized.{AllResolved, synchronize-AllResolved}

runs : Unit {0}
unfolding lookup insert text_eq mem allocate collect_expression collect_expressions
    collect_variables collect_ready_when collect_resources collect all_resolved
    resource_variables_resolved dependencies_resolved can_process_resource all_cached_resolved
    all_expressions_are_resolved contains_all_elements are_dependencies_ignored any_ignored
    each_cached context_of dynamic_body evaluate_dynamic_variables synchronize all_true
    is_resource_ready want_to_create_resource get_resource
runs = tt

-- Expressions that are ids, and "yes".
abbrev evaluate_id : Text → Option Value → Result Text Value
evaluate_id e (some v) = ok v
evaluate_id e none =
    if text_eq e (codes "yes") then ok (bool true) else err (codes "no such key: " ++ e)

abbrev small_cel : Cel
small_cel = record {
  new_environment = λ ids. ok tt;
  evaluate = λ ids ctx e. evaluate_id e (lookup e ctx);
  is_no_such_key = λ e. true;
  format_value = λ v. [];
}

abbrev host : ResourceField
host = record {
  field = record {
    path = codes "spec.host";
    expressions = codes "db" ∷ [];
    expected_type = codes "string";
    standalone_expression = true;
  };
  kind = dynamic;
  dependencies = codes "db" ∷ [];
}

abbrev db : Resource
db = record {
  variables = [];
  dependencies = [];
  ready_when_expressions = codes "yes" ∷ [];
  include_when_expressions = codes "yes" ∷ [];
  group_version_resource = codes "v1/things";
  is_namespaced = true;
  unstructured = null;
}

abbrev service : Resource
service = record {
  variables = host ∷ [];
  dependencies = codes "db" ∷ [];
  ready_when_expressions = [];
  include_when_expressions = codes "yes" ∷ [];
  group_version_resource = codes "v1/things";
  is_namespaced = true;
  unstructured = object (field (codes "spec") (object (field (codes "host") null end)) end);
}

abbrev app : Resource
app = record {
  variables = [];
  dependencies = [];
  ready_when_expressions = [];
  include_when_expressions = [];
  group_version_resource = codes "v1/things";
  is_namespaced = true;
  unstructured = object end;
}

abbrev group : Map Resource
group = (codes "db", db) ∷ (codes "service", service) ∷ []

abbrev started : ResourceGroupRuntime
started = collect app group (keys group)

abbrev observed : ResourceGroupRuntime
observed = set_resource (codes "db") (text (codes "10.0.0.1")) started

collect-IsCollected_example : IsCollected app group (collect app group (keys group))
collect-IsCollected_example = collect-IsCollected app group (keys group)

evaluate_dynamic_variables-Progress_example :
    Returns
      (Progress small_cel observed observed.expressions_cache observed.store)
      (evaluate_dynamic_variables small_cel observed)
unfolding runs
evaluate_dynamic_variables-Progress_example =
    evaluate_dynamic_variables-Progress small_cel observed ((_, refl), ((_, refl), tt))
      (refl, (refl, tt))

get_resource-Waits_example :
    (get_resource (codes "service") started ≡ done (none, waiting_on_dependencies)) ↔ (
      (lookup (codes "service") started.resolved_resources ≡ none)
      × (x : Text) × (mem x (codes "service" ∷ service.dependencies) ≡ true)
      × Blocked started.store (addresses_of (lookup x started.runtime_variables)))
unfolding runs
get_resource-Waits_example = get_resource-Waits (codes "service") service started refl

want_to_create_resource-Holds_example :
    (want_to_create_resource small_cel (codes "service") started ≡ done (true, none)) ↔ (
      (any_ignored started.ignored_by_conditions_resources service.dependencies ≡ false)
      × Holds small_cel
          (schema_id ∷ [])
          ((schema_id, app.unstructured) ∷ [])
          service.include_when_expressions)
unfolding runs
want_to_create_resource-Holds_example =
    want_to_create_resource-Holds small_cel (codes "service") service started refl refl

synchronize-AllResolved_example : (synchronize small_cel started ≡ done (ok false, started)) ↔ (
    AllResolved started.store started.expressions_cache
    × (length started.resolved_resources ≡ length started.resources)
    × (started ≡ started))
unfolding runs
synchronize-AllResolved_example = synchronize-AllResolved small_cel started started
