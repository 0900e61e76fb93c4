-- ===== src/Builder/Examples.antt =====
-- A group of a network and its subnet, and one whose resources read each other.
use kubernetes_resource_orch.Common.{
  ◌≡◌, refl, true, [], ◌∷◌, none, Text, codes, text_eq, text_le, mem, remove, sort_strings, Map,
  lookup, insert, done, Returns, ok, err,
}
use kubernetes_resource_orch.Values.{null}
use kubernetes_resource_orch.Dag.{
  cycle_error, add_vertex, add_edge, has_cycle, topological_sort, get_vertices, scan, dfs,
  search_from, trim_cycle, visit_each, visit,
}
use kubernetes_resource_orch.Runtime.{ResourceField, Resource, static}
use kubernetes_resource_orch.Builder.{
  Inspector, edge_failed, unknown_resource, order_resources, build_dependency_graph, schema,
  append_new, refers_to_known, collect_dependencies, validate_cel_expression_context,
  extract_dependencies, add_edges, wire_expression, wire_expressions, wire_variables,
  wire_resources, add_vertices,
}
use kubernetes_resource_orch.Builder.Reasons.{OkOrRefusal}
use kubernetes_resource_orch.Builder.Scoped.{scope_of}
use kubernetes_resource_orch.Builder.Order.{
  Describes, build_dependency_graph-Describes, Ordered, order_resources-Ordered,
}

program : Unit {0}
unfolding order_resources build_dependency_graph append_new refers_to_known collect_dependencies
    validate_cel_expression_context extract_dependencies add_edges wire_expression wire_expressions
    wire_variables wire_resources add_vertices add_vertex add_edge has_cycle search_from scan dfs
    trim_cycle topological_sort get_vertices visit_each visit mem remove sort_strings lookup insert
    text_eq text_le
program = tt

abbrev vpc : Text
vpc = codes "vpc"

abbrev subnet : Text
subnet = codes "subnet"

-- An inspector for expressions that are ids, of which it finds the one.
abbrev id_inspector : Inspector
id_inspector = record {
  environment_error = λ names. none;
  inspect = λ names e.
      ok
        (record { resource_dependencies = e ∷ []; unknown_resources = []; unknown_functions = [] });
}

abbrev reading : Text → ResourceField
reading id = record {
  field = record {
    path = codes "spec";
    expressions = id ∷ [];
    expected_type = codes "any";
    standalone_expression = true;
  };
  kind = static;
  dependencies = [];
}

abbrev resource : Text → Resource
resource id = record {
  variables = reading id ∷ [];
  dependencies = [];
  ready_when_expressions = [];
  include_when_expressions = [];
  group_version_resource = [];
  is_namespaced = true;
  unstructured = null;
}

abbrev network : Map Resource
network = (subnet, resource vpc) ∷ (vpc, resource schema) ∷ []

abbrev circle : Map Resource
circle = (subnet, resource vpc) ∷ (vpc, resource subnet) ∷ []

order_resources-network :
    Returns
      (λ r. elim r [ ok g ↦ g.topological_order ≡ vpc ∷ subnet ∷ [] | err _ ↦ ⊥ ])
      (order_resources id_inspector network)
unfolding program
order_resources-network = refl

order_resources-circle :
    order_resources id_inspector circle
    ≡ done (err (edge_failed (cycle_error vpc subnet (subnet ∷ vpc ∷ subnet ∷ []))))
unfolding program
order_resources-circle = refl

order_resources-stranger :
    order_resources id_inspector ((subnet, resource vpc) ∷ []) ≡ done (err (unknown_resource vpc))
unfolding program
order_resources-stranger = refl

build_dependency_graph-Describes_example :
    Returns
      (OkOrRefusal
        (scope_of id_inspector network)
        (Describes (scope_of id_inspector network) network))
      (build_dependency_graph id_inspector network)
unfolding program
build_dependency_graph-Describes_example =
    build_dependency_graph-Describes id_inspector network (refl, (refl, tt))

order_resources-Ordered_example :
    Returns
      (OkOrRefusal
        (scope_of id_inspector network)
        (Ordered (scope_of id_inspector network) network))
      (order_resources id_inspector network)
unfolding program
order_resources-Ordered_example = order_resources-Ordered id_inspector network (refl, (refl, tt))
