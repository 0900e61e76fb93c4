-- ===== src/Builder.antt =====
-- internal/graph/builder.go, from the built resources on: what the expressions of each resource read,
-- and the dependency graph. CEL is a parameter: the environment for some ids, and the inspector. The
-- model ranges over the map of resources in one order, where each loop of the code has its own.
pub mod Reasons
pub mod Reads
mod Growth
mod Wiring
pub mod Scoped
mod Extension
mod Order
mod Examples
use kubernetes_resource_orch.Common.{
  Bool, true, false, not, ◌&&◌, List, [], ◌∷◌, ◌++◌, Option, none, some, if◌then◌else◌, Text, codes,
  text_eq, mem, Map, keys, Run, done, panic, out_of_fuel, ◌>>=◌, Result, ok, err, and_then,
}
use kubernetes_resource_orch.Dag.{
  DirectedAcyclicGraph, DagError, new_directed_acyclic_graph, add_vertex, add_edge, Sorted, ordered,
  cyclic, topological_sort,
}
use kubernetes_resource_orch.Runtime.{
  ResourceVariableKind, dynamic, is_static, ResourceField, Resource,
}

-- The findings that the builder reads, each by its id or its name.
pub record ExpressionInspection : Type 0 where
  pub resource_dependencies : List Text
  pub unknown_resources : List Text
  pub unknown_functions : List Text

-- `DefaultEnvironment` for some ids, with the message of its error, and `Inspect` in it.
pub record Inspector : Type 0 where
  pub environment_error : List Text → Option Text
  pub inspect : List Text → Text → Result Text ExpressionInspection

pub data BuildError : Type 0 where
  environment_failed : Text → BuildError
  vertex_failed : DagError → BuildError
  inspection_failed : Text → BuildError
  unknown_resource : Text → BuildError
  unknown_resources : List Text → BuildError
  unknown_functions : List Text → BuildError
  edge_failed : DagError → BuildError
  order_failed : BuildError

-- A run that may return an error, and what follows when it returns none.
abbrev pub Building : Type 0 → Type 0
Building A = Run (Result BuildError A)

abbrev pub unless_error : {A B : Type 0} → (A → Building B) → Result BuildError A → Building B
unless_error f (ok a) = f a
unless_error f (err e) = done (err e)

abbrev pub schema : Text
schema = codes "schema"

-- `HasDependency` and the append of `addDependency`, for each id.
unfoldable pub append_new : List Text → List Text → List Text
append_new [] ids = ids
append_new (d ∷ ds) ids = append_new ds (if mem d ids then ids else ids ++ d ∷ [])

abbrev pub add_dependencies : List Text → ResourceField → ResourceField
add_dependencies deps v = record v { dependencies = append_new deps v.dependencies }

unfoldable pub refers_to_known : List Text → List Text → Result BuildError (Unit {0})
refers_to_known resources [] = ok tt
refers_to_known resources (id ∷ ids) =
    let rest = refers_to_known resources ids in
    if mem id resources then rest else err (unknown_resource id)

-- The loop of `extractDependencies`: `dependencies` and `isStatic`.
unfoldable pub collect_dependencies : List Text → List Text × Bool → List Text × Bool
collect_dependencies [] s = s
collect_dependencies (id ∷ ids) (deps, static) = collect_dependencies ids (
    if not (text_eq id schema) && not (mem id deps)
    then (deps ++ id ∷ [], false)
    else (deps, static))

abbrev unless_unknown :
    ExpressionInspection → List Text × Bool → Result BuildError (List Text × Bool)
unless_unknown i found = elim i.unknown_resources [
  | x ∷ xs ↦ err (unknown_resources (x ∷ xs))
  | [] ↦ elim i.unknown_functions [ x ∷ xs ↦ err (unknown_functions (x ∷ xs)) | [] ↦ ok found ]
]

-- The kind that a variable has after an expression of it.
abbrev pub kind_after : Bool → ResourceVariableKind → ResourceVariableKind
kind_after is_static_expression k = if not is_static_expression && is_static k then dynamic else k

-- What the loops change: the graph, the dependencies of the resource, and the variable.
pub record Wires : Type 0 where
  pub graph : DirectedAcyclicGraph
  pub dependencies : List Text
  pub variable : ResourceField

-- The call of `AddEdge` for each dependency; its error ends the construction.
unfoldable pub add_edges : Text → List Text → DirectedAcyclicGraph → Building DirectedAcyclicGraph
add_edges name [] d = done (ok d)
add_edges name (dep ∷ deps) d =
    let rest = add_edges name deps in
    add_edge name dep d >>= λ r. elim r.1 [ none ↦ rest r.0 | some e ↦ done (err (edge_failed e)) ]

-- What an accepted expression changes, given its dependencies and whether it is static.
abbrev pub wired : List Text × Bool → DirectedAcyclicGraph → Wires → Wires
wired (deps, static) d s = record {
  graph = d;
  dependencies = append_new deps s.dependencies;
  variable = add_dependencies deps (record s.variable { kind = kind_after static s.variable.kind });
}

module _ (inspector : Inspector) (names : List Text) where
  inspected : Text → Result BuildError ExpressionInspection
  inspected e = elim (inspector.inspect names e) [ ok i ↦ ok i | err m ↦ err (inspection_failed m) ]

  unfoldable pub validate_cel_expression_context : Text → Result BuildError (Unit {0})
  unfolding inspected
  validate_cel_expression_context e =
      and_then (inspected e) (λ i. refers_to_known names i.resource_dependencies)

  unfoldable pub extract_dependencies : Text → Result BuildError (List Text × Bool)
  unfolding inspected
  extract_dependencies e =
      and_then (inspected e)
        (λ i. unless_unknown i (collect_dependencies i.resource_dependencies ([], true)))

  -- The body of the loop over the expressions of a variable.
  unfoldable pub wire_expression : Text → Text → Wires → Building Wires
  wire_expression name e s =
      unless_error
        (λ found.
          add_edges name found.0 s.graph >>= unless_error (λ d. done (ok (wired found d s))))
        (and_then (validate_cel_expression_context e) (λ _. extract_dependencies e))

  unfoldable pub wire_expressions : Text → List Text → Wires → Building Wires
  wire_expressions name [] s = done (ok s)
  wire_expressions name (e ∷ es) s =
      wire_expression name e s >>= unless_error (wire_expressions name es)

  unfoldable pub wire_variables :
      Text
      → List ResourceField
      → DirectedAcyclicGraph
      → List Text
      → Building (DirectedAcyclicGraph × List Text × List ResourceField)
  wire_variables name [] d deps = done (ok (d, deps, []))
  wire_variables name (v ∷ vs) d deps =
      wire_expressions name v.field.expressions
        (record { graph = d; dependencies = deps; variable = v })
      >>= unless_error (λ s.
        wire_variables name vs s.graph s.dependencies
        >>= unless_error (λ t. done (ok (t.0, t.1, s.variable ∷ t.2))))

  unfoldable pub wire_resources :
      Map Resource → DirectedAcyclicGraph → Building (DirectedAcyclicGraph × Map Resource)
  wire_resources [] d = done (ok (d, []))
  wire_resources ((name, r) ∷ rs) d =
      wire_variables name r.variables d r.dependencies
      >>= unless_error (λ s.
        wire_resources rs s.0
        >>= unless_error
            (λ t. done (ok (t.0, (name, record r { variables = s.2; dependencies = s.1 }) ∷ t.1))))

unfoldable pub add_vertices :
    List Text → DirectedAcyclicGraph → Result BuildError DirectedAcyclicGraph
add_vertices [] d = ok d
add_vertices (id ∷ ids) d =
    let rest = add_vertices ids in
    let (d', e) = add_vertex id d in elim e [ none ↦ rest d' | some e' ↦ err (vertex_failed e') ]

abbrev pub names_of : Map Resource → List Text
names_of resources = keys resources ++ schema ∷ []

unfoldable pub build_dependency_graph :
    Inspector → Map Resource → Building (DirectedAcyclicGraph × Map Resource)
build_dependency_graph inspector resources =
    elim (inspector.environment_error (names_of resources)) [
      | some m ↦ done (err (environment_failed m))
      | none ↦
          unless_error (wire_resources inspector (names_of resources) resources)
            (add_vertices (keys resources) new_directed_acyclic_graph)
    ]

-- The part of a `Graph` that the dependencies decide.
pub record DependencyGraph : Type 0 where
  pub dag : DirectedAcyclicGraph
  pub resources : Map Resource
  pub topological_order : List Text

sorted_graph : DirectedAcyclicGraph → Map Resource → Sorted → Building DependencyGraph
sorted_graph d resources cyclic = done (err order_failed)
sorted_graph d resources (ordered order) =
    done (ok (record { dag = d; resources = resources; topological_order = order }))

-- The last steps of `NewResourceGroup`: the dependency graph, and its topological order.
unfoldable pub order_resources : Inspector → Map Resource → Building DependencyGraph
unfolding sorted_graph
order_resources inspector resources =
    build_dependency_graph inspector resources
    >>= unless_error (λ built. topological_sort built.0 >>= sorted_graph built.0 built.1)
