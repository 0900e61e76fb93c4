-- ===== src/Runtime/Collect.antt =====
-- internal/runtime/runtime.go, `NewResourceGroupRuntime`: how the expressions of the resources and of
-- the instance are put into the cache and the variables of the resources.
use kubernetes_resource_orch.Common.{
  ℕ, false, List, [], ◌∷◌, ◌++◌, Option, none, some, length, Text, Map, lookup, insert,
}
use kubernetes_resource_orch.Runtime.{
  ResourceVariableKind, ready_when, ResourceField, Resource, ExpressionEvaluationState,
  ResourceGroupRuntime, instance_id, addresses_of,
}

-- `r.runtimeVariables[id] = append(r.runtimeVariables[id], ec)`
abbrev pub add_variable : Text → ℕ → ResourceGroupRuntime → ResourceGroupRuntime
add_variable id a rt = record rt {
  runtime_variables =
      insert id (addresses_of (lookup id rt.runtime_variables) ++ a ∷ []) rt.runtime_variables;
}

abbrev pub new_state : Text → List Text → ResourceVariableKind → ExpressionEvaluationState
new_state expr deps kind = record {
  expression = expr;
  dependencies = deps;
  kind = kind;
  resolved = false;
  resolved_value = none;
}

-- A new pointer, put into the cache under its expression.
unfoldable pub allocate :
    Text → List Text → ResourceVariableKind → ResourceGroupRuntime → ResourceGroupRuntime
allocate expr deps kind rt = record rt {
  store = rt.store ++ new_state expr deps kind ∷ [];
  expressions_cache = insert expr (length rt.store) rt.expressions_cache;
}

abbrev pub collect_cached :
    Text → ResourceField → Text → Option ℕ → ResourceGroupRuntime → ResourceGroupRuntime
collect_cached id v expr (some a) rt = add_variable id a rt
collect_cached id v expr none rt =
    add_variable id (length rt.store) (allocate expr v.dependencies v.kind rt)

-- One expression of a variable: the pointer in the cache is shared if there is one.
unfoldable pub collect_expression :
    Text → ResourceField → Text → ResourceGroupRuntime → ResourceGroupRuntime
unfolding allocate
collect_expression id v expr rt = collect_cached id v expr (lookup expr rt.expressions_cache) rt

unfoldable pub collect_expressions :
    Text → ResourceField → List Text → ResourceGroupRuntime → ResourceGroupRuntime
collect_expressions id v [] rt = rt
collect_expressions id v (e ∷ es) rt = collect_expressions id v es (collect_expression id v e rt)

unfoldable pub collect_variables :
    Text → List ResourceField → ResourceGroupRuntime → ResourceGroupRuntime
collect_variables id [] rt = rt
collect_variables id (v ∷ vs) rt =
    collect_variables id vs (collect_expressions id v v.field.expressions rt)

-- Each readyWhen expression gets a new pointer, also where the cache has one.
unfoldable pub collect_ready_when : List Text → ResourceGroupRuntime → ResourceGroupRuntime
collect_ready_when [] rt = rt
collect_ready_when (e ∷ es) rt = collect_ready_when es (allocate e [] ready_when rt)

unfoldable pub collect_resources : Map Resource → ResourceGroupRuntime → ResourceGroupRuntime
collect_resources [] rt = rt
collect_resources ((id, r) ∷ rs) rt =
    collect_resources rs
      (collect_ready_when r.ready_when_expressions (collect_variables id r.variables rt))

abbrev pub empty_runtime : Resource → Map Resource → List Text → ResourceGroupRuntime
empty_runtime instance_ resources order = record {
  instance_ = instance_;
  resources = resources;
  resolved_resources = [];
  store = [];
  runtime_variables = [];
  expressions_cache = [];
  topological_order = order;
  ignored_by_conditions_resources = [];
}

unfoldable pub collect : Resource → Map Resource → List Text → ResourceGroupRuntime
collect instance_ resources order =
    collect_variables instance_id instance_.variables
      (collect_resources resources (empty_runtime instance_ resources order))
