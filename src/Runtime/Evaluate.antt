-- ===== src/Runtime/Evaluate.antt =====
-- internal/runtime/runtime.go: how variables are evaluated and put into the resources.
use kubernetes_resource_orch.Common.{
  ℕ, Bool, true, false, not, ◌&&◌, ◌||◌, List, [], ◌∷◌, ◌++◌, Option, none, some, ◌==◌, map,
  if◌then◌else◌, length, get_elem?, Text, Map, lookup, insert, keys, Run, done, panic, ◌>>=◌,
  Result, ok, err,
}
use kubernetes_resource_orch.Values.{Value, null, bool}
use kubernetes_resource_orch.Resolver.{ResolveError, resolve, set_value_at_path}
use kubernetes_resource_orch.Runtime.{
  is_static, is_dynamic, ResourceField, Resource, ExpressionEvaluationState, Cel, RuntimeError,
  cel_error, eval_error, resolve_errors, set_error, ResourceGroupRuntime, schema_id, Outcome, load,
  store_value, if_ok, each_cached, contains_all_elements, is_nil, the_resource,
  can_process_resource, all_expressions_are_resolved, put_instance,
}
use kubernetes_resource_orch.Runtime.Collect.{collect}

-- `if err != nil { return wrap(err) }` after a call of CEL.
abbrev pub cel_step :
    {A B : Type 0}
    → Result Text A
    → (Text → RuntimeError)
    → ResourceGroupRuntime
    → (A → Outcome B)
    → Outcome B
cel_step (err e) wrap rt next = done (err (wrap e), rt)
cel_step (ok a) wrap rt next = next a

abbrev pub value_of : Option Value → Value
value_of none = null
value_of (some v) = v

-- `evalContext[dep] = rt.resolvedResources[dep].Object` for each dependency: a missing one is nil.
abbrev pub add_context : Text → Option Value → Map Value → Run (Map Value)
add_context d none ctx = panic
add_context d (some v) ctx = done (insert d v ctx)

unfoldable pub context_of : Map Value → List Text → Map Value → Run (Map Value)
context_of resolved_ [] ctx = done ctx
context_of resolved_ (d ∷ ds) ctx =
    add_context d (lookup d resolved_) ctx >>= context_of resolved_ ds

abbrev pub skip : ResourceGroupRuntime → Outcome (Unit {0})
skip rt = done (ok tt, rt)

abbrev pub is_ready_to_evaluate : List Text → ExpressionEvaluationState → Bool
is_ready_to_evaluate ids v =
    is_dynamic v.kind
    && not v.resolved
    && (is_nil v.dependencies || contains_all_elements ids v.dependencies)

-- The values of the expressions that are resolved, by expression.
unfoldable pub expression_values : List ExpressionEvaluationState → Map ℕ → Map Value → Map Value
expression_values cells [] acc = acc
expression_values cells ((e, a) ∷ rest) acc =
    expression_values cells rest (elim (get_elem? cells a) [
      | none ↦ acc
      | some v ↦ if v.resolved then insert v.expression (value_of v.resolved_value) acc else acc
    ])

abbrev pub put_object : Text → Resource → Value → ResourceGroupRuntime → ResourceGroupRuntime
put_object id r v rt = record rt {
  resources = insert id (record r { unstructured = v }) rt.resources;
}

abbrev pub report_errors : Text → List ResolveError → ResourceGroupRuntime → Outcome (Unit {0})
report_errors id [] rt = skip rt
report_errors id (e ∷ es) rt = done (err (resolve_errors id (e ∷ es)), rt)

abbrev pub first_of : List Text → Run Text
first_of [] = panic
first_of (e ∷ es) = done e

abbrev pub as_bool : Value → Run Bool
as_bool (bool b) = done b
as_bool _ = panic

abbrev pub resolved_ids : ResourceGroupRuntime → List Text
resolved_ids rt = keys rt.resolved_resources ++ schema_id ∷ []

module _ (cel : Cel) where
  abbrev pub static_body : ℕ → ExpressionEvaluationState → ResourceGroupRuntime → Outcome (Unit {0})
  static_body a v rt =
      if is_static v.kind
      then cel_step
          (cel.evaluate (schema_id ∷ []) ((schema_id, rt.instance_.unstructured) ∷ []) v.expression)
          cel_error rt (λ value. skip (store_value a v value rt))
      else skip rt

  unfoldable pub evaluate_static_variables : ResourceGroupRuntime → Outcome (Unit {0})
  evaluate_static_variables rt =
      cel_step (cel.new_environment (schema_id ∷ [])) cel_error rt
        (λ _. each_cached static_body rt.expressions_cache rt)

  abbrev pub failed_evaluation : Text → RuntimeError
  failed_evaluation e = eval_error (cel.is_no_such_key e) e

  abbrev pub evaluate_in :
      List Text
      → ℕ
      → ExpressionEvaluationState
      → ResourceGroupRuntime
      → Map Value
      → Outcome (Unit {0})
  evaluate_in ids a v rt ctx =
      cel_step (cel.evaluate ids (insert schema_id rt.instance_.unstructured ctx) v.expression)
        failed_evaluation rt (λ value. skip (store_value a v value rt))

  -- The body of the loop, over the ids that are resolved.
  unfoldable pub dynamic_body :
      List Text → ℕ → ExpressionEvaluationState → ResourceGroupRuntime → Outcome (Unit {0})
  dynamic_body ids a v rt =
      if is_ready_to_evaluate ids v
      then context_of rt.resolved_resources v.dependencies [] >>= evaluate_in ids a v rt
      else skip rt

  unfoldable pub evaluate_dynamic_variables : ResourceGroupRuntime → Outcome (Unit {0})
  evaluate_dynamic_variables rt =
      cel_step (cel.new_environment (resolved_ids rt)) cel_error rt
        (λ _. each_cached (dynamic_body (resolved_ids rt)) rt.expressions_cache rt)

  abbrev pub put_status :
      Text → Result ResolveError Value → ResourceGroupRuntime → Outcome (Unit {0})
  put_status path (err e) rt = done (err (set_error path e), rt)
  put_status path (ok v) rt = skip (put_instance v rt)

  abbrev pub status_of :
      Text → Option ExpressionEvaluationState → ResourceGroupRuntime → Outcome (Unit {0})
  status_of path none rt = skip rt
  status_of path (some v) rt =
      if v.resolved
      then (set_value_at_path path (value_of v.resolved_value) rt.instance_.unstructured >>= λ m.
          put_status path m rt)
      else skip rt

  abbrev pub cached_cell : ResourceGroupRuntime → Option ℕ → Option ExpressionEvaluationState
  cached_cell rt none = none
  cached_cell rt (some a) = load rt a

  unfoldable pub evaluate_statuses : List ResourceField → ResourceGroupRuntime → Outcome (Unit {0})
  evaluate_statuses [] rt = skip rt
  evaluate_statuses (v ∷ vs) rt =
      let next = evaluate_statuses vs in
      first_of v.field.expressions >>= λ e.
      status_of v.field.path (cached_cell rt (lookup e rt.expressions_cache)) rt
      >>= if_ok (λ _. next)

  unfoldable pub evaluate_instance_statuses : ResourceGroupRuntime → Outcome (Unit {0})
  evaluate_instance_statuses rt = evaluate_statuses rt.instance_.variables rt

  unfoldable pub evaluate_resource_expressions : Text → ResourceGroupRuntime → Outcome (Unit {0})
  evaluate_resource_expressions id rt = the_resource (lookup id rt.resources) >>= λ r.
      resolve (expression_values rt.store rt.expressions_cache []) cel.format_value
        (map (λ v. v.field) r.variables) r.unstructured
      >>= λ out. report_errors id out.1.errors (put_object id r out.0 rt)

  abbrev pub evaluate_if : Text → ResourceGroupRuntime → Bool → Outcome (Unit {0})
  evaluate_if id rt true = evaluate_resource_expressions id rt
  evaluate_if id rt false = skip rt

  -- The loop over the ids of the resources.
  unfoldable pub propagate : List Text → ResourceGroupRuntime → Outcome (Unit {0})
  propagate [] rt = skip rt
  propagate (id ∷ ids) rt =
      let next = propagate ids in
      can_process_resource id rt >>= evaluate_if id rt >>= if_ok (λ _. next)

  unfoldable pub propagate_resource_variables : ResourceGroupRuntime → Outcome (Unit {0})
  propagate_resource_variables rt = propagate (keys rt.resources) rt

  -- The result is paired with the error: the code returns true beside each error.
  unfoldable pub synchronize : ResourceGroupRuntime → Outcome Bool
  synchronize rt =
      if all_expressions_are_resolved rt && length rt.resolved_resources == length rt.resources
      then done (ok false, rt)
      else (evaluate_dynamic_variables rt
          >>= if_ok (λ _ rt1.
            propagate_resource_variables rt1
            >>= if_ok
                (λ _ rt2. evaluate_instance_statuses rt2 >>= if_ok (λ _ rt3. done (ok true, rt3)))))

  unfoldable pub new_resource_group_runtime :
      Resource → Map Resource → List Text → Outcome (Unit {0})
  new_resource_group_runtime instance_ resources order =
      evaluate_static_variables (collect instance_ resources order)
      >>= if_ok (λ _. propagate_resource_variables)
  -- The loop of `IsResourceReady`: the first expression that is false is the reason.
