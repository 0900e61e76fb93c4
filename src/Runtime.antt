-- ===== src/Runtime.antt =====
-- internal/runtime/runtime.go: the resources of one instance, their expressions and what is known of
-- them. The code shares `expressionEvaluationState`s by pointer between the cache and the variables
-- of the resources: here they stand in a store, and both hold addresses. CEL is a parameter.
pub mod Collect
pub mod Evaluate
pub mod Conditions
mod Wanted
mod Contexts
mod Evaluation
mod Linked
mod Collected
mod Synchronized
pub mod Unchanged
mod Examples
use kubernetes_resource_orch.Common.{
  ℕ, zero, suc, ◌+◌, Bool, true, false, not, ◌&&◌, ◌||◌, List, [], ◌∷◌, ◌++◌, Option, none, some,
  ◌==◌, map, if◌then◌else◌, length, get_elem?, set, Text, codes, text_eq, mem, Map, lookup, insert,
  keys, has_key, Run, done, panic, out_of_fuel, ◌>>=◌, Result, ok, err, and_then,
}
use kubernetes_resource_orch.Values.{Value, null, bool, object, Fields}
use kubernetes_resource_orch.Resolver.{
  ResolveError, FieldDescriptor, ResolutionSummary, resolve, set_value_at_path,
}

pub data ResourceVariableKind : Type 0 where
  static dynamic ready_when include_when : ResourceVariableKind

abbrev pub is_static : ResourceVariableKind → Bool
is_static static = true
is_static _ = false

abbrev pub is_dynamic : ResourceVariableKind → Bool
is_dynamic dynamic = true
is_dynamic _ = false

pub record ResourceField : Type 0 where
  pub field : FieldDescriptor
  pub kind : ResourceVariableKind
  pub dependencies : List Text

-- What the runtime asks of a resource, with the object behind `Unstructured()`.
pub record Resource : Type 0 where
  pub variables : List ResourceField
  pub dependencies : List Text
  pub ready_when_expressions : List Text
  pub include_when_expressions : List Text
  pub group_version_resource : Text
  pub is_namespaced : Bool
  pub unstructured : Value

pub record ExpressionEvaluationState : Type 0 where
  pub expression : Text
  pub dependencies : List Text
  pub kind : ResourceVariableKind
  pub resolved : Bool
  pub resolved_value : Option Value

pub data ResourceState : Type 0 where
  resolved waiting_on_dependencies waiting_on_readiness ignored_by_conditions : ResourceState

-- CEL: an environment that knows some ids, and the value of an expression in such an environment and
-- a context. Errors are their messages.
pub record Cel : Type 0 where
  pub new_environment : List Text → Result Text (Unit {0})
  pub evaluate : List Text → Map Value → Text → Result Text Value
  pub is_no_such_key : Text → Bool
  pub format_value : Value → Text

pub data RuntimeError : Type 0 where
  cel_error : Text → RuntimeError
  eval_error : (is_incomplete_data : Bool) → Text → RuntimeError
  resolve_errors : Text → List ResolveError → RuntimeError
  set_error : Text → ResolveError → RuntimeError
  skipped : Text → RuntimeError

pub record ResourceGroupRuntime : Type 0 where
  pub instance_ : Resource
  pub resources : Map Resource
  pub resolved_resources : Map Value
  pub store : List ExpressionEvaluationState
  pub runtime_variables : Map (List ℕ)
  pub expressions_cache : Map ℕ
  pub topological_order : List Text
  pub ignored_by_conditions_resources : List Text

abbrev pub schema_id : Text
schema_id = codes "schema"

abbrev pub instance_id : Text
instance_id = codes "instance"

-- A step that may panic, with the error that it returns and the runtime that it leaves behind.
abbrev pub Outcome : Type 0 → Type 0
Outcome A = Run (Result RuntimeError A × ResourceGroupRuntime)

abbrev pub addresses_of : Option (List ℕ) → List ℕ
addresses_of none = []
addresses_of (some addresses) = addresses

-- `*variable` for a pointer of the cache.
abbrev pub load : ResourceGroupRuntime → ℕ → Option ExpressionEvaluationState
load rt a = get_elem? rt.store a

abbrev pub store_value :
    ℕ → ExpressionEvaluationState → Value → ResourceGroupRuntime → ResourceGroupRuntime
store_value a v value rt = record rt {
  store = set rt.store a (record v { resolved = true; resolved_value = some value });
}

abbrev pub at_address :
    (ℕ → ExpressionEvaluationState → ResourceGroupRuntime → Outcome (Unit {0}))
    → ℕ
    → Option ExpressionEvaluationState
    → ResourceGroupRuntime
    → Outcome (Unit {0})
at_address body a none rt = panic
at_address body a (some v) rt = body a v rt

-- `if err != nil { return err }`, and then the next step.
abbrev pub if_ok :
    {A B : Type 0}
    → (A → ResourceGroupRuntime → Outcome B)
    → Result RuntimeError A × ResourceGroupRuntime
    → Outcome B
if_ok next (err e, rt) = done (err e, rt)
if_ok next (ok a, rt) = next a rt

-- `for _, variable := range rt.expressionsCache`, over what the loop does with one variable.
unfoldable pub each_cached :
    (ℕ → ExpressionEvaluationState → ResourceGroupRuntime → Outcome (Unit {0}))
    → Map ℕ
    → ResourceGroupRuntime
    → Outcome (Unit {0})
each_cached body [] rt = done (ok tt, rt)
each_cached body ((e, a) ∷ rest) rt =
    let next = each_cached body rest in at_address body a (load rt a) rt >>= if_ok (λ _. next)

-- `containsAllElements`
unfoldable pub contains_all_elements : List Text → List Text → Bool
contains_all_elements outer [] = true
contains_all_elements outer (x ∷ xs) = mem x outer && contains_all_elements outer xs

abbrev pub is_nil : List Text → Bool
is_nil [] = true
is_nil (x ∷ xs) = false

-- A missing resource is a nil interface, and a call of its method panics.
abbrev pub the_resource : Option Resource → Run Resource
the_resource none = panic
the_resource (some r) = done r

-- `variable.Kind.IsDynamic() && !variable.Resolved` holds of none of the pointers.
unfoldable pub all_resolved : List ExpressionEvaluationState → List ℕ → Bool
all_resolved cells [] = true
all_resolved cells (a ∷ addresses) =
    elim (get_elem? cells a) [ none ↦ true | some v ↦ not (is_dynamic v.kind && not v.resolved) ]
    && all_resolved cells addresses

unfoldable pub resource_variables_resolved : Text → ResourceGroupRuntime → Bool
resource_variables_resolved id rt =
    all_resolved rt.store (addresses_of (lookup id rt.runtime_variables))

unfoldable pub dependencies_resolved : List Text → ResourceGroupRuntime → Bool
dependencies_resolved [] rt = true
dependencies_resolved (d ∷ ds) rt = resource_variables_resolved d rt && dependencies_resolved ds rt

unfoldable pub can_process_resource : Text → ResourceGroupRuntime → Run Bool
can_process_resource id rt = the_resource (lookup id rt.resources) >>= λ r.
    done (dependencies_resolved r.dependencies rt && resource_variables_resolved id rt)

-- `v.Resolved` of every pointer in the cache.
unfoldable pub all_cached_resolved : List ExpressionEvaluationState → Map ℕ → Bool
all_cached_resolved cells [] = true
all_cached_resolved cells ((e, a) ∷ rest) =
    elim (get_elem? cells a) [ none ↦ false | some v ↦ v.resolved ]
    && all_cached_resolved cells rest

unfoldable pub all_expressions_are_resolved : ResourceGroupRuntime → Bool
all_expressions_are_resolved rt = all_cached_resolved rt.store rt.expressions_cache

abbrev pub processed : Text → ResourceGroupRuntime → Bool → Run (Option Value × ResourceState)
processed id rt false = done (none, waiting_on_dependencies)
processed id rt true =
    the_resource (lookup id rt.resources) >>= λ r. done (some r.unstructured, resolved)

abbrev pub get_unset :
    Text → Option Value → ResourceGroupRuntime → Run (Option Value × ResourceState)
get_unset id (some v) rt = done (some v, resolved)
get_unset id none rt = can_process_resource id rt >>= processed id rt

unfoldable pub get_resource : Text → ResourceGroupRuntime → Run (Option Value × ResourceState)
get_resource id rt = get_unset id (lookup id rt.resolved_resources) rt

abbrev pub set_resource : Text → Value → ResourceGroupRuntime → ResourceGroupRuntime
set_resource id v rt = record rt { resolved_resources = insert id v rt.resolved_resources }

abbrev pub put_instance : Value → ResourceGroupRuntime → ResourceGroupRuntime
put_instance v rt = record rt { instance_ = record rt.instance_ { unstructured = v } }

abbrev pub ignore_resource : Text → ResourceGroupRuntime → ResourceGroupRuntime
ignore_resource id rt = record rt {
  ignored_by_conditions_resources = id ∷ rt.ignored_by_conditions_resources;
}

-- Is one of them ignored?
unfoldable pub any_ignored : List Text → List Text → Bool
any_ignored ignored [] = false
any_ignored ignored (d ∷ ds) = mem d ignored || any_ignored ignored ds

unfoldable pub are_dependencies_ignored : Text → ResourceGroupRuntime → Run Bool
are_dependencies_ignored id rt = the_resource (lookup id rt.resources) >>= λ r.
    done (any_ignored rt.ignored_by_conditions_resources r.dependencies)
