-- ===== src/Runtime/Unchanged.antt =====
-- internal/runtime/runtime.go: what `Synchronize` never changes.
use kubernetes_resource_orch.Common.{
  ℕ, ◌≡◌, refl, ◌∙◌, Bool, true, false, Bool-cases, inl, inr, List, [], ◌∷◌, Option, none, some,
  length, ◌==◌, ◌&&◌, Text, Map, lookup, keys, Run, done, panic, out_of_fuel, ◌>>=◌, IfDone,
  >>=-IfDone, IfDone-always, IfDone-mono, Result, ok, err,
}
use kubernetes_resource_orch.Values.{Value}
use kubernetes_resource_orch.Resolver.{ResolveError, resolve, set_value_at_path}
use kubernetes_resource_orch.Runtime.{
  Resource, ResourceField, ExpressionEvaluationState, Cel, cel_error, ResourceGroupRuntime, Outcome,
  load, store_value, at_address, if_ok, each_cached, the_resource, can_process_resource,
  all_expressions_are_resolved,
}
use kubernetes_resource_orch.Runtime.Evaluate.{
  cel_step, context_of, skip, is_ready_to_evaluate, failed_evaluation, dynamic_body, resolved_ids,
  evaluate_dynamic_variables, put_object, report_errors, first_of, put_status, status_of,
  evaluate_statuses, evaluate_instance_statuses, evaluate_resource_expressions, evaluate_if,
  propagate, propagate_resource_variables, synchronize,
}

-- The order of the resources is as before, and so is what was set.
abbrev pub Keeps {ℓ} : {A : Type ℓ} → ResourceGroupRuntime → A × ResourceGroupRuntime → Type 0
Keeps rt out =
    (out.1.topological_order ≡ rt.topological_order)
    × (out.1.resolved_resources ≡ rt.resolved_resources)

Keeps-trans {ℓ} :
    {A : Type ℓ} (rt mid : ResourceGroupRuntime) (out : A × ResourceGroupRuntime)
    → Keeps rt (tt {0}, mid)
    → Keeps mid out
    → Keeps rt out
Keeps-trans rt mid out h k = (k.0 ∙ h.0, k.1 ∙ h.1)

-- A step that keeps them, and then one that does.
then_Keeps :
    {A B : Type 0} (rt : ResourceGroupRuntime) (m : Outcome A)
    (next : A → ResourceGroupRuntime → Outcome B)
    → IfDone (Keeps rt) m
    → ((a : A) (mid : ResourceGroupRuntime) → IfDone (Keeps mid) (next a mid))
    → IfDone (Keeps rt) (m >>= if_ok next)
then_Keeps rt (done (err e, mid)) next h k = h
then_Keeps rt (done (ok a, mid)) next h k =
    IfDone-mono (Keeps mid) (Keeps rt) (next a mid) (λ out g. Keeps-trans rt mid out h g) (k a mid)
then_Keeps rt panic next h k = tt
then_Keeps rt out_of_fuel next h k = tt

-- A computation that does not see the runtime, and then a step.
after_any :
    {A B : Type 0} (rt : ResourceGroupRuntime) (m : Run A) (next : A → Outcome B)
    → ((a : A) → IfDone (Keeps rt) (next a))
    → IfDone (Keeps rt) (m >>= next)
after_any rt m next h =
    >>=-IfDone (λ _. Unit {0}) (Keeps rt) m next (IfDone-always _ m (λ _. tt)) (λ a _. h a)

each_cached-Keeps :
    (body : ℕ → ExpressionEvaluationState → ResourceGroupRuntime → Outcome (Unit {0}))
    (entries : Map ℕ) (rt : ResourceGroupRuntime)
    → ((a : ℕ) (v : ExpressionEvaluationState) (mid : ResourceGroupRuntime)
        → IfDone (Keeps mid) (body a v mid))
    → IfDone (Keeps rt) (each_cached body entries rt)
unfolding each_cached
each_cached-Keeps body [] rt h = (refl, refl)
each_cached-Keeps body ((e, a) ∷ entries) rt h =
    then_Keeps rt (at_address body a (load rt a) rt) _ (at (load rt a))
      (λ _ mid. each_cached-Keeps body entries mid h)
  where
    at : (cell : Option ExpressionEvaluationState) → IfDone (Keeps rt) (at_address body a cell rt)
    at none = tt
    at (some v) = h a v rt

module _ (cel : Cel) where
  dynamic_body-Keeps :
      (ids : List Text) (a : ℕ) (v : ExpressionEvaluationState) (rt : ResourceGroupRuntime)
      → IfDone (Keeps rt) (dynamic_body cel ids a v rt)
  unfolding dynamic_body
  dynamic_body-Keeps ids a v rt = elim (Bool-cases (is_ready_to_evaluate ids v)) [
    | inl ready ↦
        rw ready
          (after_any rt (context_of rt.resolved_resources v.dependencies []) _ (λ ctx. evaluated _))
    | inr waits ↦ rw waits (refl, refl)
  ]
    where
      evaluated :
          (m : Result Text Value)
          → IfDone
              (Keeps rt)
              (cel_step m (failed_evaluation cel) rt (λ value. skip (store_value a v value rt)))
      evaluated (err e) = (refl, refl)
      evaluated (ok value) = (refl, refl)

  evaluate_dynamic_variables-Keeps :
      (rt : ResourceGroupRuntime) → IfDone (Keeps rt) (evaluate_dynamic_variables cel rt)
  unfolding evaluate_dynamic_variables
  evaluate_dynamic_variables-Keeps rt = go (cel.new_environment (resolved_ids rt))
    where
      go :
          (m : Result Text (Unit {0}))
          → IfDone (Keeps rt) (
              cel_step m cel_error rt
                (λ _. each_cached (dynamic_body cel (resolved_ids rt)) rt.expressions_cache rt))
      go (err e) = (refl, refl)
      go (ok _) =
          each_cached-Keeps _ rt.expressions_cache rt
            (λ a v mid. dynamic_body-Keeps (resolved_ids rt) a v mid)

  evaluate_resource_expressions-Keeps :
      (id : Text) (rt : ResourceGroupRuntime)
      → IfDone (Keeps rt) (evaluate_resource_expressions cel id rt)
  unfolding evaluate_resource_expressions
  evaluate_resource_expressions-Keeps id rt =
      after_any rt (the_resource (lookup id rt.resources)) _ (λ r.
        after_any rt (resolve _ cel.format_value _ r.unstructured) _
          (λ out. reported r out.0 out.1.errors))
    where
      reported :
          (r : Resource) (v : Value) (es : List ResolveError)
          → IfDone (Keeps rt) (report_errors id es (put_object id r v rt))
      reported r v [] = (refl, refl)
      reported r v (e ∷ es) = (refl, refl)

  propagate-Keeps :
      (ids : List Text) (rt : ResourceGroupRuntime) → IfDone (Keeps rt) (propagate cel ids rt)
  unfolding propagate
  propagate-Keeps [] rt = (refl, refl)
  propagate-Keeps (id ∷ ids) rt =
      then_Keeps rt (can_process_resource id rt >>= evaluate_if cel id rt) _
        (after_any rt (can_process_resource id rt) _ evaluated) (λ _ mid. propagate-Keeps ids mid)
    where
      evaluated : (b : Bool) → IfDone (Keeps rt) (evaluate_if cel id rt b)
      evaluated true = evaluate_resource_expressions-Keeps id rt
      evaluated false = (refl, refl)

  evaluate_statuses-Keeps :
      (vs : List ResourceField) (rt : ResourceGroupRuntime)
      → IfDone (Keeps rt) (evaluate_statuses cel vs rt)
  unfolding evaluate_statuses
  evaluate_statuses-Keeps [] rt = (refl, refl)
  evaluate_statuses-Keeps (v ∷ vs) rt = after_any rt (first_of v.field.expressions) _ (λ e.
      then_Keeps rt (status_of cel v.field.path _ rt) _ (written _)
        (λ _ mid. evaluate_statuses-Keeps vs mid))
    where
      put : (m : Result ResolveError Value) → IfDone (Keeps rt) (put_status cel v.field.path m rt)
      put (err e) = (refl, refl)
      put (ok w) = (refl, refl)

      written :
          (cell : Option ExpressionEvaluationState)
          → IfDone (Keeps rt) (status_of cel v.field.path cell rt)
      written none = (refl, refl)
      written (some c) = elim (Bool-cases c.resolved) [
        | inl done_ ↦ rw done_ (after_any rt (set_value_at_path _ _ _) _ put)
        | inr open_ ↦ rw open_ (refl, refl)
      ]

  -- Where `Synchronize` returns, the topological order and the resources that were set are what they
  -- were, with or without an error.
  pub synchronize-Keeps : (rt : ResourceGroupRuntime) → IfDone (Keeps rt) (synchronize cel rt)
  unfolding synchronize propagate_resource_variables evaluate_instance_statuses
  synchronize-Keeps rt =
      elim (Bool-cases
        (all_expressions_are_resolved rt && length rt.resolved_resources == length rt.resources)) [
          | inl finished ↦ rw finished (refl, refl)
          | inr unfinished ↦ rw unfinished (
              then_Keeps rt (evaluate_dynamic_variables cel rt) _
                (evaluate_dynamic_variables-Keeps rt)
                (λ _ rt1.
                  then_Keeps rt1 (propagate cel (keys rt1.resources) rt1) _
                    (propagate-Keeps (keys rt1.resources) rt1)
                    (λ _ rt2.
                      then_Keeps rt2 (evaluate_statuses cel rt2.instance_.variables rt2) _
                        (evaluate_statuses-Keeps rt2.instance_.variables rt2)
                        (λ _ rt3. (refl, refl)))))
        ]
