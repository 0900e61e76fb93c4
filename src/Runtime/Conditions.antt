-- ===== src/Runtime/Conditions.antt =====
-- internal/runtime/runtime.go: `IsResourceReady` and `WantToCreateResource`.
use kubernetes_resource_orch.Common.{
  Bool, true, false, List, [], ◌∷◌, ◌++◌, Option, none, some, Text, codes, Map, lookup, Run, done,
  ◌>>=◌, Result, ok, err,
}
use kubernetes_resource_orch.Values.{Value}
use kubernetes_resource_orch.Runtime.{
  Cel, RuntimeError, cel_error, skipped, ResourceGroupRuntime, schema_id, the_resource,
  are_dependencies_ignored,
}
use kubernetes_resource_orch.Runtime.Evaluate.{as_bool}

-- A Boolean with its reason.
abbrev pub no_reason : Text
no_reason = []

-- What the loop over conditions finds: all are true, or the first that is false.
abbrev pub checked :
    Result Text Value
    → (Text → RuntimeError)
    → (Value → Run (Result RuntimeError (Option Text)))
    → Run (Result RuntimeError (Option Text))
checked (err e) wrap next = done (err (wrap e))
checked (ok v) wrap next = next v

abbrev pub unless_false :
    Text → Run (Result RuntimeError (Option Text)) → Bool → Run (Result RuntimeError (Option Text))
unless_false e next true = next
unless_false e next false = done (ok (some e))

module _ (cel : Cel) where
  -- The loop over conditions, which stops at an error and at the first one that is false.
  unfoldable pub all_true :
      List Text → Map Value → List Text → Run (Result RuntimeError (Option Text))
  all_true ids ctx [] = done (ok none)
  all_true ids ctx (e ∷ es) =
      let next = all_true ids ctx es in
      checked (cel.evaluate ids ctx e) cel_error (λ value. as_bool value >>= unless_false e next)

  abbrev pub ready_answer : Result RuntimeError (Option Text) → Result RuntimeError (Bool × Text)
  ready_answer (err e) = err e
  ready_answer (ok none) = ok (true, no_reason)
  ready_answer (ok (some e)) = ok (false, codes "expression " ++ e ++ codes " evaluated to false")

  abbrev pub is_ready_with :
      Text → Value → Result Text (Unit {0}) → List Text → Run (Result RuntimeError (Bool × Text))
  is_ready_with id observed env [] = done (ok (true, no_reason))
  is_ready_with id observed (err e) (x ∷ xs) = done (err (cel_error e))
  is_ready_with id observed (ok _) (x ∷ xs) =
      all_true (id ∷ []) ((id, observed) ∷ []) (x ∷ xs) >>= λ out. done (ready_answer out)

  abbrev pub is_observed_ready :
      Text → Option Value → ResourceGroupRuntime → Run (Result RuntimeError (Bool × Text))
  is_observed_ready id none rt =
      done (ok (false, codes "resource " ++ id ++ codes " is not resolved"))
  is_observed_ready id (some observed) rt = the_resource (lookup id rt.resources) >>= λ r.
      is_ready_with id observed (cel.new_environment (id ∷ [])) r.ready_when_expressions

  -- The result and its reason.
  unfoldable pub is_resource_ready :
      Text → ResourceGroupRuntime → Run (Result RuntimeError (Bool × Text))
  is_resource_ready id rt = is_observed_ready id (lookup id rt.resolved_resources) rt

  abbrev pub create_answer : Result RuntimeError (Option Text) → Bool × Option RuntimeError
  create_answer (err e) = (false, some e)
  create_answer (ok none) = (true, none)
  create_answer (ok (some c)) = (false, some (skipped c))

  abbrev pub create_with :
      Value → Result Text (Unit {0}) → List Text → Run (Bool × Option RuntimeError)
  create_with inst env [] = done (true, none)
  create_with inst (err e) (c ∷ cs) = done (false, none)
  create_with inst (ok _) (c ∷ cs) =
      all_true (schema_id ∷ []) ((schema_id, inst) ∷ []) (c ∷ cs) >>= λ out.
      done (create_answer out)

  abbrev pub create_unless_ignored :
      Text → ResourceGroupRuntime → Bool → Run (Bool × Option RuntimeError)
  create_unless_ignored id rt true = done (false, none)
  create_unless_ignored id rt false = the_resource (lookup id rt.resources) >>= λ r.
      create_with rt.instance_.unstructured (cel.new_environment (schema_id ∷ []))
        r.include_when_expressions

  -- The answer and the error, which the code returns side by side.
  unfoldable pub want_to_create_resource :
      Text → ResourceGroupRuntime → Run (Bool × Option RuntimeError)
  want_to_create_resource id rt = are_dependencies_ignored id rt >>= create_unless_ignored id rt
