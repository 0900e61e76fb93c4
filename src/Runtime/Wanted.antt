-- ===== src/Runtime/Wanted.antt =====
-- internal/runtime/runtime.go: when a resource is wanted and when it is ready.
use kubernetes_resource_orch.Common.{
  ℕ, zero, suc, ◌≡◌, ◌↔◌, inl, inr, refl, sym, ap, subst, Bool, true, false, not, ◌&&◌, List, [],
  ◌∷◌, Option, none, some, Bool-cases, Option-cases, All, arith, get_elem?, Text, text_eq,
  text_eq_iff, text_eq_refl, mem, mem-cons_self, Map, lookup, Run, done, panic, out_of_fuel, ◌>>=◌,
  Result, ok, err,
}
use mathlib.Core.Option.{some-injective}
use kubernetes_resource_orch.Values.{Value, bool}
use kubernetes_resource_orch.Runtime.{
  Resource, waiting_on_dependencies, Cel, RuntimeError, cel_error, ResourceGroupRuntime,
  ExpressionEvaluationState, is_dynamic, addresses_of, all_resolved, get_unset, processed,
  schema_id, can_process_resource, dependencies_resolved, resource_variables_resolved, get_resource,
  ignore_resource, any_ignored, are_dependencies_ignored,
}
use kubernetes_resource_orch.Runtime.Evaluate.{as_bool}
use kubernetes_resource_orch.Runtime.Conditions.{
  checked, unless_false, no_reason, ready_answer, create_answer, create_with, create_unless_ignored,
  is_ready_with, is_observed_ready, all_true, is_resource_ready, want_to_create_resource,
}

module _ (cel : Cel) (ids : List Text) (ctx : Map Value) where
  -- Every expression evaluates to true.
  abbrev pub Holds : List Text → Type 0
  Holds = All (λ e. cel.evaluate ids ctx e ≡ ok (bool true))

  all_true-Holds : (es : List Text) → Holds es → all_true cel ids ctx es ≡ done (ok none)
  unfolding all_true
  all_true-Holds [] h = refl
  all_true-Holds (e ∷ es) h = rw h.0 (all_true-Holds es h.1)

  only_true :
      (e : Text) (next : Run (Result RuntimeError (Option Text))) (m : Result Text Value)
      → (checked m cel_error (λ value. as_bool value >>= unless_false e next)) ≡ done (ok none)
      → (m ≡ ok (bool true)) × (next ≡ done (ok none))
  only_true e next (err x) h = ground (arith, h)
  only_true e next (ok (bool true)) h = (refl, h)
  only_true e next (ok (bool false)) h = ground (arith, h)
  only_true e next (ok _) h = ground (arith, h)

  Holds-all_true : (es : List Text) → all_true cel ids ctx es ≡ done (ok none) → Holds es
  unfolding all_true
  Holds-all_true [] h = tt
  Holds-all_true (e ∷ es) h =
      let both = only_true e (all_true cel ids ctx es) (cel.evaluate ids ctx e) h in
      (both.0, Holds-all_true es both.1)

-- A dynamic expression among the addresses is not resolved.
abbrev pub Blocked : List ExpressionEvaluationState → List ℕ → Type 0
Blocked cells addresses =
    (i : ℕ) × (a : ℕ) × (v : ExpressionEvaluationState) × (get_elem? addresses i ≡ some a)
    × (get_elem? cells a ≡ some v)
    × (is_dynamic v.kind ≡ true)
    × (v.resolved ≡ false)

Blocked-all_resolved :
    (cells : List ExpressionEvaluationState) (addresses : List ℕ)
    → all_resolved cells addresses ≡ false
    → Blocked cells addresses
unfolding all_resolved
Blocked-all_resolved cells [] h = ground (arith, h)
Blocked-all_resolved cells (a ∷ addresses) h = elim (Option-cases (get_elem? cells a)) [
  | inl gone ↦ later (Blocked-all_resolved cells addresses (ground (arith, h, gone)))
  | inr (v, there) ↦ elim (Bool-cases (is_dynamic v.kind && not v.resolved)) [
    | inl blocks ↦ (zero, a, v, refl, there, ground (arith, blocks), ground (arith, blocks))
    | inr free ↦ later (Blocked-all_resolved cells addresses (ground (arith, h, there, free)))
  ]
]
  where
    later : Blocked cells addresses → Blocked cells (a ∷ addresses)
    later (i, b, v, at_, there, dyn, open_) = (suc i, b, v, at_, there, dyn, open_)

all_resolved-Blocked :
    (cells : List ExpressionEvaluationState) (addresses : List ℕ)
    → Blocked cells addresses
    → all_resolved cells addresses ≡ false
unfolding all_resolved
all_resolved-Blocked cells [] (i, a, v, at_, _, _, _) = ground (arith, at_)
all_resolved-Blocked cells (b ∷ addresses) (zero, a, v, at_, there, dyn, open_) =
    rw (some-injective _ _ at_) (ground (arith, there, dyn, open_))
all_resolved-Blocked cells (b ∷ addresses) (suc i, a, v, at_, there, dyn, open_) =
    ground (arith, all_resolved-Blocked cells addresses (i, a, v, at_, there, dyn, open_))

module _ (cel : Cel) where
  create_answer-true :
      (m : Run (Result RuntimeError (Option Text)))
      → (m >>= λ out. done (create_answer cel out)) ≡ done (true, none)
      → m ≡ done (ok none)
  create_answer-true (done (err e)) h = ground (arith, h)
  create_answer-true (done (ok none)) h = refl
  create_answer-true (done (ok (some c))) h = ground (arith, h)
  create_answer-true panic h = ground (arith, h)
  create_answer-true out_of_fuel h = ground (arith, h)

  ready_answer-true :
      (m : Run (Result RuntimeError (Option Text)))
      → (m >>= λ out. done (ready_answer cel out)) ≡ done (ok (true, no_reason))
      → m ≡ done (ok none)
  ready_answer-true (done (err e)) h = ground (arith, h)
  ready_answer-true (done (ok none)) h = refl
  ready_answer-true (done (ok (some c))) h = ground (arith, h)
  ready_answer-true panic h = ground (arith, h)
  ready_answer-true out_of_fuel h = ground (arith, h)

  create_with-Holds :
      (inst : Value) (es : List Text)
      → (create_with cel inst (ok tt) es ≡ done (true, none))
        ↔ Holds cel (schema_id ∷ []) ((schema_id, inst) ∷ []) es
  create_with-Holds inst [] = (λ _. tt, λ _. refl)
  create_with-Holds inst (e ∷ es) = (
    λ h. Holds-all_true cel _ _ (e ∷ es) (create_answer-true _ h),
    λ h. ap (λ m. m >>= λ out. done (create_answer cel out)) (all_true-Holds cel _ _ (e ∷ es) h),
  )

  is_ready_with-Holds :
      (id : Text) (observed : Value) (es : List Text)
      → (is_ready_with cel id observed (ok tt) es ≡ done (ok (true, no_reason)))
        ↔ Holds cel (id ∷ []) ((id, observed) ∷ []) es
  is_ready_with-Holds id observed [] = (λ _. tt, λ _. refl)
  is_ready_with-Holds id observed (e ∷ es) = (
    λ h. Holds-all_true cel _ _ (e ∷ es) (ready_answer-true _ h),
    λ h. ap (λ m. m >>= λ out. done (ready_answer cel out)) (all_true-Holds cel _ _ (e ∷ es) h),
  )

any_ignored-mem :
    (dep : Text) (ignored deps : List Text)
    → mem dep ignored ≡ true
    → mem dep deps ≡ true
    → any_ignored ignored deps ≡ true
unfolding any_ignored mem
any_ignored-mem dep ignored [] i h = ground (arith, h)
any_ignored-mem dep ignored (d ∷ deps) i h = elim (Bool-cases (text_eq dep d)) [
  | inl same ↦ rw (sym ((text_eq_iff dep d).0 same), i) refl
  | inr other ↦ ground (arith, h, other, any_ignored-mem dep ignored deps i)
]

module _ (cel : Cel) (id : Text) (r : Resource) (rt : ResourceGroupRuntime)
    (there : lookup id rt.resources ≡ some r) where
  -- `WantToCreateResource` says yes exactly when no dependency is ignored and every includeWhen
  -- condition is true of the instance, where the environment can be made and the id names a resource.
  pub want_to_create_resource-Holds :
      cel.new_environment (schema_id ∷ []) ≡ ok tt
      → (want_to_create_resource cel id rt ≡ done (true, none)) ↔ (
          (any_ignored rt.ignored_by_conditions_resources r.dependencies ≡ false)
          × Holds cel
              (schema_id ∷ [])
              ((schema_id, rt.instance_.unstructured) ∷ [])
              r.include_when_expressions)
  unfolding want_to_create_resource are_dependencies_ignored
  want_to_create_resource-Holds env = rw there (go _)
    where
      go :
          (ignored : Bool)
          → (create_unless_ignored cel id rt ignored ≡ done (true, none)) ↔ (
              (ignored ≡ false)
              × Holds cel
                  (schema_id ∷ [])
                  ((schema_id, rt.instance_.unstructured) ∷ [])
                  r.include_when_expressions)
      go true = (λ h. ground (arith, h), λ h. ground (arith, h.0))
      go false =
          rw (there, env)
            (
              λ h. (refl, (create_with-Holds cel _ r.include_when_expressions).0 h),
              λ h. (create_with-Holds cel _ r.include_when_expressions).1 h.1,
            )

  -- `IsResourceReady` says yes exactly when the resource was set and every readyWhen expression is
  -- true of what was set, where the environment can be made and the id names a resource.
  pub is_resource_ready-Holds :
      cel.new_environment (id ∷ []) ≡ ok tt
      → (is_resource_ready cel id rt ≡ done (ok (true, no_reason))) ↔ (
          (observed : Value) × (lookup id rt.resolved_resources ≡ some observed)
          × Holds cel (id ∷ []) ((id, observed) ∷ []) r.ready_when_expressions)
  unfolding is_resource_ready
  is_resource_ready-Holds env = go (lookup id rt.resolved_resources)
    where
      go :
          (m : Option Value)
          → (is_observed_ready cel id m rt ≡ done (ok (true, no_reason))) ↔ (
              (observed : Value) × (m ≡ some observed)
              × Holds cel (id ∷ []) ((id, observed) ∷ []) r.ready_when_expressions)
      go none = (λ h. ground (arith, h), λ (v, e, _). ground (arith, e))
      go (some v) =
          rw (there, env)
            (
              λ h. (v, refl, (is_ready_with-Holds cel id v r.ready_when_expressions).0 h),
              λ (w, e, h). (is_ready_with-Holds cel id v r.ready_when_expressions).1 (
                  subst (λ x. Holds cel (id ∷ []) ((id, x) ∷ []) r.ready_when_expressions)
                    (sym (some-injective _ _ e)) h),
            )

  -- Once a dependency is ignored the resource is not wanted, whatever its conditions, and without an
  -- error. This holds for every resource that depends on it.
  pub want_to_create_resource-ignore :
      (dep : Text)
      → mem dep r.dependencies ≡ true
      → want_to_create_resource cel id (ignore_resource dep rt) ≡ done (false, none)
  unfolding want_to_create_resource are_dependencies_ignored
  want_to_create_resource-ignore dep h =
      rw
        (
          there,
          any_ignored-mem dep (dep ∷ rt.ignored_by_conditions_resources) r.dependencies
              (mem-cons_self dep rt.ignored_by_conditions_resources) h,
        )
        refl

module _ (id : Text) (r : Resource) (rt : ResourceGroupRuntime)
    (there : lookup id rt.resources ≡ some r) where
  Blocked-dependencies :
      (deps : List Text)
      → dependencies_resolved deps rt ≡ false
      → ((dep : Text) × (mem dep deps ≡ true)
          × Blocked rt.store (addresses_of (lookup dep rt.runtime_variables)))
  unfolding dependencies_resolved resource_variables_resolved mem
  Blocked-dependencies [] h = ground (arith, h)
  Blocked-dependencies (d ∷ ds) h =
      elim (Bool-cases (all_resolved rt.store (addresses_of (lookup d rt.runtime_variables)))) [
        | inl free ↦
            let (x, within, blocked) = Blocked-dependencies ds (ground (arith, h, free)) in
            (x, ground (arith, within), blocked)
        | inr not_free ↦
            (d, ground (arith, text_eq_refl d), Blocked-all_resolved rt.store _ not_free)
      ]

  dependencies_resolved-Blocked :
      (deps : List Text) (x : Text)
      → mem x deps ≡ true
      → Blocked rt.store (addresses_of (lookup x rt.runtime_variables))
      → dependencies_resolved deps rt ≡ false
  unfolding dependencies_resolved resource_variables_resolved mem
  dependencies_resolved-Blocked [] x h b = ground (arith, h)
  dependencies_resolved-Blocked (d ∷ ds) x h b = elim (Bool-cases (text_eq x d)) [
    | inl same ↦ rw (sym ((text_eq_iff x d).0 same), all_resolved-Blocked rt.store _ b) refl
    | inr other ↦
        ground (arith, h, other, dependencies_resolved-Blocked ds x (ground (arith, h, other)) b)
  ]

  commuted :
      dependencies_resolved (id ∷ r.dependencies) rt
      ≡ (dependencies_resolved r.dependencies rt && resource_variables_resolved id rt)
  unfolding dependencies_resolved
  commuted = ground arith

  -- `GetResource` on the id of a resource tells the caller to wait exactly when the resource was not
  -- set and a dynamic expression, of it or of a resource that it depends on, is not resolved.
  pub get_resource-Waits : (get_resource id rt ≡ done (none, waiting_on_dependencies)) ↔ (
      (lookup id rt.resolved_resources ≡ none)
      × (x : Text) × (mem x (id ∷ r.dependencies) ≡ true)
      × Blocked rt.store (addresses_of (lookup x rt.runtime_variables)))
  unfolding get_resource can_process_resource
  get_resource-Waits = go (lookup id rt.resolved_resources)
    where
      waits :
          (b : Bool)
          → dependencies_resolved (id ∷ r.dependencies) rt ≡ b
          → (processed id rt b ≡ done (none, waiting_on_dependencies)) ↔ (
              (x : Text) × (mem x (id ∷ r.dependencies) ≡ true)
              × Blocked rt.store (addresses_of (lookup x rt.runtime_variables)))
      waits true e = (
        λ h. ground (arith, rw there at h),
        λ (x, m, b). ground (arith, e, dependencies_resolved-Blocked (id ∷ r.dependencies) x m b),
      )
      waits false e = (λ _. Blocked-dependencies (id ∷ r.dependencies) e, λ _. refl)

      go :
          (m : Option Value)
          → (get_unset id m rt ≡ done (none, waiting_on_dependencies)) ↔ (
              (m ≡ none)
              × (x : Text) × (mem x (id ∷ r.dependencies) ≡ true)
              × Blocked rt.store (addresses_of (lookup x rt.runtime_variables)))
      go (some v) = (λ h. ground (arith, h), λ (e, _, _, _). ground (arith, e))
      go none =
          rw (there, sym commuted)
            (
              λ h. let (x, m, b) = (waits _ refl).0 h in (refl, x, m, b),
              λ (_, x, m, b). (waits _ refl).1 (x, m, b),
            )
