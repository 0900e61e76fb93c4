-- ===== src/Runtime/Synchronized.antt =====
-- internal/runtime/runtime.go, `Synchronize`: when it says that all is done.
use kubernetes_resource_orch.Common.{
  ℕ, ◌≡◌, ◌≢◌, ◌↔◌, refl, sym, ap, Bool, true, false, ◌&&◌, inl, inr, List, [], ◌∷◌, some, ◌==◌,
  Bool-cases, Option-cases, All, arith, length, get_elem?, Map, done, panic, out_of_fuel, ◌>>=◌, ok,
  err,
}
use kubernetes_resource_orch.Runtime.{
  Cel, ExpressionEvaluationState, ResourceGroupRuntime, all_cached_resolved,
  all_expressions_are_resolved, if_ok, Outcome,
}
use kubernetes_resource_orch.Runtime.Evaluate.{
  propagate_resource_variables, evaluate_instance_statuses, synchronize,
}

-- Every cell of the cache is resolved.
abbrev pub AllResolved : List ExpressionEvaluationState → Map ℕ → Type 0
AllResolved cells = All (λ entry.
    (v : ExpressionEvaluationState) × (get_elem? cells entry.1 ≡ some v) × (v.resolved ≡ true))

AllResolved-all_cached_resolved :
    (cells : List ExpressionEvaluationState) (entries : Map ℕ)
    → all_cached_resolved cells entries ≡ true
    → AllResolved cells entries
unfolding all_cached_resolved
AllResolved-all_cached_resolved cells [] h = tt
AllResolved-all_cached_resolved cells ((e, a) ∷ entries) h =
    elim (Option-cases (get_elem? cells a)) [
      | inl gone ↦ ground (arith, h, gone)
      | inr (v, there) ↦ (
        (v, there, ground (arith, h, there)),
        AllResolved-all_cached_resolved cells entries (ground (arith, h, there)),
      )
    ]

all_cached_resolved-AllResolved :
    (cells : List ExpressionEvaluationState) (entries : Map ℕ)
    → AllResolved cells entries
    → all_cached_resolved cells entries ≡ true
unfolding all_cached_resolved
all_cached_resolved-AllResolved cells [] h = refl
all_cached_resolved-AllResolved cells ((e, a) ∷ entries) ((v, there, done_), h) =
    rw (there, done_) (all_cached_resolved-AllResolved cells entries h)

abbrev runtime_after : ResourceGroupRuntime → Outcome Bool → ResourceGroupRuntime
runtime_after before (done (_, after)) = after
runtime_after before _ = before

-- A step that goes on says no more than what comes next says.
goes_on :
    (after : ResourceGroupRuntime) (m : Outcome (Unit {0}))
    (next : Unit {0} → ResourceGroupRuntime → Outcome Bool)
    → ((rt : ResourceGroupRuntime) → next tt rt ≢ done (ok false, after))
    → (m >>= if_ok next) ≢ done (ok false, after)
goes_on after (done (err e, rt)) next f h = ground (arith, h)
goes_on after (done (ok a, rt)) next f h = f rt h
goes_on after panic next f h = ground (arith, h)
goes_on after out_of_fuel next f h = ground (arith, h)

module _ (cel : Cel) (rt : ResourceGroupRuntime) where
  -- The rest of `Synchronize`, when it has something to do, never says that all is done.
  not_done :
      (m : Outcome (Unit {0})) (after : ResourceGroupRuntime)
      → (m
          >>= if_ok (λ _ rt1.
            propagate_resource_variables cel rt1
            >>= if_ok (λ _ rt2.
              evaluate_instance_statuses cel rt2 >>= if_ok (λ _ rt3. done (ok true, rt3)))))
        ≢ done (ok false, after)
  not_done m after = goes_on after m _ (λ rt1.
      goes_on after (propagate_resource_variables cel rt1) _
        (λ rt2. goes_on after (evaluate_instance_statuses cel rt2) _ (λ rt3 h. ground (arith, h))))

  -- `Synchronize` says without an error that nothing is left to do exactly when every expression in
  -- the cache is resolved and as many resources are set as there are; it then changes nothing.
  pub synchronize-AllResolved :
      (after : ResourceGroupRuntime)
      → (synchronize cel rt ≡ done (ok false, after)) ↔ (
          AllResolved rt.store rt.expressions_cache
          × (length rt.resolved_resources ≡ length rt.resources)
          × (after ≡ rt))
  unfolding synchronize all_expressions_are_resolved
  synchronize-AllResolved after =
      elim (Bool-cases (
        all_cached_resolved rt.store rt.expressions_cache
        && length rt.resolved_resources == length rt.resources)) [
          | inl finished ↦ rw finished (
            λ h. (
              AllResolved-all_cached_resolved rt.store rt.expressions_cache
                  (ground (arith, finished)),
              ground (arith, finished),
              sym (ap (runtime_after rt) h),
            ),
            λ (_, _, same). ap (λ x. done (ok false, x)) (sym same),
          )
          | inr unfinished ↦ rw unfinished (
            λ h. absurd (not_done _ after h),
            λ (all_, count_, _).
                ground (arith, unfinished, all_cached_resolved-AllResolved _ _ all_, count_),
          )
        ]
