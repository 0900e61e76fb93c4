-- ===== src/Instance/Reconciling.antt =====
-- internal/controller/instance/controller_reconcile.go: the reconciliation of the resources of an
-- instance that is not being deleted.
use kubernetes_resource_orch.Common.{
  Bool, true, false, List, [], ◌∷◌, Option, none, some, if◌then◌else◌, Text, lookup, insert, done,
  ◌>>=◌, Result, ok, err,
}
use kubernetes_resource_orch.Values.{Value}
use kubernetes_resource_orch.Metadata.{apply_labels}
use kubernetes_resource_orch.Runtime.{
  Resource, Cel, RuntimeError, ResourceGroupRuntime, resolved, waiting_on_dependencies,
  waiting_on_readiness, ignored_by_conditions, the_resource, get_resource, set_resource,
  ignore_resource, put_instance,
}
use kubernetes_resource_orch.Runtime.Conditions.{want_to_create_resource, is_resource_ready}
use kubernetes_resource_orch.Instance.{
  ResourceClient, get_call, create_call, ApiError, Cluster, pending, in_progress, skipped,
  error_state, waiting_for_readiness, synced, created, setup_failed, needed_after, get_failed,
  create_failed, not_resolved, not_ready, awaiting_creation, InstanceGraphReconciler, Outcome,
  unless_err, unless_err_wrap, with_runtime, with_call, set_state, object_of, get_resource_client,
  synchronize_runtime,
}
use kubernetes_resource_orch.Instance.Finalizing.{setup_instance}

-- `ApplyLabels` writes to the object that `GetResource` returned, which the runtime holds.
abbrev pub put_current :
    Text → Value → Option Value → Option Resource → ResourceGroupRuntime → ResourceGroupRuntime
put_current id v (some _) r rt = set_resource id v rt
put_current id v none none rt = rt
put_current id v none (some r) rt = record rt {
  resources = insert id (record r { unstructured = v }) rt.resources;
}

unfoldable pub all_pending : List Text → InstanceGraphReconciler → InstanceGraphReconciler
all_pending [] igr = igr
all_pending (id ∷ ids) igr = all_pending ids (set_state id pending none igr)

module _ (cluster : Cluster) where
  abbrev pub after_create : Text → Option ApiError → InstanceGraphReconciler → Outcome
  after_create id (some e) igr =
      done (some (create_failed e), set_state id error_state (some (create_failed e)) igr)
  after_create id none igr =
      done (some (needed_after awaiting_creation), set_state id created none igr)

  unfoldable pub handle_resource_creation :
      ResourceClient → Value → Text → InstanceGraphReconciler → Outcome
  handle_resource_creation rc resource id igr =
      let labelled = apply_labels cluster.access igr.instance_sub_resources_labeler resource in
      let rt =
        put_current id labelled (lookup id igr.runtime.resolved_resources)
          (lookup id igr.runtime.resources) igr.runtime in
      after_create id (cluster.create igr.calls rc labelled)
        (with_call (create_call rc labelled) (with_runtime rt igr))

  abbrev pub wait_for_readiness :
      Text → Text → Option RuntimeError → InstanceGraphReconciler → Outcome
  wait_for_readiness id reason e igr = done (
    some (needed_after (not_ready reason e)),
    set_state id waiting_for_readiness (some (not_ready reason e)) igr,
  )

  -- `SYNCED`, and then `updateResource`, which does nothing but say so again.
  abbrev pub after_readiness :
      Text → Result RuntimeError (Bool × Text) → InstanceGraphReconciler → Outcome
  after_readiness id (err e) igr = wait_for_readiness id [] (some e) igr
  after_readiness id (ok (false, reason)) igr = wait_for_readiness id reason none igr
  after_readiness id (ok (true, reason)) igr = done (none, set_state id synced none igr)

  abbrev pub observe :
      ResourceClient → Value → Text → Result ApiError Value → InstanceGraphReconciler → Outcome
  observe rc resource id (err e) igr =
      if e.is_not_found
      then handle_resource_creation rc resource id igr
      else done (some (get_failed e), set_state id error_state (some (get_failed e)) igr)
  observe rc resource id (ok observed) igr =
      let igr1 = with_runtime (set_resource id observed igr.runtime) igr in
      is_resource_ready cluster.cel id igr1.runtime >>= λ ready. after_readiness id ready igr1

  unfoldable pub handle_resource_reconciliation : Text → Value → InstanceGraphReconciler → Outcome
  handle_resource_reconciliation id resource igr = get_resource_client cluster id igr >>= λ rc.
      let name = cluster.access.name resource in
      observe rc resource id (cluster.get igr.calls rc name) (with_call (get_call rc name) igr)

  abbrev pub when_resolved :
      Text
      → Option Value × kubernetes_resource_orch.Runtime.ResourceState
      → InstanceGraphReconciler
      → Outcome
  when_resolved id (v, resolved) igr =
      object_of v >>= λ resource. handle_resource_reconciliation id resource igr
  when_resolved id _ igr = done (some (needed_after (not_resolved id)), igr)

  -- An error of `WantToCreateResource` skips the resource as well.
  abbrev pub when_wanted : Text → Bool × Option RuntimeError → InstanceGraphReconciler → Outcome
  when_wanted id (true, none) igr =
      get_resource id igr.runtime >>= λ found. when_resolved id found igr
  when_wanted id _ igr =
      done (none, with_runtime (ignore_resource id igr.runtime) (set_state id skipped none igr))

  unfoldable pub reconcile_resource : Text → InstanceGraphReconciler → Outcome
  reconcile_resource id igr =
      let igr1 = set_state id in_progress none igr in
      want_to_create_resource cluster.cel id igr1.runtime >>= λ wanted. when_wanted id wanted igr1

  -- The loop over the topological order.
  unfoldable pub reconcile_each : List Text → InstanceGraphReconciler → Outcome
  reconcile_each [] igr = done (none, igr)
  reconcile_each (id ∷ ids) igr =
      let next = reconcile_each ids in
      reconcile_resource id igr
      >>= unless_err (λ igr1. synchronize_runtime cluster igr1 >>= unless_err next)

  unfoldable pub reconcile_instance : InstanceGraphReconciler → Outcome
  reconcile_instance igr =
      unless_err_wrap setup_failed
        (λ igr1.
          reconcile_each igr1.runtime.topological_order
            (all_pending igr1.runtime.topological_order igr1))
        (setup_instance cluster igr)
