-- ===== src/Instance/Deleting.antt =====
-- internal/controller/instance/controller_reconcile.go: the deletion of the resources of an instance.
use kubernetes_resource_orch.Common.{
  Bool, true, false, ◌&&◌, List, [], ◌∷◌, Option, none, some, if◌then◌else◌, Text, Map, lookup,
  done, ◌>>=◌, Result, ok, err,
}
use kubernetes_resource_orch.Values.{Value}
use kubernetes_resource_orch.Runtime.{
  Resource, Cel, RuntimeError, ResourceGroupRuntime, resolved, waiting_on_dependencies,
  waiting_on_readiness, ignored_by_conditions, the_resource, get_resource, set_resource,
  ignore_resource, put_instance,
}
use kubernetes_resource_orch.Instance.{
  get_call, delete_call, ApiError, Cluster, StateName, skipped, error_state, deleted,
  pending_deletion, deleting, ReconcileError, initialize_failed, needed_after, delete_failed,
  check_failed, deletion_in_progress, waiting_for_deletion, ResourceState, InstanceGraphReconciler,
  Outcome, unless_err, unless_err_wrap, with_runtime, with_call, set_state, object_of,
  get_resource_client, synchronize_runtime,
}
use mathlib.Core.List.{reverse}
use kubernetes_resource_orch.Instance.Finalizing.{release_instance}

-- Are all resources deleted or skipped?
abbrev pub is_gone : StateName → Bool
is_gone deleted = true
is_gone skipped = true
is_gone _ = false

unfoldable pub all_gone : Map ResourceState → Bool
all_gone [] = true
all_gone ((id, s) ∷ states) = is_gone s.state && all_gone states

abbrev pub is_pending_deletion : Option ResourceState → Bool
is_pending_deletion none = false
is_pending_deletion (some s) = elim s.state [ pending_deletion ↦ true | _ ↦ false ]

module _ (cluster : Cluster) where
  abbrev pub mark_observed : Text → Result ApiError Value → InstanceGraphReconciler → Outcome
  mark_observed id (err e) igr =
      if e.is_not_found
      then done (none, set_state id deleted none igr)
      else done (some (check_failed e), igr)
  mark_observed id (ok observed) igr = done (
    none,
    set_state id pending_deletion none (with_runtime (set_resource id observed igr.runtime) igr),
  )

  abbrev pub mark_found :
      Text
      → Option Value × kubernetes_resource_orch.Runtime.ResourceState
      → InstanceGraphReconciler
      → Outcome
  mark_found id (v, resolved) igr = get_resource_client cluster id igr >>= λ rc.
      object_of v >>= λ resource.
      let name = cluster.access.name resource in
      mark_observed id (cluster.get igr.calls rc name) (with_call (get_call rc name) igr)
  mark_found id _ igr = done (none, set_state id skipped none igr)

  -- The loop of `initializeDeletionState`.
  unfoldable pub initialize_each : List Text → InstanceGraphReconciler → Outcome
  initialize_each [] igr = done (none, igr)
  initialize_each (id ∷ ids) igr =
      let next = initialize_each ids in
      synchronize_runtime cluster igr
      >>= unless_err (λ igr1.
        get_resource id igr1.runtime >>= λ found. mark_found id found igr1 >>= unless_err next)

  unfoldable pub initialize_deletion_state : InstanceGraphReconciler → Outcome
  initialize_deletion_state igr = initialize_each igr.runtime.topological_order igr

  abbrev pub after_delete : Text → Option ApiError → InstanceGraphReconciler → Outcome
  after_delete id none igr =
      done (some (needed_after deletion_in_progress), set_state id deleting none igr)
  after_delete id (some e) igr =
      if e.is_not_found
      then done (none, set_state id deleted none igr)
      else done (some (delete_failed e), set_state id error_state (some (delete_failed e)) igr)

  unfoldable pub delete_resource : Text → InstanceGraphReconciler → Outcome
  delete_resource id igr = get_resource id igr.runtime >>= λ found.
      get_resource_client cluster id igr >>= λ rc. object_of found.0 >>= λ resource.
      let name = cluster.access.name resource in
      after_delete id (cluster.delete igr.calls rc name) (with_call (delete_call rc name) igr)

  -- The loop of `deleteResourcesInOrder`, over the resources in the order in which it takes them.
  unfoldable pub delete_each : List Text → InstanceGraphReconciler → Outcome
  delete_each [] igr = done (none, igr)
  delete_each (id ∷ ids) igr =
      let next = delete_each ids in
      if is_pending_deletion (lookup id igr.state.resource_states)
      then delete_resource id igr >>= unless_err next
      else next igr

  unfoldable pub delete_resources_in_order : InstanceGraphReconciler → Outcome
  delete_resources_in_order igr = delete_each (reverse igr.runtime.topological_order) igr

  unfoldable pub finalize_deletion :
      InstanceGraphReconciler → Option ReconcileError × InstanceGraphReconciler
  finalize_deletion igr =
      if all_gone igr.state.resource_states
      then release_instance cluster igr
      else (some (needed_after waiting_for_deletion), igr)

  unfoldable pub handle_instance_deletion : InstanceGraphReconciler → Outcome
  handle_instance_deletion igr =
      initialize_deletion_state igr
      >>= unless_err_wrap initialize_failed (λ igr1.
        delete_resources_in_order igr1 >>= unless_err (λ igr2. done (finalize_deletion igr2)))
