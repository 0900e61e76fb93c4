-- ===== src/Instance/Outcomes.antt =====
-- internal/controller/instance: the state and the status that a reconciliation leaves behind.
use kubernetes_resource_orch.Common.{
  ◌≡◌, inl, inr, refl, ap, ◌∙◌, Bool, true, false, Bool-cases, List, [], ◌∷◌, ◌++◌, Option, none,
  some, if◌then◌else◌, Text, Nodup, done, IfDone, >>=-IfDone, Result, ok, err,
}
use kubernetes_resource_orch.Values.{Value}
use kubernetes_resource_orch.Metadata.{has_instance_finalizer, remove_instance_finalizer}
use kubernetes_resource_orch.Instance.{
  Call, update_status_call, ApiError, Cluster, StateName, in_progress, error_state, deleting,
  active, ReconcileError, remove_failed, needed_after, is_requeue, new_instance_state,
  InstanceGraphReconciler,
}
use kubernetes_resource_orch.Instance.Finalizing.{
  release_instance, set_unmanaged, update_instance, updated, put_patched, is_managed,
}
use kubernetes_resource_orch.Instance.Reconciling.{reconcile_instance}
use kubernetes_resource_orch.Instance.Deleting.{handle_instance_deletion}
use kubernetes_resource_orch.Instance.Status.{
  update_instance_state, state_after, patch_instance_status,
}
use kubernetes_resource_orch.Instance.Lifecycle.{report, handle_reconciliation, reconcile}
use kubernetes_resource_orch.Instance.Ordering.{InOrder, reconcile_instance-InOrder}
use kubernetes_resource_orch.Instance.Releasing.{
  Deletion, not_initialized, stopped_by, waiting, released, handle_instance_deletion-Deletion,
}

-- What the state says of the result: an error that asks for a retry is no failure.
abbrev pub state_for : (is_being_deleted : Bool) → Option ReconcileError → StateName
state_for true none = deleting
state_for false none = active
state_for true (some e) = if is_requeue e then deleting else error_state
state_for false (some e) = if is_requeue e then in_progress else error_state

state_after-deleting : (e : Option ReconcileError) → state_after deleting e ≡ state_for true e
state_after-deleting none = refl
state_after-deleting (some (needed_after e)) = refl
state_after-deleting (some _) = refl

state_after-in_progress :
    (e : Option ReconcileError) → state_after in_progress e ≡ state_for false e
state_after-in_progress none = refl
state_after-in_progress (some (needed_after e)) = refl
state_after-in_progress (some _) = refl

module _ (cluster : Cluster) where
  release_instance-state :
      (igr : InstanceGraphReconciler) → (release_instance cluster igr).1.state ≡ igr.state
  unfolding release_instance set_unmanaged
  release_instance-state igr = branch (
      is_managed (
        has_instance_finalizer cluster.access
          (cluster.access.uid igr.runtime.instance_.unstructured)
          igr.runtime.instance_.unstructured))
    where
      answer :
          (copy : Value) (m : Result ApiError Value)
          → (put_patched remove_failed (updated cluster copy igr m)).1.state ≡ igr.state
      answer copy (err e) = refl
      answer copy (ok v) = refl

      finalizer :
          (m : Result Text Value)
          → (put_patched remove_failed (update_instance cluster igr m)).1.state ≡ igr.state
      finalizer (err e) = refl
      finalizer (ok copy) = answer copy (cluster.update igr.calls copy)

      branch :
          (b : Bool)
          → (put_patched remove_failed (
              if b
              then update_instance cluster igr (
                  remove_instance_finalizer cluster.access
                    (cluster.access.uid igr.runtime.instance_.unstructured)
                    igr.runtime.instance_.unstructured)
              else (ok igr.runtime.instance_.unstructured, igr))).1.state
            ≡ igr.state
      branch true = finalizer _
      branch false = refl

  Deletion-state :
      (igr : InstanceGraphReconciler) (out : Option ReconcileError × InstanceGraphReconciler)
      → Deletion cluster igr out
      → out.1.state.state ≡ igr.state.state
  Deletion-state igr _ (not_initialized e after m) = m.keeps_state
  Deletion-state igr _ (stopped_by e marked after m r) = r.keeps_state ∙ m.keeps_state
  Deletion-state igr _ (waiting marked after m r _) = r.keeps_state ∙ m.keeps_state
  Deletion-state igr _ (released marked after m r _) =
      ap (λ s. s.state) (release_instance-state after) ∙ r.keeps_state ∙ m.keeps_state

  InOrder-state :
      (igr : InstanceGraphReconciler) (out : Option ReconcileError × InstanceGraphReconciler)
      → InOrder cluster igr out
      → out.1.state.state ≡ igr.state.state
  InOrder-state igr out (inl (e, _, same)) = ap (λ s. s.state) same
  InOrder-state igr out (inr (started, _, _, same, o)) = o.keeps_state ∙ same

  -- The result of a reconciliation: the error is kept, the state is the one for it, and the last call
  -- reports it.
  abbrev pub Reports : Bool → Option ReconcileError × InstanceGraphReconciler → Type 0
  Reports is_being_deleted (e, after) =
      (after.state.reconcile_err ≡ e)
      × (after.state.state ≡ state_for is_being_deleted e)
      × (earlier : List Call) × (status : Value) × (after.calls
          ≡ earlier ++ update_status_call status ∷ [])

  -- `reconcile`, where it returns and each resource is once in the topological order: the instance is
  -- ACTIVE after a success, keeps IN_PROGRESS when a retry is asked for, and is in ERROR after any
  -- other error; an instance that is being deleted is DELETING unless it is in ERROR. The status is
  -- always written as the last call.
  pub reconcile-Reports :
      (error_text : ReconcileError → Text) (igr : InstanceGraphReconciler)
      → Nodup igr.runtime.topological_order
      → IfDone
          (Reports (cluster.access.is_being_deleted igr.runtime.instance_.unstructured))
          (reconcile cluster error_text igr)
  unfolding reconcile handle_reconciliation update_instance_state patch_instance_status
  reconcile-Reports error_text igr n =
      elim (Bool-cases (cluster.access.is_being_deleted igr.runtime.instance_.unstructured)) [
        | inl leaving ↦ rw leaving (
            >>=-IfDone (Deletion cluster doomed) (Reports true)
              (handle_instance_deletion cluster doomed) _
              (handle_instance_deletion-Deletion cluster doomed n)
              (λ out d.
                reported true deleting out (state_after-deleting out.0)
                  (Deletion-state doomed out d)))
        | inr staying ↦ rw staying (
            >>=-IfDone (InOrder cluster fresh) (Reports false) (reconcile_instance cluster fresh) _
              (reconcile_instance-InOrder cluster fresh n)
              (λ out o.
                reported false in_progress out (state_after-in_progress out.0)
                  (InOrder-state fresh out o)))
      ]
    where
      fresh : InstanceGraphReconciler
      fresh = record igr { state = new_instance_state }

      doomed : InstanceGraphReconciler
      doomed = record igr { state = record new_instance_state { state = deleting } }

      reported :
          (is_being_deleted : Bool) (before : StateName)
          (out : Option ReconcileError × InstanceGraphReconciler)
          → state_after before out.0 ≡ state_for is_being_deleted out.0
          → out.1.state.state ≡ before
          → IfDone (Reports is_being_deleted) (done (report cluster error_text out))
      reported is_being_deleted before (e, after) expected same =
          (refl, ap (λ s. state_after s e) same ∙ expected, after.calls, _, refl)
