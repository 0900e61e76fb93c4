-- ===== src/Instance/Lifecycle.antt =====
-- internal/controller/instance/controller_reconcile.go: `reconcile` and `handleReconciliation`.
use kubernetes_resource_orch.Common.{Option, if◌then◌else◌, Text, done, ◌>>=◌}
use kubernetes_resource_orch.Instance.{
  Cluster, deleting, ReconcileError, new_instance_state, InstanceGraphReconciler, Outcome,
}
use kubernetes_resource_orch.Instance.Status.{
  update_instance_state, prepare_status, patch_instance_status,
}
use kubernetes_resource_orch.Instance.Reconciling.{reconcile_instance}
use kubernetes_resource_orch.Instance.Deleting.{handle_instance_deletion}

module _ (cluster : Cluster) (error_text : ReconcileError → Text) where
  -- The deferred function, after the result is in the state.
  abbrev pub report :
      Option ReconcileError × InstanceGraphReconciler
      → Option ReconcileError × InstanceGraphReconciler
  report (e, igr) =
      let state = update_instance_state (record igr.state { reconcile_err = e }) in
      let status = prepare_status cluster error_text state igr.runtime.instance_.unstructured in
      (e, patch_instance_status cluster error_text status (record igr { state = state }))

  unfoldable pub handle_reconciliation :
      (InstanceGraphReconciler → Outcome) → InstanceGraphReconciler → Outcome
  handle_reconciliation reconcile_func igr = reconcile_func igr >>= λ out. done (report out)

  unfoldable pub reconcile : InstanceGraphReconciler → Outcome
  reconcile igr =
      let fresh = record igr { state = new_instance_state } in
      if cluster.access.is_being_deleted igr.runtime.instance_.unstructured
      then handle_reconciliation (handle_instance_deletion cluster)
          (record fresh { state = record new_instance_state { state = deleting } })
      else handle_reconciliation (reconcile_instance cluster) fresh
