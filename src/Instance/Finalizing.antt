-- ===== src/Instance/Finalizing.antt =====
-- internal/controller/instance/controller_reconcile.go: `setManaged`, `setUnmanaged` and `setupInstance`.
use kubernetes_resource_orch.Common.{
  Bool, false, Option, none, some, if◌then◌else◌, Text, Result, ok, err,
}
use kubernetes_resource_orch.Values.{Value}
use kubernetes_resource_orch.Metadata.{
  has_instance_finalizer, set_instance_finalizer, remove_instance_finalizer, apply_labels,
}
use kubernetes_resource_orch.Runtime.{put_instance}
use kubernetes_resource_orch.Instance.{
  update_call, ApiError, Cluster, ReconcileError, remove_failed, finalizer_failed, update_failed,
  InstanceGraphReconciler, with_runtime, with_call,
}

abbrev pub is_managed : Result Text Bool → Bool
is_managed (ok b) = b
is_managed (err e) = false

abbrev pub put_patched :
    (ReconcileError → ReconcileError)
    → Result ReconcileError Value × InstanceGraphReconciler
    → Option ReconcileError × InstanceGraphReconciler
put_patched wrap (err e, igr) = (some (wrap e), igr)
put_patched wrap (ok v, igr) = (none, with_runtime (put_instance v igr.runtime) igr)

module _ (cluster : Cluster) where
  -- `client.Update`, and what becomes of the instance.
  abbrev pub updated :
      Value
      → InstanceGraphReconciler
      → Result ApiError Value
      → Result ReconcileError Value × InstanceGraphReconciler
  updated copy igr (err e) = (err (update_failed e), with_call (update_call copy) igr)
  updated copy igr (ok v) = (ok v, with_call (update_call copy) igr)

  abbrev pub update_instance :
      InstanceGraphReconciler
      → Result Text Value
      → Result ReconcileError Value × InstanceGraphReconciler
  update_instance igr (err e) = (err (finalizer_failed e), igr)
  update_instance igr (ok copy) = updated copy igr (cluster.update igr.calls copy)

  abbrev pub with_labels : InstanceGraphReconciler → Result Text Value → Result Text Value
  with_labels igr (err e) = err e
  with_labels igr (ok copy) = ok (apply_labels cluster.access igr.instance_labeler copy)

  unfoldable pub set_managed :
      Value → InstanceGraphReconciler → Result ReconcileError Value × InstanceGraphReconciler
  set_managed obj igr =
      if is_managed (has_instance_finalizer cluster.access (cluster.access.uid obj) obj)
      then (ok obj, igr)
      else update_instance igr
          (with_labels igr (set_instance_finalizer cluster.access (cluster.access.uid obj) obj))

  unfoldable pub set_unmanaged :
      Value → InstanceGraphReconciler → Result ReconcileError Value × InstanceGraphReconciler
  set_unmanaged obj igr =
      if is_managed (has_instance_finalizer cluster.access (cluster.access.uid obj) obj)
      then update_instance igr
          (remove_instance_finalizer cluster.access (cluster.access.uid obj) obj)
      else (ok obj, igr)

  unfoldable pub setup_instance :
      InstanceGraphReconciler → Option ReconcileError × InstanceGraphReconciler
  setup_instance igr = put_patched (λ e. e) (set_managed igr.runtime.instance_.unstructured igr)

  -- The end of `finalizeDeletion`.
  unfoldable pub release_instance :
      InstanceGraphReconciler → Option ReconcileError × InstanceGraphReconciler
  release_instance igr =
      put_patched remove_failed (set_unmanaged igr.runtime.instance_.unstructured igr)
