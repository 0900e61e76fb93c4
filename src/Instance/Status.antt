-- ===== src/Instance/Status.antt =====
-- internal/controller/instance/controller_status.go: the state and the status of an instance after a
-- reconciliation.
use kubernetes_resource_orch.Common.{Option, none, some, if◌then◌else◌, Text, codes, text_eq, ℤ}
use kubernetes_resource_orch.Values.{
  Value, integer, text, array, object, nil, cons, Fields, end, field, get_field, set_field,
}
use kubernetes_resource_orch.Instance.{
  update_status_call, Cluster, StateName, pending, in_progress, skipped, error_state,
  waiting_for_readiness, synced, created, deleted, pending_deletion, deleting, active,
  ReconcileError, needed_after, InstanceState, InstanceGraphReconciler, with_call,
}

-- `updateInstanceState`: a requeue keeps the state.
abbrev pub state_after : StateName → Option ReconcileError → StateName
state_after deleting none = deleting
state_after _ none = active
state_after s (some (needed_after e)) = s
state_after s (some e) = error_state

unfoldable pub update_instance_state : InstanceState → InstanceState
update_instance_state s = record s { state = state_after s.state s.reconcile_err }

abbrev pub state_text : StateName → Text
state_text pending = codes "PENDING"
state_text in_progress = codes "IN_PROGRESS"
state_text skipped = codes "SKIPPED"
state_text error_state = codes "ERROR"
state_text waiting_for_readiness = codes "WAITING_FOR_READINESS"
state_text synced = codes "SYNCED"
state_text created = codes "CREATED"
state_text deleted = codes "DELETED"
state_text pending_deletion = codes "PENDING_DELETION"
state_text deleting = codes "DELETING"
state_text active = codes "ACTIVE"

-- The loop of `getResolvedStatus` over the fields of the old status.
unfoldable pub copy_fields : Fields → Fields → Fields
copy_fields end status = status
copy_fields (field k v old) status =
    copy_fields old (if text_eq k (codes "conditions") then status else set_field k v status)

abbrev pub old_status : Option Value → Fields
old_status (some (object fs)) = fs
old_status _ = end

abbrev pub status_field : Value → Option Value
status_field (object fs) = get_field (codes "status") fs
status_field _ = none

unfoldable pub get_resolved_status : Value → Fields
get_resolved_status instance_ =
    copy_fields (old_status (status_field instance_)) (field (codes "conditions") (array nil) end)

-- `createCondition`
abbrev pub create_condition : Text → Text → Text → Text → Text → ℤ → Value
create_condition type_ status reason message now generation = object (
    field (codes "type") (text type_) (
      field (codes "status") (text status) (
        field (codes "reason") (text reason) (
          field (codes "message") (text message) (
            field (codes "lastTransitionTime") (text now)
              (field (codes "observedGeneration") (integer generation) end))))))

module _ (cluster : Cluster) (error_text : ReconcileError → Text) where
  unfoldable pub prepare_conditions : Option ReconcileError → ℤ → Value
  prepare_conditions (some e) generation = array (
      cons
        (create_condition (codes "InstanceSynced") (codes "False") (codes "ReconciliationFailed")
          (error_text e) cluster.now generation)
        nil)
  prepare_conditions none generation = array (
      cons
        (create_condition (codes "InstanceSynced") (codes "True") (codes "ReconciliationSucceeded")
          (codes "Instance reconciled successfully") cluster.now generation)
        nil)

  unfoldable pub prepare_status : InstanceState → Value → Fields
  prepare_status s instance_ =
      set_field (codes "conditions")
        (prepare_conditions s.reconcile_err (cluster.generation instance_))
        (set_field (codes "state") (text (state_text s.state)) (get_resolved_status instance_))

  -- `instance.Object["status"] = status`
  abbrev pub with_status : Fields → Value → Value
  with_status status (object fs) = object (set_field (codes "status") (object status) fs)
  with_status status v = v

  -- `patchInstanceStatus`: its error is only logged.
  unfoldable pub patch_instance_status : Fields → InstanceGraphReconciler → InstanceGraphReconciler
  patch_instance_status status igr =
      with_call (update_status_call (with_status status igr.runtime.instance_.unstructured)) igr
