-- ===== src/Instance.antt =====
-- internal/controller/instance: one reconciliation of an instance. The cluster is a parameter: what it
-- answers may depend on every call that was made before.
pub mod Status
pub mod Finalizing
pub mod Reconciling
pub mod Deleting
pub mod Lifecycle
pub mod Controller
mod Progressing
mod Sequence
mod Ordering
mod Removing
mod Gone
mod Releasing
mod Outcomes
mod Reporting
mod Requests
mod Examples
use kubernetes_resource_orch.Common.{
  ℕ, Bool, true, false, not, List, [], ◌∷◌, ◌++◌, Option, none, some, if◌then◌else◌, Text, codes,
  is_empty_text, Map, lookup, insert, Run, done, panic, out_of_fuel, ◌>>=◌, Result, ok, err, ℤ,
}
use kubernetes_resource_orch.Values.{Value}
use kubernetes_resource_orch.Metadata.{Accessors}
use kubernetes_resource_orch.Runtime.{
  Resource, Cel, RuntimeError, ResourceGroupRuntime, the_resource, get_resource, put_instance,
}
use kubernetes_resource_orch.Runtime.Evaluate.{synchronize}

-- The client of one kind, in a namespace or for the whole cluster.
pub record ResourceClient : Type 0 where
  pub group_version_resource : Text
  pub namespace : Option Text

pub data Call : Type 0 where
  get_call delete_call : ResourceClient → Text → Call
  create_call : ResourceClient → Value → Call
  update_call update_status_call : Value → Call

pub record ApiError : Type 0 where
  pub is_not_found : Bool
  pub message : Text

-- The cluster and the libraries that the controller calls. The answer to a call is given after the
-- calls that went before it.
pub record Cluster : Type 0 where
  pub get : List Call → ResourceClient → Text → Result ApiError Value
  pub create : List Call → ResourceClient → Value → Option ApiError
  pub delete : List Call → ResourceClient → Text → Option ApiError
  pub update : List Call → Value → Result ApiError Value
  pub access : Accessors
  pub generation : Value → ℤ
  pub now : Text
  pub cel : Cel

pub data StateName : Type 0 where
  pending in_progress skipped error_state waiting_for_readiness synced created : StateName
  deleted pending_deletion deleting active : StateName

pub data ReconcileError : Type 0 where
  setup_failed remove_failed initialize_failed needed_after : ReconcileError → ReconcileError
  finalizer_failed : Text → ReconcileError
  update_failed get_failed create_failed delete_failed check_failed : ApiError → ReconcileError
  synchronize_failed : RuntimeError → ReconcileError
  not_resolved : Text → ReconcileError
  not_ready : Text → Option RuntimeError → ReconcileError
  awaiting_creation deletion_in_progress waiting_for_deletion : ReconcileError

-- `*requeue.RequeueNeededAfter`, the only one of the requeue errors that the controller makes.
abbrev pub is_requeue : ReconcileError → Bool
is_requeue (needed_after e) = true
is_requeue _ = false

pub record ResourceState : Type 0 where
  pub state : StateName
  pub error : Option ReconcileError

pub record InstanceState : Type 0 where
  pub state : StateName
  pub resource_states : Map ResourceState
  pub reconcile_err : Option ReconcileError

abbrev pub new_instance_state : InstanceState
new_instance_state = record { state = in_progress; resource_states = []; reconcile_err = none }

-- `instanceGraphReconciler`, with the calls that it made of the cluster.
pub record InstanceGraphReconciler : Type 0 where
  pub runtime : ResourceGroupRuntime
  pub instance_labeler : Map Text
  pub instance_sub_resources_labeler : Map Text
  pub state : InstanceState
  pub calls : List Call

-- A method that may panic: its error, and the reconciler that it leaves behind.
abbrev pub Outcome : Type 0
Outcome = Run (Option ReconcileError × InstanceGraphReconciler)

-- `if err != nil { return err }`
abbrev pub unless_err :
    (InstanceGraphReconciler → Outcome) → Option ReconcileError × InstanceGraphReconciler → Outcome
unless_err next (some e, igr) = done (some e, igr)
unless_err next (none, igr) = next igr

-- `if err != nil { return fmt.Errorf("...: %w", err) }`
abbrev pub unless_err_wrap :
    (ReconcileError → ReconcileError)
    → (InstanceGraphReconciler → Outcome)
    → Option ReconcileError × InstanceGraphReconciler
    → Outcome
unless_err_wrap wrap next (some e, igr) = done (some (wrap e), igr)
unless_err_wrap wrap next (none, igr) = next igr

abbrev pub with_runtime : ResourceGroupRuntime → InstanceGraphReconciler → InstanceGraphReconciler
with_runtime rt igr = record igr { runtime = rt }

abbrev pub with_call : Call → InstanceGraphReconciler → InstanceGraphReconciler
with_call c igr = record igr { calls = igr.calls ++ c ∷ [] }

-- What `igr.state.ResourceStates[id]` points to becomes the state with the error.
abbrev pub set_state :
    Text → StateName → Option ReconcileError → InstanceGraphReconciler → InstanceGraphReconciler
set_state id s e igr = record igr {
  state = record igr.state {
    resource_states = insert id (record { state = s; error = e }) igr.state.resource_states;
  };
}

-- A nil `*unstructured.Unstructured` panics when it is read.
abbrev pub object_of : Option Value → Run Value
object_of none = panic
object_of (some v) = done v

module _ (cluster : Cluster) where
  -- `if ns != ""`, and the next choice.
  abbrev or_namespace : Text → Text → Text
  or_namespace ns other = if is_empty_text ns then other else ns

  -- The namespace of the resource, of the instance, or the default one.
  unfoldable pub get_resource_namespace : Text → InstanceGraphReconciler → Run Text
  get_resource_namespace id igr = get_resource id igr.runtime >>= λ found.
      object_of found.0 >>= λ resource. done (
        or_namespace (cluster.access.namespace resource) (
          or_namespace (cluster.access.namespace igr.runtime.instance_.unstructured)
            (codes "default")))

  unfoldable pub get_resource_client : Text → InstanceGraphReconciler → Run ResourceClient
  get_resource_client id igr = the_resource (lookup id igr.runtime.resources) >>= λ descriptor.
      get_resource_namespace id igr >>= λ namespace. done (record {
        group_version_resource = descriptor.group_version_resource;
        namespace = if descriptor.is_namespaced then some namespace else none;
      })

  -- `igr.runtime.Synchronize()`, where the result is not read.
  abbrev pub synchronized :
      InstanceGraphReconciler → Result RuntimeError Bool × ResourceGroupRuntime → Outcome
  synchronized igr (err e, rt) = done (some (synchronize_failed e), with_runtime rt igr)
  synchronized igr (ok _, rt) = done (none, with_runtime rt igr)

  unfoldable pub synchronize_runtime : InstanceGraphReconciler → Outcome
  synchronize_runtime igr = synchronize cluster.cel igr.runtime >>= synchronized igr
