-- ===== src/ResourceGroups.antt =====
-- internal/controller/resourcegroup: one reconciliation of a ResourceGroup.
pub mod Conditions
pub mod Statuses
pub mod Serving
pub mod Cleanup
mod Examples
use kubernetes_resource_orch.Common.{
  Bool, true, false, List, [], ◌∷◌, ◌++◌, map, Option, none, some, if◌then◌else◌, Text, codes, Map,
  Result, ok, err,
}
use kubernetes_resource_orch.Metadata.{merge}
use kubernetes_resource_orch.Metadata.GroupVersion.{
  GroupVersionResource, get_resource_group_instance_gvr, kro_instances_group_suffix, to_lower,
}
use kubernetes_resource_orch.Metadata.Ownership.{
  has_resource_group_finalizer, set_resource_group_finalizer, remove_resource_group_finalizer,
  new_resource_group_labeler, new_kro_meta_labeler,
}
use kubernetes_resource_orch.DynamicController.{
  DynamicController, Watch, ServeError, start_serving_gvk, stop_service_gvk,
}
use kubernetes_resource_orch.ResourceGroups.Conditions.{
  Condition, ConditionStatus, condition_true, condition_false, condition_unknown, new_condition,
  graph_verified, custom_resource_definition_synced, reconciler_ready,
}

-- The metadata of a group, the version and the kind of its schema, and the default accounts.
pub record ResourceGroup : Type 0 where
  pub name : Text
  pub namespace : Text
  pub uid : Text
  pub finalizers : List Text
  pub is_being_deleted : Bool
  pub api_version : Text
  pub kind : Text
  pub default_service_accounts : Map Text

-- What the builder makes of a group: the order, the dependencies of each resource, the resource of
-- the instances, and the custom resource definition by its name.
pub record Graph : Type 0 where
  pub topological_order : List Text
  pub resources : Map (List Text)
  pub gvr : GroupVersionResource
  pub crd : Text

pub record ResourceInformation : Type 0 where
  pub id : Text
  pub dependencies : List Text

pub data ResourceGroupState : Type 0 where
  active inactive : ResourceGroupState

pub record ResourceGroupStatus : Type 0 where
  pub state : ResourceGroupState
  pub topological_order : List Text
  pub conditions : List Condition
  pub resources : List ResourceInformation

-- The calls of the API server: a patch of the finalizers, the CRD client, and the update of the
-- status with its retries.
pub data Call : Type 0 where
  patch_finalizers : List Text → Call
  ensure_crd : Text → Call
  delete_crd : Text → Call
  patch_status : ResourceGroupStatus → Call

-- The controller of the instances of a group.
pub record MicroController : Type 0 where
  pub gvr : GroupVersionResource
  pub processed : Graph
  pub default_service_accounts : Map Text
  pub labeler : Map Text

pub data GroupError : Type 0 where
  api_failed : Text → GroupError
  graph_error : Text → GroupError
  crd_error : Text → GroupError
  micro_controller_error : ServeError → GroupError
  labeler_failed : Text → GroupError
  cleanup_failed : GroupError → GroupError
  unhandled : GroupError → GroupError

-- The outside, and the text of an error of the dynamic controller.
pub record World : Type 0 where
  -- What the API server answers to a call, after other calls; none is no error.
  pub answer : List Call → Call → Option Text
  -- `graph.Builder.NewResourceGroup`
  pub new_resource_group : ResourceGroup → Result Text Graph
  pub watch : Watch
  pub pluralize : Text → Text
  pub serve_message : ServeError → Text

pub record ResourceGroupReconciler (Q : Type 0) : Type 0 where
  pub allow_crd_deletion : Bool
  pub metadata_labeler : Map Text
  pub dynamic_controller : DynamicController MicroController Q
  pub calls : List Call

-- `NewResourceGroupReconciler`
unfoldable pub new_resource_group_reconciler :
    {Q : Type 0} → Bool → DynamicController MicroController Q → ResourceGroupReconciler Q
new_resource_group_reconciler allow_crd_deletion dc = record {
  allow_crd_deletion = allow_crd_deletion;
  metadata_labeler = new_kro_meta_labeler (codes "0.1.0") (codes "kro-pod");
  dynamic_controller = dc;
  calls = [];
}

-- The three conditions.
abbrev pub new_reconciler_ready_condition : ConditionStatus → Text → Condition
new_reconciler_ready_condition status reason =
    new_condition reconciler_ready status reason (codes "micro controller is ready")

abbrev pub new_graph_verified_condition : ConditionStatus → Text → Condition
new_graph_verified_condition status reason =
    new_condition graph_verified status reason (codes "Directed Acyclic Graph is synced")

abbrev pub new_custom_resource_definition_synced_condition : ConditionStatus → Text → Condition
new_custom_resource_definition_synced_condition status reason =
    new_condition custom_resource_definition_synced status reason
      (codes "Custom Resource Definition is synced")

pub record StatusProcessor : Type 0 where
  pub conditions : List Condition
  pub state : ResourceGroupState

unfoldable pub set_default_conditions : StatusProcessor
set_default_conditions = record {
  conditions =
      new_reconciler_ready_condition condition_true []
      ∷ new_graph_verified_condition condition_true []
      ∷ new_custom_resource_definition_synced_condition condition_true []
      ∷ [];
  state = active;
}

unfoldable pub process_graph_error : Text → StatusProcessor
process_graph_error e = record {
  conditions =
      new_graph_verified_condition condition_false e
      ∷ new_reconciler_ready_condition condition_unknown (codes "Faulty Graph")
      ∷ new_custom_resource_definition_synced_condition condition_unknown (codes "Faulty Graph")
      ∷ [];
  state = inactive;
}

unfoldable pub process_crd_error : Text → StatusProcessor
process_crd_error e = record {
  conditions =
      new_graph_verified_condition condition_true []
      ∷ new_custom_resource_definition_synced_condition condition_false e
      ∷ new_reconciler_ready_condition condition_unknown (codes "CRD not-synced")
      ∷ [];
  state = inactive;
}

unfoldable pub process_micro_controller_error : Text → StatusProcessor
process_micro_controller_error e = record {
  conditions =
      new_graph_verified_condition condition_true []
      ∷ new_custom_resource_definition_synced_condition condition_true []
      ∷ new_reconciler_ready_condition condition_false e
      ∷ [];
  state = inactive;
}

-- `buildResourceInfo` for each resource with dependencies.
abbrev add_info : Text → List Text → List ResourceInformation → List ResourceInformation
add_info id [] infos = infos
add_info id (d ∷ ds) infos = record { id = id; dependencies = d ∷ ds } ∷ infos

unfoldable pub resource_infos : Map (List Text) → List ResourceInformation
resource_infos [] = []
resource_infos ((id, deps) ∷ resources) = add_info id deps (resource_infos resources)

-- `extractCRDName`
unfoldable pub extract_crd_name : (Text → Text) → Text → Text
extract_crd_name pluralize kind = pluralize (to_lower kind) ++ b'.' ∷ kro_instances_group_suffix

-- What `reconcileResourceGroup` returns.
pub record GroupResult : Type 0 where
  pub order : List Text
  pub infos : List ResourceInformation
  pub error : Option GroupError

abbrev api_error : Option Text → Option GroupError
api_error none = none
api_error (some e) = some (api_failed e)

abbrev as_crd_error : Option Text → Option GroupError
as_crd_error none = none
as_crd_error (some e) = some (crd_error e)

abbrev as_cleanup_error : Option Text → Option GroupError
as_cleanup_error none = none
as_cleanup_error (some e) = some (cleanup_failed (api_failed e))

abbrev as_micro_controller_error : Option ServeError → Option GroupError
as_micro_controller_error none = none
as_micro_controller_error (some e) = some (micro_controller_error e)

abbrev failed_result : GroupError → GroupResult
failed_result e = record { order = []; infos = []; error = some e }

abbrev of_graph : Graph → Option GroupError → GroupResult
of_graph graph e = record {
  order = graph.topological_order;
  infos = resource_infos graph.resources;
  error = e;
}

abbrev status_of : GroupResult → StatusProcessor → ResourceGroupStatus
status_of result sp = record {
  state = sp.state;
  topological_order = result.order;
  conditions = sp.conditions;
  resources = result.infos;
}

abbrev micro_controller : ResourceGroup → Graph → Map Text → MicroController
micro_controller rg graph labels = record {
  gvr = graph.gvr;
  processed = graph;
  default_service_accounts = rg.default_service_accounts;
  labeler = labels;
}

-- The switch over the kinds of errors.
unfoldable pub process_result : World → Option GroupError → Result GroupError StatusProcessor
process_result world none = ok set_default_conditions
process_result world (some (graph_error e)) = ok (process_graph_error e)
process_result world (some (crd_error e)) = ok (process_crd_error e)
process_result world (some (micro_controller_error e)) =
    ok (process_micro_controller_error (world.serve_message e))
process_result world (some e) = err (unhandled e)

module _ {Q : Type 0} (world : World) where
  -- A call of the API server, and its answer.
  abbrev pub call : Call → ResourceGroupReconciler Q → Option Text × ResourceGroupReconciler Q
  call c r = (world.answer r.calls c, record r { calls = r.calls ++ c ∷ [] })

  abbrev pub map_error :
      (Option Text → Option GroupError)
      → Option Text × ResourceGroupReconciler Q
      → Option GroupError × ResourceGroupReconciler Q
  map_error f (e, r) = (f e, r)

  -- `if err != nil { return err }`
  abbrev pub unless_error :
      (ResourceGroupReconciler Q → Option GroupError × ResourceGroupReconciler Q)
      → Option GroupError × ResourceGroupReconciler Q
      → Option GroupError × ResourceGroupReconciler Q
  unless_error next (some e, r) = (some e, r)
  unless_error next (none, r) = next r

  unfoldable pub set_managed :
      ResourceGroup → ResourceGroupReconciler Q → Option GroupError × ResourceGroupReconciler Q
  set_managed rg r =
      if has_resource_group_finalizer rg.finalizers
      then (none, r)
      else map_error api_error
          (call (patch_finalizers (set_resource_group_finalizer rg.finalizers)) r)

  unfoldable pub set_unmanaged :
      ResourceGroup → ResourceGroupReconciler Q → Option GroupError × ResourceGroupReconciler Q
  set_unmanaged rg r =
      if has_resource_group_finalizer rg.finalizers
      then map_error api_error
          (call (patch_finalizers (remove_resource_group_finalizer rg.finalizers)) r)
      else (none, r)

  unfoldable pub shutdown_resource_group_micro_controller :
      GroupVersionResource → ResourceGroupReconciler Q → ResourceGroupReconciler Q
  shutdown_resource_group_micro_controller gvr r = record r {
    dynamic_controller = stop_service_gvk gvr r.dynamic_controller;
  }

  unfoldable pub cleanup_resource_group_crd :
      Text → ResourceGroupReconciler Q → Option GroupError × ResourceGroupReconciler Q
  cleanup_resource_group_crd crd_name r =
      if r.allow_crd_deletion
      then map_error as_cleanup_error (call (delete_crd crd_name) r)
      else (none, r)

  unfoldable pub cleanup_resource_group :
      ResourceGroup → ResourceGroupReconciler Q → Option GroupError × ResourceGroupReconciler Q
  cleanup_resource_group rg r =
      cleanup_resource_group_crd (extract_crd_name world.pluralize rg.kind) (
        shutdown_resource_group_micro_controller
          (get_resource_group_instance_gvr world.pluralize rg.api_version rg.kind) r)

  -- `setupLabeler`
  unfoldable pub setup_labeler : ResourceGroup → ResourceGroupReconciler Q → Result Text (Map Text)
  setup_labeler rg r =
      merge r.metadata_labeler (new_resource_group_labeler rg.uid rg.name rg.namespace)

  abbrev served_result :
      Graph
      → ResourceGroupReconciler Q
      → Option ServeError × DynamicController MicroController Q
      → GroupResult × ResourceGroupReconciler Q
  served_result graph r (e, dc) =
      (of_graph graph (as_micro_controller_error e), record r { dynamic_controller = dc })

  abbrev with_labeler :
      ResourceGroup
      → Graph
      → ResourceGroupReconciler Q
      → Result Text (Map Text)
      → GroupResult × ResourceGroupReconciler Q
  with_labeler rg graph r (err e) = (failed_result (labeler_failed e), r)
  with_labeler rg graph r (ok labels) = served_result graph r (
      start_serving_gvk world.watch graph.gvr (micro_controller rg graph labels)
        r.dynamic_controller)

  abbrev after_crd :
      ResourceGroup
      → Graph
      → Option Text × ResourceGroupReconciler Q
      → GroupResult × ResourceGroupReconciler Q
  after_crd rg graph (some e, r) = (of_graph graph (some (crd_error e)), r)
  after_crd rg graph (none, r) = with_labeler rg graph r (setup_labeler rg r)

  abbrev after_graph :
      ResourceGroup
      → ResourceGroupReconciler Q
      → Result Text Graph
      → GroupResult × ResourceGroupReconciler Q
  after_graph rg r (err e) = (failed_result (graph_error e), r)
  after_graph rg r (ok graph) = after_crd rg graph (call (ensure_crd graph.crd) r)

  unfoldable pub reconcile_resource_group :
      ResourceGroup → ResourceGroupReconciler Q → GroupResult × ResourceGroupReconciler Q
  reconcile_resource_group rg r = after_graph rg r (world.new_resource_group rg)

  abbrev write_status :
      GroupResult
      → ResourceGroupReconciler Q
      → Result GroupError StatusProcessor
      → Option GroupError × ResourceGroupReconciler Q
  write_status result r (err e) = (some e, r)
  write_status result r (ok sp) = map_error api_error (call (patch_status (status_of result sp)) r)

  unfoldable pub set_resource_group_status :
      GroupResult → ResourceGroupReconciler Q → Option GroupError × ResourceGroupReconciler Q
  set_resource_group_status result r = write_status result r (process_result world result.error)

  abbrev set_status :
      GroupResult × ResourceGroupReconciler Q → Option GroupError × ResourceGroupReconciler Q
  set_status (result, r) = set_resource_group_status result r

  unfoldable pub reconcile :
      ResourceGroup → ResourceGroupReconciler Q → Option GroupError × ResourceGroupReconciler Q
  reconcile rg r =
      if rg.is_being_deleted
      then unless_error (set_unmanaged rg) (cleanup_resource_group rg r)
      else unless_error (λ r. set_status (reconcile_resource_group rg r)) (set_managed rg r)
