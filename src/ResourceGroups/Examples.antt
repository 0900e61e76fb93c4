-- ===== src/ResourceGroups/Examples.antt =====
-- A group of web applications, and the theorems at it.
use kubernetes_resource_orch.Common.{
  ℕ, ◌≡◌, refl, true, false, [], ◌∷◌, ◌++◌, none, some, if◌then◌else◌, Text, codes, text_eq, mem,
  lookup, insert, Result, ok, pos, Nodup,
}
use kubernetes_resource_orch.Metadata.{merge}
use kubernetes_resource_orch.Metadata.GroupVersion.{GroupVersionResource}
use kubernetes_resource_orch.Metadata.Ownership.{has_resource_group_finalizer, new_kro_meta_labeler}
use kubernetes_resource_orch.DynamicController.{new_dynamic_controller, start_serving_gvk}
use kubernetes_resource_orch.DynamicController.Kinds.{load}
use kubernetes_resource_orch.DynamicController.Served.{served}
use kubernetes_resource_orch.ResourceGroups.{
  ResourceGroup, Graph, World, ResourceGroupReconciler, setup_labeler, reconcile_resource_group,
  reconcile,
}
use kubernetes_resource_orch.ResourceGroups.Conditions.{
  Condition, condition_true, condition_false, new_condition, graph_verified, reconciler_ready,
  get_condition, set_condition, types_of, set_condition-get,
}
use kubernetes_resource_orch.ResourceGroups.Serving.{Serves, reconcile_resource_group-Serves}
use kubernetes_resource_orch.ResourceGroups.Cleanup.{
  instance_kind, Deleted, reconcile-StillServes, reconcile-Deleted,
}

abbrev web_apps : GroupVersionResource
web_apps = record { group = codes "kro.run"; version = codes "v1"; resource = codes "webapps" }

abbrev graph : Graph
graph = record {
  topological_order = codes "deployment" ∷ codes "service" ∷ [];
  resources = (codes "service", codes "deployment" ∷ []) ∷ (codes "deployment", []) ∷ [];
  gvr = web_apps;
  crd = codes "webapps.kro.run";
}

abbrev world : World
world = record {
  answer = λ calls call. none;
  new_resource_group = λ rg. ok graph;
  watch = record { adds_event_handler = λ g. true; syncs = λ g. true };
  pluralize = λ t. t ++ codes "s";
  serve_message = λ e. codes "not served";
}

abbrev group : ResourceGroup
group = record {
  name = codes "web";
  namespace = codes "default";
  uid = codes "7";
  finalizers = codes "kro.run/finalizer" ∷ codes "other" ∷ [];
  is_being_deleted = false;
  api_version = codes "v1";
  kind = codes "WebApp";
  default_service_accounts = [];
}

abbrev deleted_group : ResourceGroup
deleted_group = record group { is_being_deleted = true }

abbrev reconciler : ResourceGroupReconciler ℕ
reconciler = record {
  allow_crd_deletion = true;
  metadata_labeler = new_kro_meta_labeler (codes "0.1.0") (codes "kro-pod");
  dynamic_controller =
      new_dynamic_controller (record { workers = pos 1; queue_max_retries = pos 20 }) 0;
  calls = [];
}

reconcile_resource_group-Serves_example :
    (g : Graph) × (◌≡◌ {A = Result Text Graph} (ok graph) (ok g))
    × Serves world group reconciler (reconcile_resource_group world group reconciler).1 g
unfolding reconcile_resource_group setup_labeler merge lookup insert text_eq start_serving_gvk load
reconcile_resource_group-Serves_example =
    reconcile_resource_group-Serves world group reconciler refl

reconcile-StillServes_example :
    served
      (reconcile world deleted_group reconciler).1.dynamic_controller
      (instance_kind world deleted_group)
    ≡ served reconciler.dynamic_controller (instance_kind world deleted_group)
reconcile-StillServes_example = reconcile-StillServes world deleted_group reconciler refl

reconcile-Deleted_example :
    Deleted world deleted_group reconciler (reconcile world deleted_group reconciler)
unfolding has_resource_group_finalizer mem text_eq
reconcile-Deleted_example = reconcile-Deleted world deleted_group reconciler refl refl

abbrev ready : Condition
ready = new_condition reconciler_ready condition_false (codes "no") (codes "not ready")

abbrev verified : Condition
verified = new_condition graph_verified condition_true [] []

set_condition-get_example :
    ((t : Text)
      → get_condition (set_condition (verified ∷ []) ready) t
        ≡ (if text_eq ready.type t then some ready else get_condition (verified ∷ []) t))
    × Nodup (types_of (set_condition (verified ∷ []) ready))
unfolding mem
set_condition-get_example = set_condition-get (verified ∷ []) ready (refl, tt)
