-- ===== src/Instance/Examples.antt =====
-- An instance with a database and a service, in an empty cluster, and the theorems at it.
use kubernetes_resource_orch.Common.{
  ◌≡◌, refl, true, false, List, [], ◌∷◌, none, some, Text, codes, text_eq, mem, remove, Map, lookup,
  insert, lacks, IfDone, ok, err, pos,
}
use kubernetes_resource_orch.Values.{Value, null, text, object, end, field, get_field, set_field}
use kubernetes_resource_orch.Metadata.{
  Accessors, has_instance_finalizer, set_instance_finalizer, apply_labels,
}
use kubernetes_resource_orch.Runtime.{
  Resource, get_resource, can_process_resource, dependencies_resolved, resource_variables_resolved,
  all_resolved, are_dependencies_ignored, any_ignored,
}
use kubernetes_resource_orch.Runtime.Collect.{
  collect, collect_resources, collect_variables, collect_expressions, collect_ready_when,
}
use kubernetes_resource_orch.Runtime.Conditions.{want_to_create_resource, is_resource_ready}
use kubernetes_resource_orch.Instance.{
  ResourceClient, get_call, create_call, update_call, Cluster, created, pending, needed_after,
  awaiting_creation, new_instance_state, InstanceGraphReconciler, get_resource_namespace,
  get_resource_client,
}
use kubernetes_resource_orch.Instance.Finalizing.{set_managed, setup_instance}
use kubernetes_resource_orch.Instance.Reconciling.{
  handle_resource_creation, handle_resource_reconciliation, reconcile_resource, reconcile_each,
  all_pending, reconcile_instance,
}
use kubernetes_resource_orch.Instance.Lifecycle.{reconcile}
use kubernetes_resource_orch.Instance.Outcomes.{Reports, reconcile-Reports}
use kubernetes_resource_orch.Instance.Controller.{
  ClientSet, get_namespace_name, get_execution_client, contains_text, permissions,
  impersonate_error_category,
}
use kubernetes_resource_orch.Instance.Requests.{
  account_for, Chooses, get_namespace_name-key, get_execution_client-Chooses,
}
use kubernetes_resource_orch.Resolver.{has_prefix}

reconciles : Unit {0}
unfolding lookup insert text_eq mem remove get_field set_field has_instance_finalizer
    set_instance_finalizer apply_labels get_resource can_process_resource dependencies_resolved
    resource_variables_resolved all_resolved are_dependencies_ignored any_ignored collect
    collect_resources collect_variables collect_expressions collect_ready_when
    want_to_create_resource is_resource_ready get_resource_namespace get_resource_client set_managed
    setup_instance handle_resource_creation handle_resource_reconciliation reconcile_resource
    reconcile_each all_pending reconcile_instance
reconciles = tt

abbrev small_access : Accessors
small_access = record {
  finalizers = λ v. ok (some []);
  put_finalizers = λ fs v. ok v;
  labels = λ v. [];
  put_labels = λ ls v. v;
  name = λ v. codes "thing";
  namespace = λ v. [];
  uid = λ v. codes "7";
  is_being_deleted = λ v. false;
}

-- Nothing is found, and every write is accepted.
abbrev empty_cluster : Cluster
empty_cluster = record {
  get = λ calls rc name. err (record { is_not_found = true; message = [] });
  create = λ calls rc v. none;
  delete = λ calls rc name. none;
  update = λ calls v. ok v;
  access = small_access;
  generation = λ v. pos 1;
  now = codes "now";
  cel = record {
    new_environment = λ ids. ok tt;
    evaluate = λ ids ctx e. ok null;
    is_no_such_key = λ e. false;
    format_value = λ v. [];
  };
}

abbrev plain_resource : List Text → Resource
plain_resource dependencies = record {
  variables = [];
  dependencies = dependencies;
  ready_when_expressions = [];
  include_when_expressions = [];
  group_version_resource = codes "v1/things";
  is_namespaced = true;
  unstructured = object (field (codes "spec") null end);
}

abbrev group : Map Resource
group = (codes "db", plain_resource []) ∷ (codes "service", plain_resource (codes "db" ∷ [])) ∷ []

abbrev start : InstanceGraphReconciler
start = record {
  runtime = collect (plain_resource []) group (codes "db" ∷ codes "service" ∷ []);
  instance_labeler = [];
  instance_sub_resources_labeler = [];
  state = new_instance_state;
  calls = [];
}

abbrev things : ResourceClient
things = record { group_version_resource = codes "v1/things"; namespace = some (codes "default") }

-- The finalizer is set, the database is created, and the service has to wait.
creates_first :
    IfDone
      (λ out.
        (out.0 ≡ some (needed_after awaiting_creation))
        × (out.1.calls
            ≡ update_call (plain_resource []).unstructured
              ∷ get_call things (codes "thing")
              ∷ create_call things (plain_resource []).unstructured
              ∷ [])
        × (out.1.state.resource_states
            ≡ (codes "db", record { state = created; error = none })
              ∷ (codes "service", record { state = pending; error = none })
              ∷ []))
      (reconcile_instance empty_cluster start)
unfolding reconciles
creates_first = (refl, refl, refl)

reconcile-Reports_example :
    IfDone (Reports empty_cluster false) (reconcile empty_cluster (λ e. codes "failed") start)
unfolding reconciles
reconcile-Reports_example =
    reconcile-Reports empty_cluster (λ e. codes "failed") start (refl, (refl, tt))

abbrev with_replicas : Value
with_replicas =
    object (field (codes "status") (object (field (codes "replicas") (text (codes "3")) end)) end)

abbrev clients : ClientSet
clients = record {
  get_instance = λ namespace name. ok null;
  dynamic = empty_cluster;
  with_impersonation = λ user. err (codes "forbidden");
}

abbrev accounts : Map Text
accounts = (codes "*", codes "deployer") ∷ (codes "prod", codes "careful") ∷ []

get_execution_client-Chooses_example :
    Chooses clients
      (codes "prod")
      (account_for accounts (codes "prod"))
      (get_execution_client clients accounts (codes "prod"))
get_execution_client-Chooses_example = get_execution_client-Chooses clients accounts (codes "prod")

get_namespace_name-key_example :
    (get_namespace_name (codes "prod/web") ≡ (codes "prod", codes "web"))
    × (get_namespace_name (codes "web") ≡ (codes "web", codes "web"))
unfolding lacks
get_namespace_name-key_example =
    get_namespace_name-key (codes "prod") (codes "web") (λ e. cc e) (λ e. cc e) refl refl

forbidden : impersonate_error_category (codes "users is forbidden") ≡ permissions
unfolding impersonate_error_category contains_text has_prefix
forbidden = refl
