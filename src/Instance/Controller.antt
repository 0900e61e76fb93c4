-- ===== src/Instance/Controller.antt =====
-- internal/controller/instance/controller.go: a request for an instance, before its reconciliation.
use kubernetes_resource_orch.Common.{
  Bool, List, [], ◌∷◌, ◌++◌, Option, none, some, ◌||◌, if◌then◌else◌, Text, codes, is_empty_text,
  Map, lookup, Run, done, ◌>>=◌, Result, ok, err,
}
use kubernetes_resource_orch.Values.{Value}
use kubernetes_resource_orch.Metadata.{merge, new_instance_labeler}
use kubernetes_resource_orch.Metadata.GroupVersion.{split_slash}
use kubernetes_resource_orch.Resolver.{has_prefix}
use kubernetes_resource_orch.Runtime.{Resource, RuntimeError, ResourceGroupRuntime}
use kubernetes_resource_orch.Runtime.Evaluate.{new_resource_group_runtime}
use kubernetes_resource_orch.Instance.{
  ApiError, Cluster, ReconcileError, InstanceGraphReconciler, new_instance_state,
}
use kubernetes_resource_orch.Instance.Lifecycle.{reconcile}

-- What the controller keeps of the graph: the instance, the resources and their order.
pub record Controller : Type 0 where
  pub instance_ : Resource
  pub resources : Map Resource
  pub topological_order : List Text
  pub instance_labeler : Map Text
  pub default_service_accounts : Map Text

-- The clients of the controller: a client is the cluster as it is seen with it.
pub record ClientSet : Type 0 where
  pub get_instance : Text → Text → Result ApiError Value
  pub dynamic : Cluster
  pub with_impersonation : Text → Result Text Cluster

pub data ClientError : Type 0 where
  invalid_service_account : ClientError
  impersonation_failed : Text → ClientError

pub data ControllerError : Type 0 where
  runtime_failed : RuntimeError → ControllerError
  labeler_failed : Text → ControllerError
  client_failed : ClientError → ControllerError
  reconcile_failed : ReconcileError → ControllerError

abbrev last_part : Text → List Text → Text
last_part part [] = part
last_part part (next ∷ parts) = last_part next parts

abbrev names_of : Text × List Text → Text × Text
names_of (part, parts) =
    (if is_empty_text part then codes "default" else part, last_part part parts)

-- The namespace and the name of a request.
unfoldable pub get_namespace_name : Text → Text × Text
get_namespace_name name = names_of (split_slash name)

abbrev pub user_name : Text → Text → Text
user_name namespace service_account =
    codes "system:serviceaccount:" ++ (namespace ++ b':' ∷ service_account)

unfoldable pub get_service_account_user_name : Text → Text → Result ClientError Text
get_service_account_user_name namespace service_account =
    if is_empty_text namespace || is_empty_text service_account
    then err invalid_service_account
    else ok (user_name namespace service_account)

abbrev pub pivoted : Result Text Cluster → Result ClientError Cluster
pivoted (err e) = err (impersonation_failed e)
pivoted (ok cluster) = ok cluster

abbrev impersonated : ClientSet → Result ClientError Text → Result ClientError Cluster
impersonated clients (err e) = err e
impersonated clients (ok user) = pivoted (clients.with_impersonation user)

-- The branch of an account that was found.
abbrev pub with_account : ClientSet → Text → Text → Result ClientError Cluster
with_account clients namespace sa =
    impersonated clients (get_service_account_user_name namespace sa)

abbrev pub default_account : ClientSet → Text → Option Text → Result ClientError Cluster
default_account clients namespace none = ok clients.dynamic
default_account clients namespace (some sa) = with_account clients namespace sa

abbrev namespace_account : ClientSet → Text → Map Text → Option Text → Result ClientError Cluster
namespace_account clients namespace accounts (some sa) = with_account clients namespace sa
namespace_account clients namespace accounts none =
    default_account clients namespace (lookup (codes "*") accounts)

unfoldable pub get_execution_client : ClientSet → Map Text → Text → Result ClientError Cluster
get_execution_client clients [] namespace = ok clients.dynamic
get_execution_client clients (account ∷ accounts) namespace =
    namespace_account clients namespace (account ∷ accounts) (lookup namespace (account ∷ accounts))

abbrev pub Handled : Type 0
Handled = Run (Option ControllerError)

abbrev as_error : Option ReconcileError × InstanceGraphReconciler → Option ControllerError
as_error (none, igr) = none
as_error (some e, igr) = some (reconcile_failed e)

abbrev with_client :
    (ReconcileError → Text)
    → Controller
    → ResourceGroupRuntime
    → Map Text
    → Result ClientError Cluster
    → Handled
with_client error_text c rt labels (err e) = done (some (client_failed e))
with_client error_text c rt labels (ok cluster) =
    reconcile cluster error_text (record {
      runtime = rt;
      instance_labeler = c.instance_labeler;
      instance_sub_resources_labeler = labels;
      state = new_instance_state;
      calls = [];
    })
    >>= λ out. done (as_error out)

module _ (clients : ClientSet) (error_text : ReconcileError → Text) (c : Controller) where
  abbrev with_labels : Text → ResourceGroupRuntime → Result Text (Map Text) → Handled
  with_labels namespace rt (err e) = done (some (labeler_failed e))
  with_labels namespace rt (ok labels) =
      with_client error_text c rt labels
        (get_execution_client clients c.default_service_accounts namespace)

  abbrev with_runtime :
      Text → Value → Result RuntimeError (Unit {0}) × ResourceGroupRuntime → Handled
  with_runtime namespace v (err e, rt) = done (some (runtime_failed e))
  with_runtime namespace v (ok _, rt) =
      with_labels namespace rt
        (merge (new_instance_labeler clients.dynamic.access v) c.instance_labeler)

  -- An instance that cannot be read is no error, whatever the reason.
  abbrev with_instance : Text → Result ApiError Value → Handled
  with_instance namespace (err e) = done none
  with_instance namespace (ok v) =
      new_resource_group_runtime clients.dynamic.cel (record c.instance_ { unstructured = v })
        c.resources c.topological_order
      >>= with_runtime namespace v

  abbrev with_names : Text × Text → Handled
  with_names (namespace, name) = with_instance namespace (clients.get_instance namespace name)

  -- `Controller.Reconcile`
  unfoldable pub handle_request : Text → Handled
  handle_request name = with_names (get_namespace_name name)

-- `strings.Contains`
unfoldable pub contains_text : Text → Text → Bool
contains_text t [] = is_empty_text t
contains_text t (c ∷ cs) = has_prefix t (c ∷ cs) || contains_text t cs

pub data ErrorCategory : Type 0 where
  permissions config_create client_create : ErrorCategory

-- The category that `handleImpersonateError` records.
unfoldable pub impersonate_error_category : Text → ErrorCategory
impersonate_error_category e =
    if contains_text (codes "forbidden") e
    then permissions
    else if contains_text (codes "cannot get token") e
    then config_create
    else client_create
