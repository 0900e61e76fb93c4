-- ===== src/Metadata/Ownership.antt =====
-- internal/metadata: the finalizer of a ResourceGroup, and the labels that say whose a resource is.
-- An object is its finalizers, or its labels.
use kubernetes_resource_orch.Common.{
  Bool, false, List, [], ◌∷◌, ◌++◌, Option, none, some, if◌then◌else◌, Text, codes, text_eq, mem,
  remove, Map, lookup,
}
use kubernetes_resource_orch.Metadata.{kro_finalizer, kro_label}

-- `HasResourceGroupFinalizer`, `SetResourceGroupFinalizer` and `RemoveResourceGroupFinalizer`
unfoldable pub has_resource_group_finalizer : List Text → Bool
has_resource_group_finalizer finalizers = mem kro_finalizer finalizers

unfoldable pub set_resource_group_finalizer : List Text → List Text
set_resource_group_finalizer finalizers =
    if has_resource_group_finalizer finalizers then finalizers else finalizers ++ kro_finalizer ∷ []

unfoldable pub remove_resource_group_finalizer : List Text → List Text
remove_resource_group_finalizer finalizers = remove kro_finalizer finalizers

abbrev pub new_resource_group_labeler : Text → Text → Text → Map Text
new_resource_group_labeler uid name namespace =
    (kro_label (codes "resource-group-id"), uid)
    ∷ (kro_label (codes "resource-group-name"), name)
    ∷ (kro_label (codes "resource-group-namespace"), namespace)
    ∷ []

abbrev pub new_kro_meta_labeler : Text → Text → Map Text
new_kro_meta_labeler kro_version controller_pod_id =
    (kro_label (codes "owned"), codes "true")
    ∷ (kro_label (codes "kro-version"), kro_version)
    ∷ (kro_label (codes "controller-pod-id"), controller_pod_id)
    ∷ []

abbrev pub boolean_from_string : Text → Bool
boolean_from_string s = text_eq s (codes "true")

abbrev owned_label : Option Text → Bool
owned_label none = false
owned_label (some v) = boolean_from_string v

unfoldable pub is_kro_owned : Map Text → Bool
is_kro_owned labels = owned_label (lookup (kro_label (codes "owned")) labels)
