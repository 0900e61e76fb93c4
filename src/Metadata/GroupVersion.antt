-- ===== src/Metadata/GroupVersion.antt =====
-- internal/metadata/groupversion.go: kinds and their resources.
use kubernetes_resource_orch.Common.{
  ℕ, ◌+◌, ◌&&◌, List, [], ◌∷◌, ◌++◌, Option, none, some, map, leb, ◌==◌, if◌then◌else◌, Text, codes,
  Result, ok, err,
}
use kubernetes_resource_orch.Values.{Value, text, Fields, get_field}

pub record GroupVersionResource : Type 0 where
  pub group : Text
  pub version : Text
  pub resource : Text

pub record GroupVersionKind : Type 0 where
  pub group : Text
  pub version : Text
  pub kind : Text

pub data GvkError : Type 0 where
  kind_not_found api_version_not_found invalid_api_version : GvkError

-- `strings.Split(s, "/")`: the part up to the first slash, and the others.
abbrev split_step : ℕ → Text × List Text → Text × List Text
split_step c (part, parts) = if c == b'/' then ([], part ∷ parts) else (c ∷ part, parts)

unfoldable pub split_slash : Text → Text × List Text
split_slash [] = ([], [])
split_slash (c ∷ cs) = split_step c (split_slash cs)

abbrev text_field : Option Value → Option Text
text_field (some (text t)) = some t
text_field _ = none

abbrev with_parts : Text → Text × List Text → Result GvkError GroupVersionKind
with_parts kind (version, []) = ok (record { group = []; version = version; kind = kind })
with_parts kind (group, version ∷ []) =
    ok (record { group = group; version = version; kind = kind })
with_parts kind (part, _) = err invalid_api_version

abbrev with_version : Text → Option Text → Result GvkError GroupVersionKind
with_version kind none = err api_version_not_found
with_version kind (some api_version) = with_parts kind (split_slash api_version)

abbrev with_kind : Option Text → Option Text → Result GvkError GroupVersionKind
with_kind none api_version = err kind_not_found
with_kind (some kind) api_version = with_version kind api_version

unfoldable pub extract_gvk_from_unstructured : Fields → Result GvkError GroupVersionKind
extract_gvk_from_unstructured fields =
    with_kind (text_field (get_field (codes "kind") fields))
      (text_field (get_field (codes "apiVersion") fields))

-- `strings.ToLower` on ASCII.
abbrev pub lower : ℕ → ℕ
lower c = if leb b'A' c && leb c b'Z' then c + 32 else c

unfoldable pub to_lower : Text → Text
to_lower t = map lower t

abbrev pub kro_instances_group_suffix : Text
kro_instances_group_suffix = codes "kro.run"

unfoldable pub get_resource_group_instance_gvk : Text → Text → GroupVersionKind
get_resource_group_instance_gvk api_version kind = record {
  group = kro_instances_group_suffix;
  version = api_version;
  kind = kind;
}

-- The first argument is flect.Pluralize or flect.Singularize.
unfoldable pub get_resource_group_instance_gvr : (Text → Text) → Text → Text → GroupVersionResource
get_resource_group_instance_gvr pluralize api_version kind =
    let plural = pluralize (to_lower kind) in
    record {
      group = plural ++ b'.' ∷ kro_instances_group_suffix;
      version = api_version;
      resource = plural;
    }

unfoldable pub gvr_to_gvk : (Text → Text) → GroupVersionResource → GroupVersionKind
gvr_to_gvk singularize gvr = record {
  group = gvr.group;
  version = gvr.version;
  kind = singularize gvr.resource;
}

unfoldable pub gvk_to_gvr : (Text → Text) → GroupVersionKind → GroupVersionResource
gvk_to_gvr pluralize gvk = record {
  group = gvk.group;
  version = gvk.version;
  resource = to_lower (pluralize gvk.kind);
}
