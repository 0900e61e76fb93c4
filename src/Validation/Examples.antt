-- ===== src/Validation/Examples.antt =====
-- A group of two resources and a pod, and the theorems at them.
use kubernetes_resource_orch.Common.{
  ◌≡◌, ◌↔◌, refl, true, false, [], ◌∷◌, none, All, Text, codes, Nodup, Result, ok,
}
use kubernetes_resource_orch.Values.{text, Fields, end, field}
use kubernetes_resource_orch.Validation.{
  is_valid_kind_name, validate_naming_conventions, some_digits, after_prefix, is_stage,
  digits_then_stage, is_kubernetes_version,
}
use kubernetes_resource_orch.Validation.Names.{IsName, validate_naming_conventions-Names}

versions :
    (is_kubernetes_version (codes "v1beta2") ≡ true)
    × (is_kubernetes_version (codes "v12") ≡ true)
    × (is_kubernetes_version (codes "v1gamma2") ≡ false)
    × (is_kubernetes_version (codes "v1beta") ≡ false)
unfolding is_kubernetes_version digits_then_stage is_stage after_prefix some_digits
versions = (refl, refl, refl, refl)

validate_naming_conventions-Names_example :
    (validate_naming_conventions (codes "WebApp") (codes "db" ∷ codes "service" ∷ []) ≡ none) ↔ (
      (is_valid_kind_name (codes "WebApp") ≡ true)
      × All IsName (codes "db" ∷ codes "service" ∷ [])
      × Nodup (codes "db" ∷ codes "service" ∷ []))
validate_naming_conventions-Names_example =
    validate_naming_conventions-Names (codes "WebApp") (codes "db" ∷ codes "service" ∷ [])

-- `v1` has no group.
abbrev only_version : Text → Result Text Text
only_version t = ok t

abbrev pod : Fields
pod = field (codes "apiVersion") (text (codes "v1")) (field (codes "kind") (text (codes "Pod")) end)
