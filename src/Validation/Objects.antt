-- ===== src/Validation/Objects.antt =====
-- internal/graph/validation.go: which versions and which objects are accepted.
use kubernetes_resource_orch.Common.{
  ◌≡◌, ◌↔◌, refl, sym, ap, subst, ok-inj, ◌∙◌, Bool, true, ◌||◌, Option, none, some, arith, Text,
  codes, is_empty_text, Result, ok, err,
}
use kubernetes_resource_orch.Values.{Value, text, object, Fields, get_field}
use kubernetes_resource_orch.Validation.{
  ObjectError, is_kubernetes_version, check_metadata, check_kind, check_version, check_api_version,
  validate_kubernetes_object_structure,
}

-- The version may be empty.
abbrev pub is_accepted_version : Text → Bool
is_accepted_version version = is_empty_text version || is_kubernetes_version version

module _ (parse_group_version : Text → Result Text Text) where
  check_metadata-none :
      (m : Option Value)
      → (check_metadata parse_group_version m ≡ none) ↔ ((fs : Fields) × (m ≡ some (object fs)))
  check_metadata-none none = (λ h. ground (arith, h), λ (fs, e). ground (arith, e))
  check_metadata-none (some (object fs)) = (λ _. (fs, refl), λ _. refl)
  check_metadata-none (some _) = (λ h. ground (arith, h), λ (fs, e). ground (arith, e))

  check_kind-none :
      (m : Option Value) (next : Option ObjectError)
      → (check_kind parse_group_version m next ≡ none)
        ↔ (((t : Text) × (m ≡ some (text t))) × (next ≡ none))
  check_kind-none none next = (λ h. ground (arith, h), λ ((t, e), _). ground (arith, e))
  check_kind-none (some (text t)) next = (λ h. ((t, refl), h), λ (_, h). h)
  check_kind-none (some _) next = (λ h. ground (arith, h), λ ((t, e), _). ground (arith, e))

  check_version-none :
      (m : Result Text Text) (next : Option ObjectError)
      → (check_version parse_group_version m next ≡ none) ↔ (
          ((version : Text) × (m ≡ ok version) × (is_accepted_version version ≡ true))
          × (next ≡ none))
  check_version-none (err e) next = (λ h. ground (arith, h), λ ((v, is, _), _). ground (arith, is))
  check_version-none (ok version) next = (
    λ h.
        let accepted : is_accepted_version version ≡ true = ground (arith, h) in
        ((version, refl, accepted), ground (arith, h, accepted)),
    λ ((v, is, accepted), h).
        let same : is_accepted_version version ≡ true =
          subst (λ x. is_accepted_version x ≡ true) (sym (ok-inj {E = Text} is)) accepted in
        ground (arith, same, h),
  )

  -- The object has an apiVersion that can be taken apart and has no version or a Kubernetes version, a
  -- kind, and a map of metadata.
  abbrev pub IsObject : Fields → Type 0
  IsObject obj =
      ((t : Text) × (version : Text) × (get_field (codes "apiVersion") obj ≡ some (text t))
        × (parse_group_version t ≡ ok version)
        × (is_accepted_version version ≡ true))
      × ((t : Text) × (get_field (codes "kind") obj ≡ some (text t)))
      × ((fs : Fields) × (get_field (codes "metadata") obj ≡ some (object fs)))

  check_api_version-none :
      (m : Option Value) (next : Option ObjectError)
      → (check_api_version parse_group_version m next ≡ none) ↔ (
          ((t : Text) × (version : Text) × (m ≡ some (text t))
            × (parse_group_version t ≡ ok version)
            × (is_accepted_version version ≡ true))
          × (next ≡ none))
  check_api_version-none none next =
      (λ h. ground (arith, h), λ ((t, v, e, _, _), _). ground (arith, e))
  check_api_version-none (some (text t)) next = (
    λ h.
        let ((v, is, accepted), good) = (check_version-none (parse_group_version t) next).0 h in
        ((t, v, refl, is, accepted), good),
    λ ((s, v, e, is, accepted), good).
        (check_version-none (parse_group_version t) next).1
          ((v, ap parse_group_version (text-inj e) ∙ is, accepted), good),
  )
    where
      contents : Option Value → Text
      contents (some (text s)) = s
      contents _ = t

      text-inj : {s : Text} → Path (Option Value) (some (text t)) (some (text s)) → t ≡ s
      text-inj p = ap contents p
  check_api_version-none (some _) next =
      (λ h. ground (arith, h), λ ((t, v, e, _, _), _). ground (arith, e))

  -- An object passes `validateKubernetesObjectStructure` exactly if its apiVersion is a text that can
  -- be taken apart, with no version or one like v1, v1alpha1 or v1beta1, its kind is a text and its
  -- metadata are a map.
  pub validate_kubernetes_object_structure-IsObject :
      (obj : Fields)
      → (validate_kubernetes_object_structure parse_group_version obj ≡ none) ↔ IsObject obj
  unfolding validate_kubernetes_object_structure
  validate_kubernetes_object_structure-IsObject obj = (
    λ h.
        let (api, more) = (check_api_version-none _ _).0 h in
        let (kind, rest) = (check_kind-none _ _).0 more in
        (api, kind, (check_metadata-none _).0 rest),
    λ (api, kind, metadata).
        (check_api_version-none _ _).1
          (api, (check_kind-none _ _).1 (kind, (check_metadata-none _).1 metadata)),
  )
