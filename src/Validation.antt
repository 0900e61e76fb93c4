-- ===== src/Validation.antt =====
-- internal/graph/validation.go: the names of a ResourceGroup, and the shape of the objects in it.
mod Names
mod Objects
mod Examples
use kubernetes_resource_orch.Common.{
  ℕ, Bool, true, false, not, ◌&&◌, ◌||◌, List, [], ◌∷◌, Option, none, some, ◌==◌, leb,
  if◌then◌else◌, Text, codes, text_eq, mem, is_empty_text, Result, ok, err,
}
use kubernetes_resource_orch.Values.{Value, text, object, Fields, get_field}

abbrev is_between : ℕ → ℕ → ℕ → Bool
is_between low high c = leb low c && leb c high

abbrev pub is_lower : ℕ → Bool
is_lower = is_between b'a' b'z'

abbrev pub is_upper : ℕ → Bool
is_upper = is_between b'A' b'Z'

abbrev pub is_digit : ℕ → Bool
is_digit = is_between b'0' b'9'

-- `[a-zA-Z0-9]*`, to the end.
unfoldable pub all_alphanumeric : Text → Bool
all_alphanumeric [] = true
all_alphanumeric (c ∷ cs) = (is_lower c || is_upper c || is_digit c) && all_alphanumeric cs

-- `^[a-z][a-zA-Z0-9]*$`
unfoldable pub is_valid_resource_id : Text → Bool
is_valid_resource_id [] = false
is_valid_resource_id (c ∷ cs) = is_lower c && all_alphanumeric cs

-- `^[A-Z][a-zA-Z0-9]*$`
unfoldable pub is_valid_kind_name : Text → Bool
is_valid_kind_name [] = false
is_valid_kind_name (c ∷ cs) = is_upper c && all_alphanumeric cs

abbrev pub reserved_key_words : List Text
reserved_key_words =
    codes "apiVersion"
    ∷ codes "context"
    ∷ codes "dependency"
    ∷ codes "dependencies"
    ∷ codes "externalRef"
    ∷ codes "externalReference"
    ∷ codes "externalRefs"
    ∷ codes "externalReferences"
    ∷ codes "graph"
    ∷ codes "instance"
    ∷ codes "kind"
    ∷ codes "metadata"
    ∷ codes "namespace"
    ∷ codes "object"
    ∷ codes "resource"
    ∷ codes "resourcegroup"
    ∷ codes "resources"
    ∷ codes "runtime"
    ∷ codes "serviceAccountName"
    ∷ codes "spec"
    ∷ codes "status"
    ∷ codes "kro"
    ∷ codes "variables"
    ∷ codes "vars"
    ∷ codes "version"
    ∷ []

unfoldable pub is_kro_reserved_word : Text → Bool
is_kro_reserved_word word = mem word reserved_key_words

pub data NamingError : Type 0 where
  invalid_kind reserved_id invalid_id duplicate_id : Text → NamingError

-- The loop of `validateResourceIDs`, over the ids that were seen.
unfoldable pub validate_each : List Text → List Text → Option NamingError
validate_each seen [] = none
validate_each seen (id ∷ ids) =
    let rest = validate_each (id ∷ seen) ids in
    if is_kro_reserved_word id
    then some (reserved_id id)
    else if not (is_valid_resource_id id)
    then some (invalid_id id)
    else if mem id seen
    then some (duplicate_id id)
    else rest

unfoldable pub validate_resource_ids : List Text → Option NamingError
validate_resource_ids ids = validate_each [] ids

-- Of a group only its kind and the ids of its resources are looked at.
unfoldable pub validate_naming_conventions : Text → List Text → Option NamingError
validate_naming_conventions kind ids =
    if not (is_valid_kind_name kind) then some (invalid_kind kind) else validate_resource_ids ids

-- `\d+` to the end.
unfoldable pub some_digits : Text → Bool
some_digits [] = false
some_digits (c ∷ []) = is_digit c
some_digits (c ∷ d ∷ ds) = is_digit c && some_digits (d ∷ ds)

-- What follows the prefix, if the text has it.
unfoldable pub after_prefix : Text → Text → Option Text
after_prefix [] t = some t
after_prefix (p ∷ ps) [] = none
after_prefix (p ∷ ps) (c ∷ cs) = let rest = after_prefix ps cs in if p == c then rest else none

abbrev pub has_digits : Option Text → Bool
has_digits none = false
has_digits (some t) = some_digits t

-- `(?:(?:alpha|beta)\d+)?` to the end.
unfoldable pub is_stage : Text → Bool
is_stage [] = true
is_stage (c ∷ cs) =
    has_digits (after_prefix (codes "alpha") (c ∷ cs))
    || has_digits (after_prefix (codes "beta") (c ∷ cs))

-- `\d*`, and then a stage.
unfoldable pub digits_then_stage : Text → Bool
digits_then_stage [] = true
digits_then_stage (c ∷ cs) =
    let rest = digits_then_stage cs in if is_digit c then rest else is_stage (c ∷ cs)

abbrev pub digit_first : Text → Bool
digit_first [] = false
digit_first (c ∷ cs) = is_digit c && digits_then_stage cs

-- `^v\d+(?:(?:alpha|beta)\d+)?$`
unfoldable pub is_kubernetes_version : Text → Bool
is_kubernetes_version [] = false
is_kubernetes_version (c ∷ cs) = c == b'v' && digit_first cs

pub data ObjectError : Type 0 where
  not_found not_a_string not_a_map : Text → ObjectError
  invalid_group_version : Text → ObjectError
  invalid_version : Text → ObjectError

-- `schema.ParseGroupVersion` gives the version, which may be empty.
module _ (parse_group_version : Text → Result Text Text) where
  abbrev pub check_metadata : Option Value → Option ObjectError
  check_metadata none = some (not_found (codes "metadata"))
  check_metadata (some (object fs)) = none
  check_metadata (some _) = some (not_a_map (codes "metadata"))

  abbrev pub check_kind : Option Value → Option ObjectError → Option ObjectError
  check_kind none next = some (not_found (codes "kind"))
  check_kind (some (text t)) next = next
  check_kind (some _) next = some (not_a_string (codes "kind"))

  abbrev pub check_version : Result Text Text → Option ObjectError → Option ObjectError
  check_version (err e) next = some (invalid_group_version e)
  check_version (ok version) next =
      if not (is_empty_text version) && not (is_kubernetes_version version)
      then some (invalid_version version)
      else next

  abbrev pub check_api_version : Option Value → Option ObjectError → Option ObjectError
  check_api_version none next = some (not_found (codes "apiVersion"))
  check_api_version (some (text t)) next = check_version (parse_group_version t) next
  check_api_version (some _) next = some (not_a_string (codes "apiVersion"))

  unfoldable pub validate_kubernetes_object_structure : Fields → Option ObjectError
  validate_kubernetes_object_structure obj =
      check_api_version (get_field (codes "apiVersion") obj) (
        check_kind (get_field (codes "kind") obj)
          (check_metadata (get_field (codes "metadata") obj)))
