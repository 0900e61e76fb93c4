-- ===== src/Metadata.antt =====
-- internal/metadata: the finalizers and labels that kro puts on objects. How they are read from and
-- written to an object is apimachinery's, and a parameter.
pub mod GroupVersion
pub mod Ownership
mod Finalizers
mod Labels
mod Examples
use kubernetes_resource_orch.Common.{
  ◌≡◌, Bool, true, false, not, List, [], ◌∷◌, ◌++◌, Option, none, some, if◌then◌else◌, Text, codes,
  text_eq, mem, remove, Map, lookup, insert, has_key, Result, ok, err, and_then,
}
use kubernetes_resource_orch.Values.{Value}

-- What apimachinery reads from and writes to the metadata of an object: `NestedStringSlice` and
-- `SetNestedStringSlice` at the finalizers, and the accessors of `metav1.Object`.
pub record Accessors : Type 0 where
  pub finalizers : Value → Result Text (Option (List Text))
  pub put_finalizers : List Text → Value → Result Text Value
  pub labels : Value → Map Text
  pub put_labels : Map Text → Value → Value
  pub name : Value → Text
  pub namespace : Value → Text
  pub uid : Value → Text
  pub is_being_deleted : Value → Bool

-- What is written is read.
pub record AreLawful (access : Accessors) : Type 0 where
  pub finalizers-put :
      (fs : List Text) (v w : Value)
      → access.put_finalizers fs v ≡ ok w
      → access.finalizers w ≡ ok (some fs)
  pub labels-put : (ls : Map Text) (v : Value) → access.labels (access.put_labels ls v) ≡ ls

abbrev pub kro_finalizer : Text
kro_finalizer = codes "kro.run/finalizer"

-- `getInstanceFinalizerName`
abbrev pub instance_finalizer_name : Text → Text
instance_finalizer_name uid = uid ++ b'.' ∷ kro_finalizer

module _ (access : Accessors) where
  abbrev pub add_finalizer : Text → Value → Option (List Text) → Result Text Value
  add_finalizer name obj none = access.put_finalizers (name ∷ []) obj
  add_finalizer name obj (some fs) =
      if not (mem name fs) then access.put_finalizers (fs ++ name ∷ []) obj else ok obj

  -- `SetInstanceFinalizerUnstructured`
  unfoldable pub set_instance_finalizer : Text → Value → Result Text Value
  set_instance_finalizer uid obj =
      and_then (access.finalizers obj) (add_finalizer (instance_finalizer_name uid) obj)

  abbrev pub drop_finalizer : Text → Value → Option (List Text) → Result Text Value
  drop_finalizer name obj none = ok obj
  drop_finalizer name obj (some fs) = access.put_finalizers (remove name fs) obj

  -- `RemoveInstanceFinalizerUnstructured`
  unfoldable pub remove_instance_finalizer : Text → Value → Result Text Value
  remove_instance_finalizer uid obj =
      and_then (access.finalizers obj) (drop_finalizer (instance_finalizer_name uid) obj)

  abbrev pub is_among : Text → Option (List Text) → Result Text Bool
  is_among name none = ok false
  is_among name (some fs) = ok (mem name fs)

  -- Is the finalizer on the object?
  abbrev pub has_finalizer : Text → Value → Result Text Bool
  has_finalizer name obj = and_then (access.finalizers obj) (is_among name)

  -- `HasInstanceFinalizerUnstructured`
  unfoldable pub has_instance_finalizer : Text → Value → Result Text Bool
  has_instance_finalizer uid obj = has_finalizer (instance_finalizer_name uid) obj

  -- `setLabel` for each label of the labeler.
  unfoldable pub apply_labels : Map Text → Value → Value
  apply_labels [] obj = obj
  apply_labels ((k, v) ∷ gl) obj =
      apply_labels gl (access.put_labels (insert k v (access.labels obj)) obj)

-- `Merge`: the labels of the other labeler, or the first key that both have.
unfoldable pub merge : Map Text → Map Text → Result Text (Map Text)
merge new_labels [] = ok new_labels
merge new_labels ((k, v) ∷ other) =
    let merged = merge (insert k v new_labels) other in
    if has_key k new_labels then err k else merged

abbrev pub kro_label : Text → Text
kro_label name = codes "kro.run/" ++ name

-- `NewInstanceLabeler`
abbrev pub new_instance_labeler : Accessors → Value → Map Text
new_instance_labeler access obj =
    (kro_label (codes "instance-id"), access.uid obj)
    ∷ (kro_label (codes "instance-name"), access.name obj)
    ∷ (kro_label (codes "instance-namespace"), access.namespace obj)
    ∷ []
