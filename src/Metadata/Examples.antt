-- ===== src/Metadata/Examples.antt =====
-- An object with finalizers and labels, and the theorems at it.
use kubernetes_resource_orch.Common.{
  ◌≡◌, refl, sym, ◌∙◌, false, List, [], ◌∷◌, some, Option, ap, Text, codes, Map, Result, ok, err,
  ok-inj,
}
use kubernetes_resource_orch.Values.{
  Value, null, text, array, object, Items, nil, cons, Fields, end, field,
}
use kubernetes_resource_orch.Metadata.{Accessors, AreLawful}

-- Objects that are a list of finalizers and a list of labels.
abbrev write_texts : List Text → Items
write_texts [] = nil
write_texts (t ∷ ts) = cons (text t) (write_texts ts)

abbrev read_texts : Items → List Text
read_texts (cons (text t) vs) = t ∷ read_texts vs
read_texts _ = []

abbrev write_labels : Map Text → Fields
write_labels [] = end
write_labels ((k, v) ∷ ls) = field k (text v) (write_labels ls)

abbrev read_labels : Fields → Map Text
read_labels (field k (text v) fs) = (k, v) ∷ read_labels fs
read_labels _ = []

read-write_texts : (ts : List Text) → read_texts (write_texts ts) ≡ ts
read-write_texts [] = refl
read-write_texts (t ∷ ts) = ap (◌∷◌ t) (read-write_texts ts)

read-write_labels : (ls : Map Text) → read_labels (write_labels ls) ≡ ls
read-write_labels [] = refl
read-write_labels ((k, v) ∷ ls) = ap (◌∷◌ (k, v)) (read-write_labels ls)

abbrev finalizers_of : Value → Result Text (Option (List Text))
finalizers_of (array (cons (array fs) ls)) = ok (some (read_texts fs))
finalizers_of _ = err (codes "no object")

abbrev with_finalizers : List Text → Value → Value
with_finalizers fs (array (cons old ls)) = array (cons (array (write_texts fs)) ls)
with_finalizers fs _ = array (cons (array (write_texts fs)) nil)

abbrev labels_of : Value → Map Text
labels_of (array (cons fs (cons (object ls) more))) = read_labels ls
labels_of _ = []

abbrev with_labels : Map Text → Value → Value
with_labels ls (array (cons fs more)) = array (cons fs (cons (object (write_labels ls)) nil))
with_labels ls _ = array (cons (array nil) (cons (object (write_labels ls)) nil))

abbrev pub plain_access : Accessors
plain_access = record {
  finalizers = finalizers_of;
  put_finalizers = λ fs v. ok (with_finalizers fs v);
  labels = labels_of;
  put_labels = with_labels;
  name = λ v. codes "app";
  namespace = λ v. codes "default";
  uid = λ v. codes "7";
  is_being_deleted = λ v. false;
}

read_back : (fs : List Text) (v : Value) → finalizers_of (with_finalizers fs v) ≡ ok (some fs)
read_back fs (array (cons old ls)) = ap (λ x. ok (some x)) (read-write_texts fs)
read_back fs (array nil) = ap (λ x. ok (some x)) (read-write_texts fs)
read_back fs _ = ap (λ x. ok (some x)) (read-write_texts fs)

labels_back : (ls : Map Text) (v : Value) → labels_of (with_labels ls v) ≡ ls
labels_back ls (array (cons fs more)) = read-write_labels ls
labels_back ls (array nil) = read-write_labels ls
labels_back ls _ = read-write_labels ls

plain_access-AreLawful : AreLawful plain_access
plain_access-AreLawful = record {
  finalizers-put = λ fs v w e. ap finalizers_of (ok-inj {E = Text} (sym e)) ∙ read_back fs v;
  labels-put = λ ls v. labels_back ls v;
}

abbrev bare : Value
bare = with_finalizers (codes "other" ∷ []) null

abbrev owned : Map Text
owned = (codes "owned", codes "true") ∷ []

abbrev named_app : Map Text
named_app = (codes "name", codes "app") ∷ []
