-- ===== src/Metadata/Finalizers.antt =====
-- internal/metadata/finalizers.go: what the finalizer of an instance promises.
use kubernetes_resource_orch.Common.{
  ◌≡◌, refl, sym, subst, ok-inj, ◌∙◌, true, false, inl, inr, Bool-cases, List, [], ◌∷◌, ◌++◌,
  Option, none, some, if◌then◌else◌, Text, text_eq, text_eq_iff, text_eq_refl, mem, mem-append,
  mem-remove, remove, Result, ok, err, and_then, arith,
}
use mathlib.Core.List.{append_cancel_right}
use kubernetes_resource_orch.Values.{Value}
use kubernetes_resource_orch.Metadata.{
  Accessors, AreLawful, instance_finalizer_name, kro_finalizer, add_finalizer, drop_finalizer,
  is_among, has_finalizer, set_instance_finalizer, remove_instance_finalizer,
}

-- Different instances have different finalizers.
pub instance_finalizer_name_inj :
    (s t : Text) → text_eq (instance_finalizer_name s) (instance_finalizer_name t) ≡ text_eq s t
instance_finalizer_name_inj s t = elim (Bool-cases (text_eq s t)) [
  | inl same ↦
      rw ((text_eq_iff s t).0 same)
        (text_eq_refl (instance_finalizer_name t) ∙ sym (text_eq_refl t))
  | inr other ↦
      elim (Bool-cases (text_eq (instance_finalizer_name s) (instance_finalizer_name t))) [
        | inl alike ↦
            let equal : text_eq s t ≡ true = (text_eq_iff s t).1 (
              append_cancel_right s t (b'.' ∷ kro_finalizer)
                ((text_eq_iff (instance_finalizer_name s) (instance_finalizer_name t)).0 alike)) in
            ground (arith, equal, other)
        | inr apart ↦ apart ∙ sym other
      ]
]

module _ (access : Accessors) (lawful : AreLawful access) where
  added :
      (name f : Text) (obj after : Value) (fs : Option (List Text))
      → access.finalizers obj ≡ ok fs
      → add_finalizer access name obj fs ≡ ok after
      → has_finalizer access f after ≡ (if text_eq f name then ok true else is_among access f fs)
  unfolding mem
  added name f obj after none reads e =
      rw (lawful.finalizers-put (name ∷ []) obj after e) (ground arith)
  added name f obj after (some fs) reads e = elim (Bool-cases (mem name fs)) [
    | inl there ↦
        let same : obj ≡ after = ok-inj {E = Text} (ground (arith, e, there)) in
        subst
          (λ x.
            has_finalizer access f x
            ≡ (if text_eq f name then ok true else is_among access f (some fs)))
          same
          (rw reads (elim (Bool-cases (text_eq f name)) [
            | inl is ↦ rw (is, (text_eq_iff f name).0 is, there) refl
            | inr is_not ↦ rw is_not refl
          ]))
    | inr missing ↦
        rw (lawful.finalizers-put (fs ++ name ∷ []) obj after (ground (arith, e, missing)))
          (ground (arith, mem-append f fs (name ∷ [])))
  ]

  dropped :
      (name f : Text) (obj after : Value) (fs : Option (List Text))
      → access.finalizers obj ≡ ok fs
      → drop_finalizer access name obj fs ≡ ok after
      → has_finalizer access f after ≡ (if text_eq f name then ok false else is_among access f fs)
  dropped name f obj after none reads e =
      subst (λ x. has_finalizer access f x ≡ (if text_eq f name then ok false else ok false))
        (ok-inj e) (rw reads (ground arith))
  dropped name f obj after (some fs) reads e =
      rw (lawful.finalizers-put (remove name fs) obj after e) (ground (arith, mem-remove f name fs))

  -- Where what is written is read: after `SetInstanceFinalizerUnstructured` succeeds the object has
  -- the finalizer of the instance, and any other finalizer exactly if it had it before.
  pub set_instance_finalizer-has :
      (uid f : Text) (obj after : Value)
      → set_instance_finalizer access uid obj ≡ ok after
      → has_finalizer access f after
        ≡ (if text_eq f (instance_finalizer_name uid) then ok true else has_finalizer access f obj)
  unfolding set_instance_finalizer
  set_instance_finalizer-has uid f obj after e = go (access.finalizers obj) refl e
    where
      go :
          (m : Result Text (Option (List Text)))
          → access.finalizers obj ≡ m
          → and_then m (add_finalizer access (instance_finalizer_name uid) obj) ≡ ok after
          → has_finalizer access f after ≡ (
              if text_eq f (instance_finalizer_name uid)
              then ok true
              else and_then m (is_among access f))
      go (err x) reads e = ground (arith, e)
      go (ok fs) reads e = added (instance_finalizer_name uid) f obj after fs reads e

  -- Where what is written is read: after `RemoveInstanceFinalizerUnstructured` succeeds the object
  -- lacks the finalizer of the instance, and has any other finalizer exactly if it had it before.
  pub remove_instance_finalizer-has :
      (uid f : Text) (obj after : Value)
      → remove_instance_finalizer access uid obj ≡ ok after
      → has_finalizer access f after
        ≡ (if text_eq f (instance_finalizer_name uid) then ok false else has_finalizer access f obj)
  unfolding remove_instance_finalizer
  remove_instance_finalizer-has uid f obj after e = go (access.finalizers obj) refl e
    where
      go :
          (m : Result Text (Option (List Text)))
          → access.finalizers obj ≡ m
          → and_then m (drop_finalizer access (instance_finalizer_name uid) obj) ≡ ok after
          → has_finalizer access f after ≡ (
              if text_eq f (instance_finalizer_name uid)
              then ok false
              else and_then m (is_among access f))
      go (err x) reads e = ground (arith, e)
      go (ok fs) reads e = dropped (instance_finalizer_name uid) f obj after fs reads e
