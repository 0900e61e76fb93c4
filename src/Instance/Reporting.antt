-- ===== src/Instance/Reporting.antt =====
-- internal/controller/instance/controller_status.go: the fields of the status.
use kubernetes_resource_orch.Common.{
  ◌≡◌, inl, inr, refl, sym, subst, ◌∙◌, true, false, Bool-cases, List, [], ◌∷◌, Option, none, some,
  if◌then◌else◌, arith, Text, codes, text_eq, text_eq_iff, mem, Nodup,
}
use kubernetes_resource_orch.Values.{
  Value, text, array, nil, Fields, end, field, get_field, set_field,
}
use kubernetes_resource_orch.Instance.{Cluster, ReconcileError, InstanceState}
use kubernetes_resource_orch.Values.{get_field-set_field}
use kubernetes_resource_orch.Instance.Status.{
  state_text, copy_fields, old_status, status_field, get_resolved_status, prepare_conditions,
  prepare_status,
}

abbrev pub field_names : Fields → List Text
field_names end = []
field_names (field k v fs) = k ∷ field_names fs

absent-get_field : (k : Text) (fs : Fields) → mem k (field_names fs) ≡ false → get_field k fs ≡ none
unfolding get_field mem
absent-get_field k end h = refl
absent-get_field k (field j v fs) h = ground (arith, h, absent-get_field k fs)

abbrev or_else : Option Value → Option Value → Option Value
or_else none other = other
or_else (some v) other = some v

-- Each field but the conditions is copied.
copy_fields-get :
    (k : Text) (old status : Fields)
    → Nodup (field_names old)
    → text_eq k (codes "conditions") ≡ false
    → get_field k (copy_fields old status) ≡ or_else (get_field k old) (get_field k status)
unfolding copy_fields get_field
copy_fields-get k end status n other = refl
copy_fields-get k (field j v old) status n other =
    copy_fields-get k old (if text_eq j (codes "conditions") then status else set_field j v status)
      n.1 other
    ∙ elim (Bool-cases (text_eq k j)) [
      | inl same ↦ here ((text_eq_iff k j).0 same) same
      | inr apart ↦ elim (Bool-cases (text_eq j (codes "conditions"))) [
        | inl skip ↦ rw (apart, skip) refl
        | inr keep ↦ rw (apart, keep, get_field-set_field j k v status, apart) refl
      ]
    ]
  where
    here :
        k ≡ j
        → text_eq k j ≡ true
        → or_else
            (get_field k old)
            (get_field k (if text_eq j (codes "conditions") then status else set_field j v status))
          ≡ or_else (if text_eq k j then some v else get_field k old) (get_field k status)
    here is same =
        rw
          (
            same,
            absent-get_field k old (subst (λ x. mem x (field_names old) ≡ false) (sym is) n.0),
            subst (λ x. text_eq x (codes "conditions") ≡ false) is other,
            get_field-set_field j k v status,
            same,
          )
          refl

module _ (cluster : Cluster) (error_text : ReconcileError → Text) where
  -- `prepareStatus`, on an instance whose status has each key once: the status says the state and has
  -- the one condition for the result, and every other field of the old status is kept.
  pub prepare_status-get :
      (s : InstanceState) (instance_ : Value) (k : Text)
      → Nodup (field_names (old_status (status_field instance_)))
      → get_field k (prepare_status cluster error_text s instance_) ≡ (
          if text_eq k (codes "conditions")
          then some
              (prepare_conditions cluster error_text s.reconcile_err (cluster.generation instance_))
          else if text_eq k (codes "state")
          then some (text (state_text s.state))
          else get_field k (old_status (status_field instance_)))
  unfolding prepare_status get_resolved_status get_field
  prepare_status-get s instance_ k n =
      get_field-set_field (codes "conditions") k conditions with_state
      ∙ elim (Bool-cases (text_eq k (codes "conditions"))) [
        | inl is ↦ rw is refl
        | inr other ↦ rw other (below other)
      ]
    where
      conditions : Value
      conditions =
          prepare_conditions cluster error_text s.reconcile_err (cluster.generation instance_)

      copied : Fields
      copied =
          copy_fields (old_status (status_field instance_))
            (field (codes "conditions") (array nil) end)

      with_state : Fields
      with_state = set_field (codes "state") (text (state_text s.state)) copied

      nothing_else : (m : Option Value) → or_else m none ≡ m
      nothing_else none = refl
      nothing_else (some v) = refl

      below :
          text_eq k (codes "conditions") ≡ false
          → get_field k with_state ≡ (
              if text_eq k (codes "state")
              then some (text (state_text s.state))
              else get_field k (old_status (status_field instance_)))
      below other =
          get_field-set_field (codes "state") k (text (state_text s.state)) copied
          ∙ elim (Bool-cases (text_eq k (codes "state"))) [
            | inl is ↦ rw is refl
            | inr apart ↦ rw apart (
                copy_fields-get k (old_status (status_field instance_)) _ n other
                ∙ (rw other (nothing_else (get_field k (old_status (status_field instance_))))))
          ]
