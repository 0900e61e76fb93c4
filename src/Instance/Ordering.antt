-- ===== src/Instance/Ordering.antt =====
-- internal/controller/instance: a reconciliation goes through the resources in order.
use kubernetes_resource_orch.Common.{
  ◌≡◌, ◌⊎◌, inl, inr, refl, sym, ap, subst, ◌∙◌, Bool, true, false, [], ◌∷◌, ◌++◌, Option, none,
  some, if◌then◌else◌, arith, Text, mem, Nodup, IfDone, IfDone-mono, Result, ok, err,
}
use kubernetes_resource_orch.Values.{Value}
use kubernetes_resource_orch.Metadata.{has_instance_finalizer, set_instance_finalizer, apply_labels}
use kubernetes_resource_orch.Instance.{
  update_call, ApiError, Cluster, pending, ReconcileError, setup_failed, InstanceGraphReconciler,
  unless_err_wrap,
}
use kubernetes_resource_orch.Instance.Finalizing.{
  setup_instance, set_managed, update_instance, updated, put_patched, is_managed, with_labels,
}
use kubernetes_resource_orch.Instance.Reconciling.{reconcile_each, all_pending, reconcile_instance}
use kubernetes_resource_orch.Instance.Progressing.{state_of}
use kubernetes_resource_orch.Instance.Sequence.{
  Ordered, reconcile_each-Ordered, all_pending-keeps, all_pending-state_of,
}

module _ (cluster : Cluster) (igr : InstanceGraphReconciler) where
  abbrev the_instance : Value
  the_instance = igr.runtime.instance_.unstructured

  -- The instance has its finalizer, or the one call that was made puts it there with the labels.
  abbrev pub Managed : InstanceGraphReconciler → Type 0
  Managed started =
      ((is_managed
            (has_instance_finalizer cluster.access (cluster.access.uid the_instance) the_instance)
          ≡ true)
        × (started.calls ≡ igr.calls))
      ⊎ ((copy : Value) × (set_instance_finalizer cluster.access (cluster.access.uid the_instance)
              the_instance
            ≡ ok copy)
          × (started.calls
              ≡ igr.calls
                ++ update_call (apply_labels cluster.access igr.instance_labeler copy) ∷ []))

  abbrev SetUp : Option ReconcileError × InstanceGraphReconciler → Type 0
  SetUp (e, after) =
      (e ≡ none → Managed after)
      × (after.state ≡ igr.state)
      × (after.runtime.topological_order ≡ igr.runtime.topological_order)

  setup_instance-SetUp : SetUp (setup_instance cluster igr)
  unfolding setup_instance set_managed
  setup_instance-SetUp =
      branch
        (is_managed
          (has_instance_finalizer cluster.access (cluster.access.uid the_instance) the_instance))
        refl
    where
      answer :
          (copy : Value) (m : Result ApiError Value)
          → set_instance_finalizer cluster.access (cluster.access.uid the_instance) the_instance
            ≡ ok copy
          → SetUp (
              put_patched
                (λ e. e)
                (updated cluster (apply_labels cluster.access igr.instance_labeler copy) igr m))
      answer copy (err e) is = (λ h. ground (arith, h), refl, refl)
      answer copy (ok v) is = (λ _. inr (copy, is, refl), refl, refl)

      finalizer :
          (m : Result Text Value)
          → set_instance_finalizer cluster.access (cluster.access.uid the_instance) the_instance ≡ m
          → SetUp (put_patched (λ e. e) (update_instance cluster igr (with_labels cluster igr m)))
      finalizer (err e) is = (λ h. ground (arith, h), refl, refl)
      finalizer (ok copy) is = answer copy _ is

      branch :
          (b : Bool)
          → is_managed
              (has_instance_finalizer cluster.access (cluster.access.uid the_instance) the_instance)
            ≡ b
          → SetUp (
              put_patched
                (λ e. e)
                (if b
                  then (ok the_instance, igr)
                  else update_instance cluster igr (
                      with_labels cluster igr (
                        set_instance_finalizer cluster.access
                          (cluster.access.uid the_instance)
                          the_instance))))
      branch true has = (λ _. inl (has, refl), refl, refl)
      branch false lacks = finalizer _ refl

  -- What a reconciliation does: it fails to set up the instance, or goes on from a reconciler with a
  -- managed instance and pending resources.
  abbrev pub InOrder : Option ReconcileError × InstanceGraphReconciler → Type 0
  InOrder out =
      ((e : ReconcileError) × (out.0 ≡ some (setup_failed e)) × (out.1.state ≡ igr.state))
      ⊎ ((started : InstanceGraphReconciler) × Managed started
          × ((x : Text)
              → mem x igr.runtime.topological_order ≡ true
              → state_of x started ≡ some (record { state = pending; error = none }))
          × (started.state.state ≡ igr.state.state)
          × Ordered igr.runtime.topological_order started out)

  pub reconcile_instance-InOrder :
      Nodup igr.runtime.topological_order → IfDone InOrder (reconcile_instance cluster igr)
  unfolding reconcile_instance
  reconcile_instance-InOrder n = go (setup_instance cluster igr) setup_instance-SetUp
    where
      go :
          (out : Option ReconcileError × InstanceGraphReconciler)
          → SetUp out
          → IfDone InOrder (
              unless_err_wrap setup_failed
                (λ igr1.
                  reconcile_each cluster igr1.runtime.topological_order
                    (all_pending igr1.runtime.topological_order igr1))
                out)
      go (some e, after) (_, same, _) = inl (e, refl, same)
      go (none, mid) (managed, same, order) =
          subst (λ l. IfDone InOrder (reconcile_each cluster l (all_pending l mid))) (sym order)
            (IfDone-mono
              (Ordered igr.runtime.topological_order
                (all_pending igr.runtime.topological_order mid))
              InOrder
              (reconcile_each cluster igr.runtime.topological_order
                (all_pending igr.runtime.topological_order mid))
              (λ out o. inr (
                all_pending igr.runtime.topological_order mid,
                calls_kept (managed refl),
                λ x h. all_pending-state_of x igr.runtime.topological_order mid (inl h),
                (all_pending-keeps igr.runtime.topological_order mid).1 ∙ ap (λ s. s.state) same,
                o,
              ))
              (reconcile_each-Ordered cluster igr.runtime.topological_order _ n))
        where
          calls_kept : Managed mid → Managed (all_pending igr.runtime.topological_order mid)
          calls_kept (inl (has, calls)) =
              inl (has, (all_pending-keeps igr.runtime.topological_order mid).0 ∙ calls)
          calls_kept (inr (copy, is, calls)) =
              inr (copy, is, (all_pending-keeps igr.runtime.topological_order mid).0 ∙ calls)
