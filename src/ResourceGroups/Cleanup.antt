-- ===== src/ResourceGroups/Cleanup.antt =====
-- internal/controller/resourcegroup/controller_cleanup.go: what a deletion of a group leaves.
use kubernetes_resource_orch.Common.{
  ◌≡◌, refl, sym, ap, subst, ◌∙◌, true, false, not, ◌&&◌, List, [], ◌∷◌, ◌++◌, Option, none, some,
  if◌then◌else◌, inl, inr, Bool-cases, if-true, if-false, arith, length, length-append, Text, codes,
  text_eq, text_eq_iff, mem, remove, mem-remove,
}
use mathlib.Core.List.{append-nil}
use kubernetes_resource_orch.Metadata.{kro_finalizer}
use kubernetes_resource_orch.Metadata.GroupVersion.{
  GroupVersionResource, get_resource_group_instance_gvr, get_resource_group_instance_gvk,
  gvk_to_gvr, to_lower,
}
use kubernetes_resource_orch.Metadata.Ownership.{
  has_resource_group_finalizer, remove_resource_group_finalizer,
}
use kubernetes_resource_orch.DynamicController.{DynamicController, stop_service_gvk}
use kubernetes_resource_orch.DynamicController.Kinds.{gvr_eq, load-delete}
use kubernetes_resource_orch.DynamicController.Served.{served}
use kubernetes_resource_orch.ResourceGroups.{
  ResourceGroup, World, ResourceGroupReconciler, GroupError, api_failed, cleanup_failed, Call,
  patch_finalizers, delete_crd, cleanup_resource_group, cleanup_resource_group_crd,
  shutdown_resource_group_micro_controller, set_unmanaged, reconcile, extract_crd_name, map_error,
  unless_error, as_cleanup_error,
}

-- The kind that instances of the group are registered under by the builder, and the one that the
-- cleanup stops, have different API groups.
groups_differ : (plural : Text) → text_eq (codes "kro.run") (plural ++ codes ".kro.run") ≡ false
groups_differ plural = elim (Bool-cases (text_eq (codes "kro.run") (plural ++ codes ".kro.run"))) [
  | inl same ↦
      let equal : codes "kro.run" ≡ plural ++ codes ".kro.run" = (text_eq_iff _ _).0 same in
      absurd (omega (arith, ap length equal, length-append plural (codes ".kro.run")))
  | inr other ↦ other
]

kinds_differ :
    (pluralize : Text → Text) (version kind : Text)
    → gvr_eq
        (gvk_to_gvr pluralize (get_resource_group_instance_gvk version kind))
        (get_resource_group_instance_gvr pluralize version kind)
      ≡ false
unfolding gvr_eq gvk_to_gvr get_resource_group_instance_gvk get_resource_group_instance_gvr
kinds_differ pluralize version kind = rw (groups_differ (pluralize (to_lower kind))) refl

stopped-other :
    {H Q : Type 0} (gvr g : GroupVersionResource) (dc : DynamicController H Q)
    → gvr_eq g gvr ≡ false
    → served (stop_service_gvk gvr dc) g ≡ served dc g
unfolding stop_service_gvk served
stopped-other gvr g dc other =
    ground (arith, other, load-delete gvr g dc.handlers, load-delete gvr g dc.informers)

-- The kind of the instances of a group as the builder registers it.
abbrev pub instance_kind : World → ResourceGroup → GroupVersionResource
instance_kind world rg =
    gvk_to_gvr world.pluralize (get_resource_group_instance_gvk rg.api_version rg.kind)

module _ {Q : Type 0} (world : World) where
  reconcile_deleted :
      (rg : ResourceGroup) (r : ResourceGroupReconciler Q)
      → rg.is_being_deleted ≡ true
      → reconcile world rg r
        ≡ unless_error world (set_unmanaged world rg) (cleanup_resource_group world rg r)
  unfolding reconcile
  reconcile_deleted rg r deleted = if-true _ _ deleted

  unmanaged-controller :
      (rg : ResourceGroup) (p : Option GroupError × ResourceGroupReconciler Q)
      → (unless_error world (set_unmanaged world rg) p).1.dynamic_controller
        ≡ p.1.dynamic_controller
  unfolding set_unmanaged
  unmanaged-controller rg (some e, r) = refl
  unmanaged-controller rg (none, r) =
      elim (Bool-cases (has_resource_group_finalizer rg.finalizers)) [
        | inl is ↦ rw is refl
        | inr other ↦ rw other refl
      ]

  crd-controller :
      (name : Text) (r : ResourceGroupReconciler Q)
      → (cleanup_resource_group_crd world name r).1.dynamic_controller ≡ r.dynamic_controller
  unfolding cleanup_resource_group_crd
  crd-controller name r = elim (Bool-cases r.allow_crd_deletion) [
    | inl is ↦ rw is refl
    | inr other ↦ rw other refl
  ]

  -- The reconciliation of a group that is deleted does not stop the controller of its instances: the
  -- kind under which the builder registers them is served as before, whatever the kind is called.
  pub reconcile-StillServes :
      (rg : ResourceGroup) (r : ResourceGroupReconciler Q)
      → rg.is_being_deleted ≡ true
      → served (reconcile world rg r).1.dynamic_controller (instance_kind world rg)
        ≡ served r.dynamic_controller (instance_kind world rg)
  unfolding cleanup_resource_group shutdown_resource_group_micro_controller
  reconcile-StillServes rg r deleted =
      let stopped = get_resource_group_instance_gvr world.pluralize rg.api_version rg.kind in
      let shut = shutdown_resource_group_micro_controller world stopped r in
      let cleaned = cleanup_resource_group world rg r in
      let kept : cleaned.1.dynamic_controller ≡ stop_service_gvk stopped r.dynamic_controller =
        crd-controller (extract_crd_name world.pluralize rg.kind) shut in
      rw (reconcile_deleted rg r deleted, unmanaged-controller rg cleaned, kept)
        (stopped-other stopped (instance_kind world rg) r.dynamic_controller
          (kinds_differ world.pluralize rg.api_version rg.kind))

  -- The calls that delete the custom resource definition.
  abbrev pub crd_calls : ResourceGroup → ResourceGroupReconciler Q → List Call
  crd_calls rg r =
      if r.allow_crd_deletion
      then delete_crd (extract_crd_name world.pluralize rg.kind) ∷ []
      else []

  -- The deletion of the custom resource definition is not allowed, or the answer to it is no error.
  abbrev pub CrdIsGone : ResourceGroup → ResourceGroupReconciler Q → Type 0
  CrdIsGone rg r =
      r.allow_crd_deletion ≡ true
      → world.answer r.calls (delete_crd (extract_crd_name world.pluralize rg.kind)) ≡ none

  -- What the deletion of a group comes to.
  pub data Deleted (rg : ResourceGroup) (r : ResourceGroupReconciler Q)
      : Option GroupError × ResourceGroupReconciler Q → Type 0 where
    blocked :
        {p : Option GroupError × ResourceGroupReconciler Q} (e : Text)
        → r.allow_crd_deletion ≡ true
        → world.answer r.calls (delete_crd (extract_crd_name world.pluralize rg.kind)) ≡ some e
        → p.0 ≡ some (cleanup_failed (api_failed e))
        → p.1.calls ≡ r.calls ++ crd_calls rg r
        → Deleted rg r p
    released :
        {p : Option GroupError × ResourceGroupReconciler Q} (finalizers : List Text)
        → CrdIsGone rg r
        → p.1.calls ≡ (r.calls ++ crd_calls rg r) ++ patch_finalizers finalizers ∷ []
        → ((name : Text)
            → mem name finalizers ≡ (not (text_eq name kro_finalizer) && mem name rg.finalizers))
        → Deleted rg r p

  unmanage-Deleted :
      (rg : ResourceGroup) (r s : ResourceGroupReconciler Q)
      → has_resource_group_finalizer rg.finalizers ≡ true
      → s.calls ≡ r.calls ++ crd_calls rg r
      → CrdIsGone rg r
      → Deleted rg r (set_unmanaged world rg s)
  unfolding set_unmanaged remove_resource_group_finalizer
  unmanage-Deleted rg r s has calls gone =
      released (remove kro_finalizer rg.finalizers) gone
        (rw has (ap (λ l. l ++ patch_finalizers (remove kro_finalizer rg.finalizers) ∷ []) calls))
        (λ name. mem-remove name kro_finalizer rg.finalizers)

  answered-Deleted :
      (rg : ResourceGroup) (r s : ResourceGroupReconciler Q) (answer : Option Text)
      → has_resource_group_finalizer rg.finalizers ≡ true
      → r.allow_crd_deletion ≡ true
      → world.answer r.calls (delete_crd (extract_crd_name world.pluralize rg.kind)) ≡ answer
      → s.calls ≡ r.calls ++ crd_calls rg r
      → Deleted rg r (
          unless_error world
            (set_unmanaged world rg)
            (map_error world as_cleanup_error (answer, s)))
  answered-Deleted rg r s (some e) has allowed said calls = blocked e allowed said refl calls
  answered-Deleted rg r s none has allowed said calls =
      unmanage-Deleted rg r s has calls (λ _. said)

  cleaned-Deleted :
      (rg : ResourceGroup) (r : ResourceGroupReconciler Q)
      → has_resource_group_finalizer rg.finalizers ≡ true
      → Deleted rg r
          (unless_error world (set_unmanaged world rg) (cleanup_resource_group world rg r))
  unfolding cleanup_resource_group shutdown_resource_group_micro_controller
      cleanup_resource_group_crd
  cleaned-Deleted rg r has =
      let stopped = get_resource_group_instance_gvr world.pluralize rg.api_version rg.kind in
      let shut = shutdown_resource_group_micro_controller world stopped r in
      let deletion = delete_crd (extract_crd_name world.pluralize rg.kind) in
      elim (Bool-cases r.allow_crd_deletion) [
        | inl allowed ↦
            subst (λ p. Deleted rg r (unless_error world (set_unmanaged world rg) p))
              (sym (if-true _ _ allowed))
              (answered-Deleted rg r (record shut { calls = r.calls ++ deletion ∷ [] })
                (world.answer r.calls deletion) has allowed refl
                (ap (λ l. r.calls ++ l) (sym (if-true _ _ allowed))))
        | inr kept ↦
            subst (λ p. Deleted rg r (unless_error world (set_unmanaged world rg) p))
              (sym (if-false _ _ kept))
              (unmanage-Deleted rg r shut has
                (sym (append-nil r.calls) ∙ ap (λ l. r.calls ++ l) (sym (if-false _ _ kept)))
                (λ allowed. ground (arith, allowed, kept)))
      ]

  -- The reconciliation of a group that is deleted and has kro's finalizer deletes the custom resource
  -- definition, if the deletion is allowed. If that fails it stops there with the error, and the
  -- finalizer stays. Only when there
  -- is no error, or the deletion is not allowed, it takes kro's finalizer away, keeps the others, and
  -- makes no other call.
  pub reconcile-Deleted :
      (rg : ResourceGroup) (r : ResourceGroupReconciler Q)
      → rg.is_being_deleted ≡ true
      → has_resource_group_finalizer rg.finalizers ≡ true
      → Deleted rg r (reconcile world rg r)
  reconcile-Deleted rg r deleted has =
      subst (Deleted rg r) (sym (reconcile_deleted rg r deleted)) (cleaned-Deleted rg r has)
