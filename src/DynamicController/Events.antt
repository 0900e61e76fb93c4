-- ===== src/DynamicController/Events.antt =====
-- pkg/dynamiccontroller: what the controller says of its informers.
use kubernetes_resource_orch.Common.{
  ◌≡◌, ◌↔◌, refl, Bool, true, false, [], ◌∷◌, Option, arith, Option-cases, inl, inr,
}
use kubernetes_resource_orch.DynamicController.{
  InformerWrapper, DynamicController, none_or, range_informers, all_informer_have_synced,
}
use kubernetes_resource_orch.DynamicController.Kinds.{Registry}

range_informers-false :
    (cast : InformerWrapper → Option Bool) (l : Registry InformerWrapper)
    → range_informers cast false l ≡ false
unfolding range_informers
range_informers-false cast [] = refl
range_informers-false cast ((g, i) ∷ more) = elim (Option-cases (cast i)) [
  | inl missing ↦ rw (missing, range_informers) refl
  | inr (synced, e) ↦ rw (e, range_informers) (ground (arith, range_informers-false cast more))
]

-- `AllInformerHaveSynced` says yes exactly when there is no informer, whatever type the informers
-- have and whether they have synced or not.
pub all_informer_have_synced_lem :
    {H Q : Type 0} (cast : InformerWrapper → Option Bool) (dc : DynamicController H Q)
    → (all_informer_have_synced cast dc ≡ true) ↔ (dc.informers ≡ [])
unfolding all_informer_have_synced
all_informer_have_synced_lem cast dc = by_informers dc.informers
  where
    by_informers :
        (l : Registry InformerWrapper)
        → (none_or l (range_informers cast false l) ≡ true) ↔ (l ≡ [])
    by_informers [] = ((λ _. refl), (λ _. refl))
    by_informers (i ∷ more) = ground (arith, range_informers-false cast (i ∷ more))
