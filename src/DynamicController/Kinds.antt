-- ===== src/DynamicController/Kinds.antt =====
-- `sync.Map` with kinds as keys, as an association list.
use kubernetes_resource_orch.Common.{
  ◌≡◌, ◌↔◌, refl, Bool, true, ◌&&◌, List, [], ◌∷◌, Option, none, some, if◌then◌else◌, arith,
  text_eq, text_eq_iff,
}
use kubernetes_resource_orch.Metadata.GroupVersion.{GroupVersionResource}

unfoldable pub gvr_eq : GroupVersionResource → GroupVersionResource → Bool
gvr_eq g h = text_eq g.group h.group && text_eq g.version h.version && text_eq g.resource h.resource

pub gvr_eq_iff : (g h : GroupVersionResource) → (gvr_eq g h ≡ true) ↔ (g ≡ h)
unfolding gvr_eq
gvr_eq_iff g h = ground (
  arith,
  text_eq_iff g.group h.group,
  text_eq_iff g.version h.version,
  text_eq_iff g.resource h.resource,
)

abbrev pub Registry : Type 0 → Type 0
Registry V = List (GroupVersionResource × V)

module _ {V : Type 0} where
  unfoldable pub load : GroupVersionResource → Registry V → Option V
  load g [] = none
  load g ((h, v) ∷ m) = if gvr_eq g h then some v else load g m

  unfoldable pub store : GroupVersionResource → V → Registry V → Registry V
  store g v [] = (g, v) ∷ []
  store g v ((h, w) ∷ m) = if gvr_eq g h then (g, v) ∷ m else (h, w) ∷ store g v m

  unfoldable pub delete : GroupVersionResource → Registry V → Registry V
  delete g [] = []
  delete g ((h, w) ∷ m) = let rest = delete g m in if gvr_eq g h then rest else (h, w) ∷ rest

  pub load-store :
      (g h : GroupVersionResource) (v : V) (m : Registry V)
      → load h (store g v m) ≡ (if gvr_eq h g then some v else load h m)
  unfolding load store
  load-store g h v [] = refl
  load-store g h v ((i, w) ∷ m) =
      ground (arith, gvr_eq_iff h g, gvr_eq_iff g i, gvr_eq_iff h i, load-store g h v m)

  pub load-delete :
      (g h : GroupVersionResource) (m : Registry V)
      → load h (delete g m) ≡ (if gvr_eq h g then none else load h m)
  unfolding load delete
  load-delete g h [] = ground arith
  load-delete g h ((i, w) ∷ m) =
      ground (arith, gvr_eq_iff h g, gvr_eq_iff g i, gvr_eq_iff h i, load-delete g h m)
