-- ===== src/ResourceGroups/Serving.antt =====
-- internal/controller/resourcegroup with pkg/dynamiccontroller: the kinds that groups have served.
use kubernetes_resource_orch.Common.{
  ◌≡◌, refl, false, [], ◌∷◌, ◌++◌, Option, none, some, arith, Text, Map, Result, ok, err,
}
use kubernetes_resource_orch.Metadata.GroupVersion.{GroupVersionResource}
use kubernetes_resource_orch.DynamicController.{
  DynamicController, ServeError, Watch, start_serving_gvk,
}
use kubernetes_resource_orch.DynamicController.Kinds.{gvr_eq, gvr_eq_iff, load-store}
use kubernetes_resource_orch.DynamicController.Served.{served}
use kubernetes_resource_orch.ResourceGroups.{
  ResourceGroup, Graph, MicroController, World, ResourceGroupReconciler, ensure_crd,
  micro_controller, setup_labeler, reconcile_resource_group, after_graph, after_crd, with_labeler,
  served_result,
}

module _ {H Q : Type 0} where
  -- A start that gives no error makes the kind be served by the handler.
  started-served :
      (watch : Watch) (gvr : GroupVersionResource) (h : H) (dc : DynamicController H Q)
      → (start_serving_gvk watch gvr h dc).0 ≡ none
      → served (start_serving_gvk watch gvr h dc).1 gvr ≡ some h
  unfolding start_serving_gvk served
  started-served watch gvr h dc e = ground (
    arith,
    e,
    gvr_eq_iff gvr gvr,
    load-store gvr gvr h dc.handlers,
    load-store gvr gvr (record { factory = gvr }) dc.informers,
  )

  -- No start changes what is served of another kind.
  started-other :
      (watch : Watch) (gvr g : GroupVersionResource) (h : H) (dc : DynamicController H Q)
      → gvr_eq g gvr ≡ false
      → served (start_serving_gvk watch gvr h dc).1 g ≡ served dc g
  unfolding start_serving_gvk served
  started-other watch gvr g h dc other = ground (
    arith,
    other,
    load-store gvr g h dc.handlers,
    load-store gvr g (record { factory = gvr }) dc.informers,
  )

module _ {Q : Type 0} (world : World) where
  -- The kind of the group is served by the controller that was made for it, and what is served of
  -- other kinds is as it was.
  pub record Serves (rg : ResourceGroup) (before after : ResourceGroupReconciler Q) (graph : Graph)
      : Type 0 where
    pub labels : Map Text
    pub merged : setup_labeler world rg before ≡ ok labels
    pub serves : served after.dynamic_controller graph.gvr ≡ some (micro_controller rg graph labels)
    pub others :
        (g : GroupVersionResource)
        → gvr_eq g graph.gvr ≡ false
        → served after.dynamic_controller g ≡ served before.dynamic_controller g

  labelled-Serves :
      (rg : ResourceGroup) (graph : Graph) (r : ResourceGroupReconciler Q)
      (labels : Result Text (Map Text))
      → setup_labeler world rg r ≡ labels
      → (with_labeler world rg graph r labels).0.error ≡ none
      → Serves rg r (with_labeler world rg graph r labels).1 graph
  labelled-Serves rg graph r (err e) m h = cc
  labelled-Serves rg graph r (ok labels) m h =
      let controller = micro_controller rg graph labels in
      record {
        labels = labels;
        merged = m;
        serves =
            started-served world.watch graph.gvr controller r.dynamic_controller (
              no_error (start_serving_gvk world.watch graph.gvr controller r.dynamic_controller) h);
        others =
            λ g other. started-other world.watch graph.gvr g controller r.dynamic_controller other;
      }
    where
      no_error :
          (p : Option ServeError × DynamicController MicroController Q)
          → (served_result world graph r p).0.error ≡ none
          → p.0 ≡ none
      no_error (none, dc) h = refl
      no_error (some e, dc) h = cc

  crd-Serves :
      (rg : ResourceGroup) (graph : Graph) (r : ResourceGroupReconciler Q) (answer : Option Text)
      → (after_crd world rg graph (answer, r)).0.error ≡ none
      → Serves rg r (after_crd world rg graph (answer, r)).1 graph
  crd-Serves rg graph r (some e) h = cc
  crd-Serves rg graph r none h = labelled-Serves rg graph r (setup_labeler world rg r) refl h

  graph-Serves :
      (rg : ResourceGroup) (r : ResourceGroupReconciler Q) (built : Result Text Graph)
      → (after_graph world rg r built).0.error ≡ none
      → (graph : Graph) × (built ≡ ok graph) × Serves rg r (after_graph world rg r built).1 graph
  graph-Serves rg r (err e) h = cc
  graph-Serves rg r (ok graph) h =
      let after =
        crd-Serves rg graph (record r { calls = r.calls ++ ensure_crd graph.crd ∷ [] })
          (world.answer r.calls (ensure_crd graph.crd)) h in
      (
        graph,
        refl,
        record {
          labels = after.labels;
          merged = unfold setup_labeler in after.merged;
          serves = after.serves;
          others = after.others;
        },
      )

  -- When a reconciliation of a group gives no error, the builder has made a graph of the group, the
  -- dynamic controller serves the kind of that graph with a controller of the graph, the accounts and
  -- the labels of the group, and what it serves of any other kind is as it was.
  pub reconcile_resource_group-Serves :
      (rg : ResourceGroup) (r : ResourceGroupReconciler Q)
      → (reconcile_resource_group world rg r).0.error ≡ none
      → (graph : Graph) × (world.new_resource_group rg ≡ ok graph)
        × Serves rg r (reconcile_resource_group world rg r).1 graph
  unfolding reconcile_resource_group
  reconcile_resource_group-Serves rg r h = graph-Serves rg r (world.new_resource_group rg) h
