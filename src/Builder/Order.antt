-- ===== src/Builder/Order.antt =====
-- The dependency graph of a group as a whole, and the topological order of it, the last steps of
-- `NewResourceGroup` (internal/graph/builder.go).
use kubernetes_resource_orch.Common.{
  ◌≡◌, refl, ◌∙◌, sym, subst, List, [], ◌∷◌, Option, none, some, arith, Text, mem, mem-append,
  Subset, Nodup, Map, lookup, keys, has_key, mem-keys, done, ◌>>=◌, Returns, Returns-mono, err,
}
use kubernetes_resource_orch.Dag.{DirectedAcyclicGraph, successors, new_directed_acyclic_graph}
use kubernetes_resource_orch.Dag.Topological.{IsOrdered}
use kubernetes_resource_orch.Dag.Built.{start, topological_sort-Built}
use kubernetes_resource_orch.Runtime.{Resource}
use kubernetes_resource_orch.Builder.{
  Inspector, environment_failed, Building, unless_error, schema, wire_resources, add_vertices,
  names_of, build_dependency_graph, DependencyGraph, sorted_graph, order_resources,
}
use kubernetes_resource_orch.Builder.Reasons.{
  Scope, reads_of_resource, OkOrRefusal, OkOrRefusal-mono,
}
use kubernetes_resource_orch.Builder.Growth.{IsSound, >>=-OkOrRefusal}
use kubernetes_resource_orch.Builder.Scoped.{scope_of, scope_of-AllOccurring}
use kubernetes_resource_orch.Builder.Extension.{
  Enlarged, add_vertices-Enlarged, AllRewritten, Extended, wire_resources-Extended,
}

-- The dependency graph of a group: each resource is a vertex, its edges lead to what it reads.
pub record Describes (c : Scope) (resources : Map Resource)
    (built : DirectedAcyclicGraph × Map Resource) : Type 0 where
  pub sound : IsSound c built.0
  pub vertices : (k : Text) → has_key k built.0.vertices ≡ has_key k resources
  pub edges :
      (u x : Text)
      → mem x (successors built.0 u) ≡ mem x (reads_of_resource c.inspector c.names resources u)
  pub rewritten : AllRewritten c resources built.1

Enlarged-IsSound :
    (c : Scope) (ids : List Text) (d : DirectedAcyclicGraph)
    → Enlarged new_directed_acyclic_graph ids d
    → IsSound c d
unfolding mem lookup
Enlarged-IsSound c ids d g = (g.built, λ u x e. absurd (ground (arith, g.edges u x, e)))

-- For resources with distinct ids `buildDependencyGraph` comes back, with no panic. With no error the
-- vertices are the resources, the edges of each lead to what its expressions read, other resources
-- only, and each resource and variable depends on what it read, a static variable that reads any
-- is dynamic, and all else is as it was. An error is one that the environment, an expression of a
-- resource, a resource that reads itself or a cycle of reads gives reason for.
pub build_dependency_graph-Describes :
    (inspector : Inspector) (resources : Map Resource)
    → Nodup (keys resources)
    → Returns
        (OkOrRefusal
          (scope_of inspector resources)
          (Describes (scope_of inspector resources) resources))
        (build_dependency_graph inspector resources)
unfolding build_dependency_graph mem lookup
build_dependency_graph-Describes inspector resources once =
    go (inspector.environment_error (names_of resources)) refl
  where
    c : Scope
    c = scope_of inspector resources

    wire : DirectedAcyclicGraph → Building (DirectedAcyclicGraph × Map Resource)
    wire = wire_resources inspector (names_of resources) resources

    wired :
        (d : DirectedAcyclicGraph)
        → Enlarged new_directed_acyclic_graph (keys resources) d
        → Returns (OkOrRefusal c (Describes c resources)) (wire d)
    wired d g =
        Returns-mono (OkOrRefusal c (Extended c d resources)) _ (wire d)
          (λ r. OkOrRefusal-mono c _ (Describes c resources) r (λ t e. record {
            sound = e.sound;
            vertices = λ k. ground (arith, e.same k, g.vertices k, mem-keys k resources);
            edges = λ u x. ground (arith, e.edges u x, g.edges u x);
            rewritten = e.resources;
          }))
          (wire_resources-Extended c resources d (Enlarged-IsSound c (keys resources) d g) once
            (λ k m. ground (arith, g.vertices k, m))
            (λ x m k.
              ground (arith, g.vertices x, mem-append x (keys resources) (schema ∷ []), m, k))
            (scope_of-AllOccurring inspector resources once))

    go :
        (o : Option Text)
        → inspector.environment_error (names_of resources) ≡ o
        → Returns (OkOrRefusal c (Describes c resources)) (elim o [
          | some m ↦ done (err (environment_failed m))
          | none ↦ unless_error wire (add_vertices (keys resources) new_directed_acyclic_graph)
        ])
    go (some m) e = e
    go none e =
        >>=-OkOrRefusal c (Enlarged new_directed_acyclic_graph (keys resources)) _
          (done (add_vertices (keys resources) new_directed_acyclic_graph)) wire
          (add_vertices-Enlarged c (keys resources) new_directed_acyclic_graph start once
            (λ x m. refl))
          wired

-- Each resource of the list reads only those in front of it.
abbrev pub ReadsBefore : Scope → Map Resource → List Text → List Text → Type 0
ReadsBefore c resources before [] = Unit
ReadsBefore c resources before (u ∷ us) =
    Subset (reads_of_resource c.inspector c.names resources u) before
    × ReadsBefore c resources (u ∷ before) us

IsOrdered-ReadsBefore :
    (c : Scope) (resources : Map Resource) (built : DirectedAcyclicGraph × Map Resource)
    (before us : List Text)
    → Describes c resources built
    → IsOrdered built.0 before us
    → ReadsBefore c resources before us
IsOrdered-ReadsBefore c resources built before [] g h = tt
IsOrdered-ReadsBefore c resources built before (u ∷ us) g h =
    (λ x m. h.0 x (g.edges u x ∙ m), IsOrdered-ReadsBefore c resources built (u ∷ before) us g h.1)

-- A graph with the order of its resources.
pub record Ordered (c : Scope) (resources : Map Resource) (g : DependencyGraph) : Type 0 where
  pub described : Describes c resources (g.dag, g.resources)
  pub once : Nodup g.topological_order
  pub all : (u : Text) → mem u g.topological_order ≡ has_key u resources
  pub reads_before : ReadsBefore c resources [] g.topological_order

-- The order of a group: with no error it lists each resource once, behind all that its expressions
-- read, and the graph is the one that the expressions describe. The errors are those of
-- `buildDependencyGraph`: the sort finds no cycle, and it does not panic.
pub order_resources-Ordered :
    (inspector : Inspector) (resources : Map Resource)
    → Nodup (keys resources)
    → Returns
        (OkOrRefusal
          (scope_of inspector resources)
          (Ordered (scope_of inspector resources) resources))
        (order_resources inspector resources)
unfolding order_resources sorted_graph
order_resources-Ordered inspector resources once =
    >>=-OkOrRefusal (scope_of inspector resources)
      (Describes (scope_of inspector resources) resources) _
      (build_dependency_graph inspector resources) _
      (build_dependency_graph-Describes inspector resources once)
      (λ built g.
        let (order, e, t) = topological_sort-Built built.0 g.sound.0 in
        subst
          (λ m.
            Returns
              (OkOrRefusal (scope_of inspector resources)
                (Ordered (scope_of inspector resources) resources))
              (m >>= sorted_graph built.0 built.1))
          (sym e)
          (record {
            described = g;
            once = t.once;
            all = λ u. t.all u ∙ g.vertices u;
            reads_before =
                IsOrdered-ReadsBefore (scope_of inspector resources) resources built [] order g
                  t.children_first;
          }))
