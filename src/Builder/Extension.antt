-- ===== src/Builder/Extension.antt =====
-- The loops of `buildDependencyGraph` (internal/graph/builder.go) over the resources of a group.
use kubernetes_resource_orch.Common.{
  ◌≡◌, refl, ◌∙◌, sym, subst, Bool, true, false, ◌&&◌, ◌||◌, List, [], ◌∷◌, Option, none, some,
  if◌then◌else◌, arith, Text, text_eq, text_eq_iff, text_eq_refl, mem, Nodup, Map, lookup, keys,
  has_key, mem-keys, Returns, err,
}
use kubernetes_resource_orch.Dag.{DirectedAcyclicGraph, successors, add_vertex}
use kubernetes_resource_orch.Dag.Edges.{SameKeys}
use kubernetes_resource_orch.Dag.Built.{
  Built, next, added_vertex, add_vertex-lookup, add_vertex-successors,
}
use kubernetes_resource_orch.Runtime.{Resource}
use kubernetes_resource_orch.Builder.{vertex_failed, wire_variables, wire_resources, add_vertices}
use kubernetes_resource_orch.Builder.Reasons.{
  Scope, reads_of_variables, reads_of_resource, OkOrRefusal, OkOrRefusal-mono,
}
use kubernetes_resource_orch.Builder.Growth.{IsSound, >>=-OkOrRefusal}
use kubernetes_resource_orch.Builder.Scoped.{AllOccurring}
use kubernetes_resource_orch.Builder.Wiring.{
  AreVertices, AllMarked, Completed, wire_variables-Completed,
}

-- `d'` has the vertices of `d` and the new ids, and no other edges.
pub record Enlarged (d : DirectedAcyclicGraph) (ids : List Text) (d' : DirectedAcyclicGraph)
    : Type 0 where
  pub built : Built d'
  pub vertices : (k : Text) → has_key k d'.vertices ≡ (has_key k d.vertices || mem k ids)
  pub edges : (u x : Text) → mem x (successors d' u) ≡ mem x (successors d u)

pub add_vertices-Enlarged :
    (c : Scope) (ids : List Text) (d : DirectedAcyclicGraph)
    → Built d
    → Nodup ids
    → ((x : Text) → mem x ids ≡ true → has_key x d.vertices ≡ false)
    → OkOrRefusal c (Enlarged d ids) (add_vertices ids d)
unfolding add_vertices mem
add_vertices-Enlarged c [] d b once new = record {
  built = b;
  vertices = λ k. ground arith;
  edges = λ u x. refl;
}
add_vertices-Enlarged c (id ∷ ids) d b once new =
    let d' = (add_vertex id d).0 in
    let absent : has_key id d.vertices ≡ false = new id (ground (arith, text_eq_refl id)) in
    let entry : (k : Text) → has_key k d'.vertices ≡ (has_key k d.vertices || text_eq k id) =
      λ k. ground (arith, add_vertex-lookup id k d, text_eq_iff k id, absent) in
    let added : (add_vertex id d).1 ≡ none =
      ground (arith, (add_vertex-lookup id id d).1, absent) in
    subst
      (λ e.
        OkOrRefusal c (Enlarged d (id ∷ ids))
          (elim e [ none ↦ add_vertices ids d' | some e' ↦ err (vertex_failed e') ]))
      (sym added)
      (OkOrRefusal-mono c (Enlarged d' ids) _ (add_vertices ids d')
        (λ t g. record {
          built = g.built;
          vertices = λ k. ground (arith, g.vertices k, entry k);
          edges = λ u x. ground (arith, g.edges u x, add_vertex-successors id d u);
        })
        (add_vertices-Enlarged c ids d' (next b (added_vertex id refl)) once.1
          (λ x m. ground (arith, entry x, new x, text_eq_iff x id, once.0, m))))

module _ (c : Scope) where
  -- A resource after the construction: only its variables and its dependencies are other.
  pub record Rewritten (r r' : Resource) : Type 0 where
    pub variables : AllMarked c r.variables r'.variables
    pub dependencies :
        (x : Text)
        → mem x r'.dependencies
          ≡ (mem x r.dependencies || mem x (reads_of_variables c.inspector c.names r.variables))
    pub others : r' ≡ record r { variables = r'.variables; dependencies = r'.dependencies }

  abbrev pub AllRewritten : Map Resource → Map Resource → Type 0
  AllRewritten [] [] = Unit
  AllRewritten ((n, r) ∷ rs) ((m, s) ∷ ss) = (m ≡ n) × Rewritten r s × AllRewritten rs ss
  AllRewritten _ _ = ⊥

  pub record Extended (d : DirectedAcyclicGraph) (rs : Map Resource)
      (t : DirectedAcyclicGraph × Map Resource) : Type 0 where
    pub sound : IsSound c t.0
    pub same : SameKeys d t.0
    pub edges :
        (u x : Text)
        → mem x (successors t.0 u)
          ≡ (mem x (successors d u) || mem x (reads_of_resource c.inspector c.names rs u))
    pub resources : AllRewritten rs t.1

  reads_of_resource-cons :
      (name : Text) (r : Resource) (rs : Map Resource) (u x : Text)
      → mem name (keys rs) ≡ false
      → mem x (reads_of_resource c.inspector c.names ((name, r) ∷ rs) u) ≡ (
          (text_eq u name && mem x (reads_of_variables c.inspector c.names r.variables))
          || mem x (reads_of_resource c.inspector c.names rs u))
  unfolding lookup mem
  reads_of_resource-cons name r rs u x absent = go (text_eq u name) (lookup u rs) (λ same. ground (
    arith,
    mem-keys u rs,
    subst (λ k. mem k (keys rs) ≡ false) (sym ((text_eq_iff u name).0 same)) absent,
  ))
    where
      listed : Option Resource → List Text
      listed o = elim o [ none ↦ [] | some s ↦ reads_of_variables c.inspector c.names s.variables ]

      go :
          (b : Bool) (o : Option Resource)
          → (b ≡ true → o ≡ none)
          → mem x (listed (if b then some r else o)) ≡ (
              (b && mem x (reads_of_variables c.inspector c.names r.variables)) || mem x (listed o))
      go false o h = refl
      go true none h = ground arith
      go true (some s) h = cc (h refl)

  pub wire_resources-Extended :
      (rs : Map Resource) (d : DirectedAcyclicGraph)
      → IsSound c d
      → Nodup (keys rs)
      → ((k : Text) → mem k (keys rs) ≡ true → has_key k d.vertices ≡ true)
      → AreVertices c.names d
      → AllOccurring c rs
      → Returns (OkOrRefusal c (Extended d rs)) (wire_resources c.inspector c.names rs d)
  unfolding wire_resources mem lookup
  wire_resources-Extended [] d b once known vertices all = record {
    sound = b;
    same = λ k. refl;
    edges = λ u x. ground arith;
    resources = tt;
  }
  wire_resources-Extended ((name, r) ∷ rs) d b once known vertices all =
      >>=-OkOrRefusal c (Completed c name r.variables d r.dependencies) _
        (wire_variables c.inspector c.names name r.variables d r.dependencies) _
        (wire_variables-Completed c name r.variables d r.dependencies all.0 (record {
          sound = b;
          vertex = known name (ground (arith, text_eq_refl name));
          vertices = vertices;
        }))
        (λ s z.
          >>=-OkOrRefusal c (Extended s.0 rs) _ (wire_resources c.inspector c.names rs s.0) _
            (wire_resources-Extended rs s.0 z.graph.sound once.1
              (λ k m. z.graph.same k ∙ known k (ground (arith, m)))
              (λ x m k. z.graph.same x ∙ vertices x m k) all.1)
            (λ t e. record {
              sound = e.sound;
              same = λ k. e.same k ∙ z.graph.same k;
              edges = λ u x. ground (
                arith,
                reads_of_resource-cons name r rs u x once.0,
                z.graph.edges u x,
                e.edges u x,
              );
              resources = (
                refl,
                record { variables = z.variables; dependencies = z.dependencies; others = refl },
                e.resources,
              );
            }))
