-- ===== src/Dag/Built.antt =====
-- The graphs that the exported operations can build, as a step relation.
use kubernetes_resource_orch.Common.{
  ◌≡◌, refl, subst, ◌∙◌, true, List, [], Option, none, some, arith, Text, text_eq, text_eq_iff, mem,
  Nodup, IsSorted, mem-sort_strings, sort_strings-IsSorted, sort_strings-Nodup, lookup,
  lookup-insert, keys, has_key, mem-keys, keys-insert-Nodup, Run, done, Returns, if◌then◌else◌,
}
use kubernetes_resource_orch.Dag.{
  DirectedAcyclicGraph, DagError, already_exists, successors, new_directed_acyclic_graph,
  add_vertex, add_edge, get_vertices, Sorted, ordered, cyclic, topological_sort,
}
use kubernetes_resource_orch.Dag.Graph.{one, step, IsWellFormed, Acyclic}
use kubernetes_resource_orch.Dag.Edges.{Acyclic-anti, EdgeAdded, add_edge-EdgeAdded}
use kubernetes_resource_orch.Dag.Topological.{IsTopological, Sorts, topological_sort-Sorts}

new-IsWellFormed : IsWellFormed new_directed_acyclic_graph
unfolding lookup mem
new-IsWellFormed = record { edge_known = λ u v e. cc; id_is_key = λ k v e. cc; keys_nodup = tt }

new-Acyclic : Acyclic new_directed_acyclic_graph
unfolding lookup mem
new-Acyclic v (one e) = cc
new-Acyclic v (step e w) = cc

-- `AddVertex` changes no edge, and adds the vertex unless it is there: the error says so.
pub add_vertex-lookup :
    (id k : Text) (d : DirectedAcyclicGraph)
    → (lookup k (add_vertex id d).0.vertices ≡ (
        if has_key id d.vertices
        then lookup k d.vertices
        else if text_eq k id
        then some (record { id = id; edges = [] })
        else lookup k d.vertices))
      × ((add_vertex id d).1 ≡ (if has_key id d.vertices then some (already_exists id) else none))
unfolding add_vertex
add_vertex-lookup id k d =
    ground (arith, lookup-insert id k (record { id = id; edges = [] }) d.vertices)

pub add_vertex-successors :
    (id : Text) (d : DirectedAcyclicGraph) (u : Text)
    → successors (add_vertex id d).0 u ≡ successors d u
unfolding add_vertex
add_vertex-successors id d u =
    ground (arith, lookup-insert id u (record { id = id; edges = [] }) d.vertices, text_eq_iff u id)

add_vertex-IsWellFormed :
    (id : Text) (d : DirectedAcyclicGraph) → IsWellFormed d → IsWellFormed (add_vertex id d).0
unfolding add_vertex mem
add_vertex-IsWellFormed id d w = record {
  edge_known = λ u v e.
      ground (arith, add_vertex-successors id d u, add_vertex-lookup id v d, w.edge_known u v, e);
  id_is_key =
      λ k v e. ground (arith, add_vertex-lookup id k d, w.id_is_key k v, text_eq_iff k id, e);
  keys_nodup = ground (
    arith,
    keys-insert-Nodup id (record { id = id; edges = [] }) d.vertices w.keys_nodup,
    w.keys_nodup,
  );
}

-- One call of an exported operation, with the graph that it leaves behind.
pub data Step (d d' : DirectedAcyclicGraph) : Type 0 where
  added_vertex : (id : Text) → (add_vertex id d).0 ≡ d' → Step d d'
  added_edge :
      (from to : Text) (e : Option DagError) → add_edge from to d ≡ done (d', e) → Step d d'

-- A graph that a sequence of calls makes of the empty one.
pub data Built : DirectedAcyclicGraph → Type 0 where
  start : Built new_directed_acyclic_graph
  next : {d d' : DirectedAcyclicGraph} → Built d → Step d d' → Built d'

-- Whatever calls built it, with or without errors, a graph is well formed and acyclic.
pub Built-IsWellFormed-Acyclic : (d : DirectedAcyclicGraph) → Built d → IsWellFormed d × Acyclic d
Built-IsWellFormed-Acyclic d start = (new-IsWellFormed, new-Acyclic)
Built-IsWellFormed-Acyclic d' (next {d} b (added_vertex id e)) =
    let (w, a) = Built-IsWellFormed-Acyclic d b in
    subst (λ g. IsWellFormed g × Acyclic g) e
      (
        add_vertex-IsWellFormed id d w,
        Acyclic-anti (add_vertex id d).0 d
            (λ u v h. subst (λ l. mem v l ≡ true) (add_vertex-successors id d u) h) a,
      )
Built-IsWellFormed-Acyclic d' (next {d} b (added_edge from to err e)) =
    let (w, a) = Built-IsWellFormed-Acyclic d b in
    let kept = subst (Returns (EdgeAdded d from to)) e (add_edge-EdgeAdded d from to w a) in
    (kept.0, kept.1)

Sorts-Acyclic :
    (d : DirectedAcyclicGraph) (m : Run Sorted)
    → Acyclic d
    → Returns (Sorts d) m
    → (order : List Text) × (m ≡ done (ordered order)) × IsTopological d order
Sorts-Acyclic d (done (ordered order)) a h = (order, refl, h)
Sorts-Acyclic d (done cyclic) a (v, w) = absurd (a v w)
Sorts-Acyclic d Run.panic a h = absurd h
Sorts-Acyclic d Run.out_of_fuel a h = absurd h

-- `TopologicalSort` never fails on a graph that the operations built: it returns an order with each
-- vertex of the graph exactly once, behind all the vertices that its edges lead to.
pub topological_sort-Built :
    (d : DirectedAcyclicGraph)
    → Built d
    → (order : List Text) × (topological_sort d ≡ done (ordered order)) × IsTopological d order
topological_sort-Built d b =
    let (w, a) = Built-IsWellFormed-Acyclic d b in
    Sorts-Acyclic d (topological_sort d) a (topological_sort-Sorts d w)

-- `GetVertices` lists the ids of the vertices, each once, in ascending order of the bytes.
pub get_vertices_lem :
    (d : DirectedAcyclicGraph)
    → IsWellFormed d
    → IsSorted (get_vertices d)
      × Nodup (get_vertices d)
      × ((x : Text) → mem x (get_vertices d) ≡ has_key x d.vertices)
unfolding get_vertices
get_vertices_lem d w = (
  sort_strings-IsSorted (keys d.vertices),
  sort_strings-Nodup (keys d.vertices) w.keys_nodup,
  λ x. mem-sort_strings x (keys d.vertices) ∙ mem-keys x d.vertices,
)
