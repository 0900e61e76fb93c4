-- ===== src/Dag/Examples.antt =====
-- Small graphs, what the operations do on them, and the theorems at them.
use kubernetes_resource_orch.Common.{
  ◌≡◌, refl, true, List, [], ◌∷◌, none, some, Text, codes, text_eq, mem, remove, sort_strings,
  text_le, lookup, insert, done, Returns,
}
use kubernetes_resource_orch.Dag.{
  Vertex, DirectedAcyclicGraph, already_exists, cycle_error, add_vertex, add_edge, has_cycle,
  get_vertices, ordered, topological_sort, scan, dfs, search_from, trim_cycle, visit_each, visit,
}
use kubernetes_resource_orch.Dag.Graph.{IsWellFormed, Acyclic}
use kubernetes_resource_orch.Dag.Cycles.{Answers, has_cycle-Answers}
use kubernetes_resource_orch.Dag.Edges.{EdgeAdded, add_edge-EdgeAdded}
use kubernetes_resource_orch.Dag.Refusals.{Explains, add_edge-Explains}
use kubernetes_resource_orch.Dag.Topological.{IsTopological}
use kubernetes_resource_orch.Dag.Built.{
  Built, start, next, added_vertex, added_edge, Built-IsWellFormed-Acyclic, topological_sort-Built,
}

program : Unit {0}
unfolding add_vertex add_edge has_cycle search_from scan dfs trim_cycle topological_sort
    get_vertices visit_each visit mem remove sort_strings lookup insert text_eq text_le
program = tt

abbrev vpc : Text
vpc = codes "vpc"

abbrev subnet : Text
subnet = codes "subnet"

abbrev cluster : Text
cluster = codes "cluster"

abbrev vertex : Text → List Text → Vertex
vertex id edges = record { id = id; edges = edges }

abbrev two_vertices : DirectedAcyclicGraph
two_vertices = record { vertices = (cluster, vertex cluster []) ∷ (vpc, vertex vpc []) ∷ [] }

abbrev network : DirectedAcyclicGraph
network = record {
  vertices =
      (cluster, vertex cluster (subnet ∷ []))
      ∷ (vpc, vertex vpc [])
      ∷ (subnet, vertex subnet (vpc ∷ []))
      ∷ [];
}

abbrev looped : DirectedAcyclicGraph
looped = record {
  vertices = (vpc, vertex vpc (subnet ∷ [])) ∷ (subnet, vertex subnet (vpc ∷ [])) ∷ [];
}

network-Built : Built network
unfolding program
network-Built =
    next
      (next
        (next (next (next start (added_vertex cluster refl)) (added_vertex vpc refl))
          (added_vertex subnet refl))
        (added_edge cluster subnet none refl))
      (added_edge subnet vpc none refl)

network-IsWellFormed : IsWellFormed network
network-IsWellFormed = (Built-IsWellFormed-Acyclic network network-Built).0

network-Acyclic : Acyclic network
network-Acyclic = (Built-IsWellFormed-Acyclic network network-Built).1

topological_sort-network : topological_sort network ≡ done (ordered (vpc ∷ subnet ∷ cluster ∷ []))
unfolding program
topological_sort-network = refl

add_edge-loop :
    add_edge vpc cluster network
    ≡ done (network, some (cycle_error vpc cluster (cluster ∷ subnet ∷ vpc ∷ cluster ∷ [])))
unfolding program
add_edge-loop = refl

add_vertex-again : (add_vertex vpc network).1 ≡ some (already_exists vpc)
unfolding program
add_vertex-again = refl

has_cycle-looped : has_cycle looped ≡ done (true, vpc ∷ subnet ∷ vpc ∷ [])
unfolding program
has_cycle-looped = refl

has_cycle-Answers_example : Returns (Answers network) (has_cycle network)
has_cycle-Answers_example = has_cycle-Answers network network-IsWellFormed

add_edge-EdgeAdded_example : Returns (EdgeAdded network vpc cluster) (add_edge vpc cluster network)
add_edge-EdgeAdded_example =
    add_edge-EdgeAdded network vpc cluster network-IsWellFormed network-Acyclic

add_edge-Explains_example :
    Returns (λ r. Explains network vpc cluster r.1) (add_edge vpc cluster network)
add_edge-Explains_example =
    add_edge-Explains network vpc cluster network-IsWellFormed network-Acyclic

topological_sort-Built_example :
    (order : List Text) × (topological_sort network ≡ done (ordered order))
    × IsTopological network order
topological_sort-Built_example = topological_sort-Built network network-Built

Built-IsWellFormed-Acyclic_example : IsWellFormed network × Acyclic network
Built-IsWellFormed-Acyclic_example = Built-IsWellFormed-Acyclic network network-Built
