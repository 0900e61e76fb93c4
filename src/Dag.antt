-- ===== src/Dag.antt =====
-- internal/graph/dag/dag.go: the dependency graph of a resource group. A map's keys are a list in
-- the order in which its `range` loops visit them, which Go leaves open.
pub mod Graph
pub mod DepthFirst
pub mod Cycles
pub mod Edges
pub mod Refusals
pub mod Topological
pub mod Built
mod Examples
use kubernetes_resource_orch.Common.{
  ℕ, zero, suc, Bool, true, false, not, ◌&&◌, ◌||◌, List, [], ◌∷◌, ◌++◌, Option, none, some,
  if◌then◌else◌, length, drop_last, Text, text_eq, mem, remove, sort_strings, Map, lookup, insert,
  keys, has_key, Run, done, panic, out_of_fuel, ◌>>=◌,
}

pub record Vertex : Type 0 where
  pub id : Text
  pub edges : List Text

pub record DirectedAcyclicGraph : Type 0 where
  pub vertices : Map Vertex

abbrev pub new_directed_acyclic_graph : DirectedAcyclicGraph
new_directed_acyclic_graph = record { vertices = [] }

pub data DagError : Type 0 where
  already_exists : Text → DagError
  does_not_exist : Text → DagError
  self_reference : DagError
  cycle_error : (from to : Text) (cycle : List Text) → DagError
  has_a_cycle : DagError

-- The children of a vertex; a missing vertex has none.
abbrev pub children : Option Vertex → List Text
children none = []
children (some v) = v.edges

abbrev pub successors : DirectedAcyclicGraph → Text → List Text
successors d n = children (lookup n d.vertices)

-- A method returns the graph that it leaves behind, and its error.
unfoldable pub add_vertex : Text → DirectedAcyclicGraph → DirectedAcyclicGraph × Option DagError
add_vertex id d =
    if has_key id d.vertices
    then (d, some (already_exists id))
    else (record d { vertices = insert id (record { id = id; edges = [] }) d.vertices }, none)

-- The variables that the closure of `HasCycle` shares: the keys that are true in `visited` and in
-- `recStack`, and `cyclePath`.
pub record Search : Type 0 where
  pub visited : List Text
  pub rec_stack : List Text
  pub cycle_path : List Text

abbrev pub enter : Text → Search → Search
enter node s = record {
  visited = node ∷ s.visited;
  rec_stack = node ∷ s.rec_stack;
  cycle_path = s.cycle_path ++ node ∷ [];
}

abbrev pub leave : Text → Search → Search
leave node s = record s { rec_stack = remove node s.rec_stack; cycle_path = drop_last s.cycle_path }

-- What follows a recursive call: `if dfs(neighbor) { return true }`, and the end of `dfs`.
abbrev pub stop_or : (Search → Run (Bool × Search)) → Bool × Search → Run (Bool × Search)
stop_or next (true, s) = done (true, s)
stop_or next (false, s) = next s

-- The loop over the neighbours, over the function `dfs` that it calls.
unfoldable pub scan :
    (Text → Search → Run (Bool × Search)) → List Text → Search → Run (Bool × Search)
scan dfs [] s = done (false, s)
scan dfs (n ∷ ns) s =
    let rest = scan dfs ns in
    if not (mem n s.visited)
    then dfs n s >>= stop_or rest
    else if mem n s.rec_stack
    then done (true, record s { cycle_path = s.cycle_path ++ n ∷ [] })
    else rest s

-- A missing vertex is a nil pointer, and reading its edges panics.
abbrev pub edges_of : Option Vertex → Run (List Text)
edges_of none = panic
edges_of (some v) = done v.edges

-- `dfs` of `HasCycle`. Each call marks one more vertex, so the fuel bounds the depth.
unfoldable pub dfs : DirectedAcyclicGraph → ℕ → Text → Search → Run (Bool × Search)
dfs d zero node s = out_of_fuel
dfs d (suc fuel) node s = edges_of (lookup node d.vertices) >>= λ es.
    scan (dfs d fuel) es (enter node s) >>= stop_or (λ s'. done (false, leave node s'))

unfoldable pub last_of : List Text → Text
last_of [] = []
last_of (v ∷ []) = v
last_of (v ∷ w ∷ ws) = last_of (w ∷ ws)

unfoldable pub from_first : Text → List Text → List Text
from_first x [] = []
from_first x (v ∷ vs) = let rest = from_first x vs in if text_eq v x then v ∷ vs else rest

-- `cyclePath[start:]`: `start` is the first vertex that comes again at the end, or 0.
unfoldable pub trim_cycle : List Text → List Text
unfolding last_of from_first
trim_cycle path =
    if mem (last_of path) (drop_last path) then from_first (last_of path) path else path

abbrev pub found_or : (Search → Run (Bool × List Text)) → Bool × Search → Run (Bool × List Text)
found_or next (true, s) = done (true, trim_cycle s.cycle_path)
found_or next (false, s) = next s

-- The loop of `HasCycle` over the vertices.
unfoldable pub search_from :
    (Text → Search → Run (Bool × Search)) → List Text → Search → Run (Bool × List Text)
search_from call [] s = done (false, [])
search_from call (n ∷ ns) s =
    let rest = search_from call ns in
    if not (mem n s.visited)
    then call n (record s { cycle_path = [] }) >>= found_or rest
    else rest s

abbrev pub fuel_for : DirectedAcyclicGraph → ℕ
fuel_for d = suc (length (keys d.vertices))

abbrev pub unsearched : Search
unsearched = record { visited = []; rec_stack = []; cycle_path = [] }

unfoldable pub has_cycle : DirectedAcyclicGraph → Run (Bool × List Text)
has_cycle d = search_from (dfs d (fuel_for d)) (keys d.vertices) unsearched

-- `fromNode.Edges[to] = struct{}{}` and `delete(fromNode.Edges, to)`.
abbrev pub link : Text → Vertex → Vertex
link to v = record v { edges = if mem to v.edges then v.edges else to ∷ v.edges }

abbrev pub unlink : Text → Vertex → Vertex
unlink to v = record v { edges = remove to v.edges }

abbrev pub put_vertex : Text → Vertex → DirectedAcyclicGraph → DirectedAcyclicGraph
put_vertex n v d = record d { vertices = insert n v d.vertices }

-- The check after the edge is in place: on a cycle the edge is deleted again.
abbrev pub undo_on_cycle :
    Text
    → Text
    → Vertex
    → DirectedAcyclicGraph
    → Bool × List Text
    → DirectedAcyclicGraph × Option DagError
undo_on_cycle from to v d (true, cycle) =
    (put_vertex from (unlink to v) d, some (cycle_error from to cycle))
undo_on_cycle from to v d (false, _) = (d, none)

add_edge_from :
    Text
    → Text
    → Option Vertex
    → DirectedAcyclicGraph
    → Run (DirectedAcyclicGraph × Option DagError)
add_edge_from from to none d = done (d, some (does_not_exist from))
add_edge_from from to (some v) d =
    if not (has_key to d.vertices)
    then done (d, some (does_not_exist to))
    else if text_eq from to
    then done (d, some self_reference)
    else let d' = put_vertex from (link to v) d in
      has_cycle d' >>= λ found. done (undo_on_cycle from to (link to v) d' found)

unfoldable pub add_edge :
    Text → Text → DirectedAcyclicGraph → Run (DirectedAcyclicGraph × Option DagError)
unfolding add_edge_from
add_edge from to d = add_edge_from from to (lookup from d.vertices) d

unfoldable pub get_vertices : DirectedAcyclicGraph → List Text
get_vertices d = sort_strings (keys d.vertices)

-- The variables that the closure of `TopologicalSort` shares.
pub record Visit : Type 0 where
  pub seen : List Text
  pub order : List Text

-- A loop that calls `dfs` on each vertex not yet visited: over the neighbours and over all vertices.
unfoldable pub visit_each : (Text → Visit → Run Visit) → List Text → Visit → Run Visit
visit_each call [] s = done s
visit_each call (n ∷ ns) s =
    let rest = visit_each call ns in if not (mem n s.seen) then call n s >>= rest else rest s

-- `dfs` of `TopologicalSort`: the neighbours in sorted order, then the vertex itself.
unfoldable pub visit : DirectedAcyclicGraph → ℕ → Text → Visit → Run Visit
visit d zero node s = out_of_fuel
visit d (suc fuel) node s = edges_of (lookup node d.vertices) >>= λ es.
    visit_each (visit d fuel) (sort_strings es) (record s { seen = node ∷ s.seen }) >>= λ s'.
    done (record s' { order = s'.order ++ node ∷ [] })

pub data Sorted : Type 0 where
  ordered : List Text → Sorted
  cyclic : Sorted

sort_unless : Bool → DirectedAcyclicGraph → Run Sorted
sort_unless true d = done cyclic
sort_unless false d =
    visit_each (visit d (fuel_for d)) (get_vertices d) (record { seen = []; order = [] }) >>= λ s.
    done (ordered s.order)

unfoldable pub topological_sort : DirectedAcyclicGraph → Run Sorted
unfolding sort_unless
topological_sort d = has_cycle d >>= λ found. sort_unless found.0 d
