-- ===== src/Dag/Edges.antt =====
-- `AddVertex` and `AddEdge`: what they change, when they refuse, and that the graph stays acyclic.
use kubernetes_resource_orch.Common.{
  ◌≡◌, refl, Bool, true, false, ◌&&◌, ◌||◌, inl, inr, List, Option, none, some, if◌then◌else◌,
  Bool-cases, Option-cases, arith, Text, text_eq, text_eq_iff, text_eq_refl, mem, mem-remove,
  lookup, lookup-insert, keys-insert-Nodup, has_key, Returns, >>=-Returns,
}
use kubernetes_resource_orch.Dag.{
  Vertex, DirectedAcyclicGraph, DagError, does_not_exist, self_reference, successors, link, unlink,
  put_vertex, undo_on_cycle, add_edge, has_cycle,
}
use kubernetes_resource_orch.Dag.Graph.{Edge, Walk, one, step, IsWellFormed, IsCycle-Walk, Acyclic}
use kubernetes_resource_orch.Dag.Cycles.{Answers, has_cycle-Answers}

-- Every edge of the first graph is one of the second.
abbrev pub Includes : DirectedAcyclicGraph → DirectedAcyclicGraph → Type 0
Includes d d' = (u v : Text) → Edge d u v → Edge d' u v

pub Walk-mono :
    (d d' : DirectedAcyclicGraph) {u v : Text} → Includes d d' → Walk d u v → Walk d' u v
Walk-mono d d' h (one {u} {v} e) = one (h u v e)
Walk-mono d d' h (step {u} {v} e w) = step (h u v e) (Walk-mono d d' h w)

pub Walk-trans : (d : DirectedAcyclicGraph) {u v w : Text} → Walk d u v → Walk d v w → Walk d u w
Walk-trans d (one e) k = step e k
Walk-trans d (step e w) k = step e (Walk-trans d w k)

pub Acyclic-anti : (d d' : DirectedAcyclicGraph) → Includes d d' → Acyclic d' → Acyclic d
Acyclic-anti d d' h a v w = a v (Walk-mono d d' h w)

abbrev pub succeeded : Option DagError → Bool
succeeded none = true
succeeded (some e) = false

successors-put :
    (d : DirectedAcyclicGraph) (n u : Text) (v : Vertex)
    → successors (put_vertex n v d) u ≡ (if text_eq u n then v.edges else successors d u)
successors-put d n u v = ground (arith, lookup-insert n u v d.vertices)

mem-link : (to x : Text) (v : Vertex) → mem x (link to v).edges ≡ (mem x v.edges || text_eq x to)
unfolding mem
mem-link to x v = ground (arith, text_eq_iff x to)

-- A vertex of the graph is replaced by one with the same id.
put_vertex-IsWellFormed :
    (d : DirectedAcyclicGraph) (n : Text) (old v : Vertex)
    → IsWellFormed d
    → lookup n d.vertices ≡ some old
    → v.id ≡ old.id
    → ((x : Text) → mem x v.edges ≡ true → has_key x d.vertices ≡ true)
    → IsWellFormed (put_vertex n v d)
put_vertex-IsWellFormed d n old v w here same known = record {
  edge_known = λ u x e. ground (
    arith,
    lookup-insert n x v d.vertices,
    lookup-insert n u v d.vertices,
    known x,
    w.edge_known u x,
    e,
  );
  id_is_key = λ k v' h. ground (
    arith,
    lookup-insert n k v d.vertices,
    w.id_is_key n old,
    w.id_is_key k v',
    text_eq_iff k n,
    h,
  );
  keys_nodup = keys-insert-Nodup n v d.vertices w.keys_nodup;
}

-- `d'` holds the edges of `d`, and the edge from `from` to `to` if `new` is true.
abbrev pub HasEdges : Bool → DirectedAcyclicGraph → Text → Text → DirectedAcyclicGraph → Type 0
HasEdges new d from to d' =
    (u x : Text)
    → mem x (successors d' u)
      ≡ (mem x (successors d u) || (new && (text_eq u from && text_eq x to)))

abbrev pub SameKeys : DirectedAcyclicGraph → DirectedAcyclicGraph → Type 0
SameKeys d d' = (k : Text) → has_key k d'.vertices ≡ has_key k d.vertices

-- The graph after `AddEdge`, whatever the error.
abbrev pub EdgeAdded :
    DirectedAcyclicGraph → Text → Text → DirectedAcyclicGraph × Option DagError → Type 0
EdgeAdded d from to (d', e) =
    IsWellFormed d' × Acyclic d' × SameKeys d d' × HasEdges (succeeded e) d from to d'

unchanged :
    (d : DirectedAcyclicGraph) (from to : Text) (e : DagError)
    → IsWellFormed d
    → Acyclic d
    → EdgeAdded d from to (d, some e)
unchanged d from to e w a = (w, a, λ k. refl, λ u x. ground arith)

module _ (d : DirectedAcyclicGraph) (w : IsWellFormed d) (from to : Text) (v : Vertex)
    (here : lookup from d.vertices ≡ some v) (known : has_key to d.vertices ≡ true) where
  abbrev pub linked : DirectedAcyclicGraph
  linked = put_vertex from (link to v) d

  abbrev unlinked : DirectedAcyclicGraph
  unlinked = put_vertex from (unlink to (link to v)) linked

  pub linked-HasEdges : HasEdges true d from to linked
  linked-HasEdges u x =
      ground (arith, successors-put d from u (link to v), mem-link to x v, text_eq_iff u from, here)

  linked-SameKeys : SameKeys d linked
  linked-SameKeys k =
      ground (arith, lookup-insert from k (link to v) d.vertices, here, text_eq_iff k from)

  pub linked-IsWellFormed : IsWellFormed linked
  linked-IsWellFormed =
      put_vertex-IsWellFormed d from v (link to v) w here refl λ x e.
        ground (arith, mem-link to x v, known, w.edge_known from x, text_eq_iff x to, here, e)

  linked-here : lookup from linked.vertices ≡ some (link to v)
  linked-here = ground (arith, lookup-insert from from (link to v) d.vertices, text_eq_refl from)

  unlinked-IsWellFormed : IsWellFormed unlinked
  unlinked-IsWellFormed =
      put_vertex-IsWellFormed linked from (link to v) (unlink to (link to v)) linked-IsWellFormed
        linked-here refl
        λ x e. ground (
          arith,
          mem-remove x to (link to v).edges,
          linked-IsWellFormed.edge_known from x,
          linked-here,
          e,
        )

  unlinked-SameKeys : SameKeys d unlinked
  unlinked-SameKeys k = ground (
    arith,
    lookup-insert from k (unlink to (link to v)) linked.vertices,
    linked-SameKeys k,
    text_eq_iff k from,
    here,
  )

  -- An edge that was there before closes no new cycle.
  is_new : Acyclic d → (x : Text) → Walk linked x x → mem to v.edges ≡ false
  is_new a x walk = elim (Bool-cases (mem to v.edges)) [
    | inr new ↦ new
    | inl old ↦ absurd (Acyclic-anti linked d (included old) a x walk)
  ]
    where
      included : mem to v.edges ≡ true → Includes linked d
      included old u y e =
          ground (arith, linked-HasEdges u y, text_eq_iff u from, text_eq_iff y to, here, old, e)

  unlinked-HasEdges : mem to v.edges ≡ false → HasEdges false d from to unlinked
  unlinked-HasEdges new u x = ground (
    arith,
    successors-put linked from u (unlink to (link to v)),
    linked-HasEdges u x,
    mem-remove x to (link to v).edges,
    mem-link to x v,
    text_eq_iff u from,
    text_eq_iff x to,
    here,
    new,
  )

  undo-EdgeAdded :
      (found : Bool × List Text)
      → Acyclic d
      → Answers linked found
      → EdgeAdded d from to (undo_on_cycle from to (link to v) linked found)
  undo-EdgeAdded (true, cycle) a c =
      let (x, walk) = IsCycle-Walk linked cycle c in
      let edges = unlinked-HasEdges (is_new a x walk) in
      (
        unlinked-IsWellFormed,
        Acyclic-anti unlinked d (λ u y e. ground (arith, edges u y, e)) a,
        unlinked-SameKeys,
        edges,
      )
  undo-EdgeAdded (false, _) a (acyclic, _, _) =
      (linked-IsWellFormed, acyclic, linked-SameKeys, linked-HasEdges)

-- `AddEdge` on a well-formed acyclic graph comes back with no panic, and leaves a well-formed
-- acyclic graph with the same vertices. If it returns no error, the edge is there and all else is as
-- before; if it returns an error, the edges are those that were there before.
pub add_edge-EdgeAdded :
    (d : DirectedAcyclicGraph) (from to : Text)
    → IsWellFormed d
    → Acyclic d
    → Returns (EdgeAdded d from to) (add_edge from to d)
unfolding add_edge
add_edge-EdgeAdded d from to w a = elim (Option-cases (lookup from d.vertices)) [
  | inl missing ↦ rw missing (unchanged d from to (does_not_exist from) w a)
  | inr (v, here) ↦ rw here (elim (Bool-cases (has_key to d.vertices)) [
    | inr missing ↦ rw missing (unchanged d from to (does_not_exist to) w a)
    | inl known ↦ rw known (elim (Bool-cases (text_eq from to)) [
      | inl same ↦ rw same (unchanged d from to self_reference w a)
      | inr other ↦ rw other (
          >>=-Returns (Answers (linked d w from to v here known)) (EdgeAdded d from to)
            (has_cycle (linked d w from to v here known)) _
            (has_cycle-Answers (linked d w from to v here known)
              (linked-IsWellFormed d w from to v here known))
            (λ found. undo-EdgeAdded d w from to v here known found a))
    ])
  ])
]
