-- ===== src/Dag/Refusals.antt =====
-- When `AddEdge` refuses, and what its error says.
use kubernetes_resource_orch.Common.{
  ◌≡◌, ◌≢◌, refl, sym, subst, Bool, true, false, ◌⊎◌, inl, inr, List, Option, none, some,
  Bool-cases, Option-cases, arith, Text, text_eq, text_eq_iff, text_eq_refl, mem, lookup, has_key,
  Returns, >>=-Returns,
}
use kubernetes_resource_orch.Dag.{
  Vertex, DirectedAcyclicGraph, DagError, does_not_exist, self_reference, cycle_error, successors,
  link, undo_on_cycle, add_edge, has_cycle,
}
use kubernetes_resource_orch.Dag.Graph.{
  Edge, Walk, one, step, IsWellFormed, IsCycle, IsCycle-Walk, Acyclic,
}
use kubernetes_resource_orch.Dag.Cycles.{Answers, has_cycle-Answers}
use kubernetes_resource_orch.Dag.Edges.{
  HasEdges, Walk-mono, Walk-trans, linked, linked-HasEdges, linked-IsWellFormed,
}

-- No edge or a walk.
abbrev Reaches : DirectedAcyclicGraph → Text → Text → Type 0
Reaches d u v = (u ≡ v) ⊎ Walk d u v

Reaches-step : (d : DirectedAcyclicGraph) {u v w : Text} → Edge d u v → Reaches d v w → Walk d u w
Reaches-step d {u} e (inl same) = one (subst (Edge d u) same e)
Reaches-step d e (inr walk) = step e walk

-- A walk over the new edge: it gets to `from` and goes on from `to` by old edges.
abbrev Detour : DirectedAcyclicGraph → Text → Text → Text → Text → Type 0
Detour d from to u w = Reaches d u from × Reaches d to w

module _ (d d' : DirectedAcyclicGraph) (from to : Text) (edges : HasEdges true d from to d') where
  Edge-cases : (u v : Text) → Edge d' u v → Edge d u v ⊎ ((u ≡ from) × (v ≡ to))
  Edge-cases u v e = elim (Bool-cases (mem v (successors d u))) [
    | inl old ↦ inl old
    | inr new ↦ inr (ground (arith, edges u v, text_eq_iff u from, text_eq_iff v to, e, new))
  ]

  Walk-cases : {u w : Text} → Walk d' u w → Walk d u w ⊎ Detour d from to u w
  Walk-cases (one {u} {v} e) = elim (Edge-cases u v e) [
    | inl old ↦ inl (one old)
    | inr (a, b) ↦ inr (inl a, inl (sym b))
  ]
  Walk-cases (step {u} {v} {w} e walk) = elim (Walk-cases walk) [
    | inl old ↦ elim (Edge-cases u v e) [
      | inl e' ↦ inl (step e' old)
      | inr (a, b) ↦ inr (inl a, inr (subst (λ k. Walk d k w) b old))
    ]
    | inr (before, after) ↦ elim (Edge-cases u v e) [
      | inl e' ↦ inr (inr (Reaches-step d e' before), after)
      | inr (a, b) ↦ inr (inl a, after)
    ]
  ]

  joined : {x : Text} → Reaches d to x → Reaches d x from → Reaches d to from
  joined {x} (inl a) b = subst (λ k. Reaches d k from) (sym a) b
  joined (inr a) (inl b) = inr (subst (Walk d to) b a)
  joined (inr a) (inr b) = inr (Walk-trans d a b)

  -- A cycle that the new edge closes goes back from `to` to `from` by old edges.
  closes : {x : Text} → Acyclic d → from ≢ to → Walk d' x x → Walk d to from
  closes {x} a ne walk = elim (Walk-cases walk) [
    | inl old ↦ absurd (a x old)
    | inr (before, after) ↦ elim (joined after before) [
      | inl same ↦ absurd (ne (sym same))
      | inr back ↦ back
    ]
  ]

  -- And a walk back from `to` to `from` makes the new edge close a cycle.
  closed : Walk d to from → Walk d' from from
  closed back =
      step (ground (arith, edges from to, text_eq_refl from, text_eq_refl to))
        (Walk-mono d d' (λ u v e. ground (arith, edges u v, e)) back)

-- What holds of the graph before the call, by the error that the call returned.
abbrev pub Explains : DirectedAcyclicGraph → Text → Text → Option DagError → Type 0
Explains d from to none =
    (has_key from d.vertices ≡ true)
    × (has_key to d.vertices ≡ true)
    × (from ≢ to)
    × ¬ Walk d to from
Explains d from to (some (does_not_exist x)) =
    (has_key x d.vertices ≡ false) × ((x ≡ from) ⊎ (x ≡ to))
Explains d from to (some self_reference) = from ≡ to
Explains d from to (some (cycle_error f t c)) =
    (f ≡ from)
    × (t ≡ to)
    × Walk d to from
    × ((d' : DirectedAcyclicGraph) × HasEdges true d from to d' × IsCycle d' c)
Explains d from to (some _) = ⊥

module _ (d : DirectedAcyclicGraph) (w : IsWellFormed d) (a : Acyclic d) (from to : Text)
    (v : Vertex) (here : lookup from d.vertices ≡ some v) (known : has_key to d.vertices ≡ true)
    (other : text_eq from to ≡ false) where
  undo-Explains :
      (found : Bool × List Text)
      → Answers (linked d w from to v here known) found
      → Explains d from to
          (undo_on_cycle from to (link to v) (linked d w from to v here known) found).1
  undo-Explains (true, cycle) c =
      let d' = linked d w from to v here known in
      let edges = linked-HasEdges d w from to v here known in
      let (x, walk) = IsCycle-Walk d' cycle c in
      (refl, refl, closes d d' from to edges a ne walk, (d', edges, c))
    where
      ne : from ≢ to
      ne = λ e. ground (arith, text_eq_iff from to, other, e)
  undo-Explains (false, _) (acyclic, _, _) = (
    ground (arith, here),
    known,
    λ e. ground (arith, text_eq_iff from to, other, e),
    λ back. acyclic from (
        closed d (linked d w from to v here known) from to
          (linked-HasEdges d w from to v here known) back),
  )

-- On a well-formed acyclic graph the error of `AddEdge` is right: with no error both vertices are
-- there, they differ, and the target does not reach the source; a missing vertex is named; a self
-- reference has equal ends; and a cycle error comes with a walk from the target back to the source
-- and a cycle of the graph with the refused edge.
pub add_edge-Explains :
    (d : DirectedAcyclicGraph) (from to : Text)
    → IsWellFormed d
    → Acyclic d
    → Returns (λ r. Explains d from to r.1) (add_edge from to d)
unfolding add_edge
add_edge-Explains d from to w a = elim (Option-cases (lookup from d.vertices)) [
  | inl missing ↦ rw missing (ground (arith, missing), inl refl)
  | inr (v, here) ↦ rw here (elim (Bool-cases (has_key to d.vertices)) [
    | inr missing ↦ rw missing (missing, inr refl)
    | inl known ↦ rw known (elim (Bool-cases (text_eq from to)) [
      | inl same ↦ rw same ((text_eq_iff from to).0 same)
      | inr other ↦ rw other (
          >>=-Returns (Answers (linked d w from to v here known)) (λ r. Explains d from to r.1)
            (has_cycle (linked d w from to v here known)) _
            (has_cycle-Answers (linked d w from to v here known)
              (linked-IsWellFormed d w from to v here known))
            (undo-Explains d w a from to v here known other))
    ])
  ])
]
