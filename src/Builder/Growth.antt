-- ===== src/Builder/Growth.antt =====
-- The loop of `buildDependencyGraph` (internal/graph/builder.go) that adds the edges of one expression.
use kubernetes_resource_orch.Common.{
  ◌≡◌, refl, ◌∙◌, sym, subst, true, false, ◌&&◌, ◌||◌, inl, inr, List, [], ◌∷◌, ◌++◌, Option, none,
  some, Bool-cases, arith, Text, text_eq, text_eq_iff, text_eq_refl, mem, mem-append, has_key, done,
  panic, out_of_fuel, ◌>>=◌, Returns, >>=-Returns, Returns-mono, Returns-done, ok, err,
}
use kubernetes_resource_orch.Dag.{
  DirectedAcyclicGraph, DagError, already_exists, does_not_exist, self_reference, cycle_error,
  has_a_cycle, successors, add_edge,
}
use kubernetes_resource_orch.Dag.Graph.{Edge, Walk, one, step}
use kubernetes_resource_orch.Dag.Edges.{HasEdges, SameKeys, EdgeAdded, add_edge-EdgeAdded}
use kubernetes_resource_orch.Dag.Refusals.{Explains, add_edge-Explains}
use kubernetes_resource_orch.Dag.Built.{Built, next, added_edge, Built-IsWellFormed-Acyclic}
use kubernetes_resource_orch.Builder.{edge_failed, Building, unless_error, add_edges}
use kubernetes_resource_orch.Builder.Reasons.{
  Scope, Reads, Chain, link, chain, IsRefusal, OkOrRefusal, OkOrRefusal-mono,
}

-- Each edge of the graph is a dependency of the resources.
abbrev pub Within : Scope → DirectedAcyclicGraph → Type 0
Within c d = (u x : Text) → Edge d u x → Reads c u x

-- A graph that calls of `AddVertex` and `AddEdge` built, with no edges but those.
abbrev pub IsSound : Scope → DirectedAcyclicGraph → Type 0
IsSound c d = Built d × Within c d

module _ (c : Scope) where
  pub >>=-OkOrRefusal :
      {A B : Type 0} (P : A → Type 0) (Q : B → Type 0) (m : Building A) (f : A → Building B)
      → Returns (OkOrRefusal c P) m
      → ((a : A) → P a → Returns (OkOrRefusal c Q) (f a))
      → Returns (OkOrRefusal c Q) (m >>= unless_error f)
  >>=-OkOrRefusal P Q (done (ok a)) f h k = k a h
  >>=-OkOrRefusal P Q (done (err e)) f h k = h
  >>=-OkOrRefusal P Q panic f h k = absurd h
  >>=-OkOrRefusal P Q out_of_fuel f h k = absurd h

  -- `d'` is `d` with the edges from one vertex to the ids of a list.
  pub record Grown (d : DirectedAcyclicGraph) (name : Text) (xs : List Text)
      (d' : DirectedAcyclicGraph) : Type 0 where
    pub sound : IsSound c d'
    pub same : SameKeys d d'
    pub edges :
        (u x : Text)
        → mem x (successors d' u) ≡ (mem x (successors d u) || (text_eq u name && mem x xs))

  pub Grown-empty : (d : DirectedAcyclicGraph) (name : Text) → IsSound c d → Grown d name [] d
  unfolding mem
  Grown-empty d name b = record { sound = b; same = λ k. refl; edges = λ u x. ground arith }

  pub Grown-append :
      (d d' d'' : DirectedAcyclicGraph) (name : Text) (xs ys : List Text)
      → Grown d name xs d'
      → Grown d' name ys d''
      → Grown d name (xs ++ ys) d''
  Grown-append d d' d'' name xs ys g h = record {
    sound = h.sound;
    same = λ k. h.same k ∙ g.same k;
    edges = λ u x. ground (arith, g.edges u x, h.edges u x, mem-append x xs ys);
  }

  Walk-Chain : {d : DirectedAcyclicGraph} {u v : Text} → Within c d → Walk d u v → Chain c u v
  Walk-Chain h (one {u} {v} e) = link (h u v e)
  Walk-Chain h (step {u} {v} e w) = chain (h u v e) (Walk-Chain h w)

  module _ (d : DirectedAcyclicGraph) (sound : IsSound c d) (name dep : Text)
      (vertices : (has_key name d.vertices ≡ true) × (has_key dep d.vertices ≡ true))
      (needed : Reads c name dep) where
    -- `AddEdge` between two vertices of the graph, for a dependency.
    abbrev Added : DirectedAcyclicGraph × Option DagError → Type 0
    Added (d', none) = Grown d name (dep ∷ []) d'
    Added (d', some e) = IsRefusal c (edge_failed e)

    Within-edge : (d' : DirectedAcyclicGraph) → HasEdges true d name dep d' → Within c d'
    Within-edge d' h u x e = elim (Bool-cases (mem x (successors d u))) [
      | inl old ↦ sound.1 u x old
      | inr new ↦
          let here : (text_eq u name ≡ true) × (text_eq x dep ≡ true) =
            ground (arith, h u x, e, new) in
          subst (λ a. Reads c a x) (sym ((text_eq_iff u name).0 here.0))
            (subst (Reads c name) (sym ((text_eq_iff x dep).0 here.1)) needed)
    ]

    Explains-Added :
        (r : DirectedAcyclicGraph × Option DagError)
        → add_edge name dep d ≡ done r
        → EdgeAdded d name dep r
        → Explains d name dep r.1
        → Added r
    unfolding mem
    Explains-Added (d', none) e h x = record {
      sound = (next sound.0 (added_edge name dep none e), Within-edge d' h.3);
      same = h.2;
      edges = λ u y. ground (arith, h.3 u y);
    }
    Explains-Added (d', some (already_exists id)) e h x = x
    Explains-Added (d', some (does_not_exist id)) e h (missing, inl same) =
        ground (arith, subst (λ y. has_key y d.vertices ≡ false) same missing, vertices.0)
    Explains-Added (d', some (does_not_exist id)) e h (missing, inr same) =
        ground (arith, subst (λ y. has_key y d.vertices ≡ false) same missing, vertices.1)
    Explains-Added (d', some self_reference) e h same =
        (dep, subst (λ a. Reads c a dep) same needed)
    Explains-Added (d', some (cycle_error f t cycle)) e h (from, to, walk, _) = (
      subst (λ a. Reads c a t) (sym from) (subst (Reads c name) (sym to) needed),
      subst (λ a. Chain c a f) (sym to) (subst (Chain c dep) (sym from) (Walk-Chain sound.1 walk)),
    )
    Explains-Added (d', some has_a_cycle) e h x = x

    add_edge-Added : Returns Added (add_edge name dep d)
    add_edge-Added =
        let (w, a) = Built-IsWellFormed-Acyclic d sound.0 in
        let (r, e, h) = Returns-done _ (add_edge name dep d) (add_edge-EdgeAdded d name dep w a) in
        subst (Returns Added) (sym e) (
          Explains-Added r e h
            (subst (Returns (λ r. Explains d name dep r.1)) e (add_edge-Explains d name dep w a)))

  pub add_edges-Grown :
      (name : Text) (deps : List Text) (d : DirectedAcyclicGraph)
      → IsSound c d
      → has_key name d.vertices ≡ true
      → ((x : Text) → mem x deps ≡ true → (has_key x d.vertices ≡ true) × Reads c name x)
      → Returns (OkOrRefusal c (Grown d name deps)) (add_edges name deps d)
  unfolding add_edges mem
  add_edges-Grown name [] d b k known = Grown-empty d name b
  add_edges-Grown name (dep ∷ deps) d b k known =
      let first = known dep (ground (arith, text_eq_refl dep)) in
      >>=-Returns (Added d b name dep (k, first.0) first.1) _ (add_edge name dep d) _
        (add_edge-Added d b name dep (k, first.0) first.1)
        (after
          (λ d' h.
            add_edges-Grown name deps d' h.sound (h.same name ∙ k)
              (λ x m. let there = known x (ground (arith, m)) in (h.same x ∙ there.0, there.1)))
          (k, first.0) first.1)
    where
      after :
          ((d' : DirectedAcyclicGraph)
            → Grown d name (dep ∷ []) d'
            → Returns (OkOrRefusal c (Grown d' name deps)) (add_edges name deps d'))
          → (v : (has_key name d.vertices ≡ true) × (has_key dep d.vertices ≡ true))
          → (n : Reads c name dep) → (r : DirectedAcyclicGraph × Option DagError)
          → Added d b name dep v n r
          → Returns
              (OkOrRefusal c (Grown d name (dep ∷ deps)))
              (elim r.1 [ none ↦ add_edges name deps r.0 | some e ↦ done (err (edge_failed e)) ])
      after rest v n (d', some e) h = h
      after rest v n (d', none) h =
          Returns-mono (OkOrRefusal c (Grown d' name deps)) _ (add_edges name deps d')
            (λ r.
              OkOrRefusal-mono c _ _ r (λ d'' g. Grown-append d d' d'' name (dep ∷ []) deps h g))
            (rest d' h)
