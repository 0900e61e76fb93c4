-- ===== src/Dag/Topological.antt =====
-- `TopologicalSort`: each vertex once, behind all the vertices that its edges lead to.
use kubernetes_resource_orch.Common.{
  ℕ, zero, suc, ◌<◌, ◌≡◌, refl, sym, subst, ◌∙◌, Bool, true, false, ◌||◌, inl, inr, List, [], ◌∷◌,
  ◌++◌, Bool-cases, Option-cases, arith, Text, text_eq_iff, text_eq_refl, mem, mem-append,
  mem-cons_self, Subset, Nodup, sort_strings, mem-sort_strings, lookup, keys, has_key, mem-keys,
  Run, done, Returns, >>=-Returns, Nodup-concat,
}
use kubernetes_resource_orch.Dag.{
  DirectedAcyclicGraph, successors, Visit, visit_each, visit, fuel_for, get_vertices, has_cycle,
  Sorted, ordered, cyclic, sort_unless, topological_sort,
}
use kubernetes_resource_orch.Dag.Graph.{Edge, Walk, IsWellFormed, IsCycle-Walk, Ranks}
use kubernetes_resource_orch.Dag.Cycles.{Answers, has_cycle-Answers}
use kubernetes_resource_orch.Dag.DepthFirst.{
  unmarked, unmarked-le-length, unmarked_mono, unmarked_falls, Subset-cons,
}

-- Every vertex of the list has its edges only to `before` and to vertices in front of it.
abbrev pub IsOrdered : DirectedAcyclicGraph → List Text → List Text → Type 0
IsOrdered d before [] = Unit
IsOrdered d before (n ∷ ns) = Subset (successors d n) before × IsOrdered d (n ∷ before) ns

IsOrdered-concat :
    (d : DirectedAcyclicGraph) (before ns : List Text) (n : Text)
    → IsOrdered d before ns
    → ((x : Text) → Edge d n x → (mem x before || mem x ns) ≡ true)
    → IsOrdered d before (ns ++ n ∷ [])
unfolding mem
IsOrdered-concat d before [] n h e = ((λ x k. ground (arith, e x k)), tt)
IsOrdered-concat d before (m ∷ ns) n h e =
    (h.0, IsOrdered-concat d (m ∷ before) ns n h.1 (λ x k. ground (arith, e x k)))

-- A topological order of the whole graph.
pub record IsTopological (d : DirectedAcyclicGraph) (order : List Text) : Type 0 where
  pub once : Nodup order
  pub all : (x : Text) → mem x order ≡ has_key x d.vertices
  pub children_first : IsOrdered d [] order

module _ (d : DirectedAcyclicGraph) (w : IsWellFormed d) (r : Text → ℕ) (ranks : Ranks d r) where
  record Inv (s : Visit) : Type 0 where
    ordered : IsOrdered d [] s.order
    once : Nodup s.order
    within : Subset s.order s.seen
    known : Subset s.order (keys d.vertices)

  -- The vertices that are being visited all have a higher rank than `n`.
  abbrev Below : Visit → Text → Type 0
  Below s n = (x : Text) → mem x s.seen ≡ true → mem x s.order ≡ false → r n < r x

  -- What a visit of `ns` from `s` leaves behind.
  record Kept (s : Visit) (ns : List Text) (after : Visit) : Type 0 where
    inv : Inv after
    grown : Subset s.seen after.seen
    same : (x : Text) → mem x s.seen ≡ true → mem x after.order ≡ mem x s.order
    only : (x : Text) → mem x after.seen ≡ true → mem x after.order ≡ false → mem x s.seen ≡ true
    settled : Subset ns after.order

  abbrev Promise : ℕ → (Text → Visit → Run Visit) → Type 0
  Promise fuel call =
      (n : Text) (s : Visit)
      → Inv s
      → has_key n d.vertices ≡ true
      → mem n s.seen ≡ false
      → Below s n
      → unmarked s.seen (keys d.vertices) < fuel
      → Returns (Kept s (n ∷ [])) (call n s)

  Kept-nil : (s : Visit) → Inv s → Kept s [] s
  unfolding mem
  Kept-nil s i = record {
    inv = i;
    grown = λ x h. h;
    same = λ x h. refl;
    only = λ x h k. h;
    settled = λ x h. cc;
  }

  Kept-trans :
      (s t u : Visit) (n : Text) (ns : List Text)
      → Kept s (n ∷ []) t
      → Kept t ns u
      → Kept s (n ∷ ns) u
  unfolding mem
  Kept-trans s t u n ns k l = record {
    inv = l.inv;
    grown = λ x h. l.grown x (k.grown x h);
    same = λ x h. l.same x (k.grown x h) ∙ k.same x h;
    only = λ x h a. let before = l.only x h a in k.only x before (sym (l.same x before) ∙ a);
    settled = λ x h. ground (arith, k.settled x, l.settled x, l.same x, k.inv.within x, h);
  }

  -- A child that was seen is not being visited, for its rank is too low: it is in the order.
  Kept-skip : (s : Visit) (n : Text) → Inv s → mem n s.seen ≡ true → Below s n → Kept s (n ∷ []) s
  unfolding mem
  Kept-skip s n i old below = record {
    inv = i;
    grown = λ x h. h;
    same = λ x h. refl;
    only = λ x h k. h;
    settled = λ x h. ground (arith, below n, text_eq_iff x n, h);
  }

  Below-Kept : (s t : Visit) (ns : List Text) (n : Text) → Kept s ns t → Below s n → Below t n
  Below-Kept s t ns n k below x seen open_ =
      let before = k.only x seen open_ in below x before (sym (k.same x before) ∙ open_)

  module _ (fuel : ℕ) (call : Text → Visit → Run Visit) (promise : Promise fuel call) where
    visit_each-Kept :
        (ns : List Text) (s : Visit)
        → Inv s
        → ((n : Text) → mem n ns ≡ true → has_key n d.vertices ≡ true)
        → ((n : Text) → mem n ns ≡ true → Below s n)
        → unmarked s.seen (keys d.vertices) < fuel
        → Returns (Kept s ns) (visit_each call ns s)
    unfolding visit_each
    visit_each-Kept [] s i known below m = Kept-nil s i
    visit_each-Kept (n ∷ ns) s i known below m = elim (Bool-cases (mem n s.seen)) [
      | inl old ↦ rw old (
          weaken s s n ns (visit_each call ns s)
            (Kept-skip s n i old (below n (mem-cons_self n ns)))
            (visit_each-Kept ns s i (λ x h. known x (later x h)) (λ x h. below x (later x h)) m))
      | inr new ↦ rw new (
          >>=-Returns (Kept s (n ∷ [])) (Kept s (n ∷ ns)) (call n s) (visit_each call ns)
            (promise n s i (known n (mem-cons_self n ns)) new (below n (mem-cons_self n ns)) m)
            (λ t k. weaken s t n ns (visit_each call ns t) k (
              visit_each-Kept ns t k.inv (λ x h. known x (later x h))
                (λ x h. Below-Kept s t (n ∷ []) x k (below x (later x h)))
                (omega (arith, m, unmarked_mono s.seen t.seen (keys d.vertices) k.grown)))))
    ]
      where
        later : (x : Text) → mem x ns ≡ true → mem x (n ∷ ns) ≡ true
        later = Subset-cons n ns

        weaken :
            (s t : Visit) (n : Text) (ns : List Text) (m : Run Visit)
            → Kept s (n ∷ []) t
            → Returns (Kept t ns) m
            → Returns (Kept s (n ∷ ns)) m
        weaken s t n ns (done u) k h = Kept-trans s t u n ns k h
        weaken s t n ns Run.panic k h = h
        weaken s t n ns Run.out_of_fuel k h = h

  abbrev mark : Text → Visit → Visit
  mark n s = record s { seen = n ∷ s.seen }

  mark-Inv : (n : Text) (s : Visit) → Inv s → Inv (mark n s)
  unfolding mem
  mark-Inv n s i = record {
    ordered = i.ordered;
    once = i.once;
    within = λ x h. ground (arith, i.within x h);
    known = i.known;
  }

  mark-Below : (n x : Text) (s : Visit) → Edge d n x → Below s n → Below (mark n s) x
  unfolding mem
  mark-Below n x s e below y seen open_ =
      ground (arith, ranks n x e, below y, text_eq_iff y n, seen, open_)

  -- The end of `dfs`: the vertex goes behind its children.
  append-Kept :
      (n : Text) (s t : Visit) (ns : List Text)
      → Inv s
      → has_key n d.vertices ≡ true
      → mem n s.seen ≡ false
      → Subset (successors d n) ns
      → Kept (mark n s) ns t
      → Kept s (n ∷ []) (record t { order = t.order ++ n ∷ [] })
  unfolding mem
  append-Kept n s t ns i key new covers k = record {
    inv = record {
      ordered = IsOrdered-concat d [] t.order n k.inv.ordered (λ x e. k.settled x (covers x e));
      once = Nodup-concat n t.order absent k.inv.once;
      within = λ x h. ground (
        arith,
        mem-append x t.order (n ∷ []),
        k.inv.within x,
        k.grown n,
        text_eq_refl n,
        text_eq_iff x n,
        h,
      );
      known = λ x h. ground (
        arith,
        mem-append x t.order (n ∷ []),
        k.inv.known x,
        mem-keys n d.vertices,
        key,
        text_eq_iff x n,
        h,
      );
    };
    grown = λ x h. ground (arith, k.grown x);
    same = λ x h. ground (arith, mem-append x t.order (n ∷ []), k.same x, text_eq_iff x n, h, new);
    only = λ x h a. ground (arith, mem-append x t.order (n ∷ []), k.only x, h, a);
    settled = λ x h. ground (arith, mem-append x t.order (n ∷ []), h);
  }
    where
      absent : mem n t.order ≡ false
      absent = ground (arith, k.same n, i.within n, text_eq_refl n, new)

  visit-Promise : (fuel : ℕ) → Promise fuel (visit d fuel)
  unfolding visit
  visit-Promise zero n s i key new below m = absurd (omega arith)
  visit-Promise (suc fuel) n s i key new below m = elim (Option-cases (lookup n d.vertices)) [
    | inl missing ↦ ground (arith, missing, key)
    | inr (v, here) ↦
        let edge : (x : Text) → mem x (sort_strings v.edges) ≡ true → Edge d n x =
          λ x h. ground (arith, mem-sort_strings x v.edges, here, h) in
        let covers : Subset (successors d n) (sort_strings v.edges) =
          λ x e. ground (arith, mem-sort_strings x v.edges, here, e) in
        rw here (
          >>=-Returns (Kept (mark n s) (sort_strings v.edges)) (Kept s (n ∷ []))
            (visit_each (visit d fuel) (sort_strings v.edges) (mark n s)) _
            (visit_each-Kept fuel (visit d fuel) (visit-Promise fuel) (sort_strings v.edges)
              (mark n s) (mark-Inv n s i) (λ x h. w.edge_known n x (edge x h))
              (λ x h. mark-Below n x s (edge x h) below)
              (omega (arith, m, unmarked_falls n s.seen (keys d.vertices) present new)))
            (λ t k. append-Kept n s t (sort_strings v.edges) i key new covers k))
  ]
    where
      present : mem n (keys d.vertices) ≡ true
      present = mem-keys n d.vertices ∙ key

  start-Inv : Inv (record { seen = []; order = [] })
  unfolding mem
  start-Inv = record { ordered = tt; once = tt; within = λ x h. h; known = λ x h. cc }

  visits-IsTopological :
      (s : Visit)
      → Kept (record { seen = []; order = [] }) (get_vertices d) s
      → IsTopological d s.order
  unfolding get_vertices mem
  visits-IsTopological s k = record {
    once = k.inv.once;
    all = λ x. ground (
      arith,
      mem-keys x d.vertices,
      k.inv.known x,
      k.settled x,
      mem-sort_strings x (keys d.vertices),
    );
    children_first = k.inv.ordered;
  }

  sort_unless-IsTopological :
      Returns
        (λ o. (order : List Text) × (o ≡ ordered order) × IsTopological d order)
        (sort_unless false d)
  unfolding sort_unless get_vertices mem
  sort_unless-IsTopological =
      >>=-Returns (Kept (record { seen = []; order = [] }) (get_vertices d)) _
        (visit_each (visit d (fuel_for d)) (get_vertices d) (record { seen = []; order = [] })) _
        (visit_each-Kept (fuel_for d) (visit d (fuel_for d)) (visit-Promise (fuel_for d))
          (get_vertices d) (record { seen = []; order = [] }) start-Inv
          (λ x h. ground (arith, mem-keys x d.vertices, mem-sort_strings x (keys d.vertices), h))
          (λ x h y seen open_. cc) (omega (arith, unmarked-le-length [] (keys d.vertices))))
        (λ s k. (s.order, refl, visits-IsTopological s k))

-- What `TopologicalSort` promises: an order of all vertices in which each stands behind those that
-- it leads to, or an error because of a cycle.
abbrev pub Sorts : DirectedAcyclicGraph → Sorted → Type 0
Sorts d (ordered order) = IsTopological d order
Sorts d cyclic = (v : Text) × Walk d v v

Sorts-ordered :
    (d : DirectedAcyclicGraph) (m : Run Sorted)
    → Returns (λ o. (order : List Text) × (o ≡ ordered order) × IsTopological d order) m
    → Returns (Sorts d) m
Sorts-ordered d (done o) (order, e, t) = subst (Sorts d) (sym e) t
Sorts-ordered d Run.panic h = h
Sorts-ordered d Run.out_of_fuel h = h

sort_unless-Sorts :
    (d : DirectedAcyclicGraph) (w : IsWellFormed d) (found : Bool × List Text)
    → Answers d found
    → Returns (Sorts d) (sort_unless found.0 d)
unfolding sort_unless
sort_unless-Sorts d w (true, c) cycle = IsCycle-Walk d c cycle
sort_unless-Sorts d w (false, c) (_, (r, ranks), _) =
    Sorts-ordered d (sort_unless false d) (sort_unless-IsTopological d w r ranks)

-- On a well-formed graph `TopologicalSort` comes back with no panic. An order that it returns holds
-- every vertex of the graph exactly once, and each vertex stands behind all the vertices that its
-- edges lead to. Its error means that some vertex reaches itself.
pub topological_sort-Sorts :
    (d : DirectedAcyclicGraph) → IsWellFormed d → Returns (Sorts d) (topological_sort d)
unfolding topological_sort
topological_sort-Sorts d w =
    >>=-Returns (Answers d) (Sorts d) (has_cycle d) (λ found. sort_unless found.0 d)
      (has_cycle-Answers d w) (sort_unless-Sorts d w)
