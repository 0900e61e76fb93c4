-- ===== src/Dag/Cycles.antt =====
-- What `HasCycle` answers.
use kubernetes_resource_orch.Common.{
  ℕ, ◌<◌, ◌≡◌, refl, sym, ap, subst, ◌∙◌, Bool, true, false, inl, inr, List, [], ◌∷◌, ◌++◌,
  Bool-cases, arith, Text, text_eq, text_eq_iff, mem, mem-cons_self, Subset, drop_last-concat, keys,
  has_key, mem-keys, Run, done, Returns, >>=-Returns,
}
use kubernetes_resource_orch.Dag.{
  DirectedAcyclicGraph, Search, dfs, last_of, from_first, trim_cycle, found_or, search_from,
  fuel_for, has_cycle, unsearched,
}
use kubernetes_resource_orch.Dag.Graph.{
  IsWellFormed, IsPath, IsPath-tail, IsCycle, IsFinished, Ranks, rank, IsFinished-Ranks, Acyclic,
  Ranks-Acyclic,
}
use kubernetes_resource_orch.Dag.DepthFirst.{
  unmarked, unmarked-le-length, unmarked_mono, Subset-cons, IsFound, Inv, Outcome, Promise,
  dfs-Promise,
}

last_of-concat : (q : List Text) (n : Text) → last_of (q ++ n ∷ []) ≡ n
unfolding last_of
last_of-concat [] n = refl
last_of-concat (x ∷ []) n = refl
last_of-concat (x ∷ y ∷ ys) n = last_of-concat (y ∷ ys) n

from_first-IsCycle :
    (d : DirectedAcyclicGraph) (q : List Text) (n : Text)
    → mem n q ≡ true
    → IsPath d (q ++ n ∷ [])
    → IsCycle d (from_first n (q ++ n ∷ []))
unfolding mem from_first
from_first-IsCycle d [] n m h = cc
from_first-IsCycle d (y ∷ ys) n m h = elim (Bool-cases (text_eq y n)) [
  | inl same ↦ rw same (y, ys, rw ((text_eq_iff y n).0 same), h)
  | inr other ↦ rw other (
      from_first-IsCycle d ys n (ground (arith, text_eq_iff n y, text_eq_iff y n))
        (IsPath-tail d y (ys ++ n ∷ []) h))
]

trim_cycle-IsCycle :
    (d : DirectedAcyclicGraph) (p : List Text) → IsFound d p → IsCycle d (trim_cycle p)
unfolding trim_cycle
trim_cycle-IsCycle d p (q, n, e, m, h) =
    rw (e, last_of-concat q n, drop_last-concat q n, m)
      (from_first-IsCycle d q n m (subst (IsPath d) e h))

module _ (d : DirectedAcyclicGraph) where
  -- The answer and what backs it: a cycle, or an order in which all the vertices `ns` are finished.
  abbrev Backed : List Text → List Text → Bool × List Text → Type 0
  Backed old ns (true, c) = IsCycle d c
  Backed old ns (false, c) =
      (order : List Text) × IsFinished d order × Subset old order × Subset ns order × (c ≡ [])

  Backed-cons :
      (old mid : List Text) (n : Text) (ns : List Text) (m : Run (Bool × List Text))
      → Subset old mid
      → mem n mid ≡ true
      → Returns (Backed mid ns) m
      → Returns (Backed old (n ∷ ns)) m
  unfolding mem
  Backed-cons old mid n ns (done (true, c)) k h b = b
  Backed-cons old mid n ns (done (false, c)) k h (order, f, l, a, e) =
      (order, f, λ x o. l x (k x o), λ x o. ground (arith, l n h, a x, text_eq_iff x n, o), e)
  Backed-cons old mid n ns Run.panic k h b = b
  Backed-cons old mid n ns Run.out_of_fuel k h b = b

  clear_path-Inv :
      (s : Search) (order : List Text)
      → s.rec_stack ≡ []
      → Inv d s order
      → Inv d (record s { cycle_path = [] }) order
  unfolding mem
  clear_path-Inv s order e i = record {
    marked = i.marked;
    apart = i.apart;
    stack_is = λ x. ground (arith, ap (mem x) e);
    path = tt;
    finished = i.finished;
  }

  module _ (fuel : ℕ) (call : Text → Search → Run (Bool × Search))
      (promise : Promise d fuel call) where
    mutual_step :
        (n : Text) (ns : List Text) (s : Search) (old : List Text)
        (next : Search → Run (Bool × List Text))
        → s.rec_stack ≡ []
        → ((t : Search) (order : List Text)
            → Inv d t order
            → t.rec_stack ≡ []
            → Subset s.visited t.visited
            → Returns (Backed order ns) (next t))
        → (r : Bool × Search) → Outcome d (record s { cycle_path = [] }) old (n ∷ []) r
        → Returns (Backed old (n ∷ ns)) (found_or next r)
    mutual_step n ns s old next e go (true, t) h = trim_cycle-IsCycle d t.cycle_path h
    mutual_step n ns s old next e go (false, t) k =
        Backed-cons old k.order n ns (next t) k.later (k.settled n (mem-cons_self n []))
          (go t k.order k.inv (k.same_stack ∙ e) k.grown)

    search_from-Backed :
        (ns : List Text) (s : Search) (order : List Text)
        → Inv d s order
        → s.rec_stack ≡ []
        → ((n : Text) → mem n ns ≡ true → has_key n d.vertices ≡ true)
        → unmarked s.visited (keys d.vertices) < fuel
        → Returns (Backed order ns) (search_from call ns s)
    unfolding search_from mem
    search_from-Backed [] s order i e known m = (order, i.finished, λ x h. h, λ x h. cc, refl)
    search_from-Backed (n ∷ ns) s order i e known m = elim (Bool-cases (mem n s.visited)) [
      | inl old ↦ rw old (
          Backed-cons order order n ns (search_from call ns s) (λ x h. h)
            (ground (arith, i.marked n, ap (mem n) e)) (search_from-Backed ns s order i e later m))
      | inr new ↦ rw new (
          >>=-Returns (Outcome d (record s { cycle_path = [] }) order (n ∷ []))
            (Backed order (n ∷ ns)) (call n (record s { cycle_path = [] }))
            (found_or (search_from call ns))
            (promise n (record s { cycle_path = [] }) order (clear_path-Inv s order e i)
              (record { known = known n (mem-cons_self n ns); path = tt }) new m)
            (mutual_step n ns s order (search_from call ns) e λ t order' j e' grown.
              search_from-Backed ns t order' j e' later
                (omega (arith, m, unmarked_mono s.visited t.visited (keys d.vertices) grown))))
    ]
      where
        later : (x : Text) → mem x ns ≡ true → has_key x d.vertices ≡ true
        later x h = known x (Subset-cons n ns x h)

  has_cycle-Backed : IsWellFormed d → Returns (Backed [] (keys d.vertices)) (has_cycle d)
  unfolding has_cycle mem
  has_cycle-Backed w =
      search_from-Backed (fuel_for d) (dfs d (fuel_for d)) (dfs-Promise d w.edge_known (fuel_for d))
        (keys d.vertices) unsearched [] start refl (λ n h. sym (mem-keys n d.vertices) ∙ h)
        (omega (arith, unmarked-le-length [] (keys d.vertices)))
    where
      start : Inv d unsearched []
      start = record {
        marked = λ x. refl;
        apart = λ x h. cc;
        stack_is = λ x. refl;
        path = tt;
        finished = tt;
      }

-- What a caller relies on: `true` comes with a cycle, `false` with an acyclic graph and with a
-- rank that falls along every edge.
abbrev pub Answers : DirectedAcyclicGraph → Bool × List Text → Type 0
Answers d (true, c) = IsCycle d c
Answers d (false, c) = Acyclic d × ((r : Text → ℕ) × Ranks d r) × (c ≡ [])

Backed→Answers :
    (d : DirectedAcyclicGraph) (m : Run (Bool × List Text))
    → Returns (Backed d [] (keys d.vertices)) m
    → Returns (Answers d) m
Backed→Answers d (done (true, c)) b = b
Backed→Answers d (done (false, c)) (order, f, l, a, e) =
    let ranks = IsFinished-Ranks d order f a in
    (Ranks-Acyclic d (rank order) ranks, (rank order, ranks), e)
Backed→Answers d Run.panic b = b
Backed→Answers d Run.out_of_fuel b = b

-- On a well-formed graph `HasCycle` comes back with no panic, whatever the order of the map
-- iteration. If it says true, the path that it returns is a cycle of the graph: it starts and ends
-- at one vertex, and each of its vertices has an edge to the next. If it says false, the path is
-- empty, no vertex reaches itself, and some rank falls along every edge.
pub has_cycle-Answers :
    (d : DirectedAcyclicGraph) → IsWellFormed d → Returns (Answers d) (has_cycle d)
has_cycle-Answers d w = Backed→Answers d (has_cycle d) (has_cycle-Backed d w)
