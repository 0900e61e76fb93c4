-- ===== src/Dag/DepthFirst.antt =====
-- The invariant of the depth-first search of `HasCycle`, kept by `dfs` and by its loop.
use kubernetes_resource_orch.Common.{
  ℕ, zero, suc, ◌+◌, ◌≤◌, ◌<◌, ◌≡◌, refl, sym, ap, subst, ◌∙◌, Bool, true, false, ◌||◌, inl, inr,
  List, [], ◌∷◌, ◌++◌, if◌then◌else◌, Bool-cases, Option-cases, length, arith, Text, text_eq_iff,
  text_eq_refl, mem, mem-append, mem-cons_self, Subset, remove, remove_absent, drop_last-concat,
  lookup, keys, has_key, mem-keys, Run, done, panic, out_of_fuel, drop_last, Returns, >>=-Returns,
}
use kubernetes_resource_orch.Dag.{
  DirectedAcyclicGraph, successors, Search, enter, leave, stop_or, scan, dfs,
}
use kubernetes_resource_orch.Dag.Graph.{Edge, IsPath, IsPath-concat, IsFinished}

-- How many of the keys are not yet marked.
unfoldable pub unmarked : List Text → List Text → ℕ
unmarked marked [] = 0
unmarked marked (k ∷ ks) = (if mem k marked then 0 else 1) + unmarked marked ks

pub unmarked-le-length : (marked ks : List Text) → unmarked marked ks ≤ length ks
unfolding unmarked
unmarked-le-length marked [] = omega arith
unmarked-le-length marked (k ∷ ks) = ground (arith, unmarked-le-length marked ks)

pub unmarked_mono :
    (marked more ks : List Text) → Subset marked more → unmarked more ks ≤ unmarked marked ks
unfolding unmarked
unmarked_mono marked more [] h = omega arith
unmarked_mono marked more (k ∷ ks) h = ground (arith, h k, unmarked_mono marked more ks h)

pub Subset-cons : (x : Text) (xs : List Text) → Subset xs (x ∷ xs)
unfolding mem
Subset-cons x xs y h = ground (arith, h)

pub unmarked_falls :
    (n : Text) (marked ks : List Text)
    → mem n ks ≡ true
    → mem n marked ≡ false
    → unmarked (n ∷ marked) ks < unmarked marked ks
unfolding unmarked mem
unmarked_falls n marked [] m a = cc
unmarked_falls n marked (k ∷ ks) m a = ground (
  arith,
  text_eq_iff n k,
  text_eq_refl n,
  unmarked_mono marked (n ∷ marked) ks (Subset-cons n marked),
  unmarked_falls n marked ks,
)

-- A path whose last vertex stands in it before.
abbrev pub IsFound : DirectedAcyclicGraph → List Text → Type 0
IsFound d p = (q : List Text) × (n : Text) × (p ≡ q ++ n ∷ []) × (mem n q ≡ true) × IsPath d p

module _ (d : DirectedAcyclicGraph) where
  -- A marked vertex is on the stack or finished. The stack is a path in the graph.
  pub record Inv (s : Search) (order : List Text) : Type 0 where
    pub marked : (x : Text) → mem x s.visited ≡ (mem x s.rec_stack || mem x order)
    pub apart : (x : Text) → mem x s.rec_stack ≡ true → mem x order ≡ false
    pub stack_is : (x : Text) → mem x s.rec_stack ≡ mem x s.cycle_path
    pub path : IsPath d s.cycle_path
    pub finished : IsFinished d order

  -- The search may go on from `s` to a vertex `n`.
  pub record IsNext (s : Search) (n : Text) : Type 0 where
    pub known : has_key n d.vertices ≡ true
    pub path : IsPath d (s.cycle_path ++ n ∷ [])

  -- What a search with no find from `s` leaves behind: the vertices `ns` are finished.
  pub record Kept (s : Search) (old ns : List Text) (after : Search) : Type 0 where
    pub order : List Text
    pub inv : Inv after order
    pub same_stack : after.rec_stack ≡ s.rec_stack
    pub same_path : after.cycle_path ≡ s.cycle_path
    pub grown : Subset s.visited after.visited
    pub later : Subset old order
    pub settled : Subset ns order

  abbrev pub Outcome : Search → List Text → List Text → Bool × Search → Type 0
  Outcome s old ns (true, after) = IsFound d after.cycle_path
  Outcome s old ns (false, after) = Kept s old ns after

  -- What a call on one vertex promises.
  abbrev pub Promise : ℕ → (Text → Search → Run (Bool × Search)) → Type 0
  Promise fuel call =
      (n : Text) (s : Search) (order : List Text)
      → Inv s order
      → IsNext s n
      → mem n s.visited ≡ false
      → unmarked s.visited (keys d.vertices) < fuel
      → Returns (Outcome s order (n ∷ [])) (call n s)

  Kept-nil : (s : Search) (order : List Text) → Inv s order → Kept s order [] s
  unfolding mem
  Kept-nil s order i = record {
    order = order;
    inv = i;
    same_stack = refl;
    same_path = refl;
    grown = λ x h. h;
    later = λ x h. h;
    settled = λ x h. cc;
  }

  Kept-trans :
      (s t u : Search) (old : List Text) (n : Text) (ns : List Text)
      → (k : Kept s old (n ∷ []) t) → Kept t k.order ns u
      → Kept s old (n ∷ ns) u
  unfolding mem
  Kept-trans s t u old n ns k l = record {
    order = l.order;
    inv = l.inv;
    same_stack = l.same_stack ∙ k.same_stack;
    same_path = l.same_path ∙ k.same_path;
    grown = λ x h. l.grown x (k.grown x h);
    later = λ x h. l.later x (k.later x h);
    settled = λ x h. ground (arith, k.settled x, l.later x, l.settled x, h);
  }

  -- A vertex that is marked and not on the stack is finished already.
  Kept-skip :
      (s : Search) (order : List Text) (n : Text)
      → Inv s order
      → mem n s.visited ≡ true
      → mem n s.rec_stack ≡ false
      → Kept s order (n ∷ []) s
  unfolding mem
  Kept-skip s order n i v r = record {
    order = order;
    inv = i;
    same_stack = refl;
    same_path = refl;
    grown = λ x h. h;
    later = λ x h. h;
    settled = λ x h. ground (arith, i.marked n, text_eq_iff x n, h);
  }

  IsNext-same : (s t : Search) (n : Text) → t.cycle_path ≡ s.cycle_path → IsNext s n → IsNext t n
  IsNext-same s t n e h = record { known = h.known; path = rw e h.path }

  abbrev AllNext : Search → List Text → Type 0
  AllNext s ns = (n : Text) → mem n ns ≡ true → IsNext s n

  Outcome-trans :
      (s t : Search) (old : List Text) (n : Text) (ns : List Text) (m : Run (Bool × Search))
      → (k : Kept s old (n ∷ []) t) → Returns (Outcome t k.order ns) m
      → Returns (Outcome s old (n ∷ ns)) m
  Outcome-trans s t old n ns (done (true, u)) k h = h
  Outcome-trans s t old n ns (done (false, u)) k h = Kept-trans s t u old n ns k h
  Outcome-trans s t old n ns panic k h = h
  Outcome-trans s t old n ns out_of_fuel k h = h

  stop_or-Outcome :
      (s : Search) (old : List Text) (n : Text) (ns : List Text)
      (next : Search → Run (Bool × Search))
      → ((t : Search) (k : Kept s old (n ∷ []) t) → Returns (Outcome t k.order ns) (next t))
      → (r : Bool × Search) → Outcome s old (n ∷ []) r
      → Returns (Outcome s old (n ∷ ns)) (stop_or next r)
  stop_or-Outcome s old n ns next goes (true, t) h = h
  stop_or-Outcome s old n ns next goes (false, t) k =
      Outcome-trans s t old n ns (next t) k (goes t k)

  module _ (fuel : ℕ) (call : Text → Search → Run (Bool × Search))
      (promise : Promise fuel call) where
    pub scan-Outcome :
        (ns : List Text) (s : Search) (order : List Text)
        → Inv s order
        → AllNext s ns
        → unmarked s.visited (keys d.vertices) < fuel
        → Returns (Outcome s order ns) (scan call ns s)
    unfolding scan Kept-skip
    scan-Outcome [] s order i next m = Kept-nil s order i
    scan-Outcome (n ∷ ns) s order i next m = elim (Bool-cases (mem n s.visited)) [
      | inl old ↦ elim (Bool-cases (mem n s.rec_stack)) [
        | inl on ↦
            rw (old, on)
              (
                s.cycle_path,
                n,
                refl,
                ground (arith, i.stack_is n, on),
                (next n (mem-cons_self n ns)).path,
              )
        | inr off ↦
            rw (old, off)
              (Outcome-trans s s order n ns (scan call ns s) (Kept-skip s order n i old off)
                (scan-Outcome ns s order i (λ x h. next x (later x h)) m))
      ]
      | inr new ↦ rw new (
          >>=-Returns (Outcome s order (n ∷ [])) (Outcome s order (n ∷ ns)) (call n s)
            (stop_or (scan call ns)) (promise n s order i (next n (mem-cons_self n ns)) new m)
            (stop_or-Outcome s order n ns (scan call ns) (λ t k.
              scan-Outcome ns t k.order k.inv
                (λ x h. IsNext-same s t x k.same_path (next x (later x h)))
                (omega (arith, m, unmarked_mono s.visited t.visited (keys d.vertices) k.grown)))))
    ]
      where
        later : (x : Text) → mem x ns ≡ true → mem x (n ∷ ns) ≡ true
        later = Subset-cons n ns

  enter-Inv :
      (n : Text) (s : Search) (order : List Text)
      → Inv s order
      → IsNext s n
      → mem n s.visited ≡ false
      → Inv (enter n s) order
  unfolding mem
  enter-Inv n s order i next new = record {
    marked = λ x. ground (arith, i.marked x);
    apart = λ x h. ground (arith, i.apart x, i.marked n, text_eq_iff x n);
    stack_is = λ x. ground (arith, i.stack_is x, mem-append x s.cycle_path (n ∷ []));
    path = next.path;
    finished = i.finished;
  }

  -- The end of `dfs`, after a loop with no find over the children of `n`.
  leave-Kept :
      (n : Text) (s t : Search) (old ns : List Text)
      → Inv s old
      → mem n s.visited ≡ false
      → ns ≡ successors d n
      → Kept (enter n s) old ns t
      → Kept s old (n ∷ []) (leave n t)
  unfolding mem remove
  leave-Kept n s t old ns i new e k = record {
    order = n ∷ k.order;
    inv = record {
      marked = λ x. ground (arith, k.inv.marked x, ap (mem x) k.same_stack, ap (mem x) restack);
      apart = λ x h. ground (
        arith,
        k.inv.apart x,
        i.marked n,
        ap (mem x) k.same_stack,
        ap (mem x) restack,
        text_eq_iff x n,
      );
      stack_is = λ x. ground (arith, i.stack_is x, ap (mem x) restack, ap (mem x) repath);
      path = subst (IsPath d) (sym repath) i.path;
      finished = (
        ground (arith, k.inv.apart n, ap (mem n) k.same_stack, text_eq_refl n),
        subst (λ l. Subset l k.order) e k.settled,
        k.inv.finished,
      );
    };
    same_stack = restack;
    same_path = repath;
    grown = λ x h. ground (arith, k.grown x);
    later = λ x h. ground (arith, k.later x);
    settled = λ x h. ground arith;
  }
    where
      restack : remove n t.rec_stack ≡ s.rec_stack
      restack =
          rw k.same_stack (ground (arith, text_eq_refl n, remove_absent n s.rec_stack, i.marked n))

      repath : drop_last t.cycle_path ≡ s.cycle_path
      repath = ap drop_last k.same_path ∙ drop_last-concat s.cycle_path n

  leave_or :
      (n : Text) (s : Search) (old ns : List Text)
      → Inv s old
      → mem n s.visited ≡ false
      → ns ≡ successors d n
      → (r : Bool × Search) → Outcome (enter n s) old ns r
      → Returns (Outcome s old (n ∷ [])) (stop_or (λ t. done (false, leave n t)) r)
  leave_or n s old ns i new e (true, t) h = h
  leave_or n s old ns i new e (false, t) k = leave-Kept n s t old ns i new e k

  children-AllNext :
      (n : Text) (s : Search) (es : List Text)
      → IsNext s n
      → es ≡ successors d n
      → ((u v : Text) → Edge d u v → has_key v d.vertices ≡ true)
      → AllNext (enter n s) es
  children-AllNext n s es next e known x h =
      let edge : Edge d n x = subst (λ l. mem x l ≡ true) e h in
      record { known = known n x edge; path = IsPath-concat d s.cycle_path n x next.path edge }

  pub dfs-Promise :
      ((u v : Text) → Edge d u v → has_key v d.vertices ≡ true)
      → (fuel : ℕ) → Promise fuel (dfs d fuel)
  unfolding dfs
  dfs-Promise known zero n s order i next new m = absurd (omega arith)
  dfs-Promise known (suc fuel) n s order i next new m = elim (Option-cases (lookup n d.vertices)) [
    | inl missing ↦ ground (arith, missing, next.known)
    | inr (v, here) ↦
        let e : v.edges ≡ successors d n = rw here in
        rw here (
          >>=-Returns (Outcome (enter n s) order v.edges) (Outcome s order (n ∷ []))
            (scan (dfs d fuel) v.edges (enter n s)) _
            (scan-Outcome fuel (dfs d fuel) (dfs-Promise known fuel) v.edges (enter n s) order
              (enter-Inv n s order i next new) (children-AllNext n s v.edges next e known)
              (omega (arith, m, unmarked_falls n s.visited (keys d.vertices) present new)))
            (leave_or n s order v.edges i new e))
  ]
    where
      present : mem n (keys d.vertices) ≡ true
      present = mem-keys n d.vertices ∙ next.known
