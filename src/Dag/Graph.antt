-- ===== src/Dag/Graph.antt =====
-- Edges, walks and cycles of a graph, and what rules cycles out.
use kubernetes_resource_orch.Common.{
  ℕ, suc, ◌≤◌, ◌<◌, ◌≡◌, subst, true, false, inl, inr, List, [], ◌∷◌, ◌++◌, some, if◌then◌else◌,
  Bool-cases, length, arith, Text, text_eq, text_eq_iff, mem, Subset, Nodup, lookup, keys, has_key,
  mem-keys,
}
use kubernetes_resource_orch.Dag.{Vertex, DirectedAcyclicGraph, successors}

abbrev pub Edge : DirectedAcyclicGraph → Text → Text → Type 0
Edge d u v = mem v (successors d u) ≡ true

-- What every graph that the operations build satisfies: an edge leads to a vertex of the graph, a
-- vertex is stored under its id, and no key is stored twice.
pub record IsWellFormed (d : DirectedAcyclicGraph) : Type 0 where
  pub edge_known : (u v : Text) → Edge d u v → has_key v d.vertices ≡ true
  pub id_is_key : (k : Text) (v : Vertex) → lookup k d.vertices ≡ some v → v.id ≡ k
  pub keys_nodup : Nodup (keys d.vertices)

-- One or more edges, one behind the other.
pub data Walk (d : DirectedAcyclicGraph) : Text → Text → Type 0 where
  one : {u v : Text} → Edge d u v → Walk d u v
  step : {u v w : Text} → Edge d u v → Walk d v w → Walk d u w

abbrev pub Acyclic : DirectedAcyclicGraph → Type 0
Acyclic d = (v : Text) → ¬ Walk d v v

-- Each vertex of the list has an edge to the next.
abbrev pub IsPath : DirectedAcyclicGraph → List Text → Type 0
IsPath d [] = Unit
IsPath d (u ∷ []) = Unit
IsPath d (u ∷ v ∷ vs) = Edge d u v × IsPath d (v ∷ vs)

-- A closed path: it ends where it starts, after at least one edge.
abbrev pub IsCycle : DirectedAcyclicGraph → List Text → Type 0
IsCycle d c = (x : Text) × (mid : List Text) × (c ≡ x ∷ (mid ++ x ∷ [])) × IsPath d c

pub IsPath-tail :
    (d : DirectedAcyclicGraph) (x : Text) (p : List Text) → IsPath d (x ∷ p) → IsPath d p
IsPath-tail d x [] h = tt
IsPath-tail d x (y ∷ p) h = h.1

pub IsPath-init :
    (d : DirectedAcyclicGraph) (p : List Text) (x : Text) → IsPath d (p ++ x ∷ []) → IsPath d p
IsPath-init d [] x h = tt
IsPath-init d (u ∷ []) x h = tt
IsPath-init d (u ∷ v ∷ vs) x h = (h.0, IsPath-init d (v ∷ vs) x h.1)

pub IsPath-concat :
    (d : DirectedAcyclicGraph) (p : List Text) (u v : Text)
    → IsPath d (p ++ u ∷ [])
    → Edge d u v
    → IsPath d ((p ++ u ∷ []) ++ v ∷ [])
IsPath-concat d [] u v h e = (e, tt)
IsPath-concat d (x ∷ []) u v h e = (h.0, (e, tt))
IsPath-concat d (x ∷ y ∷ ys) u v h e = (h.0, IsPath-concat d (y ∷ ys) u v h.1 e)

IsPath-Walk :
    (d : DirectedAcyclicGraph) (x : Text) (mid : List Text) (y : Text)
    → IsPath d (x ∷ (mid ++ y ∷ []))
    → Walk d x y
IsPath-Walk d x [] y h = one h.0
IsPath-Walk d x (m ∷ ms) y h = step h.0 (IsPath-Walk d m ms y h.1)

pub IsCycle-Walk :
    (d : DirectedAcyclicGraph) (c : List Text) → IsCycle d c → (v : Text) × Walk d v v
IsCycle-Walk d c (x, mid, e, h) = (x, IsPath-Walk d x mid x (subst (IsPath d) e h))

-- A list of vertices, the last one that was finished in front: the children of each stand behind it.
abbrev pub IsFinished : DirectedAcyclicGraph → List Text → Type 0
IsFinished d [] = Unit
IsFinished d (n ∷ ns) = (mem n ns ≡ false) × Subset (successors d n) ns × IsFinished d ns

-- The place of a vertex in such a list, counted from its end.
unfoldable pub rank : List Text → Text → ℕ
rank [] x = 0
rank (y ∷ ys) x = if text_eq x y then suc (length ys) else rank ys x

rank-le : (ys : List Text) (x : Text) → rank ys x ≤ length ys
unfolding rank
rank-le [] x = omega arith
rank-le (y ∷ ys) x = ground (arith, rank-le ys x)

-- A rank that falls along every edge.
abbrev pub Ranks : DirectedAcyclicGraph → (Text → ℕ) → Type 0
Ranks d r = (u v : Text) → Edge d u v → r v < r u

IsFinished-rank :
    (d : DirectedAcyclicGraph) (ns : List Text) (u v : Text)
    → IsFinished d ns
    → mem u ns ≡ true
    → Edge d u v
    → (rank ns v < rank ns u) × (mem v ns ≡ true)
unfolding rank mem
IsFinished-rank d [] u v f m e = cc
IsFinished-rank d (n ∷ ns) u v f m e = elim (Bool-cases (text_eq u n)) [
  | inl same ↦
      let here : mem v ns ≡ true = f.1 v (subst (λ k. Edge d k v) ((text_eq_iff u n).0 same) e) in
      ground (arith, same, here, f.0, rank-le ns v, text_eq_iff v n)
  | inr other ↦
      ground (arith, other, f.0, text_eq_iff v n, IsFinished-rank d ns u v f.2 (ground arith) e)
]

-- If all vertices can be finished in some order, a rank falls along every edge.
pub IsFinished-Ranks :
    (d : DirectedAcyclicGraph) (ns : List Text)
    → IsFinished d ns
    → Subset (keys d.vertices) ns
    → Ranks d (rank ns)
unfolding mem
IsFinished-Ranks d ns f all u v e = (IsFinished-rank d ns u v f (all u (source u e)) e).0
  where
    source : (u : Text) → Edge d u v → mem u (keys d.vertices) ≡ true
    source u e = ground (arith, mem-keys u d.vertices)

Ranks-Walk :
    (d : DirectedAcyclicGraph) (r : Text → ℕ) → Ranks d r → {u v : Text} → Walk d u v → r v < r u
Ranks-Walk d r h (one {u} {v} e) = h u v e
Ranks-Walk d r h (step {u} {v} e w) = omega (arith, h u v e, Ranks-Walk d r h w)

pub Ranks-Acyclic : (d : DirectedAcyclicGraph) (r : Text → ℕ) → Ranks d r → Acyclic d
Ranks-Acyclic d r h v w = absurd (omega (arith, Ranks-Walk d r h w))
