-- ===== src/Builder/Wiring.antt =====
-- `buildDependencyGraph` of internal/graph/builder.go: the edges, the dependencies and the kinds that
-- it makes of what the expressions read.
use kubernetes_resource_orch.Common.{
  All, ◌≡◌, refl, ◌∙◌, ap, sym, subst, Bool, true, false, ◌||◌, inl, inr, List, [], ◌∷◌, ◌++◌,
  Bool-cases, arith, Text, text_eq, text_eq_iff, mem, mem-append, has_key, done, Returns,
  Returns-mono, and_then,
}
use kubernetes_resource_orch.Dag.{DirectedAcyclicGraph}
use kubernetes_resource_orch.Runtime.{
  ResourceVariableKind, static, dynamic, ready_when, include_when, ResourceField,
}
use kubernetes_resource_orch.Builder.{
  schema, add_edges, kind_after, Wires, wired, wire_expression, validate_cel_expression_context,
  extract_dependencies, wire_expressions, wire_variables,
}
use kubernetes_resource_orch.Builder.Growth.{
  IsSound, >>=-OkOrRefusal, Grown, Grown-empty, Grown-append, add_edges-Grown,
}
use kubernetes_resource_orch.Builder.Reads.{Finds, accepted-OkOrRefusal}
use kubernetes_resource_orch.Builder.Reasons.{
  Scope, is_empty, mem-append_new, reads, reads_of, reads_of_variables, OkOrRefusal,
  OkOrRefusal-mono,
}

-- What becomes of a variable whose expressions read the ids `xs`: it is marked dynamic if it was
-- static and there are any, and it depends on them.
pub record Marked (v : ResourceField) (xs : List Text) (w : ResourceField) : Type 0 where
  pub field : w.field ≡ v.field
  pub kind : w.kind ≡ kind_after (is_empty xs) v.kind
  pub dependencies : (x : Text) → mem x w.dependencies ≡ (mem x v.dependencies || mem x xs)

kind_after-append :
    (xs ys : List Text) (k : ResourceVariableKind)
    → kind_after (is_empty ys) (kind_after (is_empty xs) k) ≡ kind_after (is_empty (xs ++ ys)) k
kind_after-append [] ys k = refl
kind_after-append (x ∷ xs) [] static = refl
kind_after-append (x ∷ xs) [] dynamic = refl
kind_after-append (x ∷ xs) [] ready_when = refl
kind_after-append (x ∷ xs) [] include_when = refl
kind_after-append (x ∷ xs) (y ∷ ys) static = refl
kind_after-append (x ∷ xs) (y ∷ ys) dynamic = refl
kind_after-append (x ∷ xs) (y ∷ ys) ready_when = refl
kind_after-append (x ∷ xs) (y ∷ ys) include_when = refl

Marked-append :
    (v v' v'' : ResourceField) (xs ys : List Text)
    → Marked v xs v'
    → Marked v' ys v''
    → Marked v (xs ++ ys) v''
Marked-append v v' v'' xs ys m n = record {
  field = n.field ∙ m.field;
  kind = n.kind ∙ ap (kind_after (is_empty ys)) m.kind ∙ kind_after-append xs ys v.kind;
  dependencies = λ x. ground (arith, m.dependencies x, n.dependencies x, mem-append x xs ys);
}

-- All that one or more expressions do that read the ids `xs`.
record Wired (c : Scope) (name : Text) (s : Wires) (xs : List Text) (t : Wires) : Type 0 where
  graph : Grown c s.graph name xs t.graph
  dependencies : (x : Text) → mem x t.dependencies ≡ (mem x s.dependencies || mem x xs)
  variable : Marked s.variable xs t.variable

Wired-append :
    (c : Scope) (name : Text) (s t u : Wires) (xs ys : List Text)
    → Wired c name s xs t
    → Wired c name t ys u
    → Wired c name s (xs ++ ys) u
Wired-append c name s t u xs ys w z = record {
  graph = Grown-append c s.graph t.graph u.graph name xs ys w.graph z.graph;
  dependencies = λ x. ground (arith, w.dependencies x, z.dependencies x, mem-append x xs ys);
  variable = Marked-append s.variable t.variable u.variable xs ys w.variable z.variable;
}

-- The ids that the environment knows are vertices, but for `schema`.
abbrev pub AreVertices : List Text → DirectedAcyclicGraph → Type 0
AreVertices names d =
    (x : Text) → mem x names ≡ true → text_eq x schema ≡ false → has_key x d.vertices ≡ true

-- What the loops need of the graph.
pub record IsReady (c : Scope) (name : Text) (d : DirectedAcyclicGraph) : Type 0 where
  pub sound : IsSound c d
  pub vertex : has_key name d.vertices ≡ true
  pub vertices : AreVertices c.names d

Grown-IsReady :
    (c : Scope) (name other : Text) (xs : List Text) (d d' : DirectedAcyclicGraph)
    → IsReady c name d
    → Grown c d other xs d'
    → IsReady c name d'
Grown-IsReady c name other xs d d' r g = record {
  sound = g.sound;
  vertex = g.same name ∙ r.vertex;
  vertices = λ x m k. g.same x ∙ r.vertices x m k;
}

wired-Wired :
    (c : Scope) (names xs deps : List Text) (is_static_expression : Bool) (name : Text) (s : Wires)
    (d : DirectedAcyclicGraph)
    → Finds names xs deps is_static_expression
    → Grown c s.graph name deps d
    → Wired c name s xs (wired (deps, is_static_expression) d s)
wired-Wired c names xs deps b name s d f g = record {
  graph = record {
    sound = g.sound;
    same = g.same;
    edges = λ u x. ground (arith, g.edges u x, f.same x);
  };
  dependencies = λ x. ground (arith, mem-append_new x deps s.dependencies, f.same x);
  variable = record {
    field = refl;
    kind = ap (λ b. kind_after b s.variable.kind) f.static_if_none;
    dependencies = λ x. ground (arith, mem-append_new x deps s.variable.dependencies, f.same x);
  };
}

Finds-vertices :
    (names xs deps : List Text) (b : Bool) (d : DirectedAcyclicGraph)
    → Finds names xs deps b
    → AreVertices names d
    → (x : Text) → mem x deps ≡ true
    → has_key x d.vertices ≡ true
Finds-vertices names xs deps b d f vertices x m = elim (Bool-cases (text_eq x schema)) [
  | inr other ↦ vertices x (f.known x m) other
  | inl same ↦ absurd (
      ground
        (arith, subst (λ y. mem y deps ≡ true) ((text_eq_iff x schema).0 same) m, f.not_schema))
]

module _ (c : Scope) where
  wire_expression-Wired :
      (name e : Text) (s : Wires)
      → c.occurs name e ≡ true
      → IsReady c name s.graph
      → Returns
          (OkOrRefusal c (Wired c name s (reads c.inspector c.names e)))
          (wire_expression c.inspector c.names name e s)
  unfolding wire_expression
  wire_expression-Wired name e s occurs ready =
      >>=-OkOrRefusal c (λ found. Finds c.names (reads c.inspector c.names e) found.0 found.1) _
        (done (
          and_then (validate_cel_expression_context c.inspector c.names e)
            (λ _. extract_dependencies c.inspector c.names e)))
        _ (accepted-OkOrRefusal c name e occurs)
        (λ found f.
          >>=-OkOrRefusal c (Grown c s.graph name found.0) _ (add_edges name found.0 s.graph) _
            (add_edges-Grown c name found.0 s.graph ready.sound ready.vertex (λ x m. (
              Finds-vertices c.names _ found.0 found.1 s.graph f ready.vertices x m,
              (e, occurs, sym (f.same x) ∙ m),
            )))
            (λ d g. wired-Wired c c.names _ found.0 found.1 name s d f g))

  wire_expressions-Wired :
      (name : Text) (es : List Text) (s : Wires)
      → All (λ e. c.occurs name e ≡ true) es
      → IsReady c name s.graph
      → Returns
          (OkOrRefusal c (Wired c name s (reads_of c.inspector c.names es)))
          (wire_expressions c.inspector c.names name es s)
  unfolding wire_expressions mem
  wire_expressions-Wired name [] s all ready = record {
    graph = Grown-empty c s.graph name ready.sound;
    dependencies = λ x. ground arith;
    variable = record { field = refl; kind = refl; dependencies = λ x. ground arith };
  }
  wire_expressions-Wired name (e ∷ es) s all ready =
      >>=-OkOrRefusal c (Wired c name s (reads c.inspector c.names e)) _
        (wire_expression c.inspector c.names name e s) _
        (wire_expression-Wired name e s all.0 ready)
        (λ t w.
          Returns-mono (OkOrRefusal c (Wired c name t (reads_of c.inspector c.names es))) _
            (wire_expressions c.inspector c.names name es t)
            (λ r. OkOrRefusal-mono c _ _ r (λ u z.
              Wired-append c name s t u (reads c.inspector c.names e)
                (reads_of c.inspector c.names es) w z))
            (wire_expressions-Wired name es t all.1
              (Grown-IsReady c name name _ s.graph t.graph ready w.graph)))

  -- The variables of a resource, each with what its own expressions read.
  abbrev pub AllMarked : List ResourceField → List ResourceField → Type 0
  AllMarked [] [] = Unit
  AllMarked (v ∷ vs) (w ∷ ws) =
      Marked v (reads_of c.inspector c.names v.field.expressions) w × AllMarked vs ws
  AllMarked _ _ = ⊥

  pub record Completed (name : Text) (vs : List ResourceField) (d : DirectedAcyclicGraph)
      (deps : List Text) (t : DirectedAcyclicGraph × List Text × List ResourceField) : Type 0 where
    pub graph : Grown c d name (reads_of_variables c.inspector c.names vs) t.0
    pub dependencies :
        (x : Text) → mem x t.1 ≡ (mem x deps || mem x (reads_of_variables c.inspector c.names vs))
    pub variables : AllMarked vs t.2

  abbrev pub AllOccur : Text → List ResourceField → Type 0
  AllOccur name vs = All (λ v. All (λ e. c.occurs name e ≡ true) v.field.expressions) vs

  pub wire_variables-Completed :
      (name : Text) (vs : List ResourceField) (d : DirectedAcyclicGraph) (deps : List Text)
      → AllOccur name vs
      → IsReady c name d
      → Returns
          (OkOrRefusal c (Completed name vs d deps))
          (wire_variables c.inspector c.names name vs d deps)
  unfolding wire_variables mem
  wire_variables-Completed name [] d deps all ready = record {
    graph = Grown-empty c d name ready.sound;
    dependencies = λ x. ground arith;
    variables = tt;
  }
  wire_variables-Completed name (v ∷ vs) d deps all ready =
      let start : Wires = record { graph = d; dependencies = deps; variable = v } in
      >>=-OkOrRefusal c (Wired c name start (reads_of c.inspector c.names v.field.expressions)) _
        (wire_expressions c.inspector c.names name v.field.expressions start) _
        (wire_expressions-Wired name v.field.expressions start all.0 ready)
        (λ s w.
          >>=-OkOrRefusal c (Completed name vs s.graph s.dependencies) _
            (wire_variables c.inspector c.names name vs s.graph s.dependencies) _
            (wire_variables-Completed name vs s.graph s.dependencies all.1
              (Grown-IsReady c name name _ d s.graph ready w.graph))
            (λ t z. record {
              graph = Grown-append c d s.graph t.0 name _ _ w.graph z.graph;
              dependencies = λ x. ground (
                arith,
                w.dependencies x,
                z.dependencies x,
                mem-append x (reads_of c.inspector c.names v.field.expressions)
                    (reads_of_variables c.inspector c.names vs),
              );
              variables = (w.variable, z.variables);
            }))
