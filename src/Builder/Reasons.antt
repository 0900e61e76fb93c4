-- ===== src/Builder/Reasons.antt =====
-- The resources that an expression reads, and the reasons to refuse a group.
use kubernetes_resource_orch.Common.{
  ◌≡◌, refl, Bool, true, false, ◌&&◌, ◌||◌, List, [], ◌∷◌, ◌++◌, none, some, arith, Text,
  text_eq_iff, text_eq_refl, mem, mem-append, remove, Map, lookup, Result, ok, err,
}
use kubernetes_resource_orch.Dag.{self_reference, cycle_error}
use kubernetes_resource_orch.Runtime.{ResourceField, Resource}
use kubernetes_resource_orch.Builder.{
  ExpressionInspection, Inspector, BuildError, environment_failed, unknown_resources,
  unknown_functions, inspection_failed, unknown_resource, edge_failed, schema, append_new,
}

abbrev pub is_empty : List Text → Bool
is_empty [] = true
is_empty (x ∷ xs) = false

abbrev pub SameMembers : List Text → List Text → Type 0
SameMembers xs ys = (x : Text) → mem x xs ≡ mem x ys

pub SameMembers-is_empty : (xs ys : List Text) → SameMembers xs ys → is_empty xs ≡ is_empty ys
unfolding mem
SameMembers-is_empty [] [] h = refl
SameMembers-is_empty [] (y ∷ ys) h = ground (arith, h y, text_eq_refl y)
SameMembers-is_empty (x ∷ xs) [] h = ground (arith, h x, text_eq_refl x)
SameMembers-is_empty (x ∷ xs) (y ∷ ys) h = refl

pub is_empty-append : (xs ys : List Text) → is_empty (xs ++ ys) ≡ (is_empty xs && is_empty ys)
is_empty-append [] ys = refl
is_empty-append (x ∷ xs) ys = refl

pub mem-append_new :
    (x : Text) (ds ids : List Text) → mem x (append_new ds ids) ≡ (mem x ids || mem x ds)
unfolding append_new mem
mem-append_new x [] ids = ground arith
mem-append_new x (d ∷ ds) ids = ground (
  arith,
  mem-append_new x ds ids,
  mem-append_new x ds (ids ++ d ∷ []),
  mem-append x ids (d ∷ []),
  text_eq_iff x d,
)

module _ (inspector : Inspector) (names : List Text) where
  -- The ids that the inspector finds in an expression, less `schema`.
  abbrev pub reads : Text → List Text
  reads e = elim (inspector.inspect names e) [
    | ok i ↦ remove schema i.resource_dependencies
    | err _ ↦ []
  ]

  abbrev pub reads_of : List Text → List Text
  reads_of [] = []
  reads_of (e ∷ es) = reads e ++ reads_of es

  abbrev pub reads_of_variables : List ResourceField → List Text
  reads_of_variables [] = []
  reads_of_variables (v ∷ vs) = reads_of v.field.expressions ++ reads_of_variables vs

  -- What a resource reads, by its id.
  abbrev pub reads_of_resource : Map Resource → Text → List Text
  reads_of_resource resources u = elim (lookup u resources) [
    | none ↦ []
    | some r ↦ reads_of_variables r.variables
  ]

-- The inspector, the ids that it knows, and which expressions occur in which resource.
pub record Scope : Type 0 where
  pub inspector : Inspector
  pub names : List Text
  pub occurs : Text → Text → Bool

-- A resource that reads another, and so on.
abbrev pub Reads : Scope → Text → Text → Type 0
Reads c u x = (e : Text) × (c.occurs u e ≡ true) × (mem x (reads c.inspector c.names e) ≡ true)

pub data Chain (c : Scope) : Text → Text → Type 0 where
  link : {u v : Text} → Reads c u v → Chain c u v
  chain : {u v w : Text} → Reads c u v → Chain c v w → Chain c u w

-- Some expression of a resource has this inspection.
abbrev pub Inspected : Scope → Result Text ExpressionInspection → Type 0
Inspected c r =
    (u : Text) × (e : Text) × (c.occurs u e ≡ true) × (c.inspector.inspect c.names e ≡ r)

-- What each error says of the resources. `AddVertex` and `TopologicalSort` never fail, and `AddEdge`
-- only for a resource that reads itself and for a cycle.
abbrev pub IsRefusal : Scope → BuildError → Type 0
IsRefusal c (environment_failed m) = c.inspector.environment_error c.names ≡ some m
IsRefusal c (inspection_failed m) = Inspected c (err m)
IsRefusal c (unknown_resource id) =
    (i : ExpressionInspection) × Inspected c (ok i)
    × (mem id i.resource_dependencies ≡ true)
    × (mem id c.names ≡ false)
IsRefusal c (unknown_resources ids) =
    (i : ExpressionInspection) × Inspected c (ok i)
    × (i.unknown_resources ≡ ids)
    × (is_empty ids ≡ false)
IsRefusal c (unknown_functions names) =
    (i : ExpressionInspection) × Inspected c (ok i)
    × (i.unknown_functions ≡ names)
    × (is_empty names ≡ false)
IsRefusal c (edge_failed self_reference) = (u : Text) × Reads c u u
IsRefusal c (edge_failed (cycle_error from to cycle)) = Reads c from to × Chain c to from
IsRefusal c _ = ⊥

abbrev pub OkOrRefusal : Scope → {A : Type 0} → (A → Type 0) → Result BuildError A → Type 0
OkOrRefusal c P (ok a) = P a
OkOrRefusal c P (err e) = IsRefusal c e

pub OkOrRefusal-mono :
    (c : Scope) {A : Type 0} (P Q : A → Type 0) (r : Result BuildError A)
    → ((a : A) → P a → Q a)
    → OkOrRefusal c P r
    → OkOrRefusal c Q r
OkOrRefusal-mono c P Q (ok a) f h = f a h
OkOrRefusal-mono c P Q (err e) f h = h
