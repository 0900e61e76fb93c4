-- ===== src/Runtime/Collected.antt =====
-- internal/runtime/runtime.go, `NewResourceGroupRuntime`: which expressions the cache and the variables
-- of a new runtime point to.
use kubernetes_resource_orch.Common.{
  ℕ, zero, suc, ◌<◌, ◌≡◌, refl, sym, ap, ◌∙◌, Bool, true, false, ◌||◌, inl, inr, List, [], ◌∷◌,
  ◌++◌, map, Option, none, some, if◌then◌else◌, Bool-cases, All, arith, length, get_elem?, Text,
  text_eq, text_eq_iff, mem, mem-append, Map, lookup, lookup-insert, has_key,
}
use mathlib.Core.List.{append_assoc, append-nil, map-append}
use kubernetes_resource_orch.Runtime.{
  Resource, ResourceField, ResourceVariableKind, ready_when, ExpressionEvaluationState,
  ResourceGroupRuntime, instance_id, addresses_of,
}
use kubernetes_resource_orch.Runtime.Collect.{
  add_variable, new_state, allocate, collect_cached, collect_expression, collect_expressions,
  collect_variables, collect_ready_when, collect_resources, empty_runtime, collect,
}
use kubernetes_resource_orch.Runtime.Linked.{
  IsLinked, cached-lookup, allocate-IsLinked, collect_expression-IsLinked, empty-IsLinked,
}

-- The expression of the cell at an address.
abbrev pub expression_at : List ExpressionEvaluationState → ℕ → Option Text
expression_at store a = elim (get_elem? store a) [ none ↦ none | some v ↦ some v.expression ]

-- The expressions that the variables of a resource point to, in order.
abbrev pub expressions_at : ResourceGroupRuntime → Text → List (Option Text)
expressions_at rt id = map (expression_at rt.store) (addresses_of (lookup id rt.runtime_variables))

-- The expressions of the variables, in order.
abbrev pub expressions_of : List ResourceField → List Text
expressions_of [] = []
expressions_of (v ∷ vs) = v.field.expressions ++ expressions_of vs

abbrev pub if_same : Text → List Text → Text → List Text
if_same id es j = if text_eq j id then es else []

abbrev pub expressions_of_resource : Map Resource → Text → List Text
expressions_of_resource [] j = []
expressions_of_resource ((id, r) ∷ rs) j =
    if_same id (expressions_of r.variables) j ++ expressions_of_resource rs j

-- Those and the readyWhen expressions.
abbrev pub expressions_to_cache : Map Resource → List Text
expressions_to_cache [] = []
expressions_to_cache ((id, r) ∷ rs) =
    (expressions_of r.variables ++ r.ready_when_expressions) ++ expressions_to_cache rs

-- What a step adds: expressions to the cache, and pointers to the variables of each resource.
pub record Extends (rt : ResourceGroupRuntime) (xs : List Text) (f : Text → List Text)
    (rt' : ResourceGroupRuntime) : Type 0 where
  pub linked : IsLinked rt'
  pub cached :
      (x : Text) → has_key x rt'.expressions_cache ≡ (has_key x rt.expressions_cache || mem x xs)
  pub pointed : (j : Text) → expressions_at rt' j ≡ expressions_at rt j ++ map (λ e. some e) (f j)

abbrev nothing : Text → List Text
nothing j = []

Extends-refl : (rt : ResourceGroupRuntime) → IsLinked rt → Extends rt [] nothing rt
unfolding mem
Extends-refl rt h = record {
  linked = h;
  cached = λ x. ground arith;
  pointed = λ j. sym (append-nil (expressions_at rt j));
}

Extends-trans :
    (rt mid rt' : ResourceGroupRuntime) (xs ys : List Text) (f g h : Text → List Text)
    → Extends rt xs f mid
    → Extends mid ys g rt'
    → ((j : Text) → h j ≡ f j ++ g j)
    → Extends rt (xs ++ ys) h rt'
Extends-trans rt mid rt' xs ys f g h a b same = record {
  linked = b.linked;
  cached = λ x. ground (arith, a.cached x, b.cached x, mem-append x xs ys);
  pointed = λ j.
      b.pointed j
      ∙ ap (λ l. l ++ map (λ e. some e) (g j)) (a.pointed j)
      ∙ append_assoc (expressions_at rt j) (map (λ e. some e) (f j)) (map (λ e. some e) (g j))
      ∙ ap (λ l. expressions_at rt j ++ l)
          (sym (ap (map (λ e. some e)) (same j) ∙ map-append (λ e. some e) (f j) (g j)));
}

if_same-append :
    (id : Text) (xs ys : List Text) (j : Text)
    → if_same id (xs ++ ys) j ≡ if_same id xs j ++ if_same id ys j
if_same-append id xs ys j = go (text_eq j id)
  where
    go :
        (b : Bool) → (if b then xs ++ ys else []) ≡ (if b then xs else []) ++ (if b then ys else [])
    go true = refl
    go false = refl

if_same-nil : (id j : Text) → [] ≡ if_same id [] j
if_same-nil id j = go (text_eq j id)
  where
    go : (b : Bool) → ◌≡◌ {A = List Text} [] (if b then [] else [])
    go true = refl
    go false = refl

Extends-same :
    (rt : ResourceGroupRuntime) (id : Text)
    → Extends rt [] nothing rt
    → Extends rt [] (if_same id []) rt
Extends-same rt id h = record {
  linked = h.linked;
  cached = h.cached;
  pointed =
      λ j. h.pointed j ∙ ap (λ l. expressions_at rt j ++ map (λ e. some e) l) (if_same-nil id j);
}

expression_at-append :
    (cells more : List ExpressionEvaluationState) (a : ℕ)
    → a < length cells
    → expression_at (cells ++ more) a ≡ expression_at cells a
expression_at-append [] more a below = absurd (omega (arith, below))
expression_at-append (c ∷ cells) more zero below = refl
expression_at-append (c ∷ cells) more (suc a) below =
    expression_at-append cells more a (omega (arith, below))

expression_at-get :
    (cells : List ExpressionEvaluationState) (a : ℕ) {v : ExpressionEvaluationState}
    → get_elem? cells a ≡ some v
    → expression_at cells a ≡ some v.expression
expression_at-get cells a there =
    ap (λ o. elim o as (λ _. Option Text) [ none ↦ none | some v ↦ some v.expression ]) there

expression_at-last :
    (cells : List ExpressionEvaluationState) (v : ExpressionEvaluationState)
    → expression_at (cells ++ v ∷ []) (length cells) ≡ some v.expression
expression_at-last [] v = refl
expression_at-last (c ∷ cells) v = expression_at-last cells v

map-expression_at :
    (cells more : List ExpressionEvaluationState) (addresses : List ℕ)
    → All (λ a. a < length cells) addresses
    → map (expression_at (cells ++ more)) addresses ≡ map (expression_at cells) addresses
map-expression_at cells more [] h = refl
map-expression_at cells more (a ∷ addresses) h =
    ap (λ x. x ∷ map (expression_at (cells ++ more)) addresses)
      (expression_at-append cells more a h.0)
    ∙ ap (λ l. expression_at cells a ∷ l) (map-expression_at cells more addresses h.1)

allocate-Extends :
    (expr : Text) (deps : List Text) (kind : ResourceVariableKind) (rt : ResourceGroupRuntime)
    → IsLinked rt
    → Extends rt (expr ∷ []) nothing (allocate expr deps kind rt)
unfolding allocate mem
allocate-Extends expr deps kind rt h = record {
  linked = allocate-IsLinked expr deps kind rt h;
  cached = λ x. ground (arith, lookup-insert expr x (length rt.store) rt.expressions_cache);
  pointed = λ j.
      map-expression_at rt.store (new_state expr deps kind ∷ [])
        (addresses_of (lookup j rt.runtime_variables)) (h.variables j)
      ∙ sym (append-nil (expressions_at rt j));
}

add_variable-pointed :
    (id : Text) (a : ℕ) (expr : Text) (rt : ResourceGroupRuntime)
    → expression_at rt.store a ≡ some expr
    → (j : Text)
    → expressions_at (add_variable id a rt) j
      ≡ expressions_at rt j ++ map (λ e. some e) (if_same id (expr ∷ []) j)
add_variable-pointed id a expr rt here j =
    ap (λ o. map (expression_at rt.store) (addresses_of o))
      (lookup-insert id j (addresses_of (lookup id rt.runtime_variables) ++ a ∷ [])
        rt.runtime_variables)
    ∙ elim (Bool-cases (text_eq j id)) [
      | inl same ↦ rw same (
          map-append (expression_at rt.store) (addresses_of (lookup id rt.runtime_variables))
            (a ∷ [])
          ∙ rw ((text_eq_iff j id).0 same, here) refl)
      | inr other ↦ rw other (sym (append-nil (expressions_at rt j)))
    ]

-- A variable of the resource comes to point to a cell with the expression.
collect_cached-Extends :
    (id : Text) (v : ResourceField) (expr : Text) (rt : ResourceGroupRuntime) (found : Option ℕ)
    → IsLinked rt
    → lookup expr rt.expressions_cache ≡ found
    → IsLinked (collect_cached id v expr found rt)
    → Extends rt (expr ∷ []) (if_same id (expr ∷ [])) (collect_cached id v expr found rt)
unfolding mem
collect_cached-Extends id v expr rt (some a) h found linked =
    let (w, there, same) = cached-lookup _ expr a rt.expressions_cache h.cached found in
    record {
      linked = linked;
      cached = λ x. ground (arith, found, text_eq_iff x expr);
      pointed =
          add_variable-pointed id a expr rt
            (expression_at-get rt.store a there ∙ ap (λ e. some e) same);
    }
collect_cached-Extends id v expr rt none h missing linked =
    let rt' = allocate expr v.dependencies v.kind rt in
    let alloc = allocate-Extends expr v.dependencies v.kind rt h in
    record {
      linked = linked;
      cached = alloc.cached;
      pointed = λ j.
          add_variable-pointed id (length rt.store) expr rt'
            (unfold allocate in expression_at-last rt.store (new_state expr v.dependencies v.kind))
            j
          ∙ ap (λ l. l ++ map (λ e. some e) (if_same id (expr ∷ []) j))
              (alloc.pointed j ∙ append-nil (expressions_at rt j));
    }

collect_expression-Extends :
    (id : Text) (v : ResourceField) (expr : Text) (rt : ResourceGroupRuntime)
    → IsLinked rt
    → Extends rt (expr ∷ []) (if_same id (expr ∷ [])) (collect_expression id v expr rt)
unfolding collect_expression
collect_expression-Extends id v expr rt h =
    collect_cached-Extends id v expr rt (lookup expr rt.expressions_cache) h refl
      (collect_expression-IsLinked id v expr rt h)

collect_expressions-Extends :
    (id : Text) (v : ResourceField) (es : List Text) (rt : ResourceGroupRuntime)
    → IsLinked rt
    → Extends rt es (if_same id es) (collect_expressions id v es rt)
unfolding collect_expressions
collect_expressions-Extends id v [] rt h = Extends-same rt id (Extends-refl rt h)
collect_expressions-Extends id v (e ∷ es) rt h =
    let first = collect_expression-Extends id v e rt h in
    Extends-trans rt (collect_expression id v e rt)
      (collect_expressions id v es (collect_expression id v e rt)) (e ∷ []) es _ _ _ first
      (collect_expressions-Extends id v es (collect_expression id v e rt) first.linked)
      (if_same-append id (e ∷ []) es)

collect_variables-Extends :
    (id : Text) (vs : List ResourceField) (rt : ResourceGroupRuntime)
    → IsLinked rt
    → Extends rt (expressions_of vs) (if_same id (expressions_of vs)) (collect_variables id vs rt)
unfolding collect_variables
collect_variables-Extends id [] rt h = Extends-same rt id (Extends-refl rt h)
collect_variables-Extends id (v ∷ vs) rt h =
    let mid = collect_expressions id v v.field.expressions rt in
    let first = collect_expressions-Extends id v v.field.expressions rt h in
    Extends-trans rt mid (collect_variables id vs mid) v.field.expressions (expressions_of vs) _ _ _
      first (collect_variables-Extends id vs mid first.linked)
      (if_same-append id v.field.expressions (expressions_of vs))

collect_ready_when-Extends :
    (es : List Text) (rt : ResourceGroupRuntime)
    → IsLinked rt
    → Extends rt es nothing (collect_ready_when es rt)
unfolding collect_ready_when
collect_ready_when-Extends [] rt h = Extends-refl rt h
collect_ready_when-Extends (e ∷ es) rt h =
    let mid = allocate e [] ready_when rt in
    let first = allocate-Extends e [] ready_when rt h in
    Extends-trans rt mid (collect_ready_when es mid) (e ∷ []) es nothing nothing nothing first
      (collect_ready_when-Extends es mid first.linked) (λ j. refl)

collect_resources-Extends :
    (rs : Map Resource) (rt : ResourceGroupRuntime)
    → IsLinked rt
    → Extends rt (expressions_to_cache rs) (expressions_of_resource rs) (collect_resources rs rt)
unfolding collect_resources
collect_resources-Extends [] rt h = Extends-refl rt h
collect_resources-Extends ((id, r) ∷ rs) rt h =
    let mid = collect_variables id r.variables rt in
    let mid' = collect_ready_when r.ready_when_expressions mid in
    let first = collect_variables-Extends id r.variables rt h in
    let second = collect_ready_when-Extends r.ready_when_expressions mid first.linked in
    let both =
      Extends-trans rt mid mid' (expressions_of r.variables) r.ready_when_expressions
        (if_same id (expressions_of r.variables)) nothing (if_same id (expressions_of r.variables))
        first second (λ j. sym (append-nil (if_same id (expressions_of r.variables) j))) in
    Extends-trans rt mid' (collect_resources rs mid') _ (expressions_to_cache rs)
      (if_same id (expressions_of r.variables)) (expressions_of_resource rs) _ both
      (collect_resources-Extends rs mid' second.linked) (λ j. refl)

-- A new runtime: the cache has exactly the expressions of the variables and the readyWhen expressions,
-- each at a cell with that expression, and the variables of each id point to cells with its
-- expressions, in order.
pub record IsCollected (instance_ : Resource) (resources : Map Resource) (rt : ResourceGroupRuntime)
    : Type 0 where
  pub linked : IsLinked rt
  pub cached :
      (x : Text)
      → has_key x rt.expressions_cache
        ≡ mem x (expressions_to_cache resources ++ expressions_of instance_.variables)
  pub pointed :
      (id : Text)
      → expressions_at rt id
        ≡ map
            (λ e. some e)
            (expressions_of_resource resources id
              ++ if_same instance_id (expressions_of instance_.variables) id)

-- `NewResourceGroupRuntime` puts every expression of the variables of the resources and the instance,
-- and every readyWhen expression, into the cache, and no other, in whatever order the resources are
-- ranged over. Each entry points to a cell that holds its expression, and the variables of each
-- resource point to cells that hold its expressions, in their order.
pub collect-IsCollected :
    (instance_ : Resource) (resources : Map Resource) (order : List Text)
    → IsCollected instance_ resources (collect instance_ resources order)
unfolding collect lookup
collect-IsCollected instance_ resources order =
    let rt = empty_runtime instance_ resources order in
    let mid = collect_resources resources rt in
    let first = collect_resources-Extends resources rt (empty-IsLinked instance_ resources order) in
    let whole =
      Extends-trans rt mid (collect_variables instance_id instance_.variables mid)
        (expressions_to_cache resources) (expressions_of instance_.variables)
        (expressions_of_resource resources)
        (if_same instance_id (expressions_of instance_.variables)) _ first
        (collect_variables-Extends instance_id instance_.variables mid first.linked) (λ j. refl) in
    record { linked = whole.linked; cached = whole.cached; pointed = whole.pointed }
