-- ===== src/Runtime/Linked.antt =====
-- internal/runtime/runtime.go, `NewResourceGroupRuntime`: the pointers that it shares between the
-- cache and the variables.
use mathlib.Core.Option.{some-injective}
use kubernetes_resource_orch.Common.{
  All-append, All-mono, ℕ, zero, suc, ◌<◌, ◌≡◌, refl, sym, ap, subst, ◌∙◌, inl, inr, List, [], ◌∷◌,
  ◌++◌, some, Bool-cases, Option-cases, All, arith, length, length-append, get_elem?, Text, text_eq,
  text_eq_iff, Map, lookup, lookup-insert, insert,
}
use kubernetes_resource_orch.Runtime.{
  Resource, ResourceField, ResourceVariableKind, ExpressionEvaluationState, ResourceGroupRuntime,
  addresses_of,
}
use kubernetes_resource_orch.Runtime.Collect.{
  add_variable, new_state, allocate, collect_expression, empty_runtime,
}

-- Every entry of the cache points to a cell that holds the expression of the entry, and every
-- address of a variable is one of the store.
pub record IsLinked (rt : ResourceGroupRuntime) : Type 0 where
  pub cached :
      All
        (λ entry.
          (v : ExpressionEvaluationState) × (get_elem? rt.store entry.1 ≡ some v)
          × (v.expression ≡ entry.0))
        rt.expressions_cache
  pub variables :
      (id : Text) → All (λ a. a < length rt.store) (addresses_of (lookup id rt.runtime_variables))

All-insert {ℓ κ} :
    {V : Type ℓ} (P : Text × V → Type κ) (k : Text) (v : V) (m : Map V)
    → P (k, v)
    → All P m
    → All P (insert k v m)
unfolding insert
All-insert P k v [] p h = (p, tt)
All-insert P k v ((j, w) ∷ m) p h = elim (Bool-cases (text_eq k j)) [
  | inl same ↦ rw same (p, h.1)
  | inr other ↦ rw other (h.0, All-insert P k v m p h.1)
]

get-append :
    (cells more : List ExpressionEvaluationState) (a : ℕ) (v : ExpressionEvaluationState)
    → get_elem? cells a ≡ some v
    → get_elem? (cells ++ more) a ≡ some v
get-append [] more a v e = ground (arith, e)
get-append (c ∷ cells) more zero v e = e
get-append (c ∷ cells) more (suc a) v e = get-append cells more a v e

get-length :
    (cells : List ExpressionEvaluationState) (v : ExpressionEvaluationState)
    → get_elem? (cells ++ v ∷ []) (length cells) ≡ some v
get-length [] v = refl
get-length (c ∷ cells) v = get-length cells v

get-Below :
    (cells : List ExpressionEvaluationState) (a : ℕ) (v : ExpressionEvaluationState)
    → get_elem? cells a ≡ some v
    → a < length cells
get-Below [] a v e = ground (arith, e)
get-Below (c ∷ cells) zero v e = omega arith
get-Below (c ∷ cells) (suc a) v e = omega (arith, get-Below cells a v e)

pub cached-lookup :
    (P : Text × ℕ → Type 0) (k : Text) (a : ℕ) (m : Map ℕ)
    → All P m
    → lookup k m ≡ some a
    → P (k, a)
unfolding lookup
cached-lookup P k a [] h e = ground (arith, e)
cached-lookup P k a ((j, b) ∷ m) h e = elim (Bool-cases (text_eq k j)) [
  | inl same ↦
      subst (λ x. P x)
        (ap (λ x. (x, b)) (sym ((text_eq_iff k j).0 same))
          ∙ ap (λ x. (k, x)) (some-injective _ _ (ground (arith, e, same))))
        h.0
  | inr other ↦ cached-lookup P k a m h.1 (ground (arith, e, other))
]

pub allocate-IsLinked :
    (expr : Text) (deps : List Text) (kind : ResourceVariableKind) (rt : ResourceGroupRuntime)
    → IsLinked rt
    → IsLinked (allocate expr deps kind rt)
unfolding allocate
allocate-IsLinked expr deps kind rt h = record {
  cached =
      All-insert _ expr (length rt.store) rt.expressions_cache
        (new_state expr deps kind, get-length rt.store _, refl)
        (All-mono _ _ rt.expressions_cache
          (λ entry (v, there, same). (v, get-append rt.store _ entry.1 v there, same)) h.cached);
  variables = λ id.
      All-mono _ _ (addresses_of (lookup id rt.runtime_variables))
        (λ a below. omega (arith, below, length-append rt.store (new_state expr deps kind ∷ [])))
        (h.variables id);
}

add_variable-IsLinked :
    (id : Text) (a : ℕ) (rt : ResourceGroupRuntime)
    → a < length rt.store
    → IsLinked rt
    → IsLinked (add_variable id a rt)
add_variable-IsLinked id a rt below h = record { cached = h.cached; variables = λ j. at_ j }
  where
    at_ :
        (j : Text)
        → All
            (λ a. a < length rt.store)
            (addresses_of (
              lookup j (
                insert id
                  (addresses_of (lookup id rt.runtime_variables) ++ a ∷ [])
                  rt.runtime_variables)))
    at_ j =
        rw
          (lookup-insert id j (addresses_of (lookup id rt.runtime_variables) ++ a ∷ [])
            rt.runtime_variables)
          (elim (Bool-cases (text_eq j id)) [
            | inl same ↦ rw same (
                All-append _ (addresses_of (lookup id rt.runtime_variables)) (a ∷ [])
                  (h.variables id) (below, tt))
            | inr other ↦ rw other (h.variables j)
          ])

pub collect_expression-IsLinked :
    (id : Text) (v : ResourceField) (expr : Text) (rt : ResourceGroupRuntime)
    → IsLinked rt
    → IsLinked (collect_expression id v expr rt)
unfolding collect_expression
collect_expression-IsLinked id v expr rt h =
    elim (Option-cases (lookup expr rt.expressions_cache)) [
      | inl missing ↦ rw missing (
          add_variable-IsLinked id (length rt.store) (allocate expr v.dependencies v.kind rt)
            (allocated rt.store) (allocate-IsLinked expr v.dependencies v.kind rt h))
      | inr (a, found) ↦
          let (w, there, _) = cached-lookup _ expr a rt.expressions_cache h.cached found in
          rw found (add_variable-IsLinked id a rt (get-Below rt.store a w there) h)
    ]
  where
    allocated :
        (cells : List ExpressionEvaluationState)
        → length cells < length (cells ++ new_state expr v.dependencies v.kind ∷ [])
    allocated cells = omega (arith, length-append cells (new_state expr v.dependencies v.kind ∷ []))

pub empty-IsLinked :
    (instance_ : Resource) (resources : Map Resource) (order : List Text)
    → IsLinked (empty_runtime instance_ resources order)
unfolding lookup
empty-IsLinked instance_ resources order = record { cached = tt; variables = λ id. nothing id }
  where
    nothing : (id : Text) → All (λ a. a < 0) (addresses_of (lookup id []))
    nothing id = tt
