-- ===== src/Runtime/Evaluation.antt =====
-- internal/runtime/runtime.go, `evaluateDynamicVariables`: which expressions it evaluates, over what,
-- and what it leaves alone.
use kubernetes_resource_orch.Common.{
  ℕ, zero, suc, ◌≡◌, refl, sym, subst, true, false, not, ◌&&◌, ◌||◌, inl, inr, List, [], ◌∷◌, some,
  Bool-cases, All, arith, get_elem?, set, Text, mem, Map, insert, done, Returns, >>=-Returns,
  Returns-mono, Result, ok, err,
}
use mathlib.Core.Option.{some-injective}
use kubernetes_resource_orch.Values.{Value}
use kubernetes_resource_orch.Runtime.{
  ExpressionEvaluationState, Cel, RuntimeError, cel_error, ResourceGroupRuntime, schema_id,
  store_value, if_ok, each_cached, contains_all_elements, is_nil, is_dynamic,
}
use kubernetes_resource_orch.Runtime.Evaluate.{
  cel_step, context_of, skip, is_ready_to_evaluate, failed_evaluation, dynamic_body, resolved_ids,
  evaluate_dynamic_variables,
}
use kubernetes_resource_orch.Runtime.Contexts.{
  context_of_total, Evaluated, Evolves, Evolves-refl, Evolves-trans, Evolves-set, Evolves-get,
}

-- The address of every entry is one of the store.
abbrev pub Points : List ExpressionEvaluationState → Map ℕ → Type 0
Points cells = All (λ entry. (v : ExpressionEvaluationState) × (get_elem? cells entry.1 ≡ some v))

-- No cell depends on the id under which the instance itself is in the context.
abbrev pub NoSchema : List ExpressionEvaluationState → Type 0
NoSchema = All (λ v. mem schema_id v.dependencies ≡ false)

NoSchema-get :
    (cells : List ExpressionEvaluationState) (a : ℕ) (v : ExpressionEvaluationState)
    → NoSchema cells
    → get_elem? cells a ≡ some v
    → mem schema_id v.dependencies ≡ false
NoSchema-get [] a v h e = ground (arith, e)
NoSchema-get (u ∷ us) zero v h e =
    subst (λ x. mem schema_id x.dependencies ≡ false) (some-injective _ _ e) h.0
NoSchema-get (u ∷ us) (suc a) v h e = NoSchema-get us a v h.1 e

abbrev pub with_store : ResourceGroupRuntime → List ExpressionEvaluationState → ResourceGroupRuntime
with_store rt cells = record rt { store = cells }

module _ (cel : Cel) (rt : ResourceGroupRuntime) where
  abbrev EvolvesFrom : List ExpressionEvaluationState → List ExpressionEvaluationState → Type 0
  EvolvesFrom = Evolves cel (resolved_ids rt) rt.resolved_resources rt.instance_.unstructured

  -- The cell at an address is not ready to be evaluated: not dynamic, resolved, or still waiting.
  abbrev pub Settled : List ExpressionEvaluationState → Map ℕ → Type 0
  Settled cells = All (λ entry.
      (w : ExpressionEvaluationState) × (get_elem? cells entry.1 ≡ some w)
      × (is_ready_to_evaluate (resolved_ids rt) w ≡ false))

  -- Only cells change, each by an evaluation; without an error the entries are settled.
  abbrev pub Progress :
      Map ℕ
      → List ExpressionEvaluationState
      → Result RuntimeError (Unit {0}) × ResourceGroupRuntime
      → Type 0
  Progress entries cells (r, after) =
      (after ≡ with_store rt after.store)
      × EvolvesFrom cells after.store
      × (r ≡ ok tt → Settled after.store entries)

  -- The body at one cell.
  abbrev Step :
      ℕ
      → List ExpressionEvaluationState
      → Result RuntimeError (Unit {0}) × ResourceGroupRuntime
      → Type 0
  Step a cells (r, after) =
      (after ≡ with_store rt after.store)
      × EvolvesFrom cells after.store
      × (r ≡ ok tt
          → (w : ExpressionEvaluationState) × (get_elem? after.store a ≡ some w)
            × (is_ready_to_evaluate (resolved_ids rt) w ≡ false))

  get-set :
      (cells : List ExpressionEvaluationState) (a : ℕ) (v w : ExpressionEvaluationState)
      → get_elem? cells a ≡ some v
      → get_elem? (set cells a w) a ≡ some w
  get-set [] a v w e = ground (arith, e)
  get-set (u ∷ us) zero v w e = refl
  get-set (u ∷ us) (suc a) v w e = get-set us a v w e

  evaluated-Step :
      (a : ℕ) (v : ExpressionEvaluationState) (cells : List ExpressionEvaluationState)
      (ctx : Map Value) (m : Result Text Value)
      → get_elem? cells a ≡ some v
      → is_ready_to_evaluate (resolved_ids rt) v ≡ true
      → context_of rt.resolved_resources v.dependencies [] ≡ done ctx
      → cel.evaluate (resolved_ids rt) (insert schema_id rt.instance_.unstructured ctx) v.expression
        ≡ m
      → Returns (Step a cells) (
          cel_step m
            (failed_evaluation cel)
            (with_store rt cells)
            (λ value. skip (store_value a v value (with_store rt cells))))
  evaluated-Step a v cells ctx (err e) there ready context value_is =
      (refl, Evolves-refl cel _ _ _ cells, λ h. ground (arith, h))
  evaluated-Step a v cells ctx (ok value) there ready context value_is = (
    refl,
    Evolves-set cel _ _ _ cells a v _ there (inr (ready, ctx, value, context, value_is, refl)),
    λ _. (
      record v { resolved = true; resolved_value = some value },
      get-set cells a v _ there,
      ground arith,
    ),
  )

  dynamic_body-Step :
      (a : ℕ) (v : ExpressionEvaluationState) (cells : List ExpressionEvaluationState)
      → get_elem? cells a ≡ some v
      → mem schema_id v.dependencies ≡ false
      → Returns (Step a cells) (dynamic_body cel (resolved_ids rt) a v (with_store rt cells))
  unfolding dynamic_body contains_all_elements
  dynamic_body-Step a v cells there no_schema =
      elim (Bool-cases (is_ready_to_evaluate (resolved_ids rt) v)) [
        | inl ready ↦
            let (ctx, context) = context_of_ready ready no_schema in
            rw (ready, context) (evaluated-Step a v cells ctx _ there ready context refl)
        | inr waits ↦ rw waits (refl, Evolves-refl cel _ _ _ cells, λ _. (v, there, waits))
      ]
    where
      contained :
          (deps : List Text)
          → (is_dynamic v.kind
              && not v.resolved
              && (is_nil deps || contains_all_elements (resolved_ids rt) deps))
            ≡ true
          → contains_all_elements (resolved_ids rt) deps ≡ true
      contained [] ready = refl
      contained (d ∷ ds) ready = ground (arith, ready)

      context_of_ready :
          is_ready_to_evaluate (resolved_ids rt) v ≡ true
          → mem schema_id v.dependencies ≡ false
          → (ctx : Map Value) × (context_of rt.resolved_resources v.dependencies [] ≡ done ctx)
      context_of_ready ready no_schema =
          context_of_total rt.resolved_resources [] v.dependencies (contained v.dependencies ready)
            no_schema

  -- The addresses still point to cells after an evaluation, and no cell depends on the instance.
  Points-Evolves :
      (entries : Map ℕ) (cells after : List ExpressionEvaluationState)
      → EvolvesFrom cells after
      → Points cells entries
      → Points after entries
  Points-Evolves [] cells after h p = tt
  Points-Evolves ((e, a) ∷ entries) cells after h ((v, there), p) =
      let (w, found, _) = Evolves-get cel _ _ _ cells after a v h there in
      ((w, found), Points-Evolves entries cells after h p)

  NoSchema-Evolves :
      (cells after : List ExpressionEvaluationState)
      → EvolvesFrom cells after
      → NoSchema cells
      → NoSchema after
  NoSchema-Evolves [] [] h n = tt
  NoSchema-Evolves [] (w ∷ ws) h n = absurd h
  NoSchema-Evolves (v ∷ vs) [] h n = absurd h
  NoSchema-Evolves (v ∷ vs) (w ∷ ws) h n = (kept h.0, NoSchema-Evolves vs ws h.1 n.1)
    where
      kept :
          Evaluated cel (resolved_ids rt) rt.resolved_resources rt.instance_.unstructured v w
          → mem schema_id w.dependencies ≡ false
      kept (inl e) = subst (λ x. mem schema_id x.dependencies ≡ false) (sym e) n.0
      kept (inr (_, ctx, value, _, _, e)) =
          subst (λ x. mem schema_id x.dependencies ≡ false) (sym e) n.0

  -- A settled cell stays settled.
  settled_again :
      (cells after : List ExpressionEvaluationState) (a : ℕ) (v : ExpressionEvaluationState)
      → EvolvesFrom cells after
      → get_elem? cells a ≡ some v
      → is_ready_to_evaluate (resolved_ids rt) v ≡ false
      → (w : ExpressionEvaluationState) × (get_elem? after a ≡ some w)
        × (is_ready_to_evaluate (resolved_ids rt) w ≡ false)
  settled_again cells after a v h there waits =
      let (w, found, step) = Evolves-get cel _ _ _ cells after a v h there in (w, found, same step)
    where
      same :
          {w : ExpressionEvaluationState}
          → Evaluated cel (resolved_ids rt) rt.resolved_resources rt.instance_.unstructured v w
          → is_ready_to_evaluate (resolved_ids rt) w ≡ false
      same (inl e) = subst (λ x. is_ready_to_evaluate (resolved_ids rt) x ≡ false) (sym e) waits
      same (inr (ready, ctx, value, _, _, e)) = ground (arith, ready, waits)

  each_cached-Progress :
      (entries : Map ℕ) (cells : List ExpressionEvaluationState)
      → Points cells entries
      → NoSchema cells
      → Returns
          (Progress entries cells)
          (each_cached (dynamic_body cel (resolved_ids rt)) entries (with_store rt cells))
  unfolding each_cached
  each_cached-Progress [] cells p n = (refl, Evolves-refl cel _ _ _ cells, λ _. tt)
  each_cached-Progress ((e, a) ∷ entries) cells ((v, there), p) n = rw there (
      >>=-Returns (Step a cells) (Progress ((e, a) ∷ entries) cells)
        (dynamic_body cel (resolved_ids rt) a v (with_store rt cells)) _
        (dynamic_body-Step a v cells there (NoSchema-get cells a v n there))
        (next (λ middle q m. each_cached-Progress entries middle q m)))
    where
      next :
          ((middle : List ExpressionEvaluationState)
            → Points middle entries
            → NoSchema middle
            → Returns
                (Progress entries middle)
                (each_cached (dynamic_body cel (resolved_ids rt)) entries (with_store rt middle)))
          → (out : Result RuntimeError (Unit {0}) × ResourceGroupRuntime) → Step a cells out
          → Returns
              (Progress ((e, a) ∷ entries) cells)
              (if_ok (λ _. each_cached (dynamic_body cel (resolved_ids rt)) entries) out)
      next onwards (err x, after) (same, h, _) = (same, h, λ k. ground (arith, k))
      next onwards (ok _, after) (same, h, settled) =
          subst
            (λ x.
              Returns (Progress ((e, a) ∷ entries) cells)
                (each_cached (dynamic_body cel (resolved_ids rt)) entries x))
            (sym same)
            (Returns-mono _ _
              (each_cached (dynamic_body cel (resolved_ids rt)) entries (with_store rt after.store))
              (λ out k. together after.store out h (settled refl) k)
              (onwards after.store (Points-Evolves entries cells after.store h p)
                (NoSchema-Evolves cells after.store h n)))
        where
          together :
              (middle : List ExpressionEvaluationState)
              (out : Result RuntimeError (Unit {0}) × ResourceGroupRuntime)
              → EvolvesFrom cells middle
              → ((w : ExpressionEvaluationState) × (get_elem? middle a ≡ some w)
                  × (is_ready_to_evaluate (resolved_ids rt) w ≡ false))
              → Progress entries middle out
              → Progress ((e, a) ∷ entries) cells out
          together middle (r, last) h (w, found, waits) (same, k, rest) = (
            same,
            Evolves-trans cel _ _ _ cells middle last.store h k,
            λ good. (settled_again middle last.store a w k found waits, rest good),
          )

  -- Where the cache points to cells and no cell depends on the id of the instance, the evaluation
  -- never panics. It changes nothing but cells; each cell is as before, or was ready (dynamic, not
  -- resolved, its dependencies set) and now holds the value of its expression over the resources that
  -- it depends on. When there is no error, no cell of the cache is ready any more.
  pub evaluate_dynamic_variables-Progress :
      Points rt.store rt.expressions_cache
      → NoSchema rt.store
      → Returns (Progress rt.expressions_cache rt.store) (evaluate_dynamic_variables cel rt)
  unfolding evaluate_dynamic_variables
  evaluate_dynamic_variables-Progress p n = go (cel.new_environment (resolved_ids rt))
    where
      go :
          (m : Result Text (Unit {0}))
          → Returns (Progress rt.expressions_cache rt.store) (
              cel_step m cel_error rt
                (λ _. each_cached (dynamic_body cel (resolved_ids rt)) rt.expressions_cache rt))
      go (err e) = (refl, Evolves-refl cel _ _ _ rt.store, λ k. ground (arith, k))
      go (ok _) = each_cached-Progress rt.expressions_cache rt.store p n
