-- ===== src/Runtime/Contexts.antt =====
-- The context in which a variable is evaluated (internal/runtime/runtime.go).
use kubernetes_resource_orch.Common.{
  ℕ, zero, suc, ◌≡◌, refl, sym, ap, subst, true, false, ◌⊎◌, inl, inr, List, [], ◌∷◌, ◌++◌, some,
  Option-cases, arith, get_elem?, set, Text, text_eq_iff, mem, mem-append, Map, lookup, insert,
  keys, mem-keys, done, ok,
}
use mathlib.Core.Option.{some-injective}
use kubernetes_resource_orch.Values.{Value}
use kubernetes_resource_orch.Runtime.{
  ExpressionEvaluationState, Cel, schema_id, contains_all_elements,
}
use kubernetes_resource_orch.Runtime.Evaluate.{context_of, is_ready_to_evaluate}

-- The context of an expression is there when its dependencies are ids of resources that were set.
pub context_of_total :
    (m acc : Map Value) (deps : List Text)
    → contains_all_elements (keys m ++ schema_id ∷ []) deps ≡ true
    → mem schema_id deps ≡ false
    → (ctx : Map Value) × (context_of m deps acc ≡ done ctx)
unfolding context_of contains_all_elements mem
context_of_total m acc [] h s = (acc, refl)
context_of_total m acc (d ∷ ds) h s = elim (Option-cases (lookup d m)) [
  | inl missing ↦ ground (
    arith,
    mem-append d (keys m) (schema_id ∷ []),
    mem-keys d m,
    text_eq_iff d schema_id,
    text_eq_iff schema_id d,
  )
  | inr (v, there) ↦
      let (ctx, rest) =
        context_of_total m (insert d v acc) ds (ground (arith, h)) (ground (arith, s)) in
      (ctx, rw there rest)
]

module _ (cel : Cel) (ids : List Text) (resolved_ : Map Value) (inst : Value) where
  -- A cell is as before, or it was ready and now holds the value of its expression.
  abbrev pub Evaluated : ExpressionEvaluationState → ExpressionEvaluationState → Type 0
  Evaluated v w =
      (w ≡ v)
      ⊎ ((is_ready_to_evaluate ids v ≡ true)
          × (ctx : Map Value) × (value : Value) × (context_of resolved_ v.dependencies []
              ≡ done ctx)
          × (cel.evaluate ids (insert schema_id inst ctx) v.expression ≡ ok value)
          × (w ≡ (record v { resolved = true; resolved_value = some value })))

  abbrev pub Evolves : List ExpressionEvaluationState → List ExpressionEvaluationState → Type 0
  Evolves [] [] = Unit
  Evolves (v ∷ vs) (w ∷ ws) = Evaluated v w × Evolves vs ws
  Evolves _ _ = ⊥

  pub Evolves-refl : (vs : List ExpressionEvaluationState) → Evolves vs vs
  Evolves-refl [] = tt
  Evolves-refl (v ∷ vs) = (inl refl, Evolves-refl vs)

  Evaluated-trans :
      (v w u : ExpressionEvaluationState) → Evaluated v w → Evaluated w u → Evaluated v u
  Evaluated-trans v w u h (inl e) = subst (Evaluated v) (sym e) h
  Evaluated-trans v w u (inl e) (inr k) = subst (λ x. Evaluated x u) e (inr k)
  Evaluated-trans v w u (inr (ready, ctx, value, _, _, e)) (inr (again, _, _, _, _, _)) =
      ground (arith, ap (λ x. x.resolved) e, again)

  pub Evolves-trans :
      (us vs ws : List ExpressionEvaluationState) → Evolves us vs → Evolves vs ws → Evolves us ws
  Evolves-trans [] [] [] h k = tt
  Evolves-trans (u ∷ us) (v ∷ vs) (w ∷ ws) h k =
      (Evaluated-trans u v w h.0 k.0, Evolves-trans us vs ws h.1 k.1)
  Evolves-trans [] [] (w ∷ ws) h k = absurd k
  Evolves-trans [] (v ∷ vs) ws h k = absurd h
  Evolves-trans (u ∷ us) [] ws h k = absurd h
  Evolves-trans (u ∷ us) (v ∷ vs) [] h k = absurd k

  pub Evolves-set :
      (vs : List ExpressionEvaluationState) (a : ℕ) (v w : ExpressionEvaluationState)
      → get_elem? vs a ≡ some v
      → Evaluated v w
      → Evolves vs (set vs a w)
  Evolves-set [] a v w e h = tt
  Evolves-set (u ∷ us) zero v w e h =
      (subst (λ x. Evaluated x w) (sym (some-injective _ _ e)) h, Evolves-refl us)
  Evolves-set (u ∷ us) (suc a) v w e h = (inl refl, Evolves-set us a v w e h)

  pub Evolves-get :
      (vs ws : List ExpressionEvaluationState) (a : ℕ) (v : ExpressionEvaluationState)
      → Evolves vs ws
      → get_elem? vs a ≡ some v
      → (w : ExpressionEvaluationState) × (get_elem? ws a ≡ some w) × Evaluated v w
  Evolves-get [] ws a v h e = ground (arith, e)
  Evolves-get (u ∷ us) [] a v h e = absurd h
  Evolves-get (u ∷ us) (w ∷ ws) zero v h e =
      (w, refl, subst (λ x. Evaluated x w) (some-injective _ _ e) h.0)
  Evolves-get (u ∷ us) (w ∷ ws) (suc a) v h e = Evolves-get us ws a v h.1 e
