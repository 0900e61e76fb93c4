-- ===== src/Builder/Scoped.antt =====
-- The scope of a whole group: an expression occurs in a resource if one of its variables has it.
use kubernetes_resource_orch.Common.{
  ◌≡◌, true, false, Bool, List, [], ◌∷◌, ◌++◌, none, some, arith, Text, text_eq_iff, text_eq_refl,
  mem, mem-append, mem-keys, Nodup, All, Map, lookup, keys,
}
use kubernetes_resource_orch.Runtime.{ResourceField, Resource}
use kubernetes_resource_orch.Builder.{Inspector, names_of}
use kubernetes_resource_orch.Builder.Reasons.{Scope}
use kubernetes_resource_orch.Builder.Wiring.{AllOccur}

abbrev pub expressions_of : List ResourceField → List Text
expressions_of [] = []
expressions_of (v ∷ vs) = v.field.expressions ++ expressions_of vs

abbrev pub occurs_in : Map Resource → Text → Text → Bool
occurs_in resources u e = elim (lookup u resources) [
  | none ↦ false
  | some r ↦ mem e (expressions_of r.variables)
]

abbrev pub scope_of : Inspector → Map Resource → Scope
scope_of inspector resources = record {
  inspector = inspector;
  names = names_of resources;
  occurs = occurs_in resources;
}

mem-All :
    (P : Text → Bool) (es : List Text)
    → ((e : Text) → mem e es ≡ true → P e ≡ true)
    → All (λ e. P e ≡ true) es
unfolding mem
mem-All P [] h = tt
mem-All P (e ∷ es) h =
    (h e (ground (arith, text_eq_refl e)), mem-All P es (λ x m. h x (ground (arith, m))))

module _ (c : Scope) where
  abbrev pub AllOccurring : Map Resource → Type 0
  AllOccurring [] = Unit
  AllOccurring ((name, r) ∷ rs) = AllOccur c name r.variables × AllOccurring rs

  variables-AllOccur :
      (name : Text) (vs : List ResourceField)
      → ((e : Text) → mem e (expressions_of vs) ≡ true → c.occurs name e ≡ true)
      → AllOccur c name vs
  variables-AllOccur name [] h = tt
  variables-AllOccur name (v ∷ vs) h = (
    mem-All (c.occurs name) v.field.expressions
        (λ e m. h e (ground (arith, mem-append e v.field.expressions (expressions_of vs), m))),
    variables-AllOccur name vs
        (λ e m. h e (ground (arith, mem-append e v.field.expressions (expressions_of vs), m))),
  )

  resources-AllOccurring :
      (rs : Map Resource)
      → Nodup (keys rs)
      → ((u e : Text) → occurs_in rs u e ≡ true → c.occurs u e ≡ true)
      → AllOccurring rs
  unfolding lookup
  resources-AllOccurring [] once h = tt
  resources-AllOccurring ((name, r) ∷ rs) once h = (
    variables-AllOccur name r.variables (λ e m. h name e (ground (arith, text_eq_refl name, m))),
    resources-AllOccurring rs once.1
        (λ u e m. h u e (ground (arith, mem-keys u rs, text_eq_iff u name, once.0, m))),
  )

pub scope_of-AllOccurring :
    (inspector : Inspector) (resources : Map Resource)
    → Nodup (keys resources)
    → AllOccurring (scope_of inspector resources) resources
scope_of-AllOccurring inspector resources once =
    resources-AllOccurring (scope_of inspector resources) resources once (λ u e m. m)
