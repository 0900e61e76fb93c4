-- ===== src/Resolver/Counting.antt =====
-- `Resolve` of internal/runtime/resolver: its summary counts each field once.
use kubernetes_resource_orch.Common.{
  ℕ, ◌+◌, ◌≡◌, refl, sym, ap, subst, ◌∙◌, inl, inr, List, [], ◌∷◌, ◌++◌, length, length-append,
  arith, Text, Map, Returns, >>=-Returns,
}
use mathlib.Core.List.{append_assoc, append-nil}
use kubernetes_resource_orch.Values.{Value}
use kubernetes_resource_orch.Resolver.{
  FieldDescriptor, ResolutionResult, ResolutionSummary, resolve_field, error_list, count,
  resolve_each, resolve,
}
use kubernetes_resource_orch.Resolver.Outcomes.{IsSafe, Outcome, resolve_field-Outcome}

abbrev pub AllSafe : List FieldDescriptor → Type 0
AllSafe [] = Unit
AllSafe (f ∷ fs) = IsSafe f × AllSafe fs

abbrev paths_of : List ResolutionResult → List Text
paths_of [] = []
paths_of (r ∷ rs) = r.path ∷ paths_of rs

paths_of-concat :
    (rs : List ResolutionResult) (r : ResolutionResult)
    → paths_of (rs ++ r ∷ []) ≡ paths_of rs ++ r.path ∷ []
paths_of-concat [] r = refl
paths_of-concat (x ∷ rs) r = ap (◌∷◌ x.path) (paths_of-concat rs r)

abbrev pub field_paths : List FieldDescriptor → List Text
field_paths [] = []
field_paths (f ∷ fs) = f.path ∷ field_paths fs

-- What the summary has counted after the fields `done`.
pub record Counts (total : ℕ) (paths : List Text) (s : ResolutionSummary) : Type 0 where
  pub total_is : s.total_expressions ≡ total
  pub each : paths_of s.results ≡ paths
  pub sum : s.resolved_expressions + length s.errors ≡ length s.results

count-Counts :
    (data_ : Map Value) (format_value : Value → Text) (total : ℕ) (paths : List Text)
    (field : FieldDescriptor) (resource : Value) (out : Value × ResolutionResult)
    (s : ResolutionSummary)
    → Outcome data_ format_value field resource out
    → Counts total paths s
    → Counts total (paths ++ field.path ∷ []) (count out.1 s)
count-Counts data_ format_value total paths field resource (after, r) s (inl (v, e, _, _)) c =
    record {
      total_is = c.total_is;
      each = paths_of-concat s.results r ∙ ground (arith, e, c.each);
      sum = ground (
        arith,
        e,
        c.sum,
        length-append s.results (r ∷ []),
        length-append s.errors (error_list r.error),
      );
    }
count-Counts data_ format_value total paths field resource (after, r) s (inr (w, e, _, _)) c =
    record {
      total_is = c.total_is;
      each = paths_of-concat s.results r ∙ ground (arith, e, c.each);
      sum = ground (
        arith,
        e,
        c.sum,
        length-append s.results (r ∷ []),
        length-append s.errors (error_list r.error),
      );
    }

module _ (data_ : Map Value) (format_value : Value → Text) where
  resolve_each-Counts :
      (total : ℕ) (fields : List FieldDescriptor) (paths : List Text) (resource : Value)
      (s : ResolutionSummary)
      → AllSafe fields
      → Counts total paths s
      → Returns
          (λ out. Counts total (paths ++ field_paths fields) out.1)
          (resolve_each data_ format_value fields resource s)
  unfolding resolve_each
  resolve_each-Counts total [] paths resource s safe c =
      subst (λ l. Counts total l s) (sym (append-nil paths)) c
  resolve_each-Counts total (f ∷ fs) paths resource s safe c =
      >>=-Returns (Outcome data_ format_value f resource)
        (λ out. Counts total (paths ++ f.path ∷ field_paths fs) out.1)
        (resolve_field data_ format_value f resource) _
        (resolve_field-Outcome data_ format_value f safe.0 resource)
        (λ out h.
          subst
            (λ l.
              Returns (λ o. Counts total l o.1)
                (resolve_each data_ format_value fs out.0 (count out.1 s)))
            (append_assoc paths (f.path ∷ []) (field_paths fs))
            (resolve_each-Counts total fs (paths ++ f.path ∷ []) out.0 (count out.1 s) safe.1
              (count-Counts data_ format_value total paths f resource out s h c)))

  -- `Resolve` returns where the parser of paths does. Its summary has one result for each field, in
  -- the order of the fields, and every field is counted once: as resolved or as an error.
  pub resolve-Counts :
      (fields : List FieldDescriptor) (resource : Value)
      → AllSafe fields
      → Returns
          (λ out. Counts (length fields) (field_paths fields) out.1)
          (resolve data_ format_value fields resource)
  unfolding resolve
  resolve-Counts fields resource safe =
      resolve_each-Counts (length fields) fields [] resource _ safe
        (record { total_is = refl; each = refl; sum = omega arith })
