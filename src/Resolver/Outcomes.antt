-- ===== src/Resolver/Outcomes.antt =====
-- `resolveField` of internal/runtime/resolver: which value a field gets, and why it fails.
use kubernetes_resource_orch.Common.{
  Bool, if◌then◌else◌, Run, false, Option-cases, ◌≡◌, ◌≢◌, refl, sym, subst, true, ◌⊎◌, inl, inr,
  List, [], ◌∷◌, none, some, Bool-cases, arith, Text, Map, lookup, done, ◌>>=◌, Returns, Result, ok,
  err,
}
use kubernetes_resource_orch.Fieldpath.{Segment, PathError, parse}
use kubernetes_resource_orch.Values.{Value, null, bool, integer, float, array, object, text}
use kubernetes_resource_orch.Resolver.{
  ResolveError, invalid_path, no_data, expected_string, setting, getting, get_path, trim_dot,
  get_value_from_path, set_value_at_path, FieldDescriptor, ResolutionResult, trim_expression,
  failed, succeeded, finish_set, put_value, replace_from, wrap_expression, first_expression,
  standalone_value, replace_each, put_text, resolve_text, resolve_found, resolve_field,
}
use kubernetes_resource_orch.Resolver.Resolution.{set_value_at_path_total}

-- The parser of paths returns on the path of the field, and a standalone field has an expression.
pub record IsSafe (field : FieldDescriptor) : Type 0 where
  pub reads : Result PathError (List Segment)
  pub reads_is : parse (trim_dot field.path) ≡ done reads
  pub writes : Result PathError (List Segment)
  pub writes_is : parse field.path ≡ done writes
  pub has_expression : field.standalone_expression ≡ true → field.expressions ≢ []

module _ (data_ : Map Value) (format_value : Value → Text) where
  -- Each expression of the list, with its brackets, is replaced by the text of its value.
  pub data Replaced : List Text → Text → Text → Type 0 where
    none_left : {t : Text} → Replaced [] t t
    one_replaced :
        {e : Text} {es : List Text} {t u : Text} (v : Value)
        → lookup (trim_expression e) data_ ≡ some v
        → Replaced es (replace_from (wrap_expression e) (format_value v) 0 t) u
        → Replaced (e ∷ es) t u

  -- The first expression of the list that has no value.
  pub data Missing : List Text → Text → Type 0 where
    at_front :
        {e : Text} {es : List Text} → lookup (trim_expression e) data_ ≡ none → Missing (e ∷ es) e
    behind :
        {d e : Text} {es : List Text} (v : Value)
        → lookup (trim_expression d) data_ ≡ some v
        → Missing es e
        → Missing (d ∷ es) e

  replace_each-cases :
      (es : List Text) (t : Text)
      → ((u : Text) × (replace_each data_ format_value es t ≡ ok u) × Replaced es t u)
        ⊎ ((e : Text) × (replace_each data_ format_value es t ≡ err (no_data e)) × Missing es e)
  unfolding replace_each
  replace_each-cases [] t = inl (t, refl, none_left)
  replace_each-cases (e ∷ es) t = elim (Option-cases (lookup (trim_expression e) data_)) [
    | inl missing ↦ rw missing (inr (e, refl, at_front missing))
    | inr (v, here) ↦
        elim (replace_each-cases es (replace_from (wrap_expression e) (format_value v) 0 t)) [
          | inl (u, goes, r) ↦ rw here (inl (u, goes, one_replaced v here r))
          | inr (d, fails, m) ↦ rw here (inr (d, fails, behind v here m))
        ]
  ]

  -- The value that a field is to get.
  pub data Resolves (field : FieldDescriptor) (resource : Value) : Value → Type 0 where
    standalone :
        {e : Text} {es : List Text} {v : Value}
        → field.standalone_expression ≡ true
        → field.expressions ≡ e ∷ es
        → lookup (trim_expression e) data_ ≡ some v
        → Resolves field resource v
    embedded :
        {t u : Text}
        → field.standalone_expression ≡ false
        → get_value_from_path field.path resource ≡ done (ok (text t))
        → Replaced field.expressions t u
        → Resolves field resource (text u)

  -- Why a field has an error. A path that was read and that the parser reads can be written, so only
  -- a path that is refused for writing leads to an error of the write, and nothing is written then.
  pub data Fails (field : FieldDescriptor) (resource : Value) : ResolveError → Type 0 where
    not_read :
        {e : ResolveError}
        → get_value_from_path field.path resource ≡ done (err e)
        → Fails field resource (getting e)
    without_value :
        {e : Text} {es : List Text}
        → field.standalone_expression ≡ true
        → field.expressions ≡ e ∷ es
        → lookup (trim_expression e) data_ ≡ none
        → Fails field resource (no_data e)
    without_part :
        {t e : Text}
        → field.standalone_expression ≡ false
        → get_value_from_path field.path resource ≡ done (ok (text t))
        → Missing field.expressions e
        → Fails field resource (no_data e)
    not_a_text :
        {w : Value}
        → field.standalone_expression ≡ false
        → get_value_from_path field.path resource ≡ done (ok w)
        → ((t : Text) → w ≢ text t)
        → Fails field resource (expected_string field.path)
    not_written :
        {e : PathError} {w : Value}
        → get_value_from_path field.path resource ≡ done (ok w)
        → parse field.path ≡ done (err e)
        → Fails field resource (setting (invalid_path e))

  -- A field is resolved and written, or its error is set and the resource is as before.
  abbrev pub Outcome : FieldDescriptor → Value → Value × ResolutionResult → Type 0
  Outcome field resource (after, result) =
      ((v : Value) × (result ≡ succeeded field v)
        × Resolves field resource v
        × (set_value_at_path field.path v resource ≡ done (ok after)))
      ⊎ ((e : ResolveError) × (result ≡ failed field e)
          × Fails field resource e
          × (after ≡ resource))

set_refused :
    (path : Text) (v resource : Value) {e : PathError}
    → parse path ≡ done (err e)
    → set_value_at_path path v resource ≡ done (err (invalid_path e))
unfolding set_value_at_path
set_refused path v resource h = rw h refl

set_nothing :
    (path : Text) (v resource : Value)
    → parse path ≡ done (ok [])
    → set_value_at_path path v resource ≡ done (ok resource)
unfolding set_value_at_path
set_nothing path v resource h = rw h refl

get_value_cases :
    (path : Text) (resource : Value) (r : Result PathError (List Segment))
    → parse (trim_dot path) ≡ done r
    → (m : Result ResolveError Value) × (get_value_from_path path resource ≡ done m)
unfolding get_value_from_path
get_value_cases path resource (err e) h = (err (invalid_path e), rw h refl)
get_value_cases path resource (ok ss) h = (get_path ss resource, rw h refl)

module _ (data_ : Map Value) (format_value : Value → Text) (field : FieldDescriptor)
    (safe : IsSafe field) (resource : Value) where
  abbrev Goal : Run (Value × ResolutionResult) → Type 0
  Goal m = Returns (Outcome data_ format_value field resource) m

  put_value-Outcome :
      (v w : Value)
      → get_value_from_path field.path resource ≡ done (ok w)
      → Resolves data_ format_value field resource v
      → Goal (put_value field v resource)
  put_value-Outcome v w read h = go safe.writes safe.writes_is
    where
      put : Run (Result ResolveError Value) → Run (Value × ResolutionResult)
      put m = m >>= finish_set field v resource

      written :
          (after : Value)
          → set_value_at_path field.path v resource ≡ done (ok after)
          → Goal (put_value field v resource)
      written after e = subst (λ m. Goal (put m)) (sym e) (inl (v, refl, h, e))

      go :
          (r : Result PathError (List Segment))
          → parse field.path ≡ done r
          → Goal (put_value field v resource)
      go (err e) refused =
          subst (λ m. Goal (put m)) (sym (set_refused field.path v resource refused))
            (inr (setting (invalid_path e), refl, not_written read refused, refl))
      go (ok []) none_read = written resource (set_nothing field.path v resource none_read)
      go (ok (s ∷ ss)) segments =
          let (after, e) = set_value_at_path_total field.path s ss v resource w segments read in
          written after e

  other_value :
      (w : Value)
      → field.standalone_expression ≡ false
      → get_value_from_path field.path resource ≡ done (ok w)
      → ((t : Text) → w ≢ text t)
      → Goal (done (resource, failed field (expected_string field.path)))
  other_value w part read differs =
      inr (expected_string field.path, refl, not_a_text part read differs, refl)

  resolve_text-Outcome :
      (w : Value)
      → field.standalone_expression ≡ false
      → get_value_from_path field.path resource ≡ done (ok w)
      → Goal (resolve_text data_ format_value field resource w)
  resolve_text-Outcome (text t) part read =
      elim (replace_each-cases data_ format_value field.expressions t) [
        | inl (u, goes, r) ↦
            subst (λ m. Goal (put_text data_ format_value field resource m)) (sym goes)
              (put_value-Outcome (text u) (text t) read (embedded part read r))
        | inr (e, fails, m) ↦
            subst (λ m. Goal (put_text data_ format_value field resource m)) (sym fails)
              (inr (no_data e, refl, without_part part read m, refl))
      ]
  resolve_text-Outcome null part read = other_value null part read (λ t e. ground (arith, e))
  resolve_text-Outcome (bool b) part read =
      other_value (bool b) part read (λ t e. ground (arith, e))
  resolve_text-Outcome (integer z) part read =
      other_value (integer z) part read (λ t e. ground (arith, e))
  resolve_text-Outcome (float q) part read =
      other_value (float q) part read (λ t e. ground (arith, e))
  resolve_text-Outcome (array vs) part read =
      other_value (array vs) part read (λ t e. ground (arith, e))
  resolve_text-Outcome (object fs) part read =
      other_value (object fs) part read (λ t e. ground (arith, e))

  standalone-Outcome :
      (w : Value) (es : List Text)
      → es ≢ []
      → field.expressions ≡ es
      → field.standalone_expression ≡ true
      → get_value_from_path field.path resource ≡ done (ok w)
      → Goal (
          first_expression es >>= λ expr.
          standalone_value field resource expr (lookup (trim_expression expr) data_))
  standalone-Outcome w [] h is alone read = absurd (h refl)
  standalone-Outcome w (e ∷ es) h is alone read =
      elim (Option-cases (lookup (trim_expression e) data_)) [
        | inl missing ↦ rw missing (inr (no_data e, refl, without_value alone is missing, refl))
        | inr (v, here) ↦ rw here (put_value-Outcome v w read (standalone alone is here))
      ]

  resolve_found-Outcome :
      (m : Result ResolveError Value)
      → get_value_from_path field.path resource ≡ done m
      → Goal (resolve_found data_ format_value field resource m)
  resolve_found-Outcome (err e) read = inr (getting e, refl, not_read read, refl)
  resolve_found-Outcome (ok w) read = elim (Bool-cases field.standalone_expression) [
    | inl alone ↦
        subst (λ b. Goal (chosen b)) (sym alone)
          (standalone-Outcome w field.expressions (safe.has_expression alone) refl alone read)
    | inr part ↦ subst (λ b. Goal (chosen b)) (sym part) (resolve_text-Outcome w part read)
  ]
    where
      chosen : Bool → Run (Value × ResolutionResult)
      chosen b =
          if b
          then (first_expression field.expressions >>= λ expr.
              standalone_value field resource expr (lookup (trim_expression expr) data_))
          else resolve_text data_ format_value field resource w

  -- `resolveField` returns where the parser of paths does. Either the result is resolved with the
  -- value of the standalone expression, or with the text in which the value of each expression takes
  -- its place, and the resource is the one with that value written at the path of the field. Or the
  -- result has an error for which the field, the data or the resource give the reason, and the
  -- resource is what it was.
  pub resolve_field-Outcome :
      Returns
        (Outcome data_ format_value field resource)
        (resolve_field data_ format_value field resource)
  unfolding resolve_field
  resolve_field-Outcome =
      let (m, read) = get_value_cases field.path resource safe.reads safe.reads_is in
      subst (λ r. Goal (r >>= resolve_found data_ format_value field resource)) (sym read)
        (resolve_found-Outcome m read)
