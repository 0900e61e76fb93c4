-- ===== src/Resolver.antt =====
-- internal/runtime/resolver/resolver.go: values at paths of a resource, read, written and created on
-- the way, and the expressions of its fields replaced by their values. A method returns the
-- resource that it leaves behind: where the code writes through a pointer to the parent, the
-- recursion puts the new child into its parent.
pub mod Paths
pub mod Frame
pub mod Resolution
pub mod Outcomes
pub mod Counting
mod Examples
use kubernetes_resource_orch.Common.{
  ℕ, zero, suc, ◌+◌, ◌-◌, Bool, true, false, not, ◌&&◌, ◌||◌, List, [], ◌∷◌, ◌++◌, Option, none,
  some, ◌==◌, ltb, leb, if◌then◌else◌, length, Text, codes, text_eq, mem, Map, lookup, Run, done,
  panic, out_of_fuel, ◌>>=◌, Result, ok, err, and_then, ℤ, pos, negsuc,
}
use kubernetes_resource_orch.Fieldpath.{Segment, PathError, parse}
use kubernetes_resource_orch.Values.{
  Value, null, text, array, object, Items, nil, Fields, end, get_field, set_field, item_count,
  get_item, set_item, nulls, resize,
}

pub data ResolveError : Type 0 where
  invalid_path : PathError → ResolveError
  expected_array expected_map expected_array_or_nil out_of_bounds : ResolveError
  key_not_found : Text → ResolveError
  no_data : Text → ResolveError
  expected_string : Text → ResolveError
  getting setting : ResolveError → ResolveError

-- `currentMap[segment.Name]` for a key that must be there.
abbrev found_key : Text → Option Value → Result ResolveError Value
found_key k none = err (key_not_found k)
found_key k (some v) = ok v

abbrev in_bounds : Option Value → Result ResolveError Value
in_bounds none = err out_of_bounds
in_bounds (some v) = ok v

get_index : ℕ → Value → Result ResolveError Value
get_index i (array vs) = in_bounds (get_item i vs)
get_index i _ = err expected_array

get_name : Text → Value → Result ResolveError Value
get_name k (object fs) = found_key k (get_field k fs)
get_name k _ = err expected_map

-- One round of the loop of `getValueFromPath`.
unfoldable pub get_segment : Text → ℤ → Value → Result ResolveError Value
unfolding get_index get_name
get_segment name (pos i) current = get_index i current
get_segment name (negsuc _) current = get_name name current

unfoldable pub get_path : List Segment → Value → Result ResolveError Value
get_path [] current = ok current
get_path (s ∷ ss) current = and_then (get_segment s.name s.index current) (get_path ss)

-- `handleArraySegment`: the array, made or made longer so that the index is in it.
unfoldable pub handle_array_segment : ℕ → Value → Result ResolveError Items
handle_array_segment i null = ok (nulls (suc i))
handle_array_segment i (array vs) = ok (if leb (item_count vs) i then resize (suc i) vs else vs)
handle_array_segment i _ = err expected_array_or_nil

-- What the code creates in place of a missing child, by the next segment.
abbrev fresh : List Segment → Value
fresh [] = null
fresh (s ∷ ss) = elim s.index [ pos i ↦ array nil | negsuc i ↦ object end ]

-- `getOrCreateNext` for an element, and the same for a field.
unfoldable pub get_or_create_next : List Segment → Option Value → Value
get_or_create_next next none = fresh next
get_or_create_next next (some null) = fresh next
get_or_create_next next (some v) = v

-- The rest of the loop of `setValueAtPath` below the current object, over its next rounds.
set_in_array :
    (Value → Result ResolveError Value) → List Segment → ℕ → Items → Result ResolveError Value
set_in_array below next i vs =
    and_then (below (get_or_create_next next (get_item i vs))) (λ v. ok (array (set_item i v vs)))

set_index :
    (Value → Result ResolveError Value) → List Segment → ℕ → Value → Result ResolveError Value
set_index below next i current =
    and_then (handle_array_segment i current) (set_in_array below next i)

set_name :
    (Value → Result ResolveError Value) → List Segment → Text → Value → Result ResolveError Value
set_name below next k (object fs) =
    and_then (below (get_or_create_next next (get_field k fs)))
      (λ v. ok (object (set_field k v fs)))
set_name below next k _ = err expected_map

unfoldable pub set_segment :
    (Value → Result ResolveError Value)
    → List Segment
    → Text
    → ℤ
    → Value
    → Result ResolveError Value
unfolding set_index set_in_array set_name
set_segment below next name (pos i) current = set_index below next i current
set_segment below next name (negsuc _) current = set_name below next name current

-- Behind the last segment the value takes the place of what is there.
unfoldable pub set_path : List Segment → Value → Value → Result ResolveError Value
set_path [] value current = ok value
set_path (s ∷ ss) value current = set_segment (set_path ss value) ss s.name s.index current

-- `strings.TrimPrefix(path, ".")`
abbrev pub trim_dot : Text → Text
trim_dot [] = []
trim_dot (c ∷ cs) = if c == b'.' then cs else c ∷ cs

abbrev with_segments :
    (List Segment → Result ResolveError Value)
    → Result PathError (List Segment)
    → Run (Result ResolveError Value)
with_segments f (err e) = done (err (invalid_path e))
with_segments f (ok segments) = done (f segments)

unfoldable pub get_value_from_path : Text → Value → Run (Result ResolveError Value)
get_value_from_path path resource =
    parse (trim_dot path) >>= with_segments (λ ss. get_path ss resource)

-- An empty path changes nothing.
abbrev set_segments : Value → Value → List Segment → Result ResolveError Value
set_segments value resource [] = ok resource
set_segments value resource (s ∷ ss) = set_path (s ∷ ss) value resource

unfoldable pub set_value_at_path : Text → Value → Value → Run (Result ResolveError Value)
set_value_at_path path value resource = parse path >>= with_segments (set_segments value resource)

-- internal/graph/variable: a field of a resource that holds expressions.
pub record FieldDescriptor : Type 0 where
  pub path : Text
  pub expressions : List Text
  pub expected_type : Text
  pub standalone_expression : Bool

pub record ResolutionResult : Type 0 where
  pub path : Text
  pub resolved : Bool
  pub original : List Text
  pub replaced : Option Value
  pub error : Option ResolveError

pub record ResolutionSummary : Type 0 where
  pub total_expressions : ℕ
  pub resolved_expressions : ℕ
  pub results : List ResolutionResult
  pub errors : List ResolveError

-- The bytes of the cutset "${}".
abbrev pub in_cutset : ℕ → Bool
in_cutset c = c == b'$' || c == b'{' || c == b'}'

unfoldable pub trim_left : Text → Text
trim_left [] = []
trim_left (c ∷ cs) = let rest = trim_left cs in if in_cutset c then rest else c ∷ cs

-- Without the bytes of the cutset at the end.
unfoldable pub trim_right : Text → Text
trim_right [] = []
trim_right (c ∷ cs) = elim (trim_right cs) [
  | [] ↦ if in_cutset c then [] else c ∷ []
  | d ∷ ds ↦ c ∷ d ∷ ds
]

-- `strings.Trim(s, "${}")`
unfoldable pub trim_expression : Text → Text
trim_expression s = trim_right (trim_left s)

unfoldable pub has_prefix : Text → Text → Bool
has_prefix [] s = true
has_prefix (p ∷ ps) [] = false
has_prefix (p ∷ ps) (c ∷ cs) = p == c && has_prefix ps cs

-- `strings.Replace(s, old, new, -1)` for an `old` that is not empty: the counter says how many bytes
-- of a match are still to be passed over.
unfoldable pub replace_from : Text → Text → ℕ → Text → Text
replace_from old new skip [] = []
replace_from old new (suc skip) (c ∷ cs) = replace_from old new skip cs
replace_from old new zero (c ∷ cs) =
    let matched = new ++ replace_from old new (length old - 1) cs in
    let kept = c ∷ replace_from old new zero cs in if has_prefix old (c ∷ cs) then matched else kept

abbrev pub wrap_expression : Text → Text
wrap_expression expr = b'$' ∷ b'{' ∷ (expr ++ b'}' ∷ [])

abbrev pub failed : FieldDescriptor → ResolveError → ResolutionResult
failed field e = record {
  path = field.path;
  resolved = false;
  original = field.expressions;
  replaced = none;
  error = some e;
}

abbrev pub succeeded : FieldDescriptor → Value → ResolutionResult
succeeded field v = record {
  path = field.path;
  resolved = true;
  original = field.expressions;
  replaced = some v;
  error = none;
}

-- The end of `resolveField`: an error of the write leaves the resource as it was.
abbrev pub finish_set :
    FieldDescriptor → Value → Value → Result ResolveError Value → Run (Value × ResolutionResult)
finish_set field v resource (err e) = done (resource, failed field (setting e))
finish_set field v resource (ok resource') = done (resource', succeeded field v)

abbrev put_value : FieldDescriptor → Value → Value → Run (Value × ResolutionResult)
put_value field v resource = set_value_at_path field.path v resource >>= finish_set field v resource

-- `field.Expressions[0]` panics where there is none.
abbrev first_expression : List Text → Run Text
first_expression [] = panic
first_expression (e ∷ es) = done e

abbrev standalone_value :
    FieldDescriptor → Value → Text → Option Value → Run (Value × ResolutionResult)
standalone_value field resource expr none = done (resource, failed field (no_data expr))
standalone_value field resource expr (some v) = put_value field v resource

abbrev pub error_list : Option ResolveError → List ResolveError
error_list none = []
error_list (some e) = e ∷ []

abbrev pub count : ResolutionResult → ResolutionSummary → ResolutionSummary
count r s = record s {
  resolved_expressions = if r.resolved then s.resolved_expressions + 1 else s.resolved_expressions;
  results = s.results ++ r ∷ [];
  errors = s.errors ++ error_list r.error;
}

-- The data for the expressions, and what `fmt.Sprintf("%v", v)` writes for a value.
module _ (data_ : Map Value) (format_value : Value → Text) where
  abbrev replace_in : Text → Text → Option Value → Result ResolveError Text
  replace_in replaced expr none = err (no_data expr)
  replace_in replaced expr (some v) =
      ok (replace_from (wrap_expression expr) (format_value v) 0 replaced)

  -- The loop over the expressions of a text.
  unfoldable pub replace_each : List Text → Text → Result ResolveError Text
  replace_each [] replaced = ok replaced
  replace_each (expr ∷ es) replaced =
      and_then (replace_in replaced expr (lookup (trim_expression expr) data_)) (replace_each es)

  abbrev put_text :
      FieldDescriptor → Value → Result ResolveError Text → Run (Value × ResolutionResult)
  put_text field resource (err e) = done (resource, failed field e)
  put_text field resource (ok t) = put_value field (text t) resource

  abbrev resolve_text : FieldDescriptor → Value → Value → Run (Value × ResolutionResult)
  resolve_text field resource (text t) = put_text field resource (replace_each field.expressions t)
  resolve_text field resource _ = done (resource, failed field (expected_string field.path))

  abbrev resolve_found :
      FieldDescriptor → Value → Result ResolveError Value → Run (Value × ResolutionResult)
  resolve_found field resource (err e) = done (resource, failed field (getting e))
  resolve_found field resource (ok v) =
      if field.standalone_expression
      then (first_expression field.expressions >>= λ expr.
          standalone_value field resource expr (lookup (trim_expression expr) data_))
      else resolve_text field resource v

  unfoldable pub resolve_field : FieldDescriptor → Value → Run (Value × ResolutionResult)
  resolve_field field resource =
      get_value_from_path field.path resource >>= resolve_found field resource

  -- The loop of `Resolve`.
  unfoldable pub resolve_each :
      List FieldDescriptor → Value → ResolutionSummary → Run (Value × ResolutionSummary)
  resolve_each [] resource summary = done (resource, summary)
  resolve_each (f ∷ fs) resource summary =
      resolve_field f resource >>= λ out. resolve_each fs out.0 (count out.1 summary)

  unfoldable pub resolve : List FieldDescriptor → Value → Run (Value × ResolutionSummary)
  resolve fields resource = resolve_each fields resource (record {
    total_expressions = length fields;
    resolved_expressions = 0;
    results = [];
    errors = [];
  })
