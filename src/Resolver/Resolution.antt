-- ===== src/Resolver/Resolution.antt =====
-- internal/runtime/resolver: what is written at a path is read there, and a field that has its value
-- at hand is resolved.
use kubernetes_resource_orch.Common.{
  ◌≡◌, refl, ap, true, inl, inr, List, [], ◌∷◌, some, ◌==◌, Bool-cases, arith, Text, Map, lookup,
  done, ok,
}
use kubernetes_resource_orch.Fieldpath.{
  Segment, parse, parse_loop, parse_round, parse_field, parse_index, parse_unquoted_field, split_at,
  skip_dot,
}
use kubernetes_resource_orch.Values.{Value}
use kubernetes_resource_orch.Resolver.{
  get_path, set_path, trim_dot, get_value_from_path, set_value_at_path, FieldDescriptor,
  trim_expression, succeeded, resolve_field,
}
use kubernetes_resource_orch.Resolver.Paths.{get_path-set_path, Apart}
use kubernetes_resource_orch.Resolver.Frame.{get_path-set_path-Apart, set_path_total}

-- A path with segments does not start with a dot.
trim_dot-parse :
    (path : Text) (s : Segment) (ss : List Segment)
    → parse path ≡ done (ok (s ∷ ss))
    → trim_dot path ≡ path
unfolding parse parse_loop parse_round parse_field parse_index parse_unquoted_field split_at
    skip_dot
trim_dot-parse [] s ss e = refl
trim_dot-parse (c ∷ []) s ss e = ground (arith, e)
trim_dot-parse (c ∷ d ∷ ds) s ss e = elim (Bool-cases (c == b'.')) [
  | inl dot ↦ ground (arith, e, dot)
  | inr other ↦ rw other
]

-- A value that `UpsertValueAtPath` wrote at a path with segments is read at that path.
pub get_value_from_path-set :
    (path : Text) (s : Segment) (ss : List Segment) (value resource after : Value)
    → parse path ≡ done (ok (s ∷ ss))
    → set_value_at_path path value resource ≡ done (ok after)
    → get_value_from_path path after ≡ done (ok value)
unfolding get_value_from_path set_value_at_path
get_value_from_path-set path s ss value resource after e written =
    let goes : set_path (s ∷ ss) value resource ≡ ok after = ground (arith, rw e at written) in
    rw (trim_dot-parse path s ss e, e)
      (ap (λ x. done x) (get_path-set_path (s ∷ ss) value resource after goes))

-- A write at one path keeps the value at every path that parts from it: the two go to different
-- fields or elements of one object.
pub get_value_from_path-set-Apart :
    (path other : Text) (s t : Segment) (ss ts : List Segment) (value resource after w : Value)
    → parse path ≡ done (ok (s ∷ ss))
    → parse other ≡ done (ok (t ∷ ts))
    → Apart (s ∷ ss) (t ∷ ts)
    → set_value_at_path path value resource ≡ done (ok after)
    → get_value_from_path other resource ≡ done (ok w)
    → get_value_from_path other after ≡ done (ok w)
unfolding get_value_from_path set_value_at_path
get_value_from_path-set-Apart path other s t ss ts value resource after w e f apart written read =
    let goes : set_path (s ∷ ss) value resource ≡ ok after = ground (arith, rw e at written) in
    let reads : get_path (t ∷ ts) resource ≡ ok w =
      ground (arith, rw (trim_dot-parse other t ts f, f) at read) in
    rw (trim_dot-parse other t ts f, f)
      (ap (λ x. done x) (get_path-set_path-Apart value resource after w apart goes reads))

-- A field whose path can be read can be written.
pub set_value_at_path_total :
    (path : Text) (s : Segment) (ss : List Segment) (value resource w : Value)
    → parse path ≡ done (ok (s ∷ ss))
    → get_value_from_path path resource ≡ done (ok w)
    → (after : Value) × (set_value_at_path path value resource ≡ done (ok after))
unfolding get_value_from_path set_value_at_path
set_value_at_path_total path s ss value resource w e read =
    let reads : get_path (s ∷ ss) resource ≡ ok w =
      ground (arith, rw (trim_dot-parse path s ss e, e) at read) in
    let (after, written) = set_path_total (s ∷ ss) value resource w reads in
    (after, rw (e, written))

module _ (data_ : Map Value) (format_value : Value → Text) where
  -- A standalone expression whose value is at hand is resolved wherever the path of its field leads
  -- to a value: the field then holds the value, and the result says so.
  pub resolve_field_standalone :
      (field : FieldDescriptor) (expr : Text) (more : List Text) (s : Segment) (ss : List Segment)
      (v resource w : Value)
      → field.standalone_expression ≡ true
      → field.expressions ≡ expr ∷ more
      → parse field.path ≡ done (ok (s ∷ ss))
      → lookup (trim_expression expr) data_ ≡ some v
      → get_value_from_path field.path resource ≡ done (ok w)
      → (after : Value) × (resolve_field data_ format_value field resource
          ≡ done (after, succeeded field v))
        × (get_value_from_path field.path after ≡ done (ok v))
  unfolding resolve_field
  resolve_field_standalone field expr more s ss v resource w alone exprs e found read =
      let (after, written) = set_value_at_path_total field.path s ss v resource w e read in
      (
        after,
        rw read (ground (arith, alone, exprs, found, written)),
        get_value_from_path-set field.path s ss v resource after e written,
      )
