-- ===== src/Builder/Reads.antt =====
-- The resources that an expression reads, as the inspector finds them, against what
-- `validateCELExpressionContext` and `extractDependencies` of internal/graph/builder.go make of it.
use kubernetes_resource_orch.Common.{
  ◌≡◌, refl, ◌∙◌, Bool, true, false, not, ◌&&◌, ◌||◌, inl, inr, List, [], ◌∷◌, ◌++◌, if◌then◌else◌,
  Bool-cases, arith, Text, text_eq, text_eq_iff, text_eq_refl, mem, mem-append, remove, mem-remove,
  Result, ok, err, and_then,
}
use kubernetes_resource_orch.Builder.{
  ExpressionInspection, BuildError, inspection_failed, schema, refers_to_known,
  collect_dependencies, unless_unknown, inspected, validate_cel_expression_context,
  extract_dependencies,
}
use kubernetes_resource_orch.Builder.Reasons.{
  is_empty, SameMembers, SameMembers-is_empty, reads, Scope, Inspected, OkOrRefusal,
  OkOrRefusal-mono,
}

collect_dependencies-mem :
    (x : Text) (ids deps : List Text) (static : Bool)
    → mem x (collect_dependencies ids (deps, static)).0 ≡ (mem x deps || mem x (remove schema ids))
unfolding collect_dependencies mem remove
collect_dependencies-mem x [] deps static = ground arith
collect_dependencies-mem x (id ∷ ids) deps static = ground (
  arith,
  collect_dependencies-mem x ids deps static,
  collect_dependencies-mem x ids (deps ++ id ∷ []) false,
  mem-append x deps (id ∷ []),
  text_eq_iff x id,
  text_eq_iff schema id,
  text_eq_iff id schema,
)

collect_dependencies-static :
    (ids : List Text) (s : List Text × Bool)
    → s.1 ≡ is_empty s.0
    → (collect_dependencies ids s).1 ≡ is_empty (collect_dependencies ids s).0
unfolding collect_dependencies
collect_dependencies-static [] s h = h
collect_dependencies-static (id ∷ ids) (deps, static) h =
    collect_dependencies-static ids (if new then (deps ++ id ∷ [], false) else (deps, static))
      (either new)
  where
    new : Bool
    new = not (text_eq id schema) && not (mem id deps)

    filled : (ds : List Text) → false ≡ is_empty (ds ++ id ∷ [])
    filled [] = refl
    filled (d ∷ ds) = refl

    either :
        (b : Bool)
        → (λ (p : List Text × Bool). p.1 ≡ is_empty p.0)
            (if b then (deps ++ id ∷ [], false) else (deps, static))
    either true = filled deps
    either false = h

-- What the two functions tell of an expression that they accept.
pub record Finds (names found : List Text) (deps : List Text) (static : Bool) : Type 0 where
  pub same : SameMembers deps found
  pub static_if_none : static ≡ is_empty found
  pub known : (x : Text) → mem x deps ≡ true → mem x names ≡ true
  pub not_schema : mem schema deps ≡ false

abbrev AllKnown : List Text → List Text → Type 0
AllKnown names ids = (x : Text) → mem x ids ≡ true → mem x names ≡ true

collect_dependencies-Finds :
    (names ids : List Text)
    → AllKnown names ids
    → Finds names
        (remove schema ids)
        (collect_dependencies ids ([], true)).0
        (collect_dependencies ids ([], true)).1
unfolding mem
collect_dependencies-Finds names ids all_known = record {
  same = λ x. collect_dependencies-mem x ids [] true;
  static_if_none =
      collect_dependencies-static ids ([], true) refl
      ∙ SameMembers-is_empty (collect_dependencies ids ([], true)).0 (remove schema ids)
          (λ x. collect_dependencies-mem x ids [] true);
  known = λ x h.
      ground
        (arith, all_known x, collect_dependencies-mem x ids [] true, mem-remove x schema ids, h);
  not_schema = ground (
    arith,
    collect_dependencies-mem schema ids [] true,
    mem-remove schema schema ids,
    text_eq_refl schema,
  );
}

pub and_then-OkOrRefusal :
    (c : Scope) {A B : Type 0} (P : A → Type 0) (Q : B → Type 0) (m : Result BuildError A)
    (f : A → Result BuildError B)
    → OkOrRefusal c P m
    → ((a : A) → P a → OkOrRefusal c Q (f a))
    → OkOrRefusal c Q (and_then m f)
and_then-OkOrRefusal c P Q (ok a) f h k = k a h
and_then-OkOrRefusal c P Q (err e) f h k = h

module _ (c : Scope) (i : ExpressionInspection) (found_there : Inspected c (ok i)) where
  refers_to_known-OkOrRefusal :
      (ids : List Text)
      → ((x : Text) → mem x ids ≡ true → mem x i.resource_dependencies ≡ true)
      → OkOrRefusal c (λ _. AllKnown c.names ids) (refers_to_known c.names ids)
  unfolding refers_to_known mem
  refers_to_known-OkOrRefusal [] all = λ x h. cc
  refers_to_known-OkOrRefusal (id ∷ ids) all = elim (Bool-cases (mem id c.names)) [
    | inr unknown ↦ rw unknown (i, found_there, all id (ground (arith, text_eq_refl id)), unknown)
    | inl known ↦ rw known (
        OkOrRefusal-mono c (λ _. AllKnown c.names ids) (λ _. AllKnown c.names (id ∷ ids))
          (refers_to_known c.names ids) (λ _ h x m. ground (arith, h x, text_eq_iff x id, known, m))
          (refers_to_known-OkOrRefusal ids (λ x m. all x (ground (arith, m)))))
  ]

  unless_unknown-OkOrRefusal :
      (P : List Text × Bool → Type 0) (found : List Text × Bool)
      → P found
      → OkOrRefusal c P (unless_unknown i found)
  unless_unknown-OkOrRefusal P found h = go i.unknown_resources i.unknown_functions refl refl
    where
      go :
          (rs fs : List Text)
          → i.unknown_resources ≡ rs
          → i.unknown_functions ≡ fs
          → OkOrRefusal c P (
              unless_unknown
                (record {
                  resource_dependencies = i.resource_dependencies;
                  unknown_resources = rs;
                  unknown_functions = fs;
                })
                found)
      go [] [] r f = h
      go [] (x ∷ xs) r f = (i, found_there, f, refl)
      go (x ∷ xs) fs r f = (i, found_there, r, refl)

-- An expression that both functions accept, and the errors of each.
pub accepted-OkOrRefusal :
    (c : Scope) (u e : Text)
    → c.occurs u e ≡ true
    → OkOrRefusal c
        (λ found. Finds c.names (reads c.inspector c.names e) found.0 found.1)
        (and_then
          (validate_cel_expression_context c.inspector c.names e)
          (λ _. extract_dependencies c.inspector c.names e))
unfolding validate_cel_expression_context extract_dependencies inspected
accepted-OkOrRefusal c u e occurs = go (c.inspector.inspect c.names e) refl
  where
    start : Result Text ExpressionInspection → Result BuildError ExpressionInspection
    start r = elim r [ ok i ↦ ok i | err m ↦ err (inspection_failed m) ]

    go :
        (r : Result Text ExpressionInspection)
        → c.inspector.inspect c.names e ≡ r
        → OkOrRefusal c
            (λ found.
              Finds c.names
                (elim r [ ok i ↦ remove schema i.resource_dependencies | err _ ↦ [] ])
                found.0
                found.1)
            (and_then
              (and_then (start r) (λ i. refers_to_known c.names i.resource_dependencies))
              (λ _.
                and_then (start r) (λ i.
                  unless_unknown i (collect_dependencies i.resource_dependencies ([], true)))))
    go (err m) here = (u, e, occurs, here)
    go (ok i) here =
        and_then-OkOrRefusal c (λ _. AllKnown c.names i.resource_dependencies)
          (λ found. Finds c.names (remove schema i.resource_dependencies) found.0 found.1)
          (refers_to_known c.names i.resource_dependencies) _
          (refers_to_known-OkOrRefusal c i (u, e, occurs, here) i.resource_dependencies (λ x m. m))
          (λ _ known.
            unless_unknown-OkOrRefusal c i (u, e, occurs, here) _
              (collect_dependencies i.resource_dependencies ([], true))
              (collect_dependencies-Finds c.names i.resource_dependencies known))
