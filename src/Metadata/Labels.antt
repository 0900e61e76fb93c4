-- ===== src/Metadata/Labels.antt =====
-- internal/metadata/labels.go: what labelers put on objects.
use kubernetes_resource_orch.Common.{
  ◌≡◌, refl, sym, ap, subst, ok-inj, err-inj, ◌∙◌, true, false, inl, inr, Bool-cases, Option-cases,
  [], ◌∷◌, Option, none, some, if◌then◌else◌, Text, text_eq, text_eq_iff, text_eq_refl, mem, Map,
  Nodup, lookup, insert, keys, has_key, lookup-insert, mem-keys, ok, err, arith,
}
use kubernetes_resource_orch.Values.{Value}
use kubernetes_resource_orch.Metadata.{Accessors, AreLawful, apply_labels, merge}

-- The value of the second map, else of the first.
abbrev pub or_else : Option Text → Option Text → Option Text
or_else none old = old
or_else (some v) old = some v

or_else-none : (m : Option Text) → or_else m none ≡ m
or_else-none none = refl
or_else-none (some v) = refl

missing-lookup : (k : Text) (m : Map Text) → mem k (keys m) ≡ false → lookup k m ≡ none
missing-lookup k m h = elim (Option-cases (lookup k m)) [
  | inl gone ↦ gone
  | inr (v, there) ↦ ground (arith, mem-keys k m, h, there)
]

placed :
    (f : Option Text → Option Text) (k j v : Text) (m : Map Text)
    → f (lookup k (insert j v m)) ≡ f (if text_eq k j then some v else lookup k m)
placed f k j v m = ap f (lookup-insert j k v m)

-- A key of its own in front is the one that is found.
last_wins :
    (k j v : Text) (rest : Map Text) (old : Option Text)
    → mem j (keys rest) ≡ false
    → or_else (lookup k rest) (if text_eq k j then some v else old)
      ≡ or_else (if text_eq k j then some v else lookup k rest) old
last_wins k j v rest old n = elim (Bool-cases (text_eq k j)) [
  | inl same ↦
      let gone : lookup k rest ≡ none =
        missing-lookup k rest (ap (λ x. mem x (keys rest)) ((text_eq_iff k j).0 same) ∙ n) in
      rw (same, gone) refl
  | inr other ↦ rw other refl
]

-- Where `Merge` succeeds it has each label of both labelers, for a labeler with one value for a key.
pub merge-lookup :
    (gl other merged : Map Text)
    → Nodup (keys other)
    → merge gl other ≡ ok merged
    → (k : Text) → lookup k merged ≡ or_else (lookup k other) (lookup k gl)
unfolding merge lookup mem
merge-lookup gl [] merged n e k = ap (lookup k) (sym (ok-inj e))
merge-lookup gl ((j, v) ∷ other) merged n e k = elim (Bool-cases (has_key j gl)) [
  | inl clash ↦ ground (arith, e, clash)
  | inr free ↦
      merge-lookup (insert j v gl) other merged n.1 (ground (arith, e, free)) k
      ∙ placed (or_else (lookup k other)) k j v gl
      ∙ last_wins k j v other (lookup k gl) n.0
]

-- `Merge` fails with a key exactly when the labelers share one.
pub merge-Clash :
    (gl other : Map Text) (k : Text)
    → Nodup (keys other)
    → merge gl other ≡ err k
    → (has_key k gl ≡ true) × (has_key k other ≡ true)
unfolding merge lookup mem
merge-Clash gl [] k n e = ground (arith, e)
merge-Clash gl ((j, v) ∷ other) k n e = elim (Bool-cases (has_key j gl)) [
  | inl clash ↦
      let same : j ≡ k = err-inj {A = Map Text} (ground (arith, e, clash)) in
      (
        subst (λ x. has_key x gl ≡ true) same clash,
        ground (arith, text_eq_refl k, text_eq_iff k j, same),
      )
  | inr free ↦
      let both = merge-Clash (insert j v gl) other k n.1 (ground (arith, e, free)) in
      let apart : text_eq k j ≡ false = elim (Bool-cases (text_eq k j)) [
        | inl same ↦
            let back : mem k (keys other) ≡ false =
              ap (λ x. mem x (keys other)) ((text_eq_iff k j).0 same) ∙ n.0 in
            ground (arith, back, mem-keys k other, both.1)
        | inr other_ ↦ other_
      ] in
      (ground (arith, both.0, lookup-insert j k v gl, apart), ground (arith, apart, both.1))
]

module _ (access : Accessors) (lawful : AreLawful access) where
  -- Where what is written is read: `ApplyLabels` puts every label of the labeler on the object, and
  -- leaves its other labels as they are.
  pub apply_labels-lookup :
      (gl : Map Text) (obj : Value)
      → Nodup (keys gl)
      → (k : Text)
      → lookup k (access.labels (apply_labels access gl obj))
        ≡ or_else (lookup k gl) (lookup k (access.labels obj))
  unfolding apply_labels lookup mem
  apply_labels-lookup [] obj n k = refl
  apply_labels-lookup ((j, v) ∷ gl) obj n k =
      apply_labels-lookup gl (access.put_labels (insert j v (access.labels obj)) obj) n.1 k
      ∙ ap (λ ls. or_else (lookup k gl) (lookup k ls))
          (lawful.labels-put (insert j v (access.labels obj)) obj)
      ∙ placed (or_else (lookup k gl)) k j v (access.labels obj)
      ∙ last_wins k j v gl (lookup k (access.labels obj)) n.0
