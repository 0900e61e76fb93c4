-- ===== src/Common/Maps.antt =====
-- Go maps with string keys as association lists. The order of the list is the order in which a
-- `range` loop visits the entries, which Go leaves open: a theorem about all lists covers each.
use mathlib.Core.Path.{◌≡◌, refl}
use mathlib.Core.Bool.{Bool, true, false, ◌||◌}
use mathlib.Core.Option.{Option, none, some}
use mathlib.Core.List.{List, [], ◌∷◌}
use native.Mathlib.Omega.{arith}
use kubernetes_resource_orch.Common.Tests.{if◌then◌else◌}
use kubernetes_resource_orch.Common.Texts.{Text, text_eq, text_eq_iff, mem, Nodup}

abbrev pub Map {ℓ} : Type ℓ → Type ℓ
Map V = List (Text × V)

module _ {ℓ} {V : Type ℓ} where
  -- `v, ok := m[k]`
  unfoldable pub lookup : Text → Map V → Option V
  lookup k [] = none
  lookup k ((j, v) ∷ m) = if text_eq k j then some v else lookup k m

  -- `m[k] = v`
  unfoldable pub insert : Text → V → Map V → Map V
  insert k v [] = (k, v) ∷ []
  insert k v ((j, w) ∷ m) = if text_eq k j then (k, v) ∷ m else (j, w) ∷ insert k v m

  abbrev pub keys : Map V → List Text
  keys [] = []
  keys ((k, v) ∷ m) = k ∷ keys m

  -- `_, ok := m[k]`
  abbrev pub has_key : Text → Map V → Bool
  has_key k m = elim (lookup k m) [ none ↦ false | some _ ↦ true ]

  pub lookup-insert :
      (k j : Text) (v : V) (m : Map V)
      → lookup j (insert k v m) ≡ (if text_eq j k then some v else lookup j m)
  unfolding lookup insert
  lookup-insert k j v [] = refl
  lookup-insert k j v ((i, w) ∷ m) =
      ground (arith, text_eq_iff j k, text_eq_iff k i, text_eq_iff j i, lookup-insert k j v m)

  pub mem-keys : (k : Text) (m : Map V) → mem k (keys m) ≡ has_key k m
  unfolding mem lookup
  mem-keys k [] = refl
  mem-keys k ((j, v) ∷ m) = ground (arith, mem-keys k m)

  pub mem-keys-insert :
      (x k : Text) (v : V) (m : Map V)
      → mem x (keys (insert k v m)) ≡ (text_eq x k || mem x (keys m))
  unfolding mem insert
  mem-keys-insert x k v [] = refl
  mem-keys-insert x k v ((j, w) ∷ m) = ground (arith, mem-keys-insert x k v m, text_eq_iff k j)

  pub keys-insert-Nodup :
      (k : Text) (v : V) (m : Map V) → Nodup (keys m) → Nodup (keys (insert k v m))
  unfolding mem insert
  keys-insert-Nodup k v [] h = ground arith
  keys-insert-Nodup k v ((j, w) ∷ m) h =
      ground
        (arith, mem-keys-insert j k v m, text_eq_iff k j, text_eq_iff j k, keys-insert-Nodup k v m)
