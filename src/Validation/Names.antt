-- ===== src/Validation/Names.antt =====
-- internal/graph/validation.go: which ids are accepted.
use kubernetes_resource_orch.Common.{
  ◌≡◌, ◌↔◌, refl, true, false, List, [], ◌∷◌, none, All, arith, Text, text_eq_iff, mem, Nodup,
}
use kubernetes_resource_orch.Validation.{
  is_valid_kind_name, is_valid_resource_id, is_kro_reserved_word, validate_each,
  validate_resource_ids, validate_naming_conventions,
}

-- The id is in lower camelCase and no reserved word.
abbrev pub IsName : Text → Type 0
IsName id = (is_kro_reserved_word id ≡ false) × (is_valid_resource_id id ≡ true)

-- No id of the second list is in the first.
abbrev Apart : List Text → List Text → Type 0
Apart seen = All (λ id. mem id seen ≡ false)

Apart-cons :
    (id : Text) (seen ids : List Text)
    → Apart (id ∷ seen) ids
    → (mem id ids ≡ false) × Apart seen ids
unfolding mem
Apart-cons id seen [] h = (refl, tt)
Apart-cons id seen (x ∷ ids) h =
    let (fresh, rest) = Apart-cons id seen ids h.1 in
    (ground (arith, h.0, fresh, text_eq_iff id x, text_eq_iff x id), (ground (arith, h.0), rest))

cons-Apart :
    (id : Text) (seen ids : List Text) → mem id ids ≡ false → Apart seen ids → Apart (id ∷ seen) ids
unfolding mem
cons-Apart id seen [] fresh h = tt
cons-Apart id seen (x ∷ ids) fresh h = (
  ground (arith, fresh, h.0, text_eq_iff id x, text_eq_iff x id),
  cons-Apart id seen ids (ground (arith, fresh)) h.1,
)

validate_each-Names :
    (seen ids : List Text)
    → (validate_each seen ids ≡ none) ↔ (All IsName ids × Nodup ids × Apart seen ids)
unfolding validate_each
validate_each-Names seen [] = (λ _. (tt, tt, tt), λ _. refl)
validate_each-Names seen (id ∷ ids) =
    (forth (validate_each-Names (id ∷ seen) ids).0, back (validate_each-Names (id ∷ seen) ids).1)
  where
    forth :
        (validate_each (id ∷ seen) ids ≡ none → All IsName ids × Nodup ids × Apart (id ∷ seen) ids)
        → validate_each seen (id ∷ ids) ≡ none
        → All IsName (id ∷ ids) × Nodup (id ∷ ids) × Apart seen (id ∷ ids)
    forth rest h =
        let allowed : is_kro_reserved_word id ≡ false = ground (arith, h) in
        let valid : is_valid_resource_id id ≡ true = ground (arith, h, allowed) in
        let unseen : mem id seen ≡ false = ground (arith, h, allowed, valid) in
        let (names, nodup, apart) = rest (ground (arith, h, allowed, valid, unseen)) in
        let (fresh, others) = Apart-cons id seen ids apart in
        (((allowed, valid), names), (fresh, nodup), (unseen, others))

    back :
        (All IsName ids × Nodup ids × Apart (id ∷ seen) ids → validate_each (id ∷ seen) ids ≡ none)
        → All IsName (id ∷ ids) × Nodup (id ∷ ids) × Apart seen (id ∷ ids)
        → validate_each seen (id ∷ ids) ≡ none
    back rest ((name, names), (fresh, nodup), (unseen, apart)) =
        rw (name.0, name.1, unseen) (rest (names, nodup, cons-Apart id seen ids fresh apart))

-- `validateResourceGroupNamingConventions` accepts exactly the groups whose kind is UpperCamelCase and
-- whose ids are each in lower camelCase, no reserved word and different from the others.
pub validate_naming_conventions-Names :
    (kind : Text) (ids : List Text)
    → (validate_naming_conventions kind ids ≡ none)
      ↔ ((is_valid_kind_name kind ≡ true) × All IsName ids × Nodup ids)
unfolding validate_naming_conventions validate_resource_ids mem
validate_naming_conventions-Names kind ids = (
  λ h.
      let kind_ok : is_valid_kind_name kind ≡ true = ground (arith, h) in
      let (names, nodup, _) = (validate_each-Names [] ids).0 (ground (arith, h, kind_ok)) in
      (kind_ok, names, nodup),
  λ (kind_ok, names, nodup).
      rw kind_ok ((validate_each-Names [] ids).1 (names, nodup, all_apart ids)),
)
  where
    all_apart : (ids : List Text) → Apart [] ids
    all_apart [] = tt
    all_apart (id ∷ ids) = (refl, all_apart ids)
