-- ===== src/Parser/Written.antt =====
-- internal/graph/parser: the paths that the walks write, in closed form.
use kubernetes_resource_orch.Common.{
  ℕ, ◌≤◌, ◌≡◌, refl, sym, ◌∙◌, Bool, true, false, not, ◌||◌, List, [], ◌∷◌, ◌++◌, length, arith,
  Text, is_empty_text, pos, lacks, int_max, decimal,
}
use mathlib.Core.List.{append_assoc, append-nil}
use kubernetes_resource_orch.Fieldpath.{Segment, new_named_segment, new_indexed_segment}
use kubernetes_resource_orch.Fieldpath.Scan.{IsPlain}
use kubernetes_resource_orch.Fieldpath.Render.{all_simple, quote_bytes-simple, is_nil}
use kubernetes_resource_orch.Parser.{join_path_and_field_name}
use kubernetes_resource_orch.Parser.Strings.{path_onto, path_of}

-- `joinPathAndFieldName` puts the name into brackets and quotes.
abbrev pub is_quoted : Text → Bool
is_quoted name = is_empty_text name || not (lacks b'.' name)

-- The segments that the walks write and `Parse` reads alike: a name with no dot and no opening
-- bracket, of two bytes or more if it ends the path; a name that is empty or has a dot, and only such
-- bytes of ASCII as `%q` leaves as they are; an index.
pub data IsWritten (last : Bool) : Segment → Type 0 where
  plain :
      {name : Text}
      → IsPlain name
      → (last ≡ true → 2 ≤ length name)
      → IsWritten last (new_named_segment name)
  quoted :
      {name : Text}
      → is_quoted name ≡ true
      → all_simple name ≡ true
      → IsWritten last (new_named_segment name)
  index : {n : ℕ} → n ≤ int_max → IsWritten last (new_indexed_segment (pos n))

abbrev pub AreWritten : List Segment → Type 0
AreWritten [] = Unit
AreWritten (s ∷ ss) = IsWritten (is_nil ss) s × AreWritten ss

abbrev pub in_quotes : Text → Text → Text
in_quotes name rest = b'[' ∷ b'"' ∷ (name ++ b'"' ∷ b']' ∷ rest)

abbrev pub in_brackets : ℕ → Text → Text
in_brackets n rest = b'[' ∷ (decimal n ++ b']' ∷ rest)

-- What stands for the segments at the start of a path, and behind other segments.
unfoldable mutual
  pub entry : (ss : List Segment) → AreWritten ss → Text
  entry [] w = []
  entry (s ∷ ss) (plain {name} p long, w) = name ++ follow ss w
  entry (s ∷ ss) (quoted {name} q k, w) = in_quotes name (follow ss w)
  entry (s ∷ ss) (index {n} m, w) = in_brackets n (follow ss w)

  pub follow : (ss : List Segment) → AreWritten ss → Text
  follow [] w = []
  follow (s ∷ ss) (plain {name} p long, w) = b'.' ∷ (name ++ follow ss w)
  follow (s ∷ ss) (quoted {name} q k, w) = in_quotes name (follow ss w)
  follow (s ∷ ss) (index {n} m, w) = in_brackets n (follow ss w)

join_plain :
    (path name : Text)
    → IsPlain name
    → is_empty_text path ≡ false
    → join_path_and_field_name path name ≡ path ++ b'.' ∷ name
unfolding join_path_and_field_name
join_plain path [] p h = absurd (p.ne_nil refl)
join_plain path (c ∷ cs) p h = ground (arith, p.no_dot)

join_first : (name : Text) → IsPlain name → join_path_and_field_name [] name ≡ name
unfolding join_path_and_field_name
join_first [] p = absurd (p.ne_nil refl)
join_first (c ∷ cs) p = ground (arith, p.no_dot)

join_quoted :
    (path name : Text)
    → is_quoted name ≡ true
    → all_simple name ≡ true
    → join_path_and_field_name path name ≡ path ++ in_quotes name []
unfolding join_path_and_field_name
join_quoted path name q k = rw (q, quote_bytes-simple name k) refl

is_empty-append : (t : Text) (c : ℕ) (cs : Text) → is_empty_text (t ++ c ∷ cs) ≡ false
is_empty-append [] c cs = refl
is_empty-append (d ∷ t) c cs = refl

in_quotes_append :
    (path name rest : Text) → (path ++ in_quotes name []) ++ rest ≡ path ++ in_quotes name rest
in_quotes_append path name rest = simp append_assoc

in_brackets_append :
    (path : Text) (n : ℕ) (rest : Text)
    → (path ++ in_brackets n []) ++ rest ≡ path ++ in_brackets n rest
in_brackets_append path n rest = simp append_assoc

path_onto-follow :
    (ss : List Segment) (w : AreWritten ss) (path : Text)
    → is_empty_text path ≡ false
    → path_onto path ss ≡ path ++ follow ss w
unfolding path_onto follow
path_onto-follow [] w path h = sym (append-nil path)
path_onto-follow (s ∷ ss) (plain {name} p long, w) path h = rw (join_plain path name p h) (
    path_onto-follow ss w (path ++ b'.' ∷ name) (is_empty-append path _ _)
    ∙ append_assoc path (b'.' ∷ name) (follow ss w))
path_onto-follow (s ∷ ss) (quoted {name} q k, w) path h = rw (join_quoted path name q k) (
    path_onto-follow ss w (path ++ in_quotes name []) (is_empty-append path _ _)
    ∙ in_quotes_append path name (follow ss w))
path_onto-follow (s ∷ ss) (index {n} m, w) path h =
    path_onto-follow ss w (path ++ in_brackets n []) (is_empty-append path _ _)
    ∙ in_brackets_append path n (follow ss w)

pub path_of-entry : (ss : List Segment) (w : AreWritten ss) → path_of ss ≡ entry ss w
unfolding path_onto entry
path_of-entry [] w = refl
path_of-entry (s ∷ ss) (plain {name = []} p long, w) = absurd (p.ne_nil refl)
path_of-entry (s ∷ ss) (plain {name = c ∷ cs} p long, w) =
    rw (join_first (c ∷ cs) p) (path_onto-follow ss w (c ∷ cs) refl)
path_of-entry (s ∷ ss) (quoted {name} q k, w) =
    rw (join_quoted [] name q k)
      (path_onto-follow ss w (in_quotes name []) refl ∙ in_quotes_append [] name (follow ss w))
path_of-entry (s ∷ ss) (index {n} m, w) =
    path_onto-follow ss w (in_brackets n []) refl ∙ in_brackets_append [] n (follow ss w)
