-- ===== src/Parser/Paths.antt =====
-- internal/graph/parser against internal/graph/fieldpath: the paths that the walks write are read back
-- by `Parse`.
use kubernetes_resource_orch.Common.{
  ℕ, zero, suc, ◌≤◌, ◌≡◌, refl, ap, ◌∙◌, ◌⊎◌, inl, inr, true, ◌||◌, List, [], ◌∷◌, ◌++◌, ◌==◌,
  length, length-append, arith, Text, done, ok, lacks, decimal, decimal_cases, all_digits,
}
use mathlib.Core.List.{append_assoc, append-nil}
use kubernetes_resource_orch.Fieldpath.{
  Segment, new_named_segment, parse_field, parse_index, skip_dot, parse_round, parse_loop, parse,
}
use kubernetes_resource_orch.Fieldpath.Scan.{
  IsPlain, parse_unquoted_field-append, parse_unquoted_field_end, parse_quoted_field-append,
  parse_index-decimal,
}
use kubernetes_resource_orch.Fieldpath.Render.{all_simple-lacks, is_nil}
use kubernetes_resource_orch.Fieldpath.RoundTrip.{parse_loop-cons}
use kubernetes_resource_orch.Parser.Strings.{path_of}
use kubernetes_resource_orch.Parser.Written.{
  plain, quoted, index, AreWritten, in_brackets, entry, follow, path_of-entry,
}

skip_dot-follow : (ss : List Segment) (w : AreWritten ss) → skip_dot (follow ss w) ≡ entry ss w
unfolding skip_dot follow entry
skip_dot-follow [] w = refl
skip_dot-follow (s ∷ ss) (plain p long, w) = refl
skip_dot-follow (s ∷ ss) (quoted q k, w) = refl
skip_dot-follow (s ∷ ss) (index m, w) = refl

-- What is left of the segments when the index is read that may follow a field.
record FrontRead (ss : List Segment) (w : AreWritten ss) : Type 0 where
  front : List Segment
  rest : List Segment
  written : AreWritten rest
  joined : front ++ rest ≡ ss
  shorter : length rest ≤ length ss
  read : parse_index (follow ss w) ≡ ok (front, follow rest written)

unread :
    (ss : List Segment) (w : AreWritten ss)
    → parse_index (follow ss w) ≡ ok ([], follow ss w)
    → FrontRead ss w
unread ss w e = record {
  front = [];
  rest = ss;
  written = w;
  joined = refl;
  shorter = omega arith;
  read = e;
}

read_front : (ss : List Segment) (w : AreWritten ss) → FrontRead ss w
unfolding follow
read_front [] w = unread [] w (unfold parse_index in refl)
read_front (s ∷ ss) (plain p long, w) =
    unread (s ∷ ss) (plain p long, w) (unfold parse_index in refl)
read_front (s ∷ ss) (quoted q k, w) = unread (s ∷ ss) (quoted q k, w) (unfold parse_index in refl)
read_front (s ∷ ss) (index {n} m, w) = record {
  front = s ∷ [];
  rest = ss;
  written = w;
  joined = refl;
  shorter = omega arith;
  read = parse_index-decimal n (follow ss w) m;
}

-- Where a plain name ends.
parse_field-plain :
    (name : Text) (c : ℕ) (rest : Text)
    → IsPlain name
    → (c == b'.' || c == b'[') ≡ true
    → parse_field (name ++ c ∷ rest) ≡ ok (new_named_segment name ∷ [], c ∷ rest)
unfolding parse_field lacks
parse_field-plain [] c rest p h = absurd (p.ne_nil refl)
parse_field-plain (b ∷ []) c rest p h =
    ground (arith, parse_unquoted_field-append (b ∷ []) c rest p h, p.no_bracket)
parse_field-plain (b ∷ d ∷ name) c rest p h =
    ground (arith, parse_unquoted_field-append (b ∷ d ∷ name) c rest p h, p.no_bracket)

parse_field-end :
    (name : Text)
    → IsPlain name
    → 2 ≤ length name
    → parse_field name ≡ ok (new_named_segment name ∷ [], [])
unfolding parse_field lacks
parse_field-end [] p h = absurd (p.ne_nil refl)
parse_field-end (c ∷ []) p h = absurd (omega arith)
parse_field-end (c ∷ d ∷ ds) p h =
    ground (arith, parse_unquoted_field_end (c ∷ d ∷ ds) p, p.no_bracket)

-- The bytes that end a plain name start what follows it.
follow_cases :
    (ss : List Segment) (w : AreWritten ss)
    → (ss ≡ [])
      ⊎ ((c : ℕ) × (cs : Text) × (follow ss w ≡ c ∷ cs) × ((c == b'.' || c == b'[') ≡ true))
unfolding follow
follow_cases [] w = inl refl
follow_cases (s ∷ ss) (plain p long, w) = inr (_, _, refl, refl)
follow_cases (s ∷ ss) (quoted q k, w) = inr (_, _, refl, refl)
follow_cases (s ∷ ss) (index m, w) = inr (_, _, refl, refl)

field_follow :
    (name : Text) (ss : List Segment) (w : AreWritten ss)
    → IsPlain name
    → (is_nil ss ≡ true → 2 ≤ length name)
    → parse_field (name ++ follow ss w) ≡ ok (new_named_segment name ∷ [], follow ss w)
field_follow name [] w p long =
    unfold follow in rw (append-nil name) (parse_field-end name p (long refl))
field_follow name (s ∷ ss) w p long = elim (follow_cases (s ∷ ss) w) [
  | inl e ↦ cc
  | inr (c, cs, e, stops) ↦ rw e (parse_field-plain name c cs p stops)
]

parse_field-bracket :
    (n : ℕ) (rest : Text) → parse_field (in_brackets n rest) ≡ ok ([], in_brackets n rest)
parse_field-bracket n rest =
    let (c, cs, e, digits) = decimal_cases n in
    rw e (unfold parse_field all_digits in ground (arith, digits))

-- One round of the parser at the start of the segments.
record RoundRead (s : Segment) (ss : List Segment) (w : AreWritten (s ∷ ss)) : Type 0 where
  front : List Segment
  rest : List Segment
  written : AreWritten rest
  joined : front ++ rest ≡ s ∷ ss
  shorter : length rest ≤ length ss
  read : parse_round (entry (s ∷ ss) w) ≡ ok (front, entry rest written)

module _ {s : Segment} {ss : List Segment} {w : AreWritten (s ∷ ss)} (sp : FrontRead ss w.1) where
  after_front :
      parse_round (entry (s ∷ ss) w) ≡ ok (s ∷ sp.front, entry sp.rest sp.written)
      → RoundRead s ss w
  after_front e = record {
    front = s ∷ sp.front;
    rest = sp.rest;
    written = sp.written;
    joined = ap (λ l. s ∷ l) sp.joined;
    shorter = sp.shorter;
    read = e;
  }

parse_round-entry : (s : Segment) (ss : List Segment) (w : AreWritten (s ∷ ss)) → RoundRead s ss w
unfolding parse_round entry
parse_round-entry s ss (plain {name} p long, w) =
    let sp = read_front ss w in
    after_front sp
      (rw (field_follow name ss w p long, sp.read, skip_dot-follow sp.rest sp.written) refl)
parse_round-entry s ss (quoted {name} q k, w) =
    let sp = read_front ss w in
    after_front sp (
      unfold parse_field in
      rw
        (
          parse_quoted_field-append name (follow ss w) (all_simple-lacks name k),
          sp.read,
          skip_dot-follow sp.rest sp.written,
        )
        refl)
parse_round-entry s ss (index {n} m, w) = record {
  front = s ∷ [];
  rest = ss;
  written = w;
  joined = refl;
  shorter = omega arith;
  read =
      rw
        (
          parse_field-bracket n (follow ss w),
          parse_index-decimal n (follow ss w) m,
          skip_dot-follow ss w,
        )
        refl;
}

entry_cases :
    (s : Segment) (ss : List Segment) (w : AreWritten (s ∷ ss))
    → (c : ℕ) × (cs : Text) × (entry (s ∷ ss) w ≡ c ∷ cs)
unfolding entry
entry_cases s ss (plain {name = []} p long, w) = absurd (p.ne_nil refl)
entry_cases s ss (plain {name = c ∷ cs} p long, w) = (c, _, refl)
entry_cases s ss (quoted q k, w) = (_, _, refl)
entry_cases s ss (index m, w) = (_, _, refl)

parse_loop-entry :
    (fuel : ℕ) (segments ss : List Segment) (w : AreWritten ss)
    → length ss ≤ fuel
    → parse_loop fuel segments (entry ss w) ≡ done (ok (segments ++ ss))
parse_loop-entry fuel segments [] w m = unfold parse_loop entry in rw append-nil refl
parse_loop-entry zero segments (s ∷ ss) w m = absurd (omega arith)
parse_loop-entry (suc fuel) segments (s ∷ ss) w m =
    let (c, cs, e) = entry_cases s ss w in
    let r = parse_round-entry s ss w in
    rw (parse_loop-cons fuel segments (entry (s ∷ ss) w) c cs e, r.read)
      (parse_loop-entry fuel (segments ++ r.front) r.rest r.written (omega (arith, r.shorter))
        ∙ ap (λ l. done (ok l))
            (append_assoc segments r.front r.rest ∙ ap (λ l. segments ++ l) r.joined))

length-follow : (ss : List Segment) (w : AreWritten ss) → length ss ≤ length (follow ss w)
unfolding follow
length-follow [] w = omega arith
length-follow (s ∷ ss) (plain {name} p long, w) =
    omega (arith, length-append name (follow ss w), length-follow ss w)
length-follow (s ∷ ss) (quoted {name} q k, w) =
    omega (arith, length-append name (b'"' ∷ b']' ∷ follow ss w), length-follow ss w)
length-follow (s ∷ ss) (index {n} m, w) =
    omega (arith, length-append (decimal n) (b']' ∷ follow ss w), length-follow ss w)

length-entry : (ss : List Segment) (w : AreWritten ss) → length ss ≤ length (entry ss w)
unfolding entry
length-entry [] w = omega arith
length-entry (s ∷ ss) (plain {name = []} p long, w) = absurd (p.ne_nil refl)
length-entry (s ∷ ss) (plain {name = c ∷ cs} p long, w) =
    omega (arith, length-append cs (follow ss w), length-follow ss w)
length-entry (s ∷ ss) (quoted {name} q k, w) =
    omega (arith, length-append name (b'"' ∷ b']' ∷ follow ss w), length-follow ss w)
length-entry (s ∷ ss) (index {n} m, w) =
    omega (arith, length-append (decimal n) (b']' ∷ follow ss w), length-follow ss w)

-- `Parse` reads back the segments from the path that the walks over a resource write for them, where
-- each is an index that fits in an `int`, a name with no dot and no opening bracket, of two bytes or
-- more at the end of the path, or a name that is empty or has a dot, with only such bytes of ASCII as
-- `%q` leaves as they are.
pub parse-path_of : (ss : List Segment) → AreWritten ss → parse (path_of ss) ≡ done (ok ss)
unfolding parse
parse-path_of ss w =
    rw (path_of-entry ss w) (parse_loop-entry (length (entry ss w)) [] ss w (length-entry ss w))
