-- ===== src/Fieldpath.antt =====
-- internal/graph/fieldpath: paths into an object as texts, `Parse` and `Build`. The parser's
-- position is the part of the input that is left.
pub mod Progress
pub mod Scan
pub mod Hanging
pub mod Render
pub mod RoundTrip
mod Examples
use kubernetes_resource_orch.Common.{
  ℕ, zero, suc, ◌+◌, ◌-◌, Bool, true, false, not, ◌&&◌, ◌||◌, List, [], ◌∷◌, ◌++◌, Option, none,
  some, ◌==◌, ltb, leb, if◌then◌else◌, length, Text, codes, Run, done, out_of_fuel, Result, ok, err,
  and_then, ℤ, pos, negsuc, format_int, atoi, lacks, quote_bytes,
}

pub record Segment : Type 0 where
  pub name : Text
  pub index : ℤ

abbrev pub new_named_segment : Text → Segment
new_named_segment name = record { name = name; index = negsuc 0 }

abbrev pub new_indexed_segment : ℤ → Segment
new_indexed_segment index = record { name = []; index = index }

pub data PathError : Type 0 where
  expected_closing_bracket unterminated_string empty_field unterminated_index : PathError
  invalid_index : Text → PathError

-- The input up to the first byte that satisfies `stop`, and the rest from that byte on.
unfoldable pub split_at : (ℕ → Bool) → Text → Text × Text
split_at stop [] = ([], [])
split_at stop (c ∷ cs) =
    let (front, rest) = split_at stop cs in if stop c then ([], c ∷ cs) else (c ∷ front, rest)

-- What follows the closing quote of a field.
close_quoted : Text → Text → Result PathError (Text × Text)
close_quoted field [] = err expected_closing_bracket
close_quoted field (c ∷ cs) = if c == b']' then ok (field, cs) else err expected_closing_bracket

quoted_field : Text × Text → Result PathError (Text × Text)
quoted_field (field, []) = err unterminated_string
quoted_field (field, quote ∷ rest) = close_quoted field rest

-- The input starts behind the bracket and the opening quote.
unfoldable pub parse_quoted_field : Text → Result PathError (Text × Text)
unfolding quoted_field close_quoted
parse_quoted_field input = quoted_field (split_at (λ c. c == b'"') input)

unquoted_field : Text × Text → Result PathError (Text × Text)
unquoted_field ([], rest) = err empty_field
unquoted_field (field, rest) = ok (field, rest)

unfoldable pub parse_unquoted_field : Text → Result PathError (Text × Text)
unfolding unquoted_field
parse_unquoted_field input = unquoted_field (split_at (λ c. c == b'.' || c == b'[') input)

read_index : Text → Text → Option ℤ → Result PathError (ℤ × Text)
read_index text rest none = err (invalid_index text)
read_index text rest (some i) = ok (i, rest)

array_index : Text × Text → Result PathError (ℤ × Text)
array_index (text, []) = err unterminated_index
array_index (text, bracket ∷ rest) = read_index text rest (atoi text)

-- The input starts behind the bracket.
unfoldable pub parse_array_index : Text → Result PathError (ℤ × Text)
unfolding array_index read_index
parse_array_index input = array_index (split_at (λ c. c == b']') input)

abbrev pub starts_quoted : Text → Bool
starts_quoted [] = false
starts_quoted (c ∷ cs) = c == b'"'

abbrev named : Text × Text → Result PathError (List Segment × Text)
named (field, rest) = ok (new_named_segment field ∷ [], rest)

abbrev indexed : ℤ × Text → Result PathError (List Segment × Text)
indexed (i, rest) = ok (new_indexed_segment i ∷ [], rest)

-- The first `if` of the loop: two bytes at least are wanted for a field.
unfoldable pub parse_field : Text → Result PathError (List Segment × Text)
parse_field [] = ok ([], [])
parse_field (c ∷ []) = ok ([], c ∷ [])
parse_field (c ∷ d ∷ rest) =
    if c == b'[' && d == b'"'
    then and_then (parse_quoted_field rest) named
    else if not (c == b'[')
    then and_then (parse_unquoted_field (c ∷ d ∷ rest)) named
    else ok ([], c ∷ d ∷ rest)

unfoldable pub parse_index : Text → Result PathError (List Segment × Text)
parse_index [] = ok ([], [])
parse_index (c ∷ rest) =
    if c == b'[' && not (starts_quoted rest)
    then and_then (parse_array_index rest) indexed
    else ok ([], c ∷ rest)

unfoldable pub skip_dot : Text → Text
skip_dot [] = []
skip_dot (c ∷ rest) = if c == b'.' then rest else c ∷ rest

abbrev add_index : List Segment → List Segment × Text → Result PathError (List Segment × Text)
add_index fields (indices, rest) = ok (fields ++ indices, skip_dot rest)

abbrev after_field : List Segment × Text → Result PathError (List Segment × Text)
after_field (fields, rest) = and_then (parse_index rest) (add_index fields)

-- One round of the loop: the segments that it appends, and the input that it leaves.
unfoldable pub parse_round : Text → Result PathError (List Segment × Text)
parse_round input = and_then (parse_field input) after_field

abbrev pub go_on :
    (List Segment → Text → Run (Result PathError (List Segment)))
    → List Segment
    → Result PathError (List Segment × Text)
    → Run (Result PathError (List Segment))
go_on next segments (err e) = done (err e)
go_on next segments (ok (more, rest)) = next (segments ++ more) rest

-- The loop, for a number of rounds.
unfoldable pub parse_loop : ℕ → List Segment → Text → Run (Result PathError (List Segment))
parse_loop fuel segments [] = done (ok segments)
parse_loop zero segments (c ∷ cs) = out_of_fuel
parse_loop (suc fuel) segments (c ∷ cs) = go_on (parse_loop fuel) segments (parse_round (c ∷ cs))

unfoldable pub parse : Text → Run (Result PathError (List Segment))
parse path = parse_loop (length path) [] path

-- `strings.HasSuffix(s, "]")`
unfoldable pub ends_with_bracket : Text → Bool
ends_with_bracket [] = false
ends_with_bracket (c ∷ []) = c == b']'
ends_with_bracket (c ∷ d ∷ ds) = ends_with_bracket (d ∷ ds)

abbrev is_indexed : ℤ → Bool
is_indexed (negsuc zero) = false
is_indexed _ = true

-- What `Build` writes for one segment, behind the dot.
unfoldable pub write_segment : Segment → Text
write_segment s =
    if is_indexed s.index
    then b'[' ∷ (format_int s.index ++ b']' ∷ [])
    else if not (lacks b'.' s.name)
    then b'[' ∷ b'"' ∷ (quote_bytes s.name ++ b'"' ∷ b']' ∷ [])
    else s.name

-- The loop of `Build`; the flag is `i > 0`.
unfoldable pub build_onto : Bool → Text → List Segment → Text
build_onto later b [] = b
build_onto later b (s ∷ ss) =
    let dotted = if later && not (ends_with_bracket b) then b ++ b'.' ∷ [] else b in
    build_onto true (dotted ++ write_segment s) ss

unfoldable pub build : List Segment → Text
build segments = build_onto false [] segments
