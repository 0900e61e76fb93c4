-- ===== src/Fieldpath/RoundTrip.antt =====
-- `Parse` reads back what `Build` writes.
use kubernetes_resource_orch.Common.{
  ℕ, zero, suc, ◌≤◌, ◌≡◌, refl, ap, ◌∙◌, Bool, true, false, not, ◌||◌, inl, inr, List, [], ◌∷◌,
  ◌++◌, if◌then◌else◌, Bool-cases, length, arith, Text, done, ok, pos, lacks, int_max, decimal,
  decimal_cases, all_digits,
}
use mathlib.Core.List.{append_assoc, append-nil}
use kubernetes_resource_orch.Fieldpath.{
  Segment, parse_field, parse_index, skip_dot, parse_round, parse_loop, parse, after_field,
  new_named_segment, new_indexed_segment, ends_with_bracket, write_segment, build_onto, build,
  is_indexed, go_on,
}
use kubernetes_resource_orch.Fieldpath.Scan.{
  IsPlain, parse_round-dot, parse_round_end, parse_quoted_field-append, parse_index-decimal,
}
use kubernetes_resource_orch.Fieldpath.Render.{
  all_simple, all_simple-lacks, plain, quoted, index, AreSegments, render, write_cases,
  build_onto-render, length-render, render-plain, render-quoted, render-index, write-plain,
  write-index, ends_with_bracket-lacks,
}

-- The index that the same round reads behind a quoted field, and the segments behind it.
abbrev front_index : List Segment → List Segment
front_index [] = []
front_index (s ∷ ss) = if is_indexed s.index then s ∷ [] else []

abbrev behind_index : List Segment → List Segment
behind_index [] = []
behind_index (s ∷ ss) = if is_indexed s.index then ss else s ∷ ss

behind_index-AreSegments : (ss : List Segment) → AreSegments ss → AreSegments (behind_index ss)
behind_index-AreSegments [] h = tt
behind_index-AreSegments (s ∷ ss) h = elim (Bool-cases (is_indexed s.index)) [
  | inl i ↦ rw i h.1
  | inr n ↦ rw n h
]

length-behind_index : (ss : List Segment) → length (behind_index ss) ≤ length ss
length-behind_index [] = omega arith
length-behind_index (s ∷ ss) = ground arith

front-append-behind : (ss : List Segment) → front_index ss ++ behind_index ss ≡ ss
front-append-behind [] = refl
front-append-behind (s ∷ ss) = ground arith

-- What follows a bracket never starts with a dot.
skip_dot-render :
    (ss : List Segment) → AreSegments ss → skip_dot (render false ss) ≡ render false ss
unfolding skip_dot lacks
skip_dot-render [] h = unfold render in refl
skip_dot-render (s ∷ ss) (plain {name = []} p free long, h) = absurd (p.ne_nil refl)
skip_dot-render (s ∷ ss) (plain {name = c ∷ cs} p free long, h) =
    rw (render-plain (c ∷ cs) ss p free) (ground (arith, p.no_dot))
skip_dot-render (s ∷ ss) (quoted {name} q k, h) = rw (render-quoted name ss q k)
skip_dot-render (s ∷ ss) (index {n} m, h) = rw (render-index n ss)

after_field-index :
    (fields : List Segment) (n : ℕ) (ss : List Segment)
    → n ≤ int_max
    → AreSegments ss
    → after_field (fields, render false (new_indexed_segment (pos n) ∷ ss))
      ≡ ok (fields ++ new_indexed_segment (pos n) ∷ [], render false ss)
after_field-index fields n ss m h =
    rw (render-index n ss, parse_index-decimal n (render false ss) m, skip_dot-render ss h)

after_field-render :
    (fields ss : List Segment)
    → AreSegments ss
    → after_field (fields, render false ss)
      ≡ ok (fields ++ front_index ss, render false (behind_index ss))
unfolding parse_index lacks skip_dot
after_field-render fields [] h = unfold render in refl
after_field-render fields (s ∷ ss) (plain {name = []} p free long, h) = absurd (p.ne_nil refl)
after_field-render fields (s ∷ ss) (plain {name = c ∷ cs} p free long, h) =
    rw (render-plain (c ∷ cs) ss p free) (ground (arith, p.no_dot, p.no_bracket))
after_field-render fields (s ∷ ss) (quoted {name} q k, h) = rw (render-quoted name ss q k)
after_field-render fields (s ∷ ss) (index {n} m, h) = after_field-index fields n ss m h

-- The segments that one round reads, and those behind them.
abbrev first_of : List Segment → List Segment
first_of [] = []
first_of (s ∷ ss) = if is_indexed s.index || lacks b'.' s.name then s ∷ [] else s ∷ front_index ss

abbrev rest_of : List Segment → List Segment
rest_of [] = []
rest_of (s ∷ ss) = if is_indexed s.index || lacks b'.' s.name then ss else behind_index ss

parse_field-quoted :
    (name rest : Text)
    → all_simple name ≡ true
    → parse_field (b'[' ∷ b'"' ∷ (name ++ b'"' ∷ b']' ∷ rest))
      ≡ ok (new_named_segment name ∷ [], rest)
parse_field-quoted name rest k =
    unfold parse_field in rw (parse_quoted_field-append name rest (all_simple-lacks name k))

parse_field-index :
    (n : ℕ) (rest : Text)
    → parse_field (b'[' ∷ (decimal n ++ rest)) ≡ ok ([], b'[' ∷ (decimal n ++ rest))
parse_field-index n rest =
    let (c, cs, e, digits) = decimal_cases n in
    rw e (unfold parse_field all_digits in ground (arith, digits))

render_nil : (dot : Bool) → render dot [] ≡ []
unfolding render
render_nil dot = refl

render_dot : (s : Segment) (ss : List Segment) → render true (s ∷ ss) ≡ b'.' ∷ render false (s ∷ ss)
unfolding render
render_dot s ss = refl

parse_round-render :
    (s : Segment) (ss : List Segment)
    → AreSegments (s ∷ ss)
    → parse_round (render false (s ∷ ss)) ≡ ok (first_of (s ∷ ss), render false (rest_of (s ∷ ss)))
parse_round-render s [] (plain {name} p free long, h) =
    rw (render-plain name [] p free, p.no_dot, render_nil true, render_nil false, append-nil)
      (parse_round_end name p (long refl))
parse_round-render s (t ∷ ts) (plain {name} p free long, h) =
    rw (render-plain name (t ∷ ts) p free, p.no_dot, render_dot t ts)
      (parse_round-dot name (render false (t ∷ ts)) p)
parse_round-render s ss (quoted {name} q k, h) =
    rw (render-quoted name ss q k, q)
      (unfold parse_round in
        rw (parse_field-quoted name (render false ss) k)
          (after_field-render (new_named_segment name ∷ []) ss h))
parse_round-render s ss (index {n} m, h) = rw (render-index n ss) (
    unfold parse_round in
    rw (parse_field-index n (b']' ∷ render false ss))
      (rw (parse_index-decimal n (render false ss) m, skip_dot-render ss h)))

first-append-rest :
    (s : Segment) (ss : List Segment) → first_of (s ∷ ss) ++ rest_of (s ∷ ss) ≡ s ∷ ss
first-append-rest s ss = ground (arith, front-append-behind ss)

rest_of-AreSegments :
    (s : Segment) (ss : List Segment) → AreSegments ss → AreSegments (rest_of (s ∷ ss))
rest_of-AreSegments s ss h = elim (Bool-cases (is_indexed s.index || lacks b'.' s.name)) [
  | inl a ↦ rw a h
  | inr b ↦ rw b (behind_index-AreSegments ss h)
]

length-rest_of : (s : Segment) (ss : List Segment) → length (rest_of (s ∷ ss)) ≤ length ss
length-rest_of s ss = ground (arith, length-behind_index ss)

pub parse_loop-cons :
    (fuel : ℕ) (segments : List Segment) (t : Text) (c : ℕ) (cs : Text)
    → t ≡ c ∷ cs
    → parse_loop (suc fuel) segments t ≡ go_on (parse_loop fuel) segments (parse_round t)
unfolding parse_loop
parse_loop-cons fuel segments t c cs e = rw e

render_cases :
    (s : Segment) (ss : List Segment)
    → AreSegments (s ∷ ss)
    → (c : ℕ) × (cs : Text) × (render false (s ∷ ss) ≡ c ∷ cs)
unfolding render
render_cases s ss h =
    let (c, w, e) = write_cases h.0 in
    (
      c,
      w ++ render (not (ends_with_bracket (write_segment s))) ss,
      ap (λ t. t ++ render (not (ends_with_bracket (write_segment s))) ss) e,
    )

parse_loop-render :
    (fuel : ℕ) (segments ss : List Segment)
    → AreSegments ss
    → length ss ≤ fuel
    → parse_loop fuel segments (render false ss) ≡ done (ok (segments ++ ss))
parse_loop-render fuel segments [] h m =
    rw (render_nil false, append-nil) (unfold parse_loop in refl)
parse_loop-render zero segments (s ∷ ss) h m = absurd (omega arith)
parse_loop-render (suc fuel) segments (s ∷ ss) h m =
    let (c, cs, e) = render_cases s ss h in
    rw (parse_loop-cons fuel segments (render false (s ∷ ss)) c cs e, parse_round-render s ss h)
      (parse_loop-render fuel (segments ++ first_of (s ∷ ss)) (rest_of (s ∷ ss))
          (rest_of-AreSegments s ss h.1) (omega (arith, length-rest_of s ss))
        ∙ ap (λ l. done (ok l))
            (append_assoc segments (first_of (s ∷ ss)) (rest_of (s ∷ ss))
              ∙ ap (λ l. segments ++ l) (first-append-rest s ss)))

-- `Parse` reads back the segments that `Build` writes, where each of them is an index that fits in
-- an `int`, a name with no dot and no bracket, of two bytes or more at the end of the path, or a name
-- with a dot and with only such bytes of ASCII as `%q` leaves as they are.
pub parse-build : (ss : List Segment) → AreSegments ss → parse (build ss) ≡ done (ok ss)
unfolding parse build
parse-build ss h =
    rw (build_onto-render ss false [] h)
      (parse_loop-render (length (render false ss)) [] ss h (length-render ss false h))

-- `Build` writes a dot between a plain name and the index behind it: "containers.[0]", not
-- "containers[0]".
pub build-index :
    (name : Text) (n : ℕ)
    → IsPlain name
    → lacks b']' name ≡ true
    → build (new_named_segment name ∷ new_indexed_segment (pos n) ∷ [])
      ≡ name ++ b'.' ∷ b'[' ∷ (decimal n ++ b']' ∷ [])
unfolding build build_onto
build-index name n p free =
    rw (write-plain name p, write-index n, ends_with_bracket-lacks name free)
      (append_assoc name (b'.' ∷ []) (b'[' ∷ (decimal n ++ b']' ∷ [])))
