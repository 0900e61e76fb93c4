-- ===== src/Fieldpath/Render.antt =====
-- What `Build` writes, piece by piece, for segments that are written and read alike.
use kubernetes_resource_orch.Common.{
  ℕ, ◌≤◌, ◌≡◌, refl, sym, ap, ◌∙◌, Bool, true, false, not, ◌&&◌, inl, inr, List, [], ◌∷◌, ◌++◌,
  if◌then◌else◌, Bool-cases, length, length-append, arith, Text, pos, format_int, lacks, int_max,
  decimal, quote_bytes, is_simple, quote_from, quote_from-simple,
}
use mathlib.Core.List.{append_assoc, append-nil}
use kubernetes_resource_orch.Fieldpath.{
  Segment, new_named_segment, new_indexed_segment, ends_with_bracket, write_segment, build_onto,
}
use kubernetes_resource_orch.Fieldpath.Scan.{IsPlain}

unfoldable pub all_simple : Text → Bool
all_simple [] = true
all_simple (c ∷ cs) = is_simple c && all_simple cs

-- The segments that `Build` and `Parse` agree on: a name with no dot and no bracket, of two bytes or
-- more if it ends the path; a name with a dot and no byte but those that `%q` leaves as they are; an index.
pub data IsSegment (last : Bool) : Segment → Type 0 where
  plain :
      {name : Text}
      → IsPlain name
      → lacks b']' name ≡ true
      → (last ≡ true → 2 ≤ length name)
      → IsSegment last (new_named_segment name)
  quoted :
      {name : Text}
      → lacks b'.' name ≡ false
      → all_simple name ≡ true
      → IsSegment last (new_named_segment name)
  index : {n : ℕ} → n ≤ int_max → IsSegment last (new_indexed_segment (pos n))

abbrev pub is_nil : List Segment → Bool
is_nil [] = true
is_nil (s ∷ ss) = false

abbrev pub AreSegments : List Segment → Type 0
AreSegments [] = Unit
AreSegments (s ∷ ss) = IsSegment (is_nil ss) s × AreSegments ss

-- What `Build` writes, with no accumulator; the flag says whether a dot comes first.
unfoldable pub render : Bool → List Segment → Text
render dot [] = []
render dot (s ∷ ss) =
    let rest = write_segment s ++ render (not (ends_with_bracket (write_segment s))) ss in
    if dot then b'.' ∷ rest else rest

ends_with_bracket-append :
    (b : Text) (c : ℕ) (w : Text) → ends_with_bracket (b ++ c ∷ w) ≡ ends_with_bracket (c ∷ w)
unfolding ends_with_bracket
ends_with_bracket-append [] c w = refl
ends_with_bracket-append (x ∷ []) c w = refl
ends_with_bracket-append (x ∷ y ∷ ys) c w = ends_with_bracket-append (y ∷ ys) c w

ends_with_bracket-closed : (b : Text) → ends_with_bracket (b ++ b']' ∷ []) ≡ true
ends_with_bracket-closed b = ends_with_bracket-append b b']' [] ∙ unfold ends_with_bracket in refl

pub ends_with_bracket-lacks : (t : Text) → lacks b']' t ≡ true → ends_with_bracket t ≡ false
unfolding ends_with_bracket lacks
ends_with_bracket-lacks [] h = refl
ends_with_bracket-lacks (c ∷ []) h = ground arith
ends_with_bracket-lacks (c ∷ d ∷ ds) h = ground (arith, ends_with_bracket-lacks (d ∷ ds))

pub quote_bytes-simple : (t : Text) → all_simple t ≡ true → quote_bytes t ≡ t
unfolding quote_bytes all_simple quote_from
quote_bytes-simple [] h = refl
quote_bytes-simple (c ∷ t) h =
    quote_from-simple c t (ground arith) ∙ ap (λ u. c ∷ u) (quote_bytes-simple t (ground arith))

pub all_simple-lacks : (t : Text) → all_simple t ≡ true → lacks b'"' t ≡ true
unfolding all_simple lacks
all_simple-lacks [] h = refl
all_simple-lacks (c ∷ t) h = ground (arith, all_simple-lacks t)

pub write-plain : (name : Text) → IsPlain name → write_segment (new_named_segment name) ≡ name
unfolding write_segment
write-plain name p = ground (arith, p.no_dot)

write-quoted :
    (name : Text)
    → lacks b'.' name ≡ false
    → all_simple name ≡ true
    → write_segment (new_named_segment name) ≡ b'[' ∷ b'"' ∷ (name ++ b'"' ∷ b']' ∷ [])
unfolding write_segment
write-quoted name h k = ground (arith, quote_bytes-simple name k)

pub write-index :
    (n : ℕ) → write_segment (new_indexed_segment (pos n)) ≡ b'[' ∷ (decimal n ++ b']' ∷ [])
unfolding write_segment format_int
write-index n = refl

closed-quoted : (name : Text) → ends_with_bracket (b'[' ∷ b'"' ∷ (name ++ b'"' ∷ b']' ∷ [])) ≡ true
closed-quoted name =
    ap (λ t. ends_with_bracket (b'[' ∷ b'"' ∷ t)) (sym (append_assoc name (b'"' ∷ []) (b']' ∷ [])))
    ∙ ends_with_bracket-closed (b'[' ∷ b'"' ∷ (name ++ b'"' ∷ []))

closed-index : (n : ℕ) → ends_with_bracket (b'[' ∷ (decimal n ++ b']' ∷ [])) ≡ true
closed-index n = ends_with_bracket-closed (b'[' ∷ decimal n)

pub render-plain :
    (name : Text) (ss : List Segment)
    → IsPlain name
    → lacks b']' name ≡ true
    → render false (new_named_segment name ∷ ss) ≡ name ++ render true ss
unfolding render
render-plain name ss p free = rw (write-plain name p, ends_with_bracket-lacks name free)

pub render-quoted :
    (name : Text) (ss : List Segment)
    → lacks b'.' name ≡ false
    → all_simple name ≡ true
    → render false (new_named_segment name ∷ ss)
      ≡ b'[' ∷ b'"' ∷ (name ++ b'"' ∷ b']' ∷ render false ss)
unfolding render
render-quoted name ss h k = rw (write-quoted name h k, closed-quoted name, append_assoc)

pub render-index :
    (n : ℕ) (ss : List Segment)
    → render false (new_indexed_segment (pos n) ∷ ss) ≡ b'[' ∷ (decimal n ++ b']' ∷ render false ss)
unfolding render
render-index n ss = rw (write-index n, closed-index n, append_assoc)

pub write_cases :
    {last : Bool} {s : Segment}
    → IsSegment last s
    → (c : ℕ) × (w : Text) × (write_segment s ≡ c ∷ w)
write_cases (plain {name = []} p free long) = absurd (p.ne_nil refl)
write_cases (plain {name = c ∷ cs} p free long) = (c, cs, write-plain (c ∷ cs) p)
write_cases (quoted {name} h k) = (b'[', b'"' ∷ (name ++ b'"' ∷ b']' ∷ []), write-quoted name h k)
write_cases (index {n} h) = (b'[', decimal n ++ b']' ∷ [], write-index n)

pub ends_with_bracket-write :
    {last : Bool} (b : Text) (s : Segment)
    → IsSegment last s
    → ends_with_bracket (b ++ write_segment s) ≡ ends_with_bracket (write_segment s)
ends_with_bracket-write b s k =
    let (c, w, e) = write_cases k in rw e (ends_with_bracket-append b c w)

pub build_onto-render :
    (ss : List Segment) (later : Bool) (b : Text)
    → AreSegments ss
    → build_onto later b ss ≡ b ++ render (later && not (ends_with_bracket b)) ss
unfolding build_onto render
build_onto-render [] later b h = sym (append-nil b)
build_onto-render (s ∷ ss) later b h = elim (Bool-cases (later && not (ends_with_bracket b))) [
  | inl dot ↦ rw dot (
      build_onto-render ss true ((b ++ b'.' ∷ []) ++ write_segment s) h.1
      ∙ rw (ends_with_bracket-write (b ++ b'.' ∷ []) s h.0)
          (append_assoc (b ++ b'.' ∷ []) (write_segment s) _ ∙ append_assoc b (b'.' ∷ []) _))
  | inr bare ↦ rw bare (
      build_onto-render ss true (b ++ write_segment s) h.1
      ∙ rw (ends_with_bracket-write b s h.0) (append_assoc b (write_segment s) _))
]

pub length-render :
    (ss : List Segment) (dot : Bool) → AreSegments ss → length ss ≤ length (render dot ss)
unfolding render
length-render [] dot h = omega arith
length-render (s ∷ ss) dot h =
    let (c, w, e) = write_cases h.0 in
    let flag = not (ends_with_bracket (write_segment s)) in
    ground (arith, e, length-append (write_segment s) (render flag ss), length-render ss flag h.1)
