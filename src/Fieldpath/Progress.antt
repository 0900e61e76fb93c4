-- ===== src/Fieldpath/Progress.antt =====
-- How far a round of the parser's loop gets, and which inputs it never gets through.
use kubernetes_resource_orch.Common.{
  ◌↔◌, ℕ, zero, suc, ◌+◌, ◌≤◌, ◌<◌, ◌≡◌, ◌≢◌, refl, sym, subst, Bool, false, not, ◌&&◌, ◌||◌, ◌⊎◌,
  inl, inr, List, [], ◌∷◌, ◌++◌, ◌==◌, Bool-cases, length, arith, Text, out_of_fuel, Result, ok,
  err, and_then, and_then-eq-ok, ℤ,
}
use kubernetes_resource_orch.Fieldpath.{
  Segment, split_at, parse_quoted_field, parse_unquoted_field, parse_array_index, parse_field,
  parse_index, skip_dot, parse_round, parse_loop, parse, starts_quoted, named, indexed, add_index,
  after_field,
}

length-split_at :
    (stop : ℕ → Bool) (t : Text)
    → length (split_at stop t).0 + length (split_at stop t).1 ≡ length t
unfolding split_at
length-split_at stop [] = omega arith
length-split_at stop (c ∷ cs) = ground (arith, length-split_at stop cs)

parse_quoted_field-length : (t f r : Text) → parse_quoted_field t ≡ ok (f, r) → length r ≤ length t
unfolding parse_quoted_field
parse_quoted_field-length t f r e = ground (arith, length-split_at (λ c. c == b'"') t)

parse_unquoted_field-length :
    (t f r : Text) → parse_unquoted_field t ≡ ok (f, r) → length r < length t
unfolding parse_unquoted_field
parse_unquoted_field-length t f r e =
    ground (arith, length-split_at (λ c. c == b'.' || c == b'[') t)

parse_array_index-length :
    (t : Text) (i : ℤ) (r : Text) → parse_array_index t ≡ ok (i, r) → length r ≤ length t
unfolding parse_array_index
parse_array_index-length t i r e = ground (arith, length-split_at (λ c. c == b']') t)

-- The input is shorter, or nothing was read.
abbrev Advances : Text → List Segment → Text → Type 0
Advances t s r = (length r < length t) ⊎ ((s ≡ []) × (r ≡ t))

parse_field-Advances :
    (c d : ℕ) (rest : Text) (s : List Segment) (r : Text)
    → parse_field (c ∷ d ∷ rest) ≡ ok (s, r)
    → (length r < suc (suc (length rest)))
      ⊎ ((s ≡ []) × (r ≡ c ∷ d ∷ rest) × (c ≡ b'[') × (d ≢ b'"'))
unfolding parse_field
parse_field-Advances c d rest s r e = elim (Bool-cases (c == b'[' && d == b'"')) [
  | inl quoted ↦
      let ((f, r'), e1, e2) = and_then-eq-ok (parse_quoted_field rest) named (rw quoted at e) in
      inl (ground (arith, parse_quoted_field-length rest f r' e1, e2))
  | inr plain ↦ elim (Bool-cases (c == b'[')) [
    | inl bracket ↦ inr (ground arith)
    | inr other ↦
        let chosen : and_then (parse_unquoted_field (c ∷ d ∷ rest)) named ≡ ok (s, r) =
          ground arith in
        let ((f, r'), e1, e2) = and_then-eq-ok (parse_unquoted_field (c ∷ d ∷ rest)) named chosen in
        inl (ground (arith, parse_unquoted_field-length (c ∷ d ∷ rest) f r' e1, e2))
  ]
]

parse_index-Advances :
    (c : ℕ) (rest : Text) (s : List Segment) (r : Text)
    → parse_index (c ∷ rest) ≡ ok (s, r)
    → (length r < suc (length rest))
      ⊎ ((s ≡ []) × (r ≡ c ∷ rest) × ((c == b'[' && not (starts_quoted rest)) ≡ false))
unfolding parse_index
parse_index-Advances c rest s r e = elim (Bool-cases (c == b'[' && not (starts_quoted rest))) [
  | inl array ↦
      let ((i, r'), e1, e2) = and_then-eq-ok (parse_array_index rest) indexed (rw array at e) in
      inl (ground (arith, parse_array_index-length rest i r' e1, e2))
  | inr other ↦ inr (ground arith)
]

length-skip_dot : (t : Text) → length (skip_dot t) ≤ length t
unfolding skip_dot
length-skip_dot [] = omega arith
length-skip_dot (c ∷ cs) = ground arith

-- The end of a round, behind the field.
after_field-Advances :
    (c : ℕ) (rest : Text) (s : List Segment) (more : List Segment) (r : Text)
    → after_field (s, c ∷ rest) ≡ ok (more, r)
    → (length r < suc (length rest))
      ⊎ ((more ≡ s ++ [])
          × (r ≡ c ∷ rest)
          × (c ≢ b'.')
          × ((c == b'[' && not (starts_quoted rest)) ≡ false))
unfolding skip_dot
after_field-Advances c rest s more r e =
    let ((indices, r'), e1, e2) = and_then-eq-ok (parse_index (c ∷ rest)) (add_index s) e in
    elim (parse_index-Advances c rest indices r' e1) [
      | inl shorter ↦ inl (ground (arith, length-skip_dot r', e2))
      | inr (none_read, same, no_index) ↦ elim (Bool-cases (c == b'.')) [
        | inl dot ↦ inl (ground (arith, e2))
        | inr no_dot ↦ inr (ground (arith, e2))
      ]
    ]

after_field-length :
    (t : Text) (s more : List Segment) (r : Text)
    → after_field (s, t) ≡ ok (more, r)
    → length r ≤ length t
unfolding parse_index skip_dot
after_field-length [] s more r e = ground (arith, e)
after_field-length (c ∷ rest) s more r e = elim (after_field-Advances c rest s more r e) [
  | inl shorter ↦ omega arith
  | inr (_, same, _, _) ↦ ground arith
]

-- The one kind of input at which a round reads nothing.
pub record IsHalt (t : Text) : Type 0 where
  pub byte : ℕ
  pub single : t ≡ byte ∷ []
  pub no_dot : byte ≢ b'.'
  pub no_bracket : byte ≢ b'['

pub parse_round-Advances :
    (c : ℕ) (cs : Text) (more : List Segment) (r : Text)
    → parse_round (c ∷ cs) ≡ ok (more, r)
    → (length r < suc (length cs)) ⊎ IsHalt (c ∷ cs)
unfolding parse_round parse_field
parse_round-Advances c [] more r e = elim (after_field-Advances c [] [] more r e) [
  | inl shorter ↦ inl shorter
  | inr (_, _, no_dot, no_index) ↦
      inr
        (record { byte = c; single = refl; no_dot = no_dot; no_bracket = ground (arith, no_index) })
]
parse_round-Advances c (d ∷ ds) more r e =
    let ((fields, t), e1, e2) = and_then-eq-ok (parse_field (c ∷ d ∷ ds)) after_field e in
    elim (parse_field-Advances c d ds fields t e1) [
      | inl shorter ↦ inl (ground (arith, after_field-length t fields more r e2))
      | inr (_, same, bracket, no_quote) ↦
          let at : after_field (fields, c ∷ d ∷ ds) ≡ ok (more, r) =
            subst (λ k. after_field (fields, k) ≡ ok (more, r)) same e2 in
          elim (after_field-Advances c (d ∷ ds) fields more r at) [
            | inl shorter ↦ inl shorter
            | inr (_, _, _, no_index) ↦ absurd (ground (arith, no_index))
          ]
    ]

-- No number of rounds gets through the input.
abbrev pub Hangs : Text → Type 0
Hangs t = (fuel : ℕ) (segments : List Segment) → parse_loop fuel segments t ≡ out_of_fuel

-- One byte that is neither a dot nor a bracket is left as it is by every round.
pub single-Hangs : (c : ℕ) → c ≢ b'.' → c ≢ b'[' → Hangs (c ∷ [])
unfolding parse_loop parse_round parse_field parse_index skip_dot
single-Hangs c no_dot no_bracket zero segments = refl
single-Hangs c no_dot no_bracket (suc fuel) segments =
    ground (arith, single-Hangs c no_dot no_bracket fuel (segments ++ []))

IsHalt-Hangs : (t : Text) → IsHalt t → Hangs t
IsHalt-Hangs t h = subst Hangs (sym h.single) (single-Hangs h.byte h.no_dot h.no_bracket)

pub round-Hangs :
    (c : ℕ) (cs : Text) (more : List Segment) (r : Text)
    → parse_round (c ∷ cs) ≡ ok (more, r)
    → Hangs r
    → Hangs (c ∷ cs)
unfolding parse_loop
round-Hangs c cs more r e h zero segments = refl
round-Hangs c cs more r e h (suc fuel) segments = rw e (h fuel (segments ++ more))

pub Result-cases {ℓ} :
    {E : Type 0} {A : Type ℓ} (m : Result E A) → ((e : E) × (m ≡ err e)) ⊎ ((a : A) × (m ≡ ok a))
Result-cases (ok a) = inr (a, refl)
Result-cases (err e) = inl (e, refl)

-- Some rounds read segments and leave a single byte, which is neither a dot nor a bracket.
pub data LeavesByte : Text → Type 0 where
  at_once : {t : Text} → IsHalt t → LeavesByte t
  after_round :
      {c : ℕ} {cs : Text} {more : List Segment} {r : Text}
      → parse_round (c ∷ cs) ≡ ok (more, r)
      → LeavesByte r
      → LeavesByte (c ∷ cs)

LeavesByte-Hangs : (t : Text) → LeavesByte t → Hangs t
LeavesByte-Hangs t (at_once h) = IsHalt-Hangs t h
LeavesByte-Hangs t (after_round {c} {cs} {more} {r} e b) =
    round-Hangs c cs more r e (LeavesByte-Hangs r b)

-- With as many rounds as bytes the loop ends, or it is such an input.
parse_loop-LeavesByte :
    (fuel : ℕ) (segments : List Segment) (t : Text)
    → length t ≤ fuel
    → parse_loop fuel segments t ≡ out_of_fuel
    → LeavesByte t
unfolding parse_loop
parse_loop-LeavesByte fuel segments [] m e = cc
parse_loop-LeavesByte zero segments (c ∷ cs) m e = absurd (omega arith)
parse_loop-LeavesByte (suc fuel) segments (c ∷ cs) m e =
    elim (Result-cases (parse_round (c ∷ cs))) [
      | inl (why, refused) ↦ ground (arith, refused, e)
      | inr ((more, r), read) ↦ elim (parse_round-Advances c cs more r read) [
        | inr halt ↦ at_once halt
        | inl shorter ↦
            after_round read
              (parse_loop-LeavesByte fuel (segments ++ more) r (omega arith) (rw read at e))
      ]
    ]

-- `Parse` does not end within as many rounds as the path has bytes exactly when its rounds come to a
-- single byte that is neither a dot nor a bracket; and then no number of rounds ends it. So as many
-- rounds as bytes are enough for every other path.
pub parse-Hangs :
    (path : Text)
    → ((parse path ≡ out_of_fuel) ↔ LeavesByte path)
      × (LeavesByte path → (fuel : ℕ) → parse_loop fuel [] path ≡ out_of_fuel)
unfolding parse
parse-Hangs path = (
  (
    parse_loop-LeavesByte (length path) [] path (omega arith),
    λ b. LeavesByte-Hangs path b (length path) [],
  ),
  λ b fuel. LeavesByte-Hangs path b fuel [],
)
