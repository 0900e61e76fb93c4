-- ===== src/Fieldpath/Scan.antt =====
-- What the parser's helpers read of texts whose shape is known.
use kubernetes_resource_orch.Common.{
  ℕ, ◌≤◌, ◌≡◌, ◌≢◌, refl, sym, subst, Bool, true, false, not, ◌&&◌, ◌||◌, [], ◌∷◌, ◌++◌, ◌==◌,
  length, arith, Text, ok, pos, lacks, int_max, decimal, atoi-decimal, decimal_cases, all_digits,
  all_digits-lacks,
}
use kubernetes_resource_orch.Fieldpath.{
  split_at, parse_quoted_field, parse_unquoted_field, parse_array_index, parse_field, parse_index,
  skip_dot, parse_round, starts_quoted, new_named_segment, new_indexed_segment,
}

-- No byte of the text satisfies `stop`.
unfoldable pub avoids : (ℕ → Bool) → Text → Bool
avoids stop [] = true
avoids stop (c ∷ cs) = not (stop c) && avoids stop cs

split_at-append :
    (stop : ℕ → Bool) (t : Text) (c : ℕ) (rest : Text)
    → avoids stop t ≡ true
    → stop c ≡ true
    → split_at stop (t ++ c ∷ rest) ≡ (t, c ∷ rest)
unfolding split_at avoids
split_at-append stop [] c rest h k = rw k
split_at-append stop (x ∷ t) c rest h k = ground (arith, split_at-append stop t c rest)

split_at_all : (stop : ℕ → Bool) (t : Text) → avoids stop t ≡ true → split_at stop t ≡ (t, [])
unfolding split_at avoids
split_at_all stop [] h = refl
split_at_all stop (x ∷ t) h = ground (arith, split_at_all stop t)

avoids-lacks : (b : ℕ) (t : Text) → lacks b t ≡ true → avoids (λ c. c == b) t ≡ true
unfolding avoids lacks
avoids-lacks b [] h = refl
avoids-lacks b (c ∷ t) h = ground (arith, avoids-lacks b t)

avoids-lacks_two :
    (a b : ℕ) (t : Text)
    → lacks a t ≡ true
    → lacks b t ≡ true
    → avoids (λ c. c == a || c == b) t ≡ true
unfolding avoids lacks
avoids-lacks_two a b [] h k = refl
avoids-lacks_two a b (c ∷ t) h k = ground (arith, avoids-lacks_two a b t)

-- A field name that is written and read with no quotes.
pub record IsPlain (name : Text) : Type 0 where
  pub ne_nil : name ≢ []
  pub no_dot : lacks b'.' name ≡ true
  pub no_bracket : lacks b'[' name ≡ true

pub parse_unquoted_field-append :
    (name : Text) (c : ℕ) (rest : Text)
    → IsPlain name
    → (c == b'.' || c == b'[') ≡ true
    → parse_unquoted_field (name ++ c ∷ rest) ≡ ok (name, c ∷ rest)
unfolding parse_unquoted_field
parse_unquoted_field-append name c rest p h =
    rw
      (split_at-append (λ c. c == b'.' || c == b'[') name c rest
        (avoids-lacks_two b'.' b'[' name p.no_dot p.no_bracket) h)
      (ground (arith, p.ne_nil))

pub parse_unquoted_field_end :
    (name : Text) → IsPlain name → parse_unquoted_field name ≡ ok (name, [])
unfolding parse_unquoted_field
parse_unquoted_field_end name p =
    rw
      (split_at_all (λ c. c == b'.' || c == b'[') name
        (avoids-lacks_two b'.' b'[' name p.no_dot p.no_bracket))
      (ground (arith, p.ne_nil))

-- A plain name with a dot behind it is one round.
pub parse_round-dot :
    (name rest : Text)
    → IsPlain name
    → parse_round (name ++ b'.' ∷ rest) ≡ ok (new_named_segment name ∷ [], rest)
unfolding parse_round parse_field parse_index skip_dot lacks
parse_round-dot [] rest p = absurd (p.ne_nil refl)
parse_round-dot (c ∷ []) rest p =
    ground (arith, parse_unquoted_field-append (c ∷ []) b'.' rest p refl, p.no_bracket)
parse_round-dot (c ∷ d ∷ ds) rest p =
    ground (arith, parse_unquoted_field-append (c ∷ d ∷ ds) b'.' rest p refl, p.no_bracket)

-- A plain name at the end of the path is one round if it has two bytes or more.
pub parse_round_end :
    (name : Text)
    → IsPlain name
    → 2 ≤ length name
    → parse_round name ≡ ok (new_named_segment name ∷ [], [])
unfolding parse_round parse_field parse_index skip_dot lacks
parse_round_end [] p h = absurd (p.ne_nil refl)
parse_round_end (c ∷ []) p h = absurd (omega arith)
parse_round_end (c ∷ d ∷ ds) p h =
    ground (arith, parse_unquoted_field_end (c ∷ d ∷ ds) p, p.no_bracket)

pub parse_quoted_field-append :
    (name rest : Text)
    → lacks b'"' name ≡ true
    → parse_quoted_field (name ++ b'"' ∷ b']' ∷ rest) ≡ ok (name, rest)
unfolding parse_quoted_field
parse_quoted_field-append name rest h =
    rw (split_at-append (λ c. c == b'"') name b'"' (b']' ∷ rest) (avoids-lacks b'"' name h) refl)

pub parse_index-decimal :
    (n : ℕ) (rest : Text)
    → n ≤ int_max
    → parse_index (b'[' ∷ (decimal n ++ b']' ∷ rest)) ≡ ok (new_indexed_segment (pos n) ∷ [], rest)
unfolding parse_index parse_array_index
parse_index-decimal n rest h =
    let (c, cs, e, digits) = decimal_cases n in
    let free : lacks b']' (decimal n) ≡ true =
      all_digits-lacks b']' (decimal n) refl (subst (λ t. all_digits t ≡ true) (sym e) digits) in
    let front =
      split_at-append (λ c. c == b']') (decimal n) b']' rest (avoids-lacks b']' (decimal n) free)
        refl in
    let head : starts_quoted (decimal n ++ b']' ∷ rest) ≡ false =
      rw e (unfold all_digits in ground (arith, digits)) in
    rw (head, front, atoi-decimal n h)
