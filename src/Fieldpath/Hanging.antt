-- ===== src/Fieldpath/Hanging.antt =====
-- The paths on which `Parse` never returns.
use kubernetes_resource_orch.Common.{ℕ, ◌≡◌, ◌≢◌, refl, List, [], ◌∷◌, ◌++◌, All, Text, out_of_fuel}
use kubernetes_resource_orch.Fieldpath.{parse_loop, new_named_segment}
use kubernetes_resource_orch.Fieldpath.Progress.{Hangs, single-Hangs, round-Hangs}
use kubernetes_resource_orch.Fieldpath.Scan.{IsPlain, parse_round-dot}

-- The fields with a dot behind each, and then a field of one byte.
abbrev pub dotted : List Text → ℕ → Text
dotted [] c = c ∷ []
dotted (f ∷ fs) c = f ++ b'.' ∷ dotted fs c

dotted-Hangs : (fs : List Text) (c : ℕ) → All IsPlain fs → c ≢ b'.' → c ≢ b'[' → Hangs (dotted fs c)
dotted-Hangs [] c p no_dot no_bracket = single-Hangs c no_dot no_bracket
dotted-Hangs ([] ∷ fs) c p no_dot no_bracket = absurd (p.0.ne_nil refl)
dotted-Hangs ((b ∷ f) ∷ fs) c p no_dot no_bracket =
    round-Hangs b (f ++ b'.' ∷ dotted fs c) (new_named_segment (b ∷ f) ∷ []) (dotted fs c)
      (parse_round-dot (b ∷ f) (dotted fs c) p.0) (dotted-Hangs fs c p.1 no_dot no_bracket)

-- `Parse` does not return on a path of plain field names whose last one has a single byte, such as
-- "x" or "spec.x": no number of rounds of its loop gets to the end of the input.
pub parse_loop-dotted :
    (fs : List Text) (c : ℕ)
    → All IsPlain fs
    → c ≢ b'.'
    → c ≢ b'['
    → (rounds : ℕ) → parse_loop rounds [] (dotted fs c) ≡ out_of_fuel
parse_loop-dotted fs c p no_dot no_bracket rounds = dotted-Hangs fs c p no_dot no_bracket rounds []
