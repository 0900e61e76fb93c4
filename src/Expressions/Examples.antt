-- ===== src/Expressions/Examples.antt =====
-- Two expressions in a host name, and the theorems at them.
use kubernetes_resource_orch.Common.{◌≡◌, refl, List, [], ◌∷◌, Text, codes, lacks, done, ok, err}
use kubernetes_resource_orch.Expressions.{
  nested_expression, find_start, scan_to_end, extract_loop, extract_expressions,
}
use kubernetes_resource_orch.Expressions.Extraction.{join, extract_expressions-join}
use kubernetes_resource_orch.Expressions.Scanning.{is_balanced}

abbrev pieces : List (Text × Text)
pieces = (codes "db-", codes "db.name") ∷ (codes ":", codes "{'port': 80}.port") ∷ []

extract_expressions-join_example :
    extract_expressions (join pieces (codes "/"))
    ≡ done (ok (codes "db.name" ∷ codes "{'port': 80}.port" ∷ []))
unfolding lacks is_balanced
extract_expressions-join_example =
    extract_expressions-join pieces (codes "/") ((refl, refl), ((refl, refl), tt)) refl

nesting : extract_expressions (codes "${a.${b}}") ≡ done (err nested_expression)
unfolding extract_expressions extract_loop find_start scan_to_end
nesting = refl

unfinished : extract_expressions (codes "${a} and ${b") ≡ done (ok (codes "a" ∷ []))
unfolding extract_expressions extract_loop find_start scan_to_end
unfinished = refl
