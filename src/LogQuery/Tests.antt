-- ===== src/LogQuery/Tests.antt =====
-- The logged query of a small random read.
use gomc_rest.Common.{◌≡◌, arith, true, List, [], ◌∷◌}
use gomc_rest.Common.Text.{Text, codes}
use gomc_rest.LogQuery.{build_log_query}
use gomc_rest.LogQuery.Exact.{join_query, build_log_query-join}

abbrev two_keys : List Text
two_keys = codes "words" ∷ codes "bits" ∷ []

abbrev two_lists : List (List Text)
two_lists = (codes "D100" ∷ codes "D200" ∷ []) ∷ (codes "M0" ∷ []) ∷ []

build_log_query-join_example :
    build_log_query two_keys two_lists ≡ join_query true two_keys two_lists []
build_log_query-join_example = build_log_query-join two_keys two_lists (omega arith)
