-- ===== src/LogQuery.antt =====
-- handler.go: `capLogQuery` and `buildLogQuery`, which cut what a request leaves for the log.
pub mod Limit
pub mod Exact
mod Tests
use gomc_rest.Common.{
  ℕ, ◌-◌, Bool, true, false, List, [], ◌∷◌, ◌++◌, take, length, leb, ltb, if◌then◌else◌,
}
use gomc_rest.Common.Text.{Text, codes}

abbrev pub max_log_query : ℕ
max_log_query = 300

-- The constant is above 3, which the source tests.
unfoldable pub cap_log_query : Text → Text
cap_log_query s =
    if leb (length s) max_log_query then s else take (max_log_query - 3) s ++ codes "..."

-- The builder, and whether the function goes on.
abbrev pub Building : Type 0
Building = Bool × Text

-- `appendStr` on a builder that holds `b`.
unfoldable pub append_str : Text → Text → Building
append_str s b =
    if leb max_log_query (length b)
    then (false, b)
    else if leb (length s) (max_log_query - length b)
    then (true, b ++ s)
    else if ltb 3 (max_log_query - length b)
    then (false, b ++ (take (max_log_query - length b - 3) s ++ codes "..."))
    else (false, b ++ take (max_log_query - length b) s)

-- Once a call has said no, the function has returned.
unfoldable pub then_append : Text → Building → Building
then_append s (true, b) = append_str s b
then_append s (false, b) = (false, b)

-- The inner loop; `first` is `j == 0`.
unfoldable pub append_values : Bool → List Text → Building → Building
append_values first [] st = st
append_values true (v ∷ vs) st = append_values false vs (then_append v st)
append_values false (v ∷ vs) st =
    append_values false vs (then_append v (then_append (codes ",") st))

-- The outer loop, up to the end of the shorter list.
unfoldable pub append_keys : Bool → List Text → List (List Text) → Building → Building
append_keys first [] vals st = st
append_keys first (k ∷ ks) [] st = st
append_keys true (k ∷ ks) (vs ∷ vals) st =
    append_keys false ks vals (append_values true vs (then_append (k ++ codes "=") st))
append_keys false (k ∷ ks) (vs ∷ vals) st =
    append_keys false ks vals
      (append_values true vs (then_append (k ++ codes "=") (then_append (codes "&") st)))

unfoldable pub build_log_query : List Text → List (List Text) → Text
build_log_query keys vals = (append_keys true keys vals (true, [])).1
