-- ===== src/Http/Params.antt =====
-- handler.go: `parseBoolParam`, `rejectUnknownParams`, and `url.Values.Get`.
use text.Mathlib.Text.{◌==◌}
use gomc_rest.Common.{
  String, Bool, true, false, ◌||◌, Option, none, some, List, [], ◌∷◌, if◌then◌else◌, Result, ok,
  err,
}
use gomc_rest.Common.Text.{codes, to_lower, text_eq}
use gomc_rest.Http.{Message, must_appear_once, must_be_bool, unknown_param}

abbrev pub Query : Type 0
Query = List (String × List String)

unfoldable pub lookup : String → Query → Option (List String)
lookup key [] = none
lookup key ((k, vals) ∷ q) = if k == key then some vals else lookup key q

abbrev first_of_values : Option (List String) → String
first_of_values (some (v ∷ vs)) = v
first_of_values _ = ""

-- `q.Get(key)`: the first value, or the empty text.
unfoldable pub get : Query → String → String
unfolding lookup
get q key = first_of_values (lookup key q)

unfoldable pub parse_bool_value : String → String → Result Message Bool
parse_bool_value key v =
    if text_eq (to_lower (codes v)) (codes "true")
    then ok true
    else if text_eq (to_lower (codes v)) (codes "false")
    then ok false
    else err (must_be_bool key)

unfoldable pub parse_bool_values : String → Option (List String) → Result Message Bool
unfolding parse_bool_value
parse_bool_values key none = ok false
parse_bool_values key (some (v ∷ [])) = parse_bool_value key v
parse_bool_values key (some _) = err (must_appear_once key)

unfoldable pub parse_bool_param : Query → String → Result Message Bool
unfolding parse_bool_values lookup
parse_bool_param q key = parse_bool_values key (lookup key q)

unfoldable pub one_of : List String → String → Bool
one_of [] key = false
one_of (a ∷ allowed) key = key == a || one_of allowed key

unfoldable pub reject_unknown_params : Query → List String → Result Message (Unit {0})
unfolding one_of
reject_unknown_params [] allowed = ok tt
reject_unknown_params ((key, vals) ∷ q) allowed =
    if one_of allowed key then reject_unknown_params q allowed else err (unknown_param key)
