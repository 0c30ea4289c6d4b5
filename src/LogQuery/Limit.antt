-- ===== src/LogQuery/Limit.antt =====
-- What is left of a query.
use gomc_rest.Common.{
  ◌-◌, ◌≤◌, inl, inr, arith, Bool, true, false, List, [], ◌∷◌, ◌++◌, take, length, length-append,
  length-take, leb, ltb, Bool-cases,
}
use gomc_rest.Common.Text.{Text, codes}
use gomc_rest.LogQuery.{
  cap_log_query, Building, append_str, then_append, append_values, append_keys, build_log_query,
}

append_str-le : (s b : Text) → length b ≤ 300 → length (append_str s b).1 ≤ 300
unfolding append_str
append_str-le s b h =
    let whole = length-append b s in
    let dotted = length-append b (take (300 - length b - 3) s ++ codes "...") in
    let dots = length-append (take (300 - length b - 3) s) (codes "...") in
    let cut = length-take (300 - length b - 3) s in
    let short = length-append b (take (300 - length b) s) in
    let cut_short = length-take (300 - length b) s in
    elim (Bool-cases (leb 300 (length b))) [
      | inl full ↦ rw full h
      | inr room ↦ elim (Bool-cases (leb (length s) (300 - length b))) [
        | inl fits ↦ rw (room, fits) (ground arith)
        | inr long ↦ elim (Bool-cases (ltb 3 (300 - length b))) [
          | inl dots_fit ↦ rw (room, long, dots_fit) (ground arith)
          | inr tight ↦ rw (room, long, tight) (ground arith)
        ]
      ]
    ]

then_append-le :
    (s : Text) (st : Building) → length (st.1) ≤ 300 → length (then_append s st).1 ≤ 300
unfolding then_append
then_append-le s (true, b) h = append_str-le s b h
then_append-le s (false, b) h = h

append_values-le :
    (first : Bool) (vs : List Text) (st : Building)
    → length (st.1) ≤ 300
    → length (append_values first vs st).1 ≤ 300
unfolding append_values
append_values-le first [] st h = h
append_values-le true (v ∷ vs) st h =
    append_values-le false vs (then_append v st) (then_append-le v st h)
append_values-le false (v ∷ vs) st h =
    let comma = then_append (codes ",") st in
    append_values-le false vs (then_append v comma)
      (then_append-le v comma (then_append-le (codes ",") st h))

append_keys-le :
    (first : Bool) (ks : List Text) (vals : List (List Text)) (st : Building)
    → length (st.1) ≤ 300
    → length (append_keys first ks vals st).1 ≤ 300
unfolding append_keys
append_keys-le first [] vals st h = h
append_keys-le first (k ∷ ks) [] st h = h
append_keys-le true (k ∷ ks) (vs ∷ vals) st h =
    let named = then_append (k ++ codes "=") st in
    append_keys-le false ks vals (append_values true vs named)
      (append_values-le true vs named (then_append-le (k ++ codes "=") st h))
append_keys-le false (k ∷ ks) (vs ∷ vals) st h =
    let amp = then_append (codes "&") st in
    let named = then_append (k ++ codes "=") amp in
    append_keys-le false ks vals (append_values true vs named) (
      append_values-le true vs named
        (then_append-le (k ++ codes "=") amp (then_append-le (codes "&") st h)))

cap_log_query-le : (s : Text) → length (cap_log_query s) ≤ 300
unfolding cap_log_query
cap_log_query-le s = elim (Bool-cases (leb (length s) 300)) [
  | inl fits ↦ rw fits (ground arith)
  | inr long ↦
      let dotted = length-append (take 297 s) (codes "...") in
      let cut = length-take 297 s in rw long (omega (arith, dotted, cut))
]

-- What is logged of a query has 300 bytes at most, whether it is cut from the request or built from
-- the lists of a body.
pub log_query-le :
    (s : Text) (keys : List Text) (vals : List (List Text))
    → (length (cap_log_query s) ≤ 300) × (length (build_log_query keys vals) ≤ 300)
unfolding build_log_query
log_query-le s keys vals =
    (cap_log_query-le s, append_keys-le true keys vals (true, []) (omega arith))
