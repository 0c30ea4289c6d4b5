-- ===== src/LogQuery/Exact.antt =====
-- A query that fits is logged whole.
use mathlib.Core.List.{append-nil}
use gomc_rest.Common.{
  ◌-◌, ◌≤◌, ◌≡◌, ◌⊎◌, inl, inr, refl, sym, ◌∙◌, arith, Bool, true, false, List, [], ◌∷◌, ◌++◌,
  length, length-append, leb, Bool-cases,
}
use gomc_rest.Common.Text.{Text, codes}
use gomc_rest.LogQuery.{
  build_log_query, append_keys, append_values, Building, append_str, then_append,
}

-- The values with commas between them, behind what there is.
abbrev pub join_values : Bool → List Text → Text → Text
join_values first [] b = b
join_values true (v ∷ vs) b = join_values false vs (b ++ v)
join_values false (v ∷ vs) b = join_values false vs ((b ++ codes ",") ++ v)

-- `k0=v,v&k1=v,v`
abbrev pub join_query : Bool → List Text → List (List Text) → Text → Text
join_query first [] vals b = b
join_query first (k ∷ ks) [] b = b
join_query true (k ∷ ks) (vs ∷ vals) b =
    join_query false ks vals (join_values true vs (b ++ (k ++ codes "=")))
join_query false (k ∷ ks) (vs ∷ vals) b =
    join_query false ks vals (join_values true vs ((b ++ codes "&") ++ (k ++ codes "=")))

-- The builder holds `x`, and goes on unless it is full.
abbrev IsExact : Text → Building → Type 0
IsExact x st = (st.1 ≡ x) × ((st.0 ≡ true) ⊎ (300 ≤ length x))

empty_text : (s : Text) → length s ≡ 0 → s ≡ []
empty_text [] e = refl
empty_text (c ∷ s) e = absurd (omega arith)

full-IsExact : (x s : Text) → 300 ≤ length x → length (x ++ s) ≤ 300 → x ≡ x ++ s
full-IsExact x s full h =
    let whole = length-append x s in
    let none_left = empty_text s (omega arith) in rw none_left (sym (append-nil x))

append_str-IsExact : (x s : Text) → length (x ++ s) ≤ 300 → IsExact (x ++ s) (append_str s x)
unfolding append_str
append_str-IsExact x s h =
    let whole = length-append x s in
    elim (Bool-cases (leb 300 (length x))) [
      | inl full ↦ rw full (full-IsExact x s (ground arith) h, inr (ground arith))
      | inr room ↦
          let fits : leb (length s) (300 - length x) ≡ true = ground arith in
          rw (room, fits) (refl, inl refl)
    ]

then_append-IsExact :
    (x s : Text) (st : Building)
    → IsExact x st
    → length (x ++ s) ≤ 300
    → IsExact (x ++ s) (then_append s st)
unfolding then_append
then_append-IsExact x s (true, b) (same, on) h = rw same (append_str-IsExact x s h)
then_append-IsExact x s (false, b) (same, inl on) h = absurd (ground arith)
then_append-IsExact x s (false, b) (same, inr full) h =
    let whole = length-append x s in (same ∙ full-IsExact x s full h, inr (omega arith))

join_values-grow :
    (first : Bool) (vs : List Text) (b : Text) → length b ≤ length (join_values first vs b)
join_values-grow first [] b = omega arith
join_values-grow true (v ∷ vs) b =
    omega (arith, join_values-grow false vs (b ++ v), length-append b v)
join_values-grow false (v ∷ vs) b = omega (
  arith,
  join_values-grow false vs ((b ++ codes ",") ++ v),
  length-append (b ++ codes ",") v,
  length-append b (codes ","),
)

join_query-grow :
    (first : Bool) (ks : List Text) (vals : List (List Text)) (b : Text)
    → length b ≤ length (join_query first ks vals b)
join_query-grow first [] vals b = omega arith
join_query-grow first (k ∷ ks) [] b = omega arith
join_query-grow true (k ∷ ks) (vs ∷ vals) b =
    let named = b ++ (k ++ codes "=") in
    omega (
      arith,
      join_query-grow false ks vals (join_values true vs named),
      join_values-grow true vs named,
      length-append b (k ++ codes "="),
    )
join_query-grow false (k ∷ ks) (vs ∷ vals) b =
    let named = (b ++ codes "&") ++ (k ++ codes "=") in
    omega (
      arith,
      join_query-grow false ks vals (join_values true vs named),
      join_values-grow true vs named,
      length-append (b ++ codes "&") (k ++ codes "="),
      length-append b (codes "&"),
    )

append_values-IsExact :
    (first : Bool) (vs : List Text) (x : Text) (st : Building)
    → IsExact x st
    → length (join_values first vs x) ≤ 300
    → IsExact (join_values first vs x) (append_values first vs st)
unfolding append_values
append_values-IsExact first [] x st e h = e
append_values-IsExact true (v ∷ vs) x st e h =
    let so_far = join_values-grow false vs (x ++ v) in
    append_values-IsExact false vs (x ++ v) (then_append v st)
      (then_append-IsExact x v st e (omega arith)) h
append_values-IsExact false (v ∷ vs) x st e h =
    let so_far = join_values-grow false vs ((x ++ codes ",") ++ v) in
    let before = length-append (x ++ codes ",") v in
    append_values-IsExact false vs ((x ++ codes ",") ++ v)
      (then_append v (then_append (codes ",") st))
      (then_append-IsExact (x ++ codes ",") v (then_append (codes ",") st)
        (then_append-IsExact x (codes ",") st e (omega arith)) (omega arith))
      h

append_keys-IsExact :
    (first : Bool) (ks : List Text) (vals : List (List Text)) (x : Text) (st : Building)
    → IsExact x st
    → length (join_query first ks vals x) ≤ 300
    → IsExact (join_query first ks vals x) (append_keys first ks vals st)
unfolding append_keys
append_keys-IsExact first [] vals x st e h = e
append_keys-IsExact first (k ∷ ks) [] x st e h = e
append_keys-IsExact true (k ∷ ks) (vs ∷ vals) x st e h =
    let named = x ++ (k ++ codes "=") in
    let whole = join_query-grow false ks vals (join_values true vs named) in
    let part = join_values-grow true vs named in
    append_keys-IsExact false ks vals (join_values true vs named)
      (append_values true vs (then_append (k ++ codes "=") st))
      (append_values-IsExact true vs named (then_append (k ++ codes "=") st)
        (then_append-IsExact x (k ++ codes "=") st e (omega arith)) (omega arith))
      h
append_keys-IsExact false (k ∷ ks) (vs ∷ vals) x st e h =
    let amp = x ++ codes "&" in
    let named = amp ++ (k ++ codes "=") in
    let whole = join_query-grow false ks vals (join_values true vs named) in
    let part = join_values-grow true vs named in
    let before = length-append amp (k ++ codes "=") in
    append_keys-IsExact false ks vals (join_values true vs named)
      (append_values true vs (then_append (k ++ codes "=") (then_append (codes "&") st)))
      (append_values-IsExact true vs named
        (then_append (k ++ codes "=") (then_append (codes "&") st))
        (then_append-IsExact amp (k ++ codes "=") (then_append (codes "&") st)
          (then_append-IsExact x (codes "&") st e (omega arith)) (omega arith))
        (omega arith))
      h

-- If the query "k0=v,v&k1=v,v" of some lists has 300 bytes at most, it is what `buildLogQuery` makes
-- of them: nothing is cut off.
pub build_log_query-join :
    (keys : List Text) (vals : List (List Text))
    → length (join_query true keys vals []) ≤ 300
    → build_log_query keys vals ≡ join_query true keys vals []
unfolding build_log_query
build_log_query-join keys vals h =
    (append_keys-IsExact true keys vals [] (true, []) (refl, inl refl) h).0
