-- ===== src/Device/Prefixes.antt =====
-- The order of the prefixes: `multiCharPrefixes` comes from a map by a sort that is not stable.
use gomc_rest.Common.{
  sym, ap₂, ◌∙◌, ℕ, ◌≤◌, ◌≡◌, refl, arith, true, none, some, List, [], ◌∷◌, length, All,
  Option-cases, Bool-cases, inl, inr,
}
use gomc_rest.Common.Text.{Text, text_eq, text_eq_iff, strip_prefix?}
use gomc_rest.Device.{split_device, multi_char_prefixes, listed, match_prefix}

-- No device stands before a longer one.
abbrev pub IsLongestFirst : List Text → Type 0
IsLongestFirst [] = Unit
IsLongestFirst (p ∷ ps) = All (λ q. length q ≤ length p) ps × IsLongestFirst ps

All-listed :
    (n : ℕ) (ps : List Text) (q : Text)
    → All (λ p. length p ≤ n) ps
    → listed ps q ≡ true
    → length q ≤ n
unfolding listed
All-listed n [] q h e = absurd (ground arith)
All-listed n (p ∷ ps) q (short, shorts) e = elim (Bool-cases (text_eq p q)) [
  | inl same ↦ let here = (text_eq_iff p q).0 same in rw here at short
  | inr other ↦ All-listed n ps q shorts (ground arith)
]

-- A match is one of the prefixes, cut off the address.
match_prefix-listed :
    (ps : List Text) (s p rest : Text)
    → match_prefix ps s ≡ some (p, rest)
    → (listed ps p ≡ true) × (strip_prefix? p s ≡ some rest)
unfolding match_prefix listed
match_prefix-listed [] s p rest e = absurd (ground arith)
match_prefix-listed (d ∷ ds) s p rest e = elim (Option-cases (strip_prefix? d s)) [
  | inl no_match ↦
      let (found, cut) = match_prefix-listed ds s p rest (ground arith) in (ground arith, cut)
  | inr (after, hit) ↦
      let same : d ≡ p = ground arith in
      let left : after ≡ rest = ground arith in
      let reflexive = (text_eq_iff d d).1 refl in rw (← same, ← left) (ground arith, hit)
]

-- Of the prefixes that match, the first is the longest.
match_prefix-longest :
    (ps : List Text) (s p rest q after : Text)
    → IsLongestFirst ps
    → match_prefix ps s ≡ some (p, rest)
    → listed ps q ≡ true
    → strip_prefix? q s ≡ some after
    → length q ≤ length p
unfolding match_prefix listed
match_prefix-longest [] s p rest q after sorted e among hit = absurd (ground arith)
match_prefix-longest (d ∷ ds) s p rest q after (bound, sorted) e among hit =
    elim (Option-cases (strip_prefix? d s)) [
      | inl no_match ↦ elim (Bool-cases (text_eq d q)) [
        | inl same ↦
            let here = (text_eq_iff d q).0 same in
            let gone : strip_prefix? q s ≡ none = rw here at no_match in absurd (ground arith)
        | inr other ↦
            match_prefix-longest ds s p rest q after sorted (ground arith) (ground arith) hit
      ]
      | inr (left, found) ↦
          let same : d ≡ p = ground arith in
          elim (Bool-cases (text_eq d q)) [
            | inl here ↦ let equal = (text_eq_iff d q).0 here in rw (← equal, same) (omega arith)
            | inr other ↦
                let short = All-listed (length d) ds q bound (ground arith) in rw same at short
          ]
    ]

match_prefix-none :
    (ps : List Text) (s q : Text)
    → match_prefix ps s ≡ none
    → listed ps q ≡ true
    → strip_prefix? q s ≡ none
unfolding match_prefix listed
match_prefix-none [] s q e among = absurd (ground arith)
match_prefix-none (d ∷ ds) s q e among = elim (Option-cases (strip_prefix? d s)) [
  | inr (after, hit) ↦ absurd (ground arith)
  | inl no_match ↦ elim (Bool-cases (text_eq d q)) [
    | inl same ↦ let here = (text_eq_iff d q).0 same in rw here at no_match
    | inr other ↦ match_prefix-none ds s q (ground arith) (ground arith)
  ]
]

-- Two prefixes of one length are the same.
strip_prefix_unique :
    (p q s a b : Text)
    → length p ≡ length q
    → strip_prefix? p s ≡ some a
    → strip_prefix? q s ≡ some b
    → (p ≡ q) × (a ≡ b)
unfolding strip_prefix?
strip_prefix_unique [] [] s a b h e f = (refl, ground arith)
strip_prefix_unique [] (d ∷ q) s a b h e f = absurd (omega arith)
strip_prefix_unique (c ∷ p) [] s a b h e f = absurd (omega arith)
strip_prefix_unique (c ∷ p) (d ∷ q) [] a b h e f = absurd (ground arith)
strip_prefix_unique (c ∷ p) (d ∷ q) (x ∷ s) a b h e f =
    let (tails, rests) =
      strip_prefix_unique p q s a b (omega arith) (ground arith) (ground arith) in
    let head : c ≡ d = ground arith in (ap₂ ◌∷◌ head tails, rests)

some-match :
    (ps qs : List Text) (s p rest : Text)
    → IsLongestFirst ps
    → IsLongestFirst qs
    → ((d : Text) → listed ps d ≡ listed qs d)
    → match_prefix ps s ≡ some (p, rest)
    → match_prefix qs s ≡ some (p, rest)
some-match ps qs s p rest sorted sorted' same e =
    let (among, cut) = match_prefix-listed ps s p rest e in
    elim (Option-cases (match_prefix qs s)) [
      | inl no_match ↦
          let gone = match_prefix-none qs s p no_match (sym (same p) ∙ among) in
          absurd (ground arith)
      | inr ((q, after), found) ↦
          let (among', cut') = match_prefix-listed qs s q after found in
          let left = match_prefix-longest ps s p rest q after sorted e (same q ∙ among') cut' in
          let right =
            match_prefix-longest qs s q after p rest sorted' found (sym (same p) ∙ among) cut in
          let (equal, rests) = strip_prefix_unique p q s rest after (omega arith) cut cut' in
          found ∙ rw (equal, rests) refl
    ]

match_prefix-order :
    (ps qs : List Text) (s : Text)
    → IsLongestFirst ps
    → IsLongestFirst qs
    → ((d : Text) → listed ps d ≡ listed qs d)
    → match_prefix ps s ≡ match_prefix qs s
match_prefix-order ps qs s sorted sorted' same = elim (Option-cases (match_prefix ps s)) [
  | inr ((p, rest), found) ↦ found ∙ sym (some-match ps qs s p rest sorted sorted' same found)
  | inl no_match ↦ elim (Option-cases (match_prefix qs s)) [
    | inl none' ↦ no_match ∙ sym none'
    | inr ((q, after), found) ↦
        let back = some-match qs ps s q after sorted' sorted (λ d. sym (same d)) found in
        back ∙ sym found
  ]
]

pub multi_char_prefixes-IsLongestFirst : IsLongestFirst multi_char_prefixes
multi_char_prefixes-IsLongestFirst = ground arith

-- The device that an address names does not depend on the order in which the sort leaves devices of
-- one length: any list of the same devices with no device before a longer one splits every address
-- like `multi_char_prefixes`.
pub split_device-order :
    (ps : List Text) (full s : Text)
    → IsLongestFirst ps
    → ((d : Text) → listed ps d ≡ listed multi_char_prefixes d)
    → split_device ps full s ≡ split_device multi_char_prefixes full s
unfolding split_device
split_device-order ps full [] sorted same = refl
split_device-order ps full (c ∷ []) sorted same = refl
split_device-order ps full (c ∷ d ∷ s) sorted same =
    let equal =
      match_prefix-order ps multi_char_prefixes (c ∷ d ∷ s) sorted
        multi_char_prefixes-IsLongestFirst same in
    rw (equal, split_device) refl
