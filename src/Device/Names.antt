-- ===== src/Device/Names.antt =====
-- The devices and the addresses that are printed from them.
use gomc_rest.Common.{
  ap₂, ◌≤◌, ap, ◌∙◌, ok, ◌++◌, ℕ, Option, Option-cases, ◌≡◌, refl, arith, Bool, true, false, not,
  ◌&&◌, none, some, List, [], ◌∷◌, length, ◌==◌, Bool-cases, inl, inr,
}
use gomc_rest.Common.Text.{
  is_digit, split_at_byte?, strip_prefix?, Text, all_bytes, text_eq, text_eq_iff, strip_prefix?,
}
use gomc_rest.Common.Text.Plain.{is_capital}
use gomc_rest.Device.{
  strip_nibbles, match_prefix, split_device, word_devs, bit_devs, listed, is_valid_device,
  is_word_device, multi_char_prefixes, match_prefix,
}

-- The prefixes find the whole name, or none of a name of one letter.
abbrev finds : List Text → Text → Bool
finds prefixes dev = elim (match_prefix prefixes dev) [
  | some (p, rest) ↦ text_eq p dev && text_eq rest []
  | none ↦ length dev == 1
]

-- Capital letters, no K at the front, and found by the prefixes.
abbrev pub is_name : Text → Bool
is_name [] = false
is_name (c ∷ s) =
    is_capital c && all_bytes is_capital s && not (c == b'K') && finds multi_char_prefixes (c ∷ s)

all_names : List Text → Bool
all_names [] = true
all_names (d ∷ ds) = is_name d && all_names ds

listed-is_name :
    (ds : List Text) (dev : Text) → all_names ds ≡ true → listed ds dev ≡ true → is_name dev ≡ true
unfolding all_names listed
listed-is_name [] dev names e = ground arith
listed-is_name (d ∷ ds) dev names e = elim (Bool-cases (text_eq d dev)) [
  | inl same ↦ let here = (text_eq_iff d dev).0 same in rw (← here) (ground arith)
  | inr other ↦ listed-is_name ds dev (ground arith) (ground arith)
]

pub is_valid_device-is_name : (dev : Text) → is_valid_device dev ≡ true → is_name dev ≡ true
unfolding is_valid_device is_word_device all_names match_prefix strip_prefix? text_eq
is_valid_device-is_name dev valid = elim (Bool-cases (listed word_devs dev)) [
  | inl word ↦ listed-is_name word_devs dev refl word
  | inr other ↦ listed-is_name bit_devs dev refl (ground arith)
]

-- What is matched of a name is matched of the name with a digit and more behind it.
abbrev followed : Text → Option Text → Option Text
followed t none = none
followed t (some rest) = some (rest ++ t)

strip_prefix?-followed :
    (p dev : Text) (c : ℕ) (t : Text)
    → all_bytes is_capital p ≡ true
    → is_digit c ≡ true
    → strip_prefix? p (dev ++ (c ∷ t)) ≡ followed (c ∷ t) (strip_prefix? p dev)
unfolding strip_prefix?
strip_prefix?-followed [] dev c t capitals digit = refl
strip_prefix?-followed (a ∷ p) [] c t capitals digit = ground arith
strip_prefix?-followed (a ∷ p) (b ∷ dev) c t capitals digit =
    let rest = strip_prefix?-followed p dev c t in ground arith

abbrev pair_followed : Text → Option (Text × Text) → Option (Text × Text)
pair_followed t none = none
pair_followed t (some (p, rest)) = some (p, rest ++ t)

all_capitals : List Text → Bool
all_capitals [] = true
all_capitals (p ∷ ps) = all_bytes is_capital p && all_capitals ps

match_prefix-followed :
    (ps : List Text) (dev : Text) (c : ℕ) (t : Text)
    → all_capitals ps ≡ true
    → is_digit c ≡ true
    → match_prefix ps (dev ++ (c ∷ t)) ≡ pair_followed (c ∷ t) (match_prefix ps dev)
unfolding match_prefix all_capitals
match_prefix-followed [] dev c t capitals digit = refl
match_prefix-followed (p ∷ ps) dev c t capitals digit =
    let here = strip_prefix?-followed p dev c t (ground arith) digit in
    let rest = match_prefix-followed ps dev c t (ground arith) digit in
    elim (Option-cases (strip_prefix? p dev)) [
      | inl no_match ↦
          let missed = here ∙ ap (followed (c ∷ t)) no_match in
          rw (missed, no_match, match_prefix) rest
      | inr (after, hit) ↦
          let found = here ∙ ap (followed (c ∷ t)) hit in rw (found, hit, match_prefix) refl
    ]

split_device-found :
    (ps : List Text) (full : Text) (a b : ℕ) (s : Text) (found : Text × Text)
    → match_prefix ps (a ∷ b ∷ s) ≡ some found
    → split_device ps full (a ∷ b ∷ s) ≡ ok found
unfolding split_device
split_device-found ps full a b s found e = rw (e, split_device) refl

split_device-letter :
    (ps : List Text) (full : Text) (a b : ℕ) (s : Text)
    → match_prefix ps (a ∷ b ∷ s) ≡ none
    → split_device ps full (a ∷ b ∷ s) ≡ ok (a ∷ [], b ∷ s)
unfolding split_device
split_device-letter ps full a b s e = rw (e, split_device) refl

finds-some :
    (ps : List Text) (dev p rest : Text)
    → finds ps dev ≡ true
    → match_prefix ps dev ≡ some (p, rest)
    → (p ≡ dev) × (rest ≡ [])
finds-some ps dev p rest itself found =
    let both : (text_eq p dev && text_eq rest []) ≡ true = rw (found, finds) at itself in
    ((text_eq_iff p dev).0 (ground arith), (text_eq_iff rest []).0 (ground arith))

match_prefix-some :
    (ps : List Text) (dev : Text) (c : ℕ) (t p rest : Text)
    → all_capitals ps ≡ true
    → is_digit c ≡ true
    → finds ps dev ≡ true
    → match_prefix ps dev ≡ some (p, rest)
    → match_prefix ps (dev ++ (c ∷ t)) ≡ some (dev, c ∷ t)
match_prefix-some ps dev c t p rest capitals digit itself found =
    let (same, nothing) = finds-some ps dev p rest itself found in
    match_prefix-followed ps dev c t capitals digit
    ∙ (ap (pair_followed (c ∷ t)) found ∙ ap₂ (λ q r. some (q, r ++ (c ∷ t))) same nothing)

split_device-finds :
    (ps : List Text) (full dev : Text) (c : ℕ) (t : Text)
    → all_capitals ps ≡ true
    → is_digit c ≡ true
    → 1 ≤ length dev
    → finds ps dev ≡ true
    → split_device ps full (dev ++ (c ∷ t)) ≡ ok (dev, c ∷ t)
split_device-finds ps full [] c t capitals digit some_name itself = absurd (omega arith)
split_device-finds ps full (a ∷ []) c t capitals digit some_name itself =
    elim (Option-cases (match_prefix ps (a ∷ []))) [
      | inl missed ↦
          split_device-letter ps full a c t (
            match_prefix-followed ps (a ∷ []) c t capitals digit
            ∙ ap (pair_followed (c ∷ t)) missed)
      | inr ((p, rest), found) ↦
          split_device-found ps full a c t (a ∷ [], c ∷ t)
            (match_prefix-some ps (a ∷ []) c t p rest capitals digit itself found)
    ]
split_device-finds ps full (a ∷ b ∷ dev) c t capitals digit some_name itself =
    elim (Option-cases (match_prefix ps (a ∷ b ∷ dev))) [
      | inl missed ↦
          let one : (length (a ∷ b ∷ dev) == 1) ≡ true = rw (missed, finds) at itself in
          absurd (ground arith)
      | inr ((p, rest), found) ↦
          split_device-found ps full a b (dev ++ (c ∷ t)) (a ∷ b ∷ dev, c ∷ t)
            (match_prefix-some ps (a ∷ b ∷ dev) c t p rest capitals digit itself found)
    ]

pub split_device-is_name :
    (full dev : Text) (c : ℕ) (t : Text)
    → is_name dev ≡ true
    → is_digit c ≡ true
    → split_device multi_char_prefixes full (dev ++ (c ∷ t)) ≡ ok (dev, c ∷ t)
split_device-is_name full [] c t name digit = absurd (ground arith)
split_device-is_name full (a ∷ dev) c t name digit =
    split_device-finds multi_char_prefixes full (a ∷ dev) c t (unfold all_capitals in refl) digit
      (omega arith) (ground arith)

pub strip_nibbles-is_name :
    (dev t : Text) → is_name dev ≡ true → strip_nibbles (dev ++ t) ≡ ok (0, dev ++ t)
unfolding strip_nibbles
strip_nibbles-is_name [] t name = ground arith
strip_nibbles-is_name (a ∷ []) [] name = refl
strip_nibbles-is_name (a ∷ []) (d ∷ []) name = refl
strip_nibbles-is_name (a ∷ []) (d ∷ e ∷ t) name = ground arith
strip_nibbles-is_name (a ∷ b ∷ []) [] name = refl
strip_nibbles-is_name (a ∷ b ∷ []) (e ∷ t) name = ground arith
strip_nibbles-is_name (a ∷ b ∷ e ∷ dev) t name = ground arith

pub split_at_byte?-digits : (s : Text) → all_bytes is_digit s ≡ true → split_at_byte? b'.' s ≡ none
unfolding split_at_byte?
split_at_byte?-digits [] digits = refl
split_at_byte?-digits (c ∷ s) digits = let rest = split_at_byte?-digits s in ground arith
