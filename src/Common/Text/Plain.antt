-- ===== src/Common/Text/Plain.antt =====
-- Texts of capital letters, digits and dots, which trimming and `strings.ToUpper` leave as they are.
use mathlib.Core.List.{reverse, reverse_aux, reverse-reverse}
use gomc_rest.Common.{
  ◌==◌, ℕ, ◌≡◌, refl, ap, ap₂, ◌∙◌, arith, Bool, true, ◌&&◌, ◌||◌, leb, [], ◌∷◌, ◌++◌,
}
use gomc_rest.Common.Text.{
  Text, all_bytes, is_digit, is_space, trim_left, trim_space, upper_byte, to_upper,
}

abbrev pub is_capital : ℕ → Bool
is_capital c = leb b'A' c && leb c b'Z'

abbrev pub is_plain : ℕ → Bool
is_plain c = is_capital c || is_digit c || c == b'.'

trim_left-plain : (s : Text) → all_bytes is_plain s ≡ true → trim_left s ≡ s
unfolding trim_left is_space
trim_left-plain [] plain = refl
trim_left-plain (c ∷ s) plain = ground arith

reverse_aux-plain :
    (s t : Text)
    → all_bytes is_plain s ≡ true
    → all_bytes is_plain t ≡ true
    → all_bytes is_plain (reverse_aux s t) ≡ true
reverse_aux-plain [] t plain rest = rest
reverse_aux-plain (c ∷ s) t plain rest = reverse_aux-plain s (c ∷ t) (ground arith) (ground arith)

pub trim_space-plain : (s : Text) → all_bytes is_plain s ≡ true → trim_space s ≡ s
unfolding trim_space
trim_space-plain s plain =
    ap (λ t. reverse (trim_left (reverse t))) (trim_left-plain s plain)
    ∙ (ap reverse (trim_left-plain (reverse s) (reverse_aux-plain s [] plain refl))
        ∙ reverse-reverse s)

upper_byte-plain : (c : ℕ) → is_plain c ≡ true → upper_byte c ≡ c
unfolding upper_byte
upper_byte-plain c plain = ground arith

pub to_upper-plain : (s : Text) → all_bytes is_plain s ≡ true → to_upper s ≡ s
unfolding to_upper
to_upper-plain [] plain = refl
to_upper-plain (c ∷ s) plain =
    ap₂ (λ d t. d ∷ t) (upper_byte-plain c (ground arith)) (to_upper-plain s (ground arith))

pub all_bytes-append :
    (test : ℕ → Bool) (s t : Text)
    → all_bytes test s ≡ true
    → all_bytes test t ≡ true
    → all_bytes test (s ++ t) ≡ true
all_bytes-append test [] t front back = back
all_bytes-append test (c ∷ s) t front back = let rest = all_bytes-append test s t in ground arith

pub digits-plain : (s : Text) → all_bytes is_digit s ≡ true → all_bytes is_plain s ≡ true
digits-plain [] digits = refl
digits-plain (c ∷ s) digits = let rest = digits-plain s in ground arith

pub capitals-plain : (s : Text) → all_bytes is_capital s ≡ true → all_bytes is_plain s ≡ true
capitals-plain [] capitals = refl
capitals-plain (c ∷ s) capitals = let rest = capitals-plain s in ground arith
