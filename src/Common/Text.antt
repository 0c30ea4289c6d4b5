-- ===== src/Common/Text.antt =====
-- Texts as lists of bytes, for the code that walks them: comparison, case, trimming, prefixes and
-- integers (`strings.ToUpper`, `TrimSpace`, `HasPrefix`, `IndexByte`, `strconv.ParseInt`).
-- A text is taken to be ASCII, where Go's `strings` functions work byte by byte.
pub mod Plain
use Prim.Native.Char.{code}
use mathlib.Core.List.{reverse}
use gomc_rest.Common.{
  ℕ, ◌+◌, ◌-◌, ◌*◌, ◌^◌, String, ◌≡◌, refl, ◌↔◌, Bool, true, false, ◌&&◌, ◌||◌, Option, none, some,
  List, [], ◌∷◌, map, arith, leb, ltb, ◌==◌, if◌then◌else◌,
}
use gomc_rest.Common.Int.{ℤ, pos, negsuc}

abbrev pub Text : Type 0
Text = List ℕ

abbrev pub all_bytes : (ℕ → Bool) → Text → Bool
all_bytes test [] = true
all_bytes test (c ∷ s) = test c && all_bytes test s

abbrev pub is_digit : ℕ → Bool
is_digit c = leb b'0' c && leb c b'9'

abbrev pub codes : String → Text
codes String.[] = []
codes (String.◌∷◌ c s) = code c ∷ codes s

unfoldable pub text_eq : Text → Text → Bool
text_eq [] [] = true
text_eq (x ∷ xs) (y ∷ ys) = (x == y) && text_eq xs ys
text_eq _ _ = false

pub text_eq_iff : (s t : Text) → (text_eq s t ≡ true) ↔ (s ≡ t)
unfolding text_eq
text_eq_iff [] [] = ground arith
text_eq_iff [] (y ∷ ys) = ground arith
text_eq_iff (x ∷ xs) [] = ground arith
text_eq_iff (x ∷ xs) (y ∷ ys) = ground (arith, text_eq_iff xs ys)

unfoldable pub upper_byte : ℕ → ℕ
upper_byte c = if leb b'a' c && leb c b'z' then c - 32 else c

unfoldable pub lower_byte : ℕ → ℕ
lower_byte c = if leb b'A' c && leb c b'Z' then c + 32 else c

unfoldable pub to_upper : Text → Text
unfolding upper_byte
to_upper s = map upper_byte s

unfoldable pub to_lower : Text → Text
unfolding lower_byte
to_lower s = map lower_byte s

is_space : ℕ → Bool
is_space c = leb 9 c && leb c 13 || c == 32

trim_left : Text → Text
unfolding is_space
trim_left [] = []
trim_left (c ∷ s) = if is_space c then trim_left s else c ∷ s

unfoldable pub trim_space : Text → Text
unfolding trim_left
trim_space s = reverse (trim_left (reverse (trim_left s)))

-- `s[len(p):]` if `s` begins with `p`.
unfoldable pub strip_prefix? : Text → Text → Option Text
strip_prefix? [] s = some s
strip_prefix? (c ∷ p) [] = none
strip_prefix? (c ∷ p) (d ∷ s) = let more = strip_prefix? p s in if c == d then more else none

-- `s[:i]` and `s[i+1:]` for the first index `i` of the byte.
unfoldable pub split_at_byte? : ℕ → Text → Option (Text × Text)
split_at_byte? c [] = none
split_at_byte? c (d ∷ s) =
    if d == c
    then some ([], s)
    else elim (split_at_byte? c s) [ none ↦ none | some (l, r) ↦ some (d ∷ l, r) ]

unfoldable pub digit_value : ℕ → ℕ
digit_value c =
    if leb b'0' c && leb c b'9'
    then c - 48
    else if leb b'a' c && leb c b'z'
    then c - 87
    else if leb b'A' c && leb c b'Z'
    then c - 55
    else 36

-- The digits of `strconv.ParseUint`, after those read into `acc`.
unfoldable pub parse_digits : ℕ → ℕ → Text → Option ℕ
unfolding digit_value
parse_digits base acc [] = some acc
parse_digits base acc (c ∷ s) =
    let more = parse_digits base (acc * base + digit_value c) s in
    if ltb (digit_value c) base then more else none

unfoldable pub parse_uint : ℕ → Text → Option ℕ
unfolding parse_digits
parse_uint base [] = none
parse_uint base (c ∷ s) = parse_digits base 0 (c ∷ s)

abbrev neg_of : ℕ → ℤ
neg_of n = if n == 0 then pos 0 else negsuc (n - 1)

unfoldable pub in_int64 : Bool → ℕ → Option ℤ
in_int64 true n = if leb n (2 ^ 63) then some (neg_of n) else none
in_int64 false n = if ltb n (2 ^ 63) then some (pos n) else none

abbrev pub signed_of : Bool → Option ℕ → Option ℤ
signed_of neg none = none
signed_of neg (some n) = in_int64 neg n

-- `strconv.ParseInt(s, base, 64)`; `none` is any error. `Atoi` is the same at base 10.
unfoldable pub parse_int : ℕ → Text → Option ℤ
parse_int base [] = none
parse_int base (c ∷ s) =
    if c == b'-'
    then signed_of true (parse_uint base s)
    else if c == b'+'
    then signed_of false (parse_uint base s)
    else signed_of false (parse_uint base (c ∷ s))

parse_int_tests :
    (parse_int 10 (codes "-12") ≡ some (negsuc 11))
    × (parse_int 16 (codes "1fF") ≡ some (pos 511))
    × (parse_int 10 (codes "9223372036854775808") ≡ none)
    × (parse_int 10 (codes "+") ≡ none)
    × (trim_space (codes " \tK4 ") ≡ codes "K4")
unfolding parse_int in_int64 parse_uint trim_space
parse_int_tests = (refl, refl, refl, refl, refl)
