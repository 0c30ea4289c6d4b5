-- ===== src/Handler/Numbers.antt =====
-- handler.go: the conversions between register words and the integers of a request.
pub mod Laws
pub mod Nibbles
use Prim.Native.Nat.{bit_and, bit_or}
use gomc_rest.Common.{
  ℕ, suc, ◌+◌, ◌-◌, ◌*◌, ◌/◌, ◌%◌, ◌^◌, Bool, true, false, ◌&&◌, List, [], ◌∷◌, Option, none, some,
  ltb, ◌||◌, ◌==◌, if◌then◌else◌, Result, ok, err,
}
use gomc_rest.Common.Int.{ℤ, pos, negsuc, sub_ℕ, leb_ℤ, ltb_ℤ}

-- `signExtend`, on a uint32.
unfoldable pub sign_extend : ℕ → ℕ → ℤ
sign_extend v width =
    if bit_and v (2 ^ (width - 1) % 2 ^ 32) == 0 then pos v else sub_ℕ v (2 ^ width)

-- -(2 ^ n), for a width above 0.
abbrev pub neg_pow : ℕ → ℤ
neg_pow n = negsuc (2 ^ n - 1)

-- `fitsInBits`
unfoldable pub fits_in_bits : ℤ → ℕ → Bool → Bool
fits_in_bits v width true = leb_ℤ (neg_pow (width - 1)) v && leb_ℤ v (sub_ℕ (2 ^ (width - 1)) 1)
fits_in_bits v width false = leb_ℤ (pos 0) v && ltb_ℤ v (pos (2 ^ width))

-- The conversions `int16(v)` of a uint16 and `int32(v)` of a uint32: two's complement.
unfoldable pub to_signed : ℕ → ℕ → ℤ
to_signed width v = if ltb v (2 ^ (width - 1)) then pos v else sub_ℕ v (2 ^ width)

-- The conversions of an int64 to an unsigned type of the width.
unfoldable pub to_unsigned : ℕ → ℤ → ℕ
to_unsigned width (pos n) = n % 2 ^ width
to_unsigned width (negsuc n) = 2 ^ width - 1 - n % 2 ^ width

-- `lo | hi<<16` on uint32.
unfoldable pub combine : ℕ → ℕ → ℕ
combine lo hi = bit_or lo (hi * 2 ^ 16 % 2 ^ 32)

unfoldable pub word_value : Bool → ℕ → ℤ
word_value sint v = if sint then to_signed 16 v else pos v

unfoldable pub dword_value : Bool → ℕ → ℕ → ℤ
unfolding combine
dword_value sint lo hi = if sint then to_signed 32 (combine lo hi) else pos (combine lo hi)

-- The loop over `count` double words; reading past the words panics.
unfoldable pub dword_values : Bool → ℕ → List ℕ → Option (List ℤ)
unfolding dword_value
dword_values sint ℕ.zero words = some []
dword_values sint (suc count) (lo ∷ hi ∷ words) = elim (dword_values sint count words) [
  | none ↦ none
  | some vals ↦ some (dword_value sint lo hi ∷ vals)
]
dword_values sint (suc count) _ = none

-- The checked conversion of one value of a write, per mode.
unfoldable pub word_of_sint : ℤ → Option ℕ
word_of_sint v =
    if ltb_ℤ v (neg_pow 15) || ltb_ℤ (pos 32767) v then none else some (to_unsigned 16 v)

unfoldable pub dword_of : Bool → ℤ → Option ℕ
dword_of true v =
    if ltb_ℤ v (neg_pow 31) || ltb_ℤ (pos 2147483647) v then none else some (to_unsigned 32 v)
dword_of false v =
    if ltb_ℤ v (pos 0) || ltb_ℤ (pos 4294967295) v then none else some (to_unsigned 32 v)

-- The loops that fill `words`; `none` is a value out of range.
unfoldable pub words_of_sints : List ℤ → Option (List ℕ)
unfolding word_of_sint
words_of_sints [] = some []
words_of_sints (v ∷ vs) = elim (word_of_sint v) [
  | none ↦ none
  | some w ↦ elim (words_of_sints vs) [ none ↦ none | some ws ↦ some (w ∷ ws) ]
]

unfoldable pub words_of_dwords : Bool → List ℤ → Option (List ℕ)
unfolding dword_of
words_of_dwords sint [] = some []
words_of_dwords sint (v ∷ vs) = elim (dword_of sint v) [
  | none ↦ none
  | some u ↦ elim (words_of_dwords sint vs) [
    | none ↦ none
    | some ws ↦ some (u % 2 ^ 16 ∷ u / 2 ^ 16 % 2 ^ 16 ∷ ws)
  ]
]
