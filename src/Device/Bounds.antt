-- ===== src/Device/Bounds.antt =====
-- What a parsed address satisfies.
use gomc_rest.Common.{
  ℕ, ◌≤◌, ◌<◌, ◌^◌, ◌≡◌, arith, Bool, true, false, ◌&&◌, Option, some, none, [], ◌∷◌, ok,
  Result-cases, Option-cases, inl, inr, ltb,
}
use gomc_rest.Common.Int.{pos}
use gomc_rest.Common.Text.{
  Text, parse_int, parse_uint, parse_digits, in_int64, signed_of, to_upper, trim_space,
  split_at_byte?,
}
use gomc_rest.Device.{
  ParsedAddr, is_word_device, is_valid_device, strip_nibbles, split_device, parse_bit_index,
  split_bit, parse_number, parse_rest, parse_normal, parse_addr, multi_char_prefixes,
}

-- A bit lies in a word of a word device, and stands beside no K notation.
abbrev pub BitFits : Bool → ℕ → Option ℕ → Type 0
BitFits is_word nibbles none = Unit
BitFits is_word nibbles (some bit) = (bit < 16) × (is_word ≡ true) × (nibbles ≡ 0)

pub record IsParsed (pa : ParsedAddr) : Type 0 where
  pub valid : is_valid_device pa.device ≡ true
  pub range : pa.addr < 2 ^ 63
  pub bit_fits : BitFits (is_word_device pa.device) pa.nibbles pa.bit
  pub nibbles_fit : pa.nibbles ≤ 8
  pub nibbles_bits : 0 < pa.nibbles → is_word_device pa.device ≡ false

signed_of-lt : (neg : Bool) (o : Option ℕ) (n : ℕ) → signed_of neg o ≡ some (pos n) → n < 2 ^ 63
signed_of-lt neg none n e = cc
signed_of-lt true (some m) n e = unfold in_int64 in ground arith
signed_of-lt false (some m) n e = unfold in_int64 in ground arith

parse_int-lt : (base : ℕ) (s : Text) (n : ℕ) → parse_int base s ≡ some (pos n) → n < 2 ^ 63
unfolding parse_int
parse_int-lt base [] n e = cc
parse_int-lt base (c ∷ s) n e = ground (
  arith,
  signed_of-lt true (parse_uint base s) n,
  signed_of-lt false (parse_uint base s) n,
  signed_of-lt false (parse_uint base (c ∷ s)) n,
)

parse_int_digit : (c n : ℕ) → parse_int 16 (c ∷ []) ≡ some (pos n) → n < 16
unfolding parse_int parse_uint parse_digits in_int64
parse_int_digit c n e = ground arith

parse_bit_index-lt : (s part : Text) (bit : ℕ) → parse_bit_index s part ≡ ok bit → bit < 16
unfolding parse_bit_index
parse_bit_index-lt s (c ∷ []) bit e = ground (arith, parse_int_digit c bit)
parse_bit_index-lt s [] bit e = cc
parse_bit_index-lt s (c ∷ d ∷ part) bit e = cc

strip_nibbles-le : (s rest : Text) (n : ℕ) → strip_nibbles s ≡ ok (n, rest) → n ≤ 8
unfolding strip_nibbles
strip_nibbles-le (k ∷ d ∷ e ∷ s) rest n h = ground arith
strip_nibbles-le _ rest n h = ground arith

-- What a bit suffix says of the device.
SuffixFits : Bool → Option ℕ → Type 0
SuffixFits is_word none = Unit
SuffixFits is_word (some bit) = (bit < 16) × (is_word ≡ true)

parse_number-lt : (s dev part : Text) (n : ℕ) → parse_number s dev part ≡ ok n → n < 2 ^ 63
unfolding parse_number
parse_number-lt s dev part n e = ground (arith, parse_int-lt 16 part n, parse_int-lt 10 part n)

split_bit-fits :
    (s dev rest part : Text) (bit : Option ℕ)
    → split_bit s dev rest ≡ ok (bit, part)
    → SuffixFits (is_word_device dev) bit
unfolding split_bit SuffixFits
split_bit-fits s dev rest part none e = tt
split_bit-fits s dev rest part (some bit) e = elim (Option-cases (split_at_byte? b'.' rest)) [
  | inl plain ↦ absurd (ground arith)
  | inr ((addr_part, bit_part), cut) ↦ ground (arith, parse_bit_index-lt s bit_part bit)
]

abbrev parsed_as : Text → ℕ → Option ℕ → ℕ → ParsedAddr
parsed_as dev n bit nibbles = record {
  device_addr = record { device = dev; addr = n };
  bit = bit;
  nibbles = nibbles;
}

suffix-BitFits :
    (is_word : Bool) (nibbles : ℕ) (bit : Option ℕ)
    → SuffixFits is_word bit
    → (ltb 0 nibbles && is_word) ≡ false
    → BitFits is_word nibbles bit
unfolding SuffixFits
suffix-BitFits is_word nibbles none h apart = tt
suffix-BitFits is_word nibbles (some bit) h apart = ground arith

parse_rest-IsParsed :
    (s dev rest : Text) (nibbles : ℕ) (pa : ParsedAddr)
    → nibbles ≤ 8
    → parse_rest s nibbles dev rest ≡ ok pa
    → IsParsed pa
parse_rest-IsParsed s dev rest nibbles pa small e = elim (Result-cases (split_bit s dev rest)) [
  | inr (x, bad) ↦ absurd (unfold parse_rest in ground arith)
  | inl ((bit, part), got) ↦ elim (Result-cases (parse_number s dev part)) [
    | inr (x, bad) ↦ absurd (unfold parse_rest in ground arith)
    | inl (n, num) ↦
        let same : pa ≡ parsed_as dev n bit nibbles = unfold parse_rest in ground arith in
        let valid : is_valid_device dev ≡ true = unfold parse_rest in ground arith in
        let apart : (ltb 0 nibbles && is_word_device dev) ≡ false =
          unfold parse_rest in ground arith in
        rw same (record {
          valid = valid;
          range = parse_number-lt s dev part n num;
          bit_fits =
              suffix-BitFits (is_word_device dev) nibbles bit
                (split_bit-fits s dev rest part bit got) apart;
          nibbles_fit = small;
          nibbles_bits = λ k. ground arith;
        })
  ]
]

-- Every address that `parseAddr` accepts names a device of the table; its number fits an int64; a
-- bit is below 16, on a word device and without K notation; and K notation counts at most 8
-- nibbles, on a bit device.
pub parse_addr-IsParsed : (s : Text) (pa : ParsedAddr) → parse_addr s ≡ ok pa → IsParsed pa
unfolding parse_addr parse_normal
parse_addr-IsParsed s pa e = elim (Result-cases (strip_nibbles (to_upper (trim_space s)))) [
  | inr (x, bad) ↦ absurd (ground arith)
  | inl ((nibbles, t), got) ↦
      elim (Result-cases (split_device multi_char_prefixes (to_upper (trim_space s)) t)) [
        | inr (x, bad) ↦ absurd (ground arith)
        | inl ((dev, rest), cut) ↦
            parse_rest-IsParsed t dev rest nibbles pa
              (strip_nibbles-le (to_upper (trim_space s)) t nibbles got) (ground arith)
      ]
]
