-- ===== src/Device/Printing.antt =====
-- Addresses that are printed from a device and a number, as the log of queue.go prints them.
pub mod Bits
use gomc_rest.Common.{
  ◌∙◌, ap, ◌≤◌, ◌+◌, ltb, ◌&&◌, ℕ, ◌^◌, ◌<◌, ◌≡◌, refl, arith, true, false, none, some, [], ◌∷◌,
  ◌++◌, ok,
}
use gomc_rest.Common.Text.{to_upper, split_at_byte?, Text, all_bytes, is_digit, text_eq, parse_int}
use gomc_rest.Common.Int.{pos}
use gomc_rest.Common.Text.Plain.{
  is_plain, is_capital, trim_space-plain, to_upper-plain, all_bytes-append, digits-plain,
  capitals-plain,
}
use gomc_rest.Common.Decimal.{itoa, itoa-digits, parse_int-itoa}
use gomc_rest.Device.{
  is_word_device, strip_nibbles, ParsedAddr, is_valid_device, is_hex_device, split_bit,
  parse_number, parse_rest, parse_normal, parse_addr,
}
use gomc_rest.Device.Names.{
  is_name, is_valid_device-is_name, split_device-is_name, strip_nibbles-is_name,
  split_at_byte?-digits,
}

-- An address with no bit; without K notation the nibbles are 0.
abbrev pub plain_addr : ℕ → Text → ℕ → ParsedAddr
plain_addr nibbles dev n = record {
  device_addr = record { device = dev; addr = n };
  bit = none;
  nibbles = nibbles;
}

pub is_name-capitals : (dev : Text) → is_name dev ≡ true → all_bytes is_capital dev ≡ true
is_name-capitals [] name = ground arith
is_name-capitals (c ∷ s) name = ground arith

split_bit-plain :
    (s dev rest : Text) → split_at_byte? b'.' rest ≡ none → split_bit s dev rest ≡ ok (none, rest)
unfolding split_bit
split_bit-plain s dev rest no_dot = rw (no_dot, split_bit) refl

pub parse_number-plain :
    (s dev part : Text) (n : ℕ)
    → is_hex_device dev ≡ false
    → parse_int 10 part ≡ some (pos n)
    → parse_number s dev part ≡ ok n
unfolding parse_number
parse_number-plain s dev part n decimal read = rw (decimal, read, parse_number) refl

parse_rest-plain :
    (s dev : Text) (nibbles c : ℕ) (t : Text) (n : ℕ)
    → is_valid_device dev ≡ true
    → is_hex_device dev ≡ false
    → (ltb 0 nibbles && is_word_device dev) ≡ false
    → all_bytes is_digit (c ∷ t) ≡ true
    → parse_int 10 (c ∷ t) ≡ some (pos n)
    → parse_rest s nibbles dev (c ∷ t) ≡ ok (plain_addr nibbles dev n)
unfolding parse_rest text_eq
parse_rest-plain s dev nibbles c t n valid decimal fits digits read =
    let whole = split_bit-plain s dev (c ∷ t) (split_at_byte?-digits (c ∷ t) digits) in
    let number = parse_number-plain s dev (c ∷ t) n decimal read in
    rw valid (rw whole (rw fits (rw number refl)))

-- An address whose nibble count is stripped.
parse_normal-plain :
    (full dev : Text) (nibbles c : ℕ) (t : Text) (n : ℕ)
    → is_valid_device dev ≡ true
    → is_hex_device dev ≡ false
    → (ltb 0 nibbles && is_word_device dev) ≡ false
    → all_bytes is_digit (c ∷ t) ≡ true
    → parse_int 10 (c ∷ t) ≡ some (pos n)
    → strip_nibbles full ≡ ok (nibbles, dev ++ (c ∷ t))
    → parse_normal full ≡ ok (plain_addr nibbles dev n)
unfolding parse_normal
parse_normal-plain full dev nibbles c t n valid decimal fits digits read stripped =
    let name = is_valid_device-is_name dev valid in
    rw stripped (
      rw (split_device-is_name full dev c t name (ground arith))
        (parse_rest-plain (dev ++ (c ∷ t)) dev nibbles c t n valid decimal fits digits read))

pub parse_addr-normal : (s : Text) → all_bytes is_plain s ≡ true → parse_addr s ≡ parse_normal s
unfolding parse_addr
parse_addr-normal s plain =
    ap (λ t. parse_normal (to_upper t)) (trim_space-plain s plain)
    ∙ ap parse_normal (to_upper-plain s plain)

-- A text in front of the device, from which the nibbles are read.
parse_addr-printed :
    (front dev : Text) (nibbles n : ℕ)
    → all_bytes is_plain front ≡ true
    → ((t : Text) → strip_nibbles (front ++ (dev ++ t)) ≡ ok (nibbles, dev ++ t))
    → is_valid_device dev ≡ true
    → is_hex_device dev ≡ false
    → (ltb 0 nibbles && is_word_device dev) ≡ false
    → n < 2 ^ 63
    → parse_addr (front ++ (dev ++ itoa n)) ≡ ok (plain_addr nibbles dev n)
parse_addr-printed front dev nibbles n letters stripped valid decimal fits small =
    let (c, t, e, digit, rest) = itoa-digits n in
    let name = is_valid_device-is_name dev valid in
    let digits : all_bytes is_digit (c ∷ t) ≡ true = ground arith in
    let back =
      all_bytes-append is_plain dev (c ∷ t) (capitals-plain dev (is_name-capitals dev name))
        (digits-plain (c ∷ t) digits) in
    let plain = all_bytes-append is_plain front (dev ++ (c ∷ t)) letters back in
    let read = rw e at (parse_int-itoa n small) in
    rw e (
      parse_addr-normal (front ++ (dev ++ (c ∷ t))) plain
      ∙ parse_normal-plain (front ++ (dev ++ (c ∷ t))) dev nibbles c t n valid decimal fits digits
          read (stripped (c ∷ t)))

pub parse_addr-plain :
    (dev : Text) (n : ℕ)
    → is_valid_device dev ≡ true
    → is_hex_device dev ≡ false
    → n < 2 ^ 63
    → parse_addr (dev ++ itoa n) ≡ ok (plain_addr 0 dev n)
parse_addr-plain dev n valid decimal small =
    parse_addr-printed [] dev 0 n refl
      (λ t. strip_nibbles-is_name dev t (is_valid_device-is_name dev valid)) valid decimal refl
      small

strip_nibbles-k :
    (dev t : Text) (k : ℕ)
    → is_name dev ≡ true
    → 1 ≤ k
    → k ≤ 8
    → strip_nibbles (b'K' ∷ (b'0' + k) ∷ (dev ++ t)) ≡ ok (k, dev ++ t)
unfolding strip_nibbles
strip_nibbles-k [] t k name least most = absurd (ground arith)
strip_nibbles-k (c ∷ dev) t k name least most = ground arith

pub itoa-digit : (k : ℕ) → k < 10 → itoa k ≡ (b'0' + k) ∷ []
unfolding itoa
itoa-digit k small = ground arith

digit-plain : (k : ℕ) → k < 10 → all_bytes is_plain (b'K' ∷ (b'0' + k) ∷ []) ≡ true
digit-plain k small = ground arith

pub parse_addr-k :
    (dev : Text) (k n : ℕ)
    → is_valid_device dev ≡ true
    → is_word_device dev ≡ false
    → is_hex_device dev ≡ false
    → 1 ≤ k
    → k ≤ 8
    → n < 2 ^ 63
    → parse_addr (b'K' ∷ (itoa k ++ (dev ++ itoa n))) ≡ ok (plain_addr k dev n)
parse_addr-k dev k n valid bits decimal least most small = rw (itoa-digit k (omega arith)) (
    parse_addr-printed (b'K' ∷ (b'0' + k) ∷ []) dev k n (digit-plain k (omega arith))
      (λ t. strip_nibbles-k dev t k (is_valid_device-is_name dev valid) least most) valid decimal
      (ground arith) small)
