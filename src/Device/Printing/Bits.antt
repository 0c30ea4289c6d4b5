-- ===== src/Device/Printing/Bits.antt =====
-- Addresses of bits of words, as the log of queue.go prints them: the bit in decimal.
use gomc_rest.Common.{
  zero, ap, subst, suc, Bool-cases, ◌∙◌, ◌≤◌, ◌+◌, ◌-◌, ltb, ℕ, ◌^◌, ◌<◌, ◌≡◌, refl, arith, true,
  false, some, [], ◌∷◌, ◌++◌, ok, err, Result, Result-cases, inl, inr, ◌>>=◌, if◌then◌else◌,
}
use gomc_rest.Common.Text.{
  split_at_byte?, Text, all_bytes, is_digit, text_eq, parse_int, parse_uint, parse_digits,
  digit_value, in_int64,
}
use gomc_rest.Common.Text.Plain.{is_plain, all_bytes-append, digits-plain, capitals-plain}
use gomc_rest.Common.Decimal.{itoa, decimal_from, itoa-digits, parse_int-itoa}
use gomc_rest.Device.{
  AddrError, bad_bit_index, is_word_device, ParsedAddr, is_valid_device, is_hex_device, split_bit,
  parse_bit_index, parse_rest, parse_normal, parse_addr,
}
use gomc_rest.Device.Names.{is_valid_device-is_name, split_device-is_name, strip_nibbles-is_name}
use gomc_rest.Device.Printing.{itoa-digit, is_name-capitals, parse_number-plain, parse_addr-normal}

-- The bit of a word that a text names.
abbrev pub bit_addr : Text → ℕ → ℕ → ParsedAddr
bit_addr dev n bit = record {
  device_addr = record { device = dev; addr = n };
  bit = some bit;
  nibbles = 0;
}

split_at_byte?-dot :
    (s t : Text) → all_bytes is_digit s ≡ true → split_at_byte? b'.' (s ++ (b'.' ∷ t)) ≡ some (s, t)
unfolding split_at_byte?
split_at_byte?-dot [] t digits = refl
split_at_byte?-dot (c ∷ s) t digits = let rest = split_at_byte?-dot s t in ground arith

split_bit-dot :
    (s dev t bit_part : Text) (c : ℕ)
    → is_word_device dev ≡ true
    → all_bytes is_digit (c ∷ t) ≡ true
    → split_bit s dev (c ∷ (t ++ (b'.' ∷ bit_part)))
      ≡ (parse_bit_index s bit_part >>= λ bit. ok (some bit, c ∷ t))
unfolding split_bit text_eq
split_bit-dot s dev t bit_part c word digits =
    rw (split_at_byte?-dot (c ∷ t) bit_part digits, split_bit) (rw word refl)

-- What `parseAddr` makes of the bit part decides.
parse_addr-dot :
    (dev bit_part : Text) (n : ℕ)
    → all_bytes is_plain bit_part ≡ true
    → is_valid_device dev ≡ true
    → is_word_device dev ≡ true
    → is_hex_device dev ≡ false
    → n < 2 ^ 63
    → parse_addr (dev ++ (itoa n ++ (b'.' ∷ bit_part))) ≡ (
        parse_bit_index (dev ++ (itoa n ++ (b'.' ∷ bit_part))) bit_part >>= λ bit.
        ok (bit_addr dev n bit))
unfolding parse_normal parse_rest text_eq
parse_addr-dot dev bit_part n letters valid word decimal small =
    let (c, t, e, digit, rest) = itoa-digits n in
    let name = is_valid_device-is_name dev valid in
    let digits : all_bytes is_digit (c ∷ t) ≡ true = ground arith in
    let suffix : all_bytes is_plain (b'.' ∷ bit_part) ≡ true = letters in
    let back =
      all_bytes-append is_plain (c ∷ t) (b'.' ∷ bit_part) (digits-plain (c ∷ t) digits) suffix in
    let s = dev ++ (c ∷ (t ++ (b'.' ∷ bit_part))) in
    let plain =
      all_bytes-append is_plain dev (c ∷ (t ++ (b'.' ∷ bit_part)))
        (capitals-plain dev (is_name-capitals dev name)) back in
    let read = rw e at (parse_int-itoa n small) in
    let number = parse_number-plain s dev (c ∷ t) n decimal read in
    rw e (
      parse_addr-normal s plain
      ∙ rw (strip_nibbles-is_name dev (c ∷ (t ++ (b'.' ∷ bit_part))) name) (
          rw (split_device-is_name s dev c (t ++ (b'.' ∷ bit_part)) name (ground arith)) (
            rw valid (
              rw (split_bit-dot s dev t bit_part c word digits)
                (elim (Result-cases (parse_bit_index s bit_part)) [
                  | inl (bit, got) ↦ rw got (rw number refl)
                  | inr (x, bad) ↦ rw bad refl
                ])))))

itoa-teen : (d : ℕ) → d < 6 → itoa (10 + d) ≡ b'1' ∷ (b'0' + d) ∷ []
unfolding itoa decimal_from
itoa-teen zero small = refl
itoa-teen (suc zero) small = refl
itoa-teen (suc (suc zero)) small = refl
itoa-teen (suc (suc (suc zero))) small = refl
itoa-teen (suc (suc (suc (suc zero)))) small = refl
itoa-teen (suc (suc (suc (suc (suc zero))))) small = refl
itoa-teen (suc (suc (suc (suc (suc (suc d)))))) small = absurd (omega arith)

itoa-two : (k : ℕ) → 10 ≤ k → k < 16 → itoa k ≡ b'1' ∷ (b'0' + (k - 10)) ∷ []
itoa-two k least small =
    let same : 10 + (k - 10) ≡ k = omega arith in
    subst (λ n. itoa n ≡ b'1' ∷ (b'0' + (k - 10)) ∷ []) same (itoa-teen (k - 10) (omega arith))

parse_bit_index-digit : (s : Text) (k : ℕ) → k < 10 → parse_bit_index s ((b'0' + k) ∷ []) ≡ ok k
unfolding parse_bit_index parse_int parse_uint parse_digits digit_value in_int64 text_eq
parse_bit_index-digit s k small = ground arith

digits_of_bit : (k : ℕ) → k < 16 → all_bytes is_plain (itoa k) ≡ true
digits_of_bit k small = elim (Bool-cases (ltb k 10)) [
  | inl short ↦ rw (itoa-digit k (ground arith)) (ground arith)
  | inr long ↦ rw (itoa-two k (ground arith) small) (ground arith)
]

-- What the bit that `itoa` prints reads back as.
abbrev index_read : Text → ℕ → Result AddrError ℕ
index_read s bit = if ltb bit 10 then ok bit else err (bad_bit_index s)

parse_bit_index-itoa :
    (s : Text) (bit : ℕ) → bit < 16 → parse_bit_index s (itoa bit) ≡ index_read s bit
parse_bit_index-itoa s bit fits = elim (Bool-cases (ltb bit 10)) [
  | inl short ↦
      rw (short, itoa-digit bit (ground arith)) (parse_bit_index-digit s bit (ground arith))
  | inr long ↦ rw (long, itoa-two bit (ground arith) fits) (unfold parse_bit_index in refl)
]

-- The bits 0 to 9 read back, and for the others the text is no address.
pub parse_addr-bit :
    (dev : Text) (n bit : ℕ)
    → is_valid_device dev ≡ true
    → is_word_device dev ≡ true
    → is_hex_device dev ≡ false
    → n < 2 ^ 63
    → bit < 16
    → let s = dev ++ (itoa n ++ (b'.' ∷ itoa bit)) in
      parse_addr s ≡ (if ltb bit 10 then ok (bit_addr dev n bit) else err (bad_bit_index s))
parse_addr-bit dev n bit valid word decimal small fits =
    let s = dev ++ (itoa n ++ (b'.' ∷ itoa bit)) in
    parse_addr-dot dev (itoa bit) n (digits_of_bit bit fits) valid word decimal small
    ∙ (ap (λ r. r >>= λ b. ok (bit_addr dev n b)) (parse_bit_index-itoa s bit fits)
        ∙ elim (Bool-cases (ltb bit 10)) [ inl short ↦ rw short refl | inr long ↦ rw long refl ])
