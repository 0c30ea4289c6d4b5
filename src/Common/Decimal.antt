-- ===== src/Common/Decimal.antt =====
-- `strconv.Itoa` of a number, and what `ParseInt` makes of it.
use gomc_rest.Common.{
  ℕ, zero, suc, ◌+◌, ◌*◌, ◌/◌, ◌%◌, ◌^◌, ◌<◌, ◌≡◌, refl, ◌∙◌, arith, true, some, [], ◌∷◌, ltb,
  if◌then◌else◌, Bool-cases, inl, inr,
}
use gomc_rest.Common.Int.{pos}
use gomc_rest.Common.Text.{
  all_bytes, is_digit, Text, digit_value, parse_digits, parse_uint, parse_int, in_int64,
}

-- The digits of `n` before `out`; `n` and one more is enough fuel.
unfoldable pub decimal_from : ℕ → ℕ → Text → Text
decimal_from zero n out = out
decimal_from (suc fuel) n out =
    let more = decimal_from fuel (n / 10) ((b'0' + n % 10) ∷ out) in
    if ltb n 10 then (b'0' + n) ∷ out else more

unfoldable pub itoa : ℕ → Text
unfolding decimal_from
itoa n = decimal_from (suc n) n []

parse_digits_step :
    (acc n m : ℕ) (out : Text)
    → n < 10
    → acc * 10 + n ≡ m
    → parse_digits 10 acc ((b'0' + n) ∷ out) ≡ parse_digits 10 m out
unfolding parse_digits digit_value
parse_digits_step acc n m out small e = ground arith

parse_digits-decimal_from :
    (fuel n : ℕ) (out : Text)
    → n < fuel
    → parse_digits 10 0 (decimal_from fuel n out) ≡ parse_digits 10 n out
unfolding decimal_from
parse_digits-decimal_from zero n out enough = absurd (omega arith)
parse_digits-decimal_from (suc fuel) n out enough = elim (Bool-cases (ltb n 10)) [
  | inl small ↦ rw small (parse_digits_step 0 n n out (ground arith) (omega arith))
  | inr large ↦
      let again = parse_digits-decimal_from fuel (n / 10) ((b'0' + n % 10) ∷ out) (ground arith) in
      rw large (again ∙ parse_digits_step (n / 10) (n % 10) n out (omega arith) (omega arith))
]

decimal_from-digits :
    (fuel n : ℕ) (out : Text)
    → all_bytes is_digit out ≡ true
    → all_bytes is_digit (decimal_from fuel n out) ≡ true
unfolding decimal_from
decimal_from-digits zero n out digits = digits
decimal_from-digits (suc fuel) n out digits =
    let more = decimal_from-digits fuel (n / 10) ((b'0' + n % 10) ∷ out) in ground arith

decimal_from-cons :
    (fuel n d : ℕ) (out : Text) → (c : ℕ) × (t : Text) × (decimal_from fuel n (d ∷ out) ≡ c ∷ t)
unfolding decimal_from
decimal_from-cons zero n d out = (d, out, refl)
decimal_from-cons (suc fuel) n d out = elim (Bool-cases (ltb n 10)) [
  | inl small ↦ rw small (_, _, refl)
  | inr large ↦ rw large (decimal_from-cons fuel (n / 10) (b'0' + n % 10) (d ∷ out))
]

itoa-cons : (n : ℕ) → (c : ℕ) × (t : Text) × (itoa n ≡ c ∷ t)
unfolding itoa
itoa-cons n = elim (Bool-cases (ltb n 10)) [
  | inl small ↦ (b'0' + n, [], rw (small, itoa) refl)
  | inr large ↦
      let (c, t, e) = decimal_from-cons n (n / 10) (b'0' + n % 10) [] in (c, t, rw (large, itoa) e)
]

itoa-all_digits : (n : ℕ) → all_bytes is_digit (itoa n) ≡ true
unfolding itoa
itoa-all_digits n = decimal_from-digits (suc n) n [] refl

parse_digits-itoa : (n : ℕ) → parse_digits 10 0 (itoa n) ≡ some n
unfolding itoa parse_digits
parse_digits-itoa n = parse_digits-decimal_from (suc n) n [] (omega arith)

-- The text of a number is a digit and more digits.
pub itoa-digits :
    (n : ℕ)
    → (c : ℕ) × (t : Text) × (itoa n ≡ c ∷ t) × (is_digit c ≡ true) × (all_bytes is_digit t ≡ true)
itoa-digits n =
    let (c, t, e) = itoa-cons n in
    let digits = rw e at (itoa-all_digits n) in
    (c, t, e, ground (arith, digits), ground (arith, digits))

parse_int-digits :
    (c n : ℕ) (t : Text)
    → is_digit c ≡ true
    → parse_digits 10 0 (c ∷ t) ≡ some n
    → n < 2 ^ 63
    → parse_int 10 (c ∷ t) ≡ some (pos n)
unfolding parse_int parse_uint in_int64
parse_int-digits c n t digit read fits = ground arith

-- A number in 63 bits is read back from its text.
pub parse_int-itoa : (n : ℕ) → n < 2 ^ 63 → parse_int 10 (itoa n) ≡ some (pos n)
parse_int-itoa n fits =
    let (c, t, e, digit, _) = itoa-digits n in
    rw e (parse_int-digits c n t digit (rw e at (parse_digits-itoa n)) fits)
