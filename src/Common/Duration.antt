-- ===== src/Common/Duration.antt =====
-- `time.ParseDuration`, in nanoseconds. `fraction f unit scale` stands for the float64 product
-- `uint64(float64(f) * (float64(unit) / scale))`.
pub mod Ends
use gomc_rest.Common.{
  ℕ, zero, suc, ◌+◌, ◌-◌, ◌*◌, ◌/◌, ◌^◌, Bool, false, ◌&&◌, ◌||◌, Option, none, some, [], ◌∷◌, ltb,
  leb, ◌==◌, length, if◌then◌else◌, Result, ok, err, fail_if, ◌>>=◌, ◌>>◌, ◌++◌, ◌%◌,
}
use gomc_rest.Common.Int.{ℤ, pos, sub_ℕ}
use gomc_rest.Common.Text.{is_digit, Text, codes, text_eq}

pub data DurationError : Type 0 where
  invalid overflow missing_unit unknown_unit : DurationError
  -- no error of the source: the loop of the model was stopped
  out_of_fuel : DurationError

-- The leading digits that `leadingInt` reads, and what follows them.
unfoldable pub span_digits : Text → Text × Text
span_digits [] = ([], [])
span_digits (c ∷ s) =
    let (front, back) = span_digits s in if is_digit c then (c ∷ front, back) else ([], c ∷ s)

-- `leadingInt` on the digits.
unfoldable pub leading_int : ℕ → Text → Option ℕ
leading_int x [] = some x
leading_int x (c ∷ s) =
    let next = x * 10 + (c - b'0') in
    let more = leading_int next s in if ltb (2 ^ 63 / 10) x || ltb (2 ^ 63) next then none else more

-- `leadingFraction` on the digits: the digits that fit, and ten to their number.
unfoldable pub leading_fraction : ℕ → ℕ → Text → ℕ × ℕ
leading_fraction x scale [] = (x, scale)
leading_fraction x scale (c ∷ s) =
    let next = x * 10 + (c - b'0') in
    let more = leading_fraction next (scale * 10) s in
    if ltb ((2 ^ 63 - 1) / 10) x || ltb (2 ^ 63) next then (x, scale) else more

-- The unit: up to the next digit or dot.
unfoldable pub span_unit : Text → Text × Text
span_unit [] = ([], [])
span_unit (c ∷ s) =
    let (front, back) = span_unit s in
    if c == b'.' || is_digit c then ([], c ∷ s) else (c ∷ front, back)

-- `unitMap`; both spellings of micro are two bytes.
unfoldable pub unit_ns : Text → Option ℕ
unit_ns u =
    if text_eq u (codes "ns")
    then some 1
    else if text_eq u (codes "us")
    then some 1000
    else if text_eq u (194 ∷ 181 ∷ b's' ∷ []) || text_eq u (206 ∷ 188 ∷ b's' ∷ [])
    then some 1000
    else if text_eq u (codes "ms")
    then some 1000000
    else if text_eq u (codes "s")
    then some 1000000000
    else if text_eq u (codes "m")
    then some 60000000000
    else if text_eq u (codes "h")
    then some 3600000000000
    else none

-- The digits behind a dot, and the rest.
unfoldable pub cut_fraction : Text → Text × Text
unfolding span_digits
cut_fraction [] = ([], [])
cut_fraction (c ∷ s) = if c == b'.' then span_digits s else ([], c ∷ s)

abbrev filled : Text → DurationError → Result DurationError (Unit {0})
filled [] e = err e
filled (c ∷ s) e = ok tt

abbrev or_fail : {A : Type 0} → Option A → DurationError → Result DurationError A
or_fail none e = err e
or_fail (some a) e = ok a

-- The sign, and the text behind it.
unfoldable pub cut_sign : Text → Bool × Text
cut_sign [] = (false, [])
cut_sign (c ∷ s) = if c == b'-' || c == b'+' then (c == b'-', s) else (false, c ∷ s)

signed : Bool → ℕ → Result DurationError ℤ
signed neg d = if neg then ok (sub_ℕ 0 d) else do fail_if (ltb (2 ^ 63 - 1) d) invalid; ok (pos d)

module _ (fraction : ℕ → ℕ → ℕ → ℕ) where
  -- `v*unit` and the fraction, added to `d` in 64 bits.
  unfoldable pub add_item : ℕ → ℕ → ℕ × ℕ → ℕ → Result DurationError ℕ
  add_item d v (f, scale) unit =
      let whole = (v * unit + (if ltb 0 f then fraction f unit scale else 0)) % 2 ^ 64 in
      let sum = (d + whole) % 2 ^ 64 in
      do
        fail_if (ltb (2 ^ 63 / unit) v || ltb 0 f && ltb (2 ^ 63) whole) overflow
        fail_if (ltb (2 ^ 63) sum) overflow
        ok sum

  -- A number and its unit, cut from the text.
  unfoldable pub read_item : ℕ → Text → Text → Text → Result DurationError ℕ
  unfolding add_item leading_int leading_fraction unit_ns
  read_item d front digits u = do
    v ← or_fail (leading_int 0 front) invalid
    filled (front ++ digits) invalid
    filled u missing_unit
    unit ← or_fail (unit_ns u) unknown_unit
    add_item d v (leading_fraction 0 1 digits) unit

  -- The loop, with the sum `d` so far.
  unfoldable pub parse_items : ℕ → ℕ → Text → Result DurationError ℕ
  unfolding read_item cut_fraction span_unit
  parse_items fuel d [] = ok d
  parse_items zero d (c ∷ s) = err out_of_fuel
  parse_items (suc fuel) d (c ∷ s) =
      let (front, after) = span_digits (c ∷ s) in
      let (digits, back) = cut_fraction after in
      let (u, rest) = span_unit back in
      do sum ← read_item d front digits u; parse_items fuel sum rest

  unfoldable pub parse_duration : Text → Result DurationError ℤ
  unfolding parse_items signed
  parse_duration s =
      let (neg, t) = cut_sign s in
      if text_eq t (codes "0")
      then ok (pos 0)
      else do filled t invalid; d ← parse_items (length t) 0 t; signed neg d
