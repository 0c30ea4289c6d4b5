-- ===== src/Common/Duration/Ends.antt =====
-- The loop of `time.ParseDuration`: a round takes at least one byte, so that the length of the text
-- is enough fuel.
use gomc_rest.Common.{
  ◌^◌, ℕ, zero, suc, ◌+◌, ◌≤◌, ◌<◌, ◌≡◌, refl, [], ◌∷◌, arith, length, Result, ok, err, bind_never,
}
use gomc_rest.Common.Int.{pos}
use gomc_rest.Common.Text.{Text}
use gomc_rest.Common.Duration.{
  cut_sign, add_item, DurationError, out_of_fuel, span_digits, span_unit, cut_fraction, read_item,
  parse_items, parse_duration, signed, cut_sign,
}

length-span_digits : (s : Text) → length (span_digits s).0 + length (span_digits s).1 ≡ length s
unfolding span_digits
length-span_digits [] = refl
length-span_digits (c ∷ s) = ground (arith, length-span_digits s)

length-span_unit : (s : Text) → length (span_unit s).0 + length (span_unit s).1 ≡ length s
unfolding span_unit
length-span_unit [] = refl
length-span_unit (c ∷ s) = ground (arith, length-span_unit s)

length-cut_fraction : (s : Text) → length (cut_fraction s).1 ≤ length s
unfolding cut_fraction
length-cut_fraction [] = omega arith
length-cut_fraction (c ∷ s) = ground (arith, length-span_digits s)

-- What a round cuts from the text, before the unit and behind it.
abbrev back_of : Text → Text
back_of s = (cut_fraction (span_digits s).1).1

abbrev item_of : (ℕ → ℕ → ℕ → ℕ) → ℕ → Text → Result DurationError ℕ
item_of fraction d s =
    read_item fraction d (span_digits s).0 (cut_fraction (span_digits s).1).0
      (span_unit (back_of s)).0

length-span_unit-back_of :
    (s : Text) → length (span_unit (back_of s)).0 + length (span_unit (back_of s)).1 ≤ length s
length-span_unit-back_of s = omega (
  arith,
  length-span_unit (back_of s),
  length-cut_fraction (span_digits s).1,
  length-span_digits s,
)

module _ (fraction : ℕ → ℕ → ℕ → ℕ) where
  read_item-Ends :
      (d : ℕ) (front digits u : Text) → ¬ (read_item fraction d front digits u ≡ err out_of_fuel)
  unfolding read_item add_item
  read_item-Ends d front digits u = ground arith

  item_of-Ends : (d : ℕ) (s : Text) → ¬ (item_of fraction d s ≡ err out_of_fuel)
  item_of-Ends d s =
      read_item-Ends d (span_digits s).0 (cut_fraction (span_digits s).1).0
        (span_unit (back_of s)).0

  read_item-unit :
      (d : ℕ) (front digits u : Text) (sum : ℕ)
      → read_item fraction d front digits u ≡ ok sum
      → 0 < length u
  unfolding read_item add_item
  read_item-unit d front digits u sum e = ground arith

  rest-shorter :
      (d : ℕ) (s : Text) (sum : ℕ)
      → item_of fraction d s ≡ ok sum
      → length (span_unit (back_of s)).1 < length s
  rest-shorter d s sum e = omega (
    arith,
    length-span_unit-back_of s,
    read_item-unit d (span_digits s).0 (cut_fraction (span_digits s).1).0 (span_unit (back_of s)).0
        sum e,
  )

  parse_items-Ends :
      (fuel d : ℕ) (s : Text)
      → length s ≤ fuel
      → ¬ (parse_items fraction fuel d s ≡ err out_of_fuel)
  unfolding parse_items
  parse_items-Ends fuel d [] le = ground arith
  parse_items-Ends zero d (c ∷ s) le = ground arith
  parse_items-Ends (suc fuel) d (c ∷ s) le =
      bind_never (item_of fraction d (c ∷ s)) (item_of-Ends d (c ∷ s)) (λ sum e.
        parse_items-Ends fuel sum (span_unit (back_of (c ∷ s))).1
          (omega (arith, rest-shorter d (c ∷ s) sum e)))

  pub parse_duration-Ends : (s : Text) → ¬ (parse_duration fraction s ≡ err out_of_fuel)
  unfolding parse_duration
  parse_duration-Ends s = ground (arith, parse_items-Ends (length (cut_sign s).1) 0 (cut_sign s).1)

  pub parse_duration-bound :
      (s : Text) (n : ℕ) → parse_duration fraction s ≡ ok (pos n) → n < 2 ^ 63
  unfolding parse_duration signed
  parse_duration-bound s n e = ground arith
