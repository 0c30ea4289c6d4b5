-- ===== src/Word/Digits.antt =====
-- One binary digit of `bit_or` and `bit_and`. The native operations stand for a recursion on digits
-- whose fuel is the first number; any fuel that is large enough gives the same result.
use Prim.Native.Nat.{bit_and, bit_or, min, max, digits, bitwise, bit_and-bitwise, bit_or-bitwise}
use gomc_rest.Common.{ℕ, zero, suc, ◌+◌, ◌-◌, ◌*◌, ◌/◌, ◌%◌, ◌≤◌, ◌≡◌, refl, ◌∙◌, arith}

module _ (base : ℕ → ℕ) (op : ℕ → ℕ → ℕ) where
  -- The digits of a number that the fuel `f` covers do not change with one more.
  more_fuel : (f a b : ℕ) → a ≤ f → digits base op (suc f) a b ≡ digits base op f a b
  more_fuel zero zero b h = refl
  more_fuel zero (suc a) b h = absurd (omega arith)
  more_fuel (suc f) zero b h = refl
  more_fuel (suc f) (suc a) b h = rw (more_fuel f (suc a / 2) (b / 2) (omega arith))

  enough_fuel : (f extra a b : ℕ) → f ≡ extra + a → digits base op f a b ≡ digits base op a a b
  enough_fuel f zero a b e = let same : f ≡ a = omega arith in rw same
  enough_fuel f (suc extra) a b e =
      let one_more : f ≡ suc (extra + a) = omega arith in
      rw one_more (more_fuel (extra + a) a b (omega arith) ∙ enough_fuel (extra + a) extra a b refl)

  low_digit :
      (a b : ℕ)
      → bitwise base op (suc a) b ≡ bitwise base op (suc a / 2) (b / 2) * 2 + op (suc a % 2) (b % 2)
  low_digit a b = omega (arith, enough_fuel a (a - suc a / 2) (suc a / 2) (b / 2) (omega arith))

pub bit_or_digit : (a b : ℕ) → bit_or a b ≡ bit_or (a / 2) (b / 2) * 2 + max (a % 2) (b % 2)
bit_or_digit zero b = rw (bit_or-bitwise 0 b, bit_or-bitwise 0 (b / 2)) (omega arith)
bit_or_digit (suc a) b = simp bit_or-bitwise (low_digit (λ y. y) max a b)

pub bit_and_digit : (a b : ℕ) → bit_and a b ≡ bit_and (a / 2) (b / 2) * 2 + min (a % 2) (b % 2)
bit_and_digit zero b = rw (bit_and-bitwise 0 b, bit_and-bitwise 0 (b / 2)) (omega arith)
bit_and_digit (suc a) b = simp bit_and-bitwise (low_digit (λ y. 0) min a b)

pub zero-bit_or : (b : ℕ) → bit_or 0 b ≡ b
zero-bit_or b = bit_or-bitwise 0 b

pub zero-bit_and : (b : ℕ) → bit_and 0 b ≡ 0
zero-bit_and b = bit_and-bitwise 0 b

-- With zero on the right.
pub bit_or-zero : (fuel a : ℕ) → a ≤ fuel → bit_or a 0 ≡ a
bit_or-zero fuel zero h = refl
bit_or-zero zero (suc a) h = absurd (omega arith)
bit_or-zero (suc fuel) (suc a) h =
    omega (arith, bit_or_digit (suc a) 0, bit_or-zero fuel (suc a / 2) (omega arith))

pub bit_and-zero : (fuel a : ℕ) → a ≤ fuel → bit_and a 0 ≡ 0
bit_and-zero fuel zero h = refl
bit_and-zero zero (suc a) h = absurd (omega arith)
bit_and-zero (suc fuel) (suc a) h =
    omega (arith, bit_and_digit (suc a) 0, bit_and-zero fuel (suc a / 2) (omega arith))

pub bit_and-one : (a : ℕ) → bit_and a 1 ≡ a % 2
bit_and-one a = omega (arith, bit_and_digit a 1, bit_and-zero (a / 2) (a / 2) (omega arith))
