-- ===== src/Handler/Numbers/Nibbles.antt =====
-- K notation: the value of a write comes back from the bits that it was cut down to.
use gomc_rest.Common.{zero, suc, ◌*◌, ◌≤◌, ℕ, ◌%◌, ◌^◌, ◌≡◌, arith, Bool, true, if◌then◌else◌}
use gomc_rest.Common.Int.{ℤ, pos}
use gomc_rest.Handler.Numbers.{sign_extend, fits_in_bits, to_unsigned}
use gomc_rest.Handler.Numbers.Laws.{bit_and-pow}

-- What a read of `width` bits makes of them.
abbrev pub k_value : Bool → ℕ → ℕ → ℤ
k_value sint packed width = if sint then sign_extend packed width else pos packed

abbrev IsKept : ℕ → Type 0
IsKept width =
    (v : ℤ) (sint : Bool)
    → fits_in_bits v width sint ≡ true
    → k_value sint (to_unsigned 32 v % 2 ^ width) width ≡ v

k_value-IsKept : (nibbles : ℕ) → 1 ≤ nibbles → nibbles ≤ 8 → IsKept (nibbles * 4)
unfolding sign_extend fits_in_bits to_unsigned
k_value-IsKept (suc zero) a b v sint h = ground (arith, bit_and-pow 3 (to_unsigned 32 v % 2 ^ 4))
k_value-IsKept (suc (suc zero)) a b v sint h =
    ground (arith, bit_and-pow 7 (to_unsigned 32 v % 2 ^ 8))
k_value-IsKept (suc (suc (suc zero))) a b v sint h =
    ground (arith, bit_and-pow 11 (to_unsigned 32 v % 2 ^ 12))
k_value-IsKept (suc (suc (suc (suc zero)))) a b v sint h =
    ground (arith, bit_and-pow 15 (to_unsigned 32 v % 2 ^ 16))
k_value-IsKept (suc (suc (suc (suc (suc zero))))) a b v sint h =
    ground (arith, bit_and-pow 19 (to_unsigned 32 v % 2 ^ 20))
k_value-IsKept (suc (suc (suc (suc (suc (suc zero)))))) a b v sint h =
    ground (arith, bit_and-pow 23 (to_unsigned 32 v % 2 ^ 24))
k_value-IsKept (suc (suc (suc (suc (suc (suc (suc zero))))))) a b v sint h =
    ground (arith, bit_and-pow 27 (to_unsigned 32 v % 2 ^ 28))
k_value-IsKept (suc (suc (suc (suc (suc (suc (suc (suc zero)))))))) a b v sint h =
    ground (arith, bit_and-pow 31 (to_unsigned 32 v % 2 ^ 32))
k_value-IsKept zero a b v sint h = absurd (omega arith)
k_value-IsKept (suc (suc (suc (suc (suc (suc (suc (suc (suc n))))))))) a b v sint h =
    absurd (omega arith)

-- A signed or unsigned value that passes `fitsInBits` at the width of K1 to K8 is what a read of
-- that width in the same mode makes of its lowest bits.
pub k_value-fits_in_bits :
    (nibbles : ℕ) (v : ℤ) (sint : Bool)
    → 1 ≤ nibbles
    → nibbles ≤ 8
    → fits_in_bits v (nibbles * 4) sint ≡ true
    → k_value sint (to_unsigned 32 v % 2 ^ (nibbles * 4)) (nibbles * 4) ≡ v
k_value-fits_in_bits nibbles v sint a b h = k_value-IsKept nibbles a b v sint h
