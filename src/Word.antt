-- ===== src/Word.antt =====
-- The bit operations on register words in queue.go and handler.go, over natural numbers: shifts,
-- `|=` and `&^=` of a shifted one, and the test of one bit.
pub mod Digits
pub mod Laws
use Prim.Native.Nat.{bit_and, bit_or}
use gomc_rest.Common.{ℕ, ◌-◌, ◌/◌, ◌%◌, ◌^◌, Bool, ◌==◌, if◌then◌else◌}

-- `(w >> k) & 1 == 1`
unfoldable pub bit_at : ℕ → ℕ → Bool
bit_at w k = bit_and (w / 2 ^ k) 1 == 1

-- `w |= 1 << k` and `w &^= 1 << k` at `width` bits, where a shift past the width gives 0.
unfoldable pub set_bit : ℕ → ℕ → ℕ → ℕ
set_bit width k w = bit_or w (2 ^ k % 2 ^ width)

unfoldable pub clear_bit : ℕ → ℕ → ℕ → ℕ
clear_bit width k w = w - bit_and w (2 ^ k % 2 ^ width)

-- The two branches on a Boolean value.
unfoldable pub put_bit : ℕ → ℕ → Bool → ℕ → ℕ
unfolding set_bit clear_bit
put_bit width k v w = if v then set_bit width k w else clear_bit width k w
