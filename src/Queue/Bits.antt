-- ===== src/Queue/Bits.antt =====
-- The loops of queue.go over the bits of a register word and of a K-notation integer.
pub mod Laws
pub mod Pack
use gomc_rest.Common.{ℕ, zero, suc, ◌+◌, Bool, true, false, List, [], ◌∷◌, if◌then◌else◌}
use gomc_rest.Word.{bit_at, put_bit, set_bit}

-- `for i := range count { result[i] = (w>>uint(bit+i))&1 == 1 }`, from bit `bit` on.
unfoldable pub bits_from : ℕ → ℕ → ℕ → List Bool
bits_from w bit zero = []
bits_from w bit (suc count) = bit_at w bit ∷ bits_from w (bit + 1) count

-- The loop of `WriteWordBits`, on a 16-bit word.
unfoldable pub put_bits : ℕ → List Bool → ℕ → ℕ
put_bits bit [] w = w
put_bits bit (v ∷ vs) w = put_bits (bit + 1) vs (put_bit 16 bit v w)

-- The loop of `ReadBitsAsWord`: `packed |= 1 << uint(i)` for the bits that are set, on 32 bits.
unfoldable pub pack_from : ℕ → List Bool → ℕ → ℕ
pack_from i [] packed = packed
pack_from i (b ∷ bs) packed = pack_from (i + 1) bs (if b then set_bit 32 i packed else packed)

unfoldable pub pack_bits : List Bool → ℕ
unfolding pack_from
pack_bits bs = pack_from 0 bs 0
