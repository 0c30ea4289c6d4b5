-- ===== src/Queue/Bits/Laws.antt =====
-- Bits written into a word are read back from it, and a packed integer unpacks to its bits.
use gomc_rest.Common.{
  ℕ, zero, suc, ◌+◌, ◌-◌, ◌^◌, ◌≤◌, ◌<◌, ◌≡◌, refl, ap, ap₂, arith, Bool, false, List, [], ◌∷◌,
  length, ◌==◌, ltb, leb, ◌&&◌, get_or, if◌then◌else◌,
}
use gomc_rest.Word.{bit_at, put_bit}
use gomc_rest.Word.Laws.{bit_at-put_bit, put_bit-lt}
use gomc_rest.Queue.Bits.{bits_from, put_bits}

get_or-cons :
    (v : Bool) (vs : List Bool) (k : ℕ)
    → get_or (v ∷ vs) k false ≡ (if k == 0 then v else get_or vs (k - 1) false)
get_or-cons v vs zero = refl
get_or-cons v vs (suc k) = let e : suc k - 1 ≡ k = omega arith in rw e (ground arith)

-- Bit `j` of the word after the loop: a value of the list inside its range, the old bit outside.
pub bit_at-put_bits :
    (vs : List Bool) (bit w j : ℕ)
    → bit + length vs ≤ 16
    → bit_at (put_bits bit vs w) j
      ≡ (if leb bit j && ltb j (bit + length vs) then get_or vs (j - bit) false else bit_at w j)
unfolding put_bits
bit_at-put_bits [] bit w j h = ground arith
bit_at-put_bits (v ∷ vs) bit w j h =
    let next : j - bit - 1 ≡ j - (bit + 1) = omega arith in
    ground (
      arith,
      bit_at-put_bits vs (bit + 1) (put_bit 16 bit v w) j (omega arith),
      bit_at-put_bit 16 j bit w v (omega arith),
      get_or-cons v vs (j - bit),
      ap (λ k. get_or vs k false) next,
    )

put_bits-lt :
    (vs : List Bool) (bit w : ℕ) → bit + length vs ≤ 16 → w < 2 ^ 16 → put_bits bit vs w < 2 ^ 16
unfolding put_bits
put_bits-lt [] bit w h b = b
put_bits-lt (v ∷ vs) bit w h b =
    put_bits-lt vs (bit + 1) (put_bit 16 bit v w) (omega arith)
      (put_bit-lt 16 bit w v (omega arith) b)

-- The bits of a word that agree with a list.
bits_from-eq :
    (vs : List Bool) (w bit : ℕ)
    → ((k : ℕ) → k < length vs → bit_at w (bit + k) ≡ get_or vs k false)
    → bits_from w bit (length vs) ≡ vs
unfolding bits_from
bits_from-eq [] w bit h = refl
bits_from-eq (v ∷ vs) w bit h =
    ap₂ ◌∷◌ (let e : bit + 0 ≡ bit = omega arith in rw e at (h 0 (omega arith))) (
      bits_from-eq vs w (bit + 1) λ k lt.
        let e : bit + suc k ≡ bit + 1 + k = omega arith in rw e at (h (suc k) (omega arith)))

-- Writing bits into a register word and reading the same range gives them back, bit `j` of the word
-- is the value written there if `j` lies in the range and as before if not, and the word keeps its
-- 16 bits. The range lies inside the word.
pub bits_from-put_bits :
    (vs : List Bool) (bit w j : ℕ)
    → bit + length vs ≤ 16
    → w < 2 ^ 16
    → (bits_from (put_bits bit vs w) bit (length vs) ≡ vs)
      × (bit_at (put_bits bit vs w) j ≡ (
          if leb bit j && ltb j (bit + length vs) then get_or vs (j - bit) false else bit_at w j))
      × (put_bits bit vs w < 2 ^ 16)
bits_from-put_bits vs bit w j h b = (
  bits_from-eq vs (put_bits bit vs w) bit λ k lt.
      let e : bit + k - bit ≡ k = omega arith in
      ground (arith, bit_at-put_bits vs bit w (bit + k) h, ap (λ i. get_or vs i false) e),
  bit_at-put_bits vs bit w j h,
  put_bits-lt vs bit w h b,
)
