-- ===== src/Queue/Bits/Pack.antt =====
-- K notation: an integer made of consecutive bits, the lowest first.
use native.Mathlib.Nat.{one-le-pow, pow-suc}
use gomc_rest.Common.{
  ℕ, zero, suc, ◌+◌, ◌*◌, ◌/◌, ◌%◌, ◌^◌, ◌≤◌, ◌<◌, ◌≡◌, refl, ◌∙◌, ap, ap₂, arith, Bool, true,
  false, List, [], ◌∷◌, length, ◌==◌, if◌then◌else◌,
}
use gomc_rest.Word.{bit_at, put_bit, set_bit}
use gomc_rest.Word.Laws.{bit_at-test, put_bit-top}
use gomc_rest.Queue.Bits.{bits_from, pack_from, pack_bits}

-- The number whose binary digits are given, the lowest first.
abbrev pub value : List Bool → ℕ
value [] = 0
value (b ∷ bs) = (if b then 1 else 0) + value bs * 2

value-lt : (bs : List Bool) → value bs < 2 ^ length bs
value-lt [] = omega arith
value-lt (true ∷ bs) = omega (arith, pow-suc 2 (length bs), value-lt bs)
value-lt (false ∷ bs) = omega (arith, pow-suc 2 (length bs), value-lt bs)

set_bit-top : (i p : ℕ) → i < 32 → p < 2 ^ i → set_bit 32 i p ≡ p + 2 ^ i
set_bit-top i p h b = unfold put_bit in put_bit-top 32 i p h b

pow-next : (i : ℕ) → 2 ^ (i + 1) ≡ 2 ^ i * 2
pow-next i = let e : i + 1 ≡ suc i = omega arith in rw e (pow-suc 2 i)

pack_from-value :
    (bs : List Bool) (i p : ℕ)
    → i + length bs ≤ 32
    → p < 2 ^ i
    → pack_from i bs p ≡ p + value bs * 2 ^ i
unfolding pack_from
pack_from-value [] i p h b = omega arith
pack_from-value (true ∷ bs) i p h b =
    pack_from-value bs (i + 1) (set_bit 32 i p) (omega arith)
      (omega (arith, set_bit-top i p, pow-next i))
    ∙ omega (arith, set_bit-top i p, ap (λ (t : ℕ). value bs * t) (pow-next i))
pack_from-value (false ∷ bs) i p h b =
    pack_from-value bs (i + 1) p (omega arith) (omega (arith, pow-next i))
    ∙ omega (arith, ap (λ (t : ℕ). value bs * t) (pow-next i))

bit_at-half : (w k : ℕ) → bit_at w (k + 1) ≡ bit_at (w / 2) k
bit_at-half w k =
    let e : k + 1 ≡ suc k = omega arith in rw (e, bit_at-test (suc k) w, bit_at-test k (w / 2))

-- The digits from `bit + 1` on are those of the half from `bit` on.
bits_from-half : (w bit n : ℕ) → bits_from w (bit + 1) n ≡ bits_from (w / 2) bit n
unfolding bits_from
bits_from-half w bit zero = refl
bits_from-half w bit (suc n) = ap₂ ◌∷◌ (bit_at-half w bit) (bits_from-half w (bit + 1) n)

bit_at-zero : (w : ℕ) → bit_at w 0 ≡ (w % 2 == 1)
bit_at-zero w = bit_at-test 0 w

bits_from-value : (bs : List Bool) → bits_from (value bs) 0 (length bs) ≡ bs
unfolding bits_from
bits_from-value [] = refl
bits_from-value (true ∷ bs) =
    let half : (1 + value bs * 2) / 2 ≡ value bs = omega arith in
    ap₂ ◌∷◌ (bit_at-zero (1 + value bs * 2) ∙ ground arith)
      (bits_from-half (1 + value bs * 2) 0 (length bs) ∙ rw half (bits_from-value bs))
bits_from-value (false ∷ bs) =
    let half : (0 + value bs * 2) / 2 ≡ value bs = omega arith in
    ap₂ ◌∷◌ (bit_at-zero (0 + value bs * 2) ∙ ground arith)
      (bits_from-half (0 + value bs * 2) 0 (length bs) ∙ rw half (bits_from-value bs))

mod-pow-suc : (n w : ℕ) → w % 2 ^ suc n ≡ w % 2 + w / 2 % 2 ^ n * 2
mod-pow-suc n w = rw (pow-suc 2 n) (grind (arith, one-le-pow n 2))

value-bits_from : (n w : ℕ) → value (bits_from w 0 n) ≡ w % 2 ^ n
unfolding bits_from
value-bits_from zero w = omega arith
value-bits_from (suc n) w =
    let rest = ap value (bits_from-half w 0 n) ∙ value-bits_from n (w / 2) in
    ground (arith, rest, bit_at-zero w, mod-pow-suc n w)

length-bits_from : (w bit n : ℕ) → length (bits_from w bit n) ≡ n
unfolding bits_from
length-bits_from w bit zero = refl
length-bits_from w bit (suc n) = ap suc (length-bits_from w (bit + 1) n)

-- `ReadBitsAsWord` packs its bits into the number whose binary digits they are, the lowest first,
-- and `WriteBitsAsWord` unpacks a number into its lowest digits: each undoes the other, and what
-- does not fit the width is cut off. This holds up to the 32 bits of K8.
pub pack_bits-value :
    (bs : List Bool) (w n : ℕ)
    → length bs ≤ 32
    → n ≤ 32
    → (pack_bits bs ≡ value bs)
      × (bits_from (pack_bits bs) 0 (length bs) ≡ bs)
      × (pack_bits (bits_from w 0 n) ≡ w % 2 ^ n)
unfolding pack_bits
pack_bits-value bs w n h k = (
  packed bs h,
  rw (packed bs h) (bits_from-value bs),
  packed (bits_from w 0 n) (omega (arith, length-bits_from w 0 n)) ∙ value-bits_from n w,
)
  where
    packed : (l : List Bool) → length l ≤ 32 → pack_from 0 l 0 ≡ value l
    packed l lt = pack_from-value l 0 0 (omega arith) (omega arith) ∙ omega arith
