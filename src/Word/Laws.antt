-- ===== src/Word/Laws.antt =====
-- Setting or clearing a bit changes that bit of a word and no other.
use Prim.Native.Nat.{bit_and, bit_or}
use native.Mathlib.Nat.{pow-suc, mod-eq_of_lt, one-le-pow, div-div-eq-div-mul, mul_comm}
use gomc_rest.Common.{
  ℕ, zero, suc, ◌+◌, ◌-◌, ◌*◌, ◌/◌, ◌%◌, ◌^◌, ◌≤◌, ◌<◌, ◌≡◌, ap, Bool, true, false, arith, ◌==◌,
  if◌then◌else◌,
}
use gomc_rest.Word.{bit_at, put_bit}
use gomc_rest.Word.Digits.{
  bit_or_digit, bit_and_digit, zero-bit_and, bit_or-zero, bit_and-zero, bit_and-one,
}

-- The same operations by recursion on the position.
abbrev pub test : ℕ → ℕ → Bool
test zero w = w % 2 == 1
test (suc k) w = test k (w / 2)

abbrev pub write : ℕ → Bool → ℕ → ℕ
write zero v w = w / 2 * 2 + (if v then 1 else 0)
write (suc k) v w = write k v (w / 2) * 2 + w % 2

pub div-pow-suc : (k w : ℕ) → w / 2 ^ suc k ≡ w / 2 / 2 ^ k
div-pow-suc k w = omega (
  arith,
  div-div-eq-div-mul w 2 (2 ^ k),
  ap (λ (t : ℕ). w / t) (pow-suc 2 k),
  ap (λ (t : ℕ). w / t) (mul_comm 2 (2 ^ k)),
)

pub bit_at-test : (k w : ℕ) → bit_at w k ≡ test k w
unfolding bit_at
bit_at-test zero w = rw (bit_and-one (w / 2 ^ 0)) (ground arith)
bit_at-test (suc k) w = rw (div-pow-suc k w) (bit_at-test k (w / 2))

half-join : (a w : ℕ) → (a * 2 + w % 2) / 2 ≡ a
half-join a w = omega arith

pub test-write : (j k w : ℕ) (v : Bool) → test j (write k v w) ≡ (if j == k then v else test j w)
test-write zero zero w v = ground arith
test-write zero (suc k) w v = ground arith
test-write (suc j) zero w true =
    let e : (w / 2 * 2 + 1) / 2 ≡ w / 2 = omega arith in rw e (ground arith)
test-write (suc j) zero w false =
    let e : (w / 2 * 2 + 0) / 2 ≡ w / 2 = omega arith in rw e (ground arith)
test-write (suc j) (suc k) w v =
    rw (half-join (write k v (w / 2)) w) (ground (arith, test-write j k (w / 2) v))

-- The native operations with a power of two.
bit_or-pow : (k w : ℕ) → bit_or w (2 ^ k) ≡ write k true w
bit_or-pow zero w = omega (arith, bit_or_digit w 1, bit_or-zero (w / 2) (w / 2) (omega arith))
bit_or-pow (suc k) w = ground (arith, bit_or_digit w (2 ^ suc k), bit_or-pow k (w / 2), pow-suc 2 k)

bit_and-le : (fuel a b : ℕ) → a ≤ fuel → bit_and a b ≤ a
bit_and-le fuel zero b h = omega (arith, zero-bit_and b)
bit_and-le zero (suc a) b h = absurd (omega arith)
bit_and-le (suc fuel) (suc a) b h =
    omega (arith, bit_and_digit (suc a) b, bit_and-le fuel (suc a / 2) (b / 2) (omega arith))

sub-bit_and-pow : (k w : ℕ) → w - bit_and w (2 ^ k) ≡ write k false w
sub-bit_and-pow zero w =
    omega (arith, bit_and_digit w 1, bit_and-zero (w / 2) (w / 2) (omega arith))
sub-bit_and-pow (suc k) w = ground (
  arith,
  bit_and_digit w (2 ^ suc k),
  sub-bit_and-pow k (w / 2),
  bit_and-le (w / 2) (w / 2) (2 ^ k),
  pow-suc 2 k,
)

pow_lt : (k width : ℕ) → k < width → 2 ^ k < 2 ^ width
pow_lt zero (suc width) h = omega (arith, pow-suc 2 width, one-le-pow width 2)
pow_lt (suc k) (suc width) h =
    omega (arith, pow-suc 2 width, pow-suc 2 k, pow_lt k width (omega arith))
pow_lt k zero h = absurd (omega arith)

pub put_bit-write : (width k w : ℕ) (v : Bool) → k < width → put_bit width k v w ≡ write k v w
unfolding put_bit
put_bit-write width k w true h = rw (mod-eq_of_lt (pow_lt k width h)) (bit_or-pow k w)
put_bit-write width k w false h = rw (mod-eq_of_lt (pow_lt k width h)) (sub-bit_and-pow k w)

-- Inside the width, writing bit `k` is seen at `k` and nowhere else.
pub bit_at-put_bit :
    (width j k w : ℕ) (v : Bool)
    → k < width
    → bit_at (put_bit width k v w) j ≡ (if j == k then v else bit_at w j)
bit_at-put_bit width j k w v h =
    rw (put_bit-write width k w v h, bit_at-test j (write k v w), bit_at-test j w)
      (test-write j k w v)

write-lt : (width k w : ℕ) (v : Bool) → k < width → w < 2 ^ width → write k v w < 2 ^ width
write-lt (suc width) zero w true h b = omega (arith, pow-suc 2 width)
write-lt (suc width) zero w false h b = omega (arith, pow-suc 2 width)
write-lt (suc width) (suc k) w v h b = omega (
  arith,
  pow-suc 2 width,
  write-lt width k (w / 2) v (omega arith) (omega (arith, pow-suc 2 width)),
)
write-lt zero k w v h b = absurd (omega arith)

-- A word stays a word.
pub put_bit-lt :
    (width k w : ℕ) (v : Bool) → k < width → w < 2 ^ width → put_bit width k v w < 2 ^ width
put_bit-lt width k w v h b = rw (put_bit-write width k w v h) (write-lt width k w v h b)

-- A bit above all the others adds its power.
write-top : (k w : ℕ) → w < 2 ^ k → write k true w ≡ w + 2 ^ k
write-top zero w h = omega arith
write-top (suc k) w h = omega (arith, pow-suc 2 k, write-top k (w / 2) (omega (arith, pow-suc 2 k)))

pub put_bit-top : (width k w : ℕ) → k < width → w < 2 ^ k → put_bit width k true w ≡ w + 2 ^ k
put_bit-top width k w h b = rw (put_bit-write width k w true h) (write-top k w b)
