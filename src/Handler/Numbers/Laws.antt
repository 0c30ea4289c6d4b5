-- ===== src/Handler/Numbers/Laws.antt =====
-- Encoding and decoding of signed words and double words undo each other.
use Prim.Native.Nat.{bit_and, bit_or}
use native.Mathlib.Nat.{pow-suc}
use gomc_rest.Common.{
  All, map, ℕ, zero, suc, ◌+◌, ◌*◌, ◌/◌, ◌%◌, ◌^◌, ◌<◌, ◌≡◌, refl, ◌∙◌, ap, ap₂, arith, Bool, true,
  false, List, [], ◌∷◌, some, length, if◌then◌else◌, Option-cases, inl, inr,
}
use gomc_rest.Common.Int.{ℤ, pos, negsuc}
use gomc_rest.Word.Laws.{div-pow-suc}
use gomc_rest.Word.Digits.{bit_or_digit, bit_and_digit, zero-bit_or, bit_and-zero}
use gomc_rest.Handler.Numbers.{
  to_signed, to_unsigned, combine, word_value, dword_value, dword_values, word_of_sint, dword_of,
  words_of_sints, words_of_dwords,
}

double : (x k : ℕ) → x * 2 ^ suc k ≡ x * 2 ^ k * 2
double x k = omega (arith, ap (λ (t : ℕ). x * t) (pow-suc 2 k))

-- `|` of fields that do not overlap is a sum.
bit_or-fields : (k lo hi : ℕ) → lo < 2 ^ k → bit_or lo (hi * 2 ^ k) ≡ lo + hi * 2 ^ k
bit_or-fields zero lo hi h =
    let none_left : lo ≡ 0 = omega arith in rw none_left (zero-bit_or (hi * 1) ∙ omega arith)
bit_or-fields (suc k) lo hi h =
    ground (
      arith,
      bit_or_digit lo (hi * 2 ^ suc k),
      double hi k,
      pow-suc 2 k,
      bit_or-fields k (lo / 2) hi,
    )

combine-eq : (lo hi : ℕ) → lo < 2 ^ 16 → hi < 2 ^ 16 → combine lo hi ≡ lo + hi * 2 ^ 16
unfolding combine
combine-eq lo hi h k =
    let e : hi * 2 ^ 16 % 2 ^ 32 ≡ hi * 2 ^ 16 = omega arith in rw e (bit_or-fields 16 lo hi h)

-- A checked value comes back from the words that it was turned into.
pub word_value-word_of_sint :
    (v : ℤ) (w : ℕ) → word_of_sint v ≡ some w → (word_value true w ≡ v) × (w < 2 ^ 16)
unfolding word_value word_of_sint to_signed to_unsigned
word_value-word_of_sint (pos n) w e = ground arith
word_value-word_of_sint (negsuc n) w e = ground arith

pub to_signed-dword_of :
    (sint : Bool) (v : ℤ) (u : ℕ)
    → dword_of sint v ≡ some u
    → ((if sint then to_signed 32 u else pos u) ≡ v) × (u < 2 ^ 32)
unfolding dword_of to_signed to_unsigned
to_signed-dword_of true (pos n) u e = ground arith
to_signed-dword_of true (negsuc n) u e = ground arith
to_signed-dword_of false (pos n) u e = ground arith
to_signed-dword_of false (negsuc n) u e = ground arith

-- The value of a double word that was split into its halves.
dword_value-dword_of :
    (sint : Bool) (v : ℤ) (u : ℕ)
    → dword_of sint v ≡ some u
    → dword_value sint (u % 2 ^ 16) (u / 2 ^ 16 % 2 ^ 16) ≡ v
unfolding dword_value
dword_value-dword_of sint v u e =
    let (back, fits) = to_signed-dword_of sint v u e in
    let whole : combine (u % 2 ^ 16) (u / 2 ^ 16 % 2 ^ 16) ≡ u =
      combine-eq (u % 2 ^ 16) (u / 2 ^ 16 % 2 ^ 16) (omega arith) (omega arith) ∙ omega arith in
    rw whole back

-- The words of a signed write are 16-bit words, as many as the values, and reading them as signed
-- words gives the values back.
pub words_of_sints-values :
    (vs : List ℤ) (ws : List ℕ)
    → words_of_sints vs ≡ some ws
    → (map (word_value true) ws ≡ vs) × (length ws ≡ length vs) × All (λ w. w < 2 ^ 16) ws
unfolding words_of_sints
words_of_sints-values [] ws e = let same : ws ≡ [] = ground arith in rw same (refl, refl, tt)
words_of_sints-values (v ∷ vs) ws e = elim (Option-cases (word_of_sint v)) [
  | inl bad ↦ absurd (ground arith)
  | inr (w, got) ↦ elim (Option-cases (words_of_sints vs)) [
    | inl bad ↦ absurd (ground arith)
    | inr (rest, more) ↦
        let same : ws ≡ w ∷ rest = ground arith in
        let (back, fits) = word_value-word_of_sint v w got in
        let (backs, size, all_fit) = words_of_sints-values vs rest more in
        rw same (ap₂ ◌∷◌ back backs, ap suc size, (fits, all_fit))
  ]
]

-- The words of a double-word write, signed or not, are 16-bit words, two for each value, and reading
-- them as double words of the same kind gives the values back.
pub words_of_dwords-values :
    (sint : Bool) (vs : List ℤ) (ws : List ℕ)
    → words_of_dwords sint vs ≡ some ws
    → (dword_values sint (length vs) ws ≡ some vs)
      × (length ws ≡ 2 * length vs)
      × All (λ w. w < 2 ^ 16) ws
unfolding words_of_dwords dword_values
words_of_dwords-values sint [] ws e = let same : ws ≡ [] = ground arith in rw same (refl, refl, tt)
words_of_dwords-values sint (v ∷ vs) ws e = elim (Option-cases (dword_of sint v)) [
  | inl bad ↦ absurd (ground arith)
  | inr (u, got) ↦ elim (Option-cases (words_of_dwords sint vs)) [
    | inl bad ↦ absurd (ground arith)
    | inr (rest, more) ↦
        let same : ws ≡ u % 2 ^ 16 ∷ u / 2 ^ 16 % 2 ^ 16 ∷ rest = ground arith in
        let (backs, size, all_fit) = words_of_dwords-values sint vs rest more in
        rw same (
          rw (backs, dword_value-dword_of sint v u got),
          omega arith,
          (omega arith, (omega arith, all_fit)),
        )
  ]
]

-- The test of a single bit by a mask.
pub bit_and-pow : (k p : ℕ) → bit_and p (2 ^ k) ≡ p / 2 ^ k % 2 * 2 ^ k
bit_and-pow zero p = omega (arith, bit_and_digit p 1, bit_and-zero (p / 2) (p / 2) (omega arith))
bit_and-pow (suc k) p = ground (
  arith,
  bit_and_digit p (2 ^ suc k),
  bit_and-pow k (p / 2),
  pow-suc 2 k,
  div-pow-suc k p,
  double (p / 2 / 2 ^ k % 2) k,
)
