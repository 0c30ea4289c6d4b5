-- ===== src/Metrics/Rotation.antt =====
-- Lists read as a ring: what stands behind a position, then what stands before it.
use mathlib.Core.List.{append_assoc}
use gomc_rest.Common.{
  ℕ, zero, suc, ◌≤◌, ◌<◌, ◌≡◌, refl, sym, ◌∙◌, ap, ap₂, List, [], ◌∷◌, ◌++◌, arith, set, take, drop,
  length, length-take, length-drop, length-append,
}

module _ {ℓ} {A : Type ℓ} where
  drop-set : (i : ℕ) (xs : List A) (v : A) → drop (suc i) (set xs i v) ≡ drop (suc i) xs
  drop-set zero [] v = refl
  drop-set zero (x ∷ xs) v = refl
  drop-set (suc i) [] v = refl
  drop-set (suc i) (x ∷ xs) v = drop-set i xs v

  pub take-set :
      (i : ℕ) (xs : List A) (v : A)
      → i < length xs
      → take (suc i) (set xs i v) ≡ take i xs ++ v ∷ []
  take-set i [] v h = elim h [ ]
  take-set zero (x ∷ xs) v h = refl
  take-set (suc i) (x ∷ xs) v h = ap (◌∷◌ x) (take-set i xs v (omega arith))

  pub drop-append : (k : ℕ) (xs ys : List A) → k ≤ length xs → drop k (xs ++ ys) ≡ drop k xs ++ ys
  drop-append zero xs ys h = refl
  drop-append (suc k) [] ys h = elim h [ ]
  drop-append (suc k) (x ∷ xs) ys h = drop-append k xs ys (omega arith)

  -- One more dropped takes the head off.
  pub drop-drop : (k : ℕ) (xs : List A) → drop 1 (drop k xs) ≡ drop (suc k) xs
  drop-drop zero xs = refl
  drop-drop (suc k) [] = refl
  drop-drop (suc k) (x ∷ xs) = drop-drop k xs

  pub take_all : (xs : List A) → take (length xs) xs ≡ xs
  take_all [] = refl
  take_all (x ∷ xs) = ap (◌∷◌ x) (take_all xs)

  pub drop_all : (xs : List A) → drop (length xs) xs ≡ []
  drop_all [] = refl
  drop_all (x ∷ xs) = drop_all xs

module _ {ℓ} {A : Type ℓ} where
  abbrev pub rotated : ℕ → List A → List A
  rotated i xs = drop i xs ++ take i xs

  pub rotated_end : (xs : List A) → rotated (length xs) xs ≡ xs
  rotated_end xs = rw (drop_all xs) (take_all xs)

  pub rotated_whole : (i : ℕ) (xs : List A) → i ≡ length xs → rotated i xs ≡ take i xs
  rotated_whole i xs e = rw e (rw (drop_all xs))

  pub length-rotated : (i : ℕ) (xs : List A) → length (rotated i xs) ≡ length xs
  length-rotated i xs =
      omega (arith, length-append (drop i xs) (take i xs), length-drop i xs, length-take i xs)

  -- A write at the position, and a step of it, push the oldest entry out.
  pub rotated-set :
      (i : ℕ) (xs : List A) (v : A)
      → i < length xs
      → rotated (suc i) (set xs i v) ≡ drop 1 (rotated i xs ++ v ∷ [])
  rotated-set i xs v h =
      ap₂ ◌++◌ (drop-set i xs v) (take-set i xs v h)
      ∙ rw append_assoc (
          sym (
            drop-append 1 (drop i xs) (take i xs ++ v ∷ []) (omega (arith, length-drop i xs))
            ∙ ap (λ l. l ++ (take i xs ++ v ∷ [])) (drop-drop i xs)))
