-- ===== src/Metrics/Window.antt =====
-- The ring buffer is a window on the latest latencies.
use mathlib.Core.List.{append-nil}
use native.Mathlib.Decide.{dec_lt}
use gomc_rest.Common.{
  ℕ, zero, suc, ◌+◌, ◌-◌, ◌%◌, ◌≤◌, ◌<◌, ◌≡◌, refl, sym, ◌∙◌, ap, List, [], ◌∷◌, ◌++◌, arith, min,
  set, take, drop, length, length-take, length-set, length-append, ltb, if◌then◌else◌,
}
use gomc_rest.Metrics.Rotation.{
  take-set, take_all, rotated, rotated_end, rotated_whole, length-rotated, rotated-set,
}
use gomc_rest.Metrics.{Ring, recent_window, push_ring, empty_ring, sum, recent_count, recent_sum}

-- The buffer has its size, and the next position follows from the number of writes.
pub record IsWellFormed (r : Ring) : Type 0 where
  pub size : length r.ring ≡ recent_window
  pub position : r.ring_at ≡ r.ring_n % recent_window

-- What the buffer holds, oldest first.
unfoldable pub window : Ring → List ℕ
window r =
    if ltb r.ring_n recent_window
    then take r.ring_n r.ring
    else drop r.ring_at r.ring ++ take r.ring_at r.ring

-- The last `recent_window` entries of a list.
unfoldable pub latest : List ℕ → List ℕ
latest l = drop (length l - recent_window) l

pub empty_ring-IsWellFormed : IsWellFormed empty_ring
unfolding empty_ring
empty_ring-IsWellFormed = record { size = refl; position = refl }

push_ring-IsWellFormed : (r : Ring) (ns : ℕ) → IsWellFormed r → IsWellFormed (push_ring r ns)
unfolding push_ring
push_ring-IsWellFormed r ns v = record {
  size = length-set r.ring r.ring_at ns ∙ v.size;
  position = omega (arith, v.position);
}

window_partial : (r : Ring) → r.ring_n < recent_window → window r ≡ take r.ring_n r.ring
unfolding window
window_partial r h = ground arith

window_full : (r : Ring) → recent_window ≤ r.ring_n → window r ≡ rotated r.ring_at r.ring
unfolding window
window_full r h = ground arith

length-window : (r : Ring) → IsWellFormed r → length (window r) ≡ min r.ring_n recent_window
length-window r v = elim (dec_lt r.ring_n recent_window) [
  | yes h ↦ rw (window_partial r h) (omega (arith, length-take r.ring_n r.ring, v.size))
  | no h ↦ rw (window_full r (omega arith)) (omega (arith, length-rotated r.ring_at r.ring, v.size))
]

pub latest_short : (l : List ℕ) → length l ≤ recent_window → latest l ≡ l
unfolding latest
latest_short l h = let e : length l - recent_window ≡ 0 = omega arith in rw e

latest_over : (l : List ℕ) → length l ≡ suc recent_window → latest l ≡ drop 1 l
unfolding latest
latest_over l h = let e : length l - recent_window ≡ 1 = omega arith in rw e

-- The position goes back to the start at the end of the buffer.
rotated-next :
    (i : ℕ) (xs : List ℕ)
    → i < recent_window
    → length xs ≡ recent_window
    → rotated ((i + 1) % recent_window) xs ≡ rotated (suc i) xs
rotated-next i xs h e = elim (dec_lt (suc i) recent_window) [
  | yes more ↦ let same : (i + 1) % recent_window ≡ suc i = omega arith in rw same
  | no last ↦
      let start : (i + 1) % recent_window ≡ 0 = omega arith in
      let full : suc i ≡ length xs = omega arith in
      rw start (append-nil xs ∙ sym (rw full (rotated_end xs)))
]

-- The three ways a write can go: the buffer has room left, it gets full, it is full.
push_ring-room :
    (r : Ring) (ns : ℕ)
    → IsWellFormed r
    → suc r.ring_n < recent_window
    → window (push_ring r ns) ≡ window r ++ ns ∷ []
unfolding push_ring
push_ring-room r ns v h =
    let at : r.ring_at ≡ r.ring_n = omega (arith, v.position) in
    window_partial (push_ring r ns) h
    ∙ rw at (take-set r.ring_n r.ring ns (omega (arith, v.size)))
    ∙ ap (λ l. l ++ ns ∷ []) (sym (window_partial r (omega arith)))

push_ring-fills :
    (r : Ring) (ns : ℕ)
    → IsWellFormed r
    → suc r.ring_n ≡ recent_window
    → window (push_ring r ns) ≡ window r ++ ns ∷ []
unfolding push_ring
push_ring-fills r ns v h =
    let at : r.ring_at ≡ r.ring_n = omega (arith, v.position) in
    let written = set r.ring r.ring_at ns in
    let same_size : length written ≡ recent_window = length-set r.ring r.ring_at ns ∙ v.size in
    window_full (push_ring r ns) (omega arith)
    ∙ rotated-next r.ring_at written (omega arith) same_size
    ∙ rotated_whole (suc r.ring_at) written (omega arith)
    ∙ take-set r.ring_at r.ring ns (omega (arith, v.size))
    ∙ ap (λ l. l ++ ns ∷ []) (ap (λ i. take i r.ring) at ∙ sym (window_partial r (omega arith)))

push_ring-full :
    (r : Ring) (ns : ℕ)
    → IsWellFormed r
    → recent_window ≤ r.ring_n
    → window (push_ring r ns) ≡ drop 1 (window r ++ ns ∷ [])
unfolding push_ring
push_ring-full r ns v h =
    let inside : r.ring_at < recent_window = omega (arith, v.position) in
    let written = set r.ring r.ring_at ns in
    let same_size : length written ≡ recent_window = length-set r.ring r.ring_at ns ∙ v.size in
    window_full (push_ring r ns) (omega arith)
    ∙ rotated-next r.ring_at written inside same_size
    ∙ rotated-set r.ring_at r.ring ns (omega (arith, v.size))
    ∙ ap (λ l. drop 1 (l ++ ns ∷ [])) (sym (window_full r h))

-- Recording a latency refines a queue of bounded length: the new entry goes to the end, and the
-- oldest one leaves once there are more than `recent_window`.
pub window-push_ring :
    (r : Ring) (ns : ℕ)
    → IsWellFormed r
    → IsWellFormed (push_ring r ns) × (window (push_ring r ns) ≡ latest (window r ++ ns ∷ []))
window-push_ring r ns v = (
  push_ring-IsWellFormed r ns v,
  elim (dec_lt (suc r.ring_n) recent_window) [
    | yes room ↦
        push_ring-room r ns v room ∙ sym (latest_short (window r ++ ns ∷ []) (omega (arith, size)))
    | no filled ↦ elim (dec_lt r.ring_n recent_window) [
      | yes last ↦
          push_ring-fills r ns v (omega arith)
          ∙ sym (latest_short (window r ++ ns ∷ []) (omega (arith, size)))
      | no full ↦
          push_ring-full r ns v (omega arith)
          ∙ sym (latest_over (window r ++ ns ∷ []) (omega (arith, size)))
    ]
  ],
)
  where
    size : length (window r ++ ns ∷ []) ≡ min r.ring_n recent_window + 1
    size = omega (arith, length-append (window r) (ns ∷ []), length-window r v)

sum-append : (xs ys : List ℕ) → sum (xs ++ ys) ≡ sum xs + sum ys
sum-append [] ys = omega arith
sum-append (x ∷ xs) ys = omega (arith, sum-append xs ys)

sum-rotated : (i : ℕ) (xs : List ℕ) → sum (rotated i xs) ≡ sum xs
sum-rotated zero xs = rw (append-nil xs)
sum-rotated (suc i) [] = refl
sum-rotated (suc i) (x ∷ xs) = omega (
  arith,
  sum-append (drop i xs) (x ∷ take i xs),
  sum-append (drop i xs) (take i xs),
  sum-rotated i xs,
)

-- The count and the sum that `recentAvgMs` divides are those of the window, whatever the position.
pub recent_sum-window :
    (r : Ring)
    → IsWellFormed r
    → (recent_sum r ≡ sum (window r)) × (recent_count r ≡ length (window r))
unfolding recent_sum
recent_sum-window r v = (
  elim (dec_lt r.ring_n recent_window) [
    | yes part ↦ rw (window_partial r part) (ground arith)
    | no full ↦
        rw (window_full r (omega arith), sum-rotated r.ring_at r.ring)
          (let all : recent_count r ≡ length r.ring = ground (arith, v.size) in
            rw all (ap sum (take_all r.ring)))
  ],
  ground (arith, length-window r v),
)
