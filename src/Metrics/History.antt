-- ===== src/Metrics/History.antt =====
-- What the averages are taken over, in terms of all the latencies recorded since the start.
use mathlib.Core.List.{append_assoc, append-nil}
use native.Mathlib.Decide.{dec_le}
use gomc_rest.Common.{
  ℕ, suc, ◌+◌, ◌-◌, ◌<◌, ◌≡◌, refl, sym, ◌∙◌, ap, List, [], ◌∷◌, ◌++◌, arith, min, drop, length,
  length-drop, length-append,
}
use gomc_rest.Metrics.Rotation.{drop-append, drop-drop}
use gomc_rest.Metrics.{Ring, recent_window, push_ring, empty_ring, sum, recent_count, recent_sum}
use gomc_rest.Metrics.Window.{
  IsWellFormed, window, latest, window-push_ring, recent_sum-window, empty_ring-IsWellFormed,
  latest_short,
}

-- The buffer after a list of latencies, the first recorded first.
unfoldable pub push_all : Ring → List ℕ → Ring
push_all r [] = r
push_all r (ns ∷ l) = push_all (push_ring r ns) l

latest-append-latest : (h : List ℕ) (ns : ℕ) → latest (latest h ++ ns ∷ []) ≡ latest (h ++ ns ∷ [])
latest-append-latest h ns = elim (dec_le (length h) recent_window) [
  | yes short ↦ rw (latest_short h short)
  | no long ↦ longer (length h - recent_window) (omega arith) (omega arith)
]
  where
    longer :
        (k : ℕ)
        → k + recent_window ≡ length h
        → 0 < k
        → latest (latest h ++ ns ∷ []) ≡ latest (h ++ ns ∷ [])
    longer k e pos =
        let cut : length h - recent_window ≡ k = omega arith in
        let one : length (drop k h ++ ns ∷ []) - recent_window ≡ 1 =
          omega (arith, length-append (drop k h) (ns ∷ []), length-drop k h) in
        let whole : length (h ++ ns ∷ []) - recent_window ≡ suc k =
          omega (arith, length-append h (ns ∷ [])) in
        unfold latest in
        rw (cut, one, whole)
          (drop-append 1 (drop k h) (ns ∷ []) (omega (arith, length-drop k h))
            ∙ ap (λ l. l ++ ns ∷ []) (drop-drop k h)
            ∙ sym (drop-append (suc k) h (ns ∷ []) (omega arith)))

window-push_all :
    (l : List ℕ) (r : Ring) (h : List ℕ)
    → IsWellFormed r
    → window r ≡ latest h
    → IsWellFormed (push_all r l) × (window (push_all r l) ≡ latest (h ++ l))
unfolding push_all
window-push_all [] r h v e = (v, rw (append-nil h) e)
window-push_all (ns ∷ l) r h v e =
    let (v', e') = window-push_ring r ns v in
    let here : window (push_ring r ns) ≡ latest (h ++ ns ∷ []) =
      e' ∙ rw e (latest-append-latest h ns) in
    let (v'', e'') = window-push_all l (push_ring r ns) (h ++ ns ∷ []) v' here in
    (v'', e'' ∙ ap latest (append_assoc h (ns ∷ []) l))

-- After any history of latencies, the average is taken over the last hundred of them, or over all
-- while there are fewer: the sum and the count that `recentAvgMs` divides are theirs.
pub recent_sum-push_all :
    (l : List ℕ)
    → (recent_sum (push_all empty_ring l) ≡ sum (drop (length l - recent_window) l))
      × (recent_count (push_all empty_ring l) ≡ min (length l) recent_window)
unfolding latest
recent_sum-push_all l =
    let (v, e) = window-push_all l empty_ring [] empty_ring-IsWellFormed window_start in
    let (same_sum, same_count) = recent_sum-window (push_all empty_ring l) v in
    (
      same_sum ∙ ap sum e,
      same_count ∙ ap length e ∙ omega (arith, length-drop (length l - recent_window) l),
    )
  where
    window_start : window empty_ring ≡ latest []
    window_start = unfold window empty_ring latest in refl
