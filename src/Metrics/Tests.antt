-- ===== src/Metrics/Tests.antt =====
-- The properties of the buffers on short histories.
use gomc_rest.Common.{ℕ, ◌-◌, ◌≡◌, List, [], ◌∷◌, ◌++◌, length, drop, min}
use gomc_rest.Metrics.{recent_sum, empty_ring, push_ring, recent_count, recent_window, sum}
use gomc_rest.Metrics.History.{push_all, recent_sum-push_all}
use gomc_rest.Metrics.Window.{
  IsWellFormed, window, latest, empty_ring-IsWellFormed, window-push_ring,
}

window-push_ring_example :
    IsWellFormed (push_ring empty_ring 1500)
    × (window (push_ring empty_ring 1500) ≡ latest (window empty_ring ++ 1500 ∷ []))
window-push_ring_example = window-push_ring empty_ring 1500 empty_ring-IsWellFormed

abbrev history : List ℕ
history = 1500 ∷ 2500 ∷ []

recent_sum-push_all_example :
    (recent_sum (push_all empty_ring history) ≡ sum (drop (length history - recent_window) history))
    × (recent_count (push_all empty_ring history) ≡ min (length history) recent_window)
recent_sum-push_all_example = recent_sum-push_all history
