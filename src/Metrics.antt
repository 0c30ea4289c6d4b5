-- ===== src/Metrics.antt =====
-- metrics.go: the counters and the ring buffers of recent latencies. Each method runs under the
-- metrics' own lock, so it is one step. Counters are naturals: an int64 holds them up to 2 ^ 63.
pub mod Rotation
pub mod Window
pub mod History
mod Tests
use gomc_rest.Common.{
  ℕ, suc, ◌+◌, ◌%◌, List, [], ◌∷◌, replicate, set, take, ltb, ◌==◌, if◌then◌else◌,
}

abbrev pub recent_window : ℕ
recent_window = 100

-- The ring buffer that both metrics hold: total writes, and the next write position.
pub record Ring : Type 0 where
  pub ring : List ℕ
  pub ring_n : ℕ
  pub ring_at : ℕ

pub record PlcMetrics : Type 0 where
  pub requests : ℕ
  pub reconnects : ℕ
  pub timeouts : ℕ
  pub plc_errors : ℕ
  pub total_ns : ℕ
  pub recent : Ring

pub record ClientMetrics : Type 0 where
  pub requests : ℕ
  pub busy_count : ℕ
  pub total_ns : ℕ
  pub recent : Ring

unfoldable pub empty_ring : Ring
empty_ring = record { ring = replicate 100 0; ring_n = 0; ring_at = 0 }

-- The part of `recordLatency` under the lock.
unfoldable pub push_ring : Ring → ℕ → Ring
push_ring r ns = record {
  ring = set r.ring r.ring_at ns;
  ring_n = suc r.ring_n;
  ring_at = (r.ring_at + 1) % recent_window;
}

unfoldable pub record_plc_latency : PlcMetrics → ℕ → PlcMetrics
record_plc_latency m ns = record m { total_ns = m.total_ns + ns; recent = push_ring m.recent ns }

unfoldable pub record_client_latency : ClientMetrics → ℕ → ClientMetrics
record_client_latency m ns = record m { total_ns = m.total_ns + ns; recent = push_ring m.recent ns }

abbrev pub sum : List ℕ → ℕ
sum [] = 0
sum (x ∷ xs) = x + sum xs

-- The number of entries that count, and their sum: the loop of `recentAvgMs`.
unfoldable pub recent_count : Ring → ℕ
recent_count r = if ltb recent_window r.ring_n then recent_window else r.ring_n

unfoldable pub recent_sum : Ring → ℕ
unfolding recent_count
recent_sum r = sum (take (recent_count r) r.ring)

-- `recentAvgMs` over the float64 result of `math.Round(sum/count/1e6*100) / 100`.
module _ {F : Type 0} (zero_ms : F) (round_ms : ℕ → ℕ → F) where
  unfoldable pub recent_avg_ms : Ring → F
  unfolding recent_sum
  recent_avg_ms r = if r.ring_n == 0 then zero_ms else round_ms (recent_sum r) (recent_count r)
