-- ===== src/Queue/Exec/Counting.antt =====
-- The counters on the client's side of the queue.
use gomc_rest.Common.{ℕ, suc, ◌+◌, ◌≤◌, ◌≡◌, arith, ltb, Result, ok, err, Bool-cases, inl, inr}
use gomc_rest.Failure.{Error, as_busy}
use gomc_rest.Metrics.{ClientMetrics, record_client_latency, push_ring}
use gomc_rest.Metrics.Window.{IsWellFormed, window-push_ring}
use gomc_rest.Plc.{Client}
use gomc_rest.Queue.Exec.{Turn, PlcQueue, do_work, observe, exec, non_busy}

-- Every request is in the buffer of latencies or was busy.
pub record IsCounted (m : ClientMetrics) : Type 0 where
  pub ring : IsWellFormed m.recent
  pub all : m.recent.ring_n + m.busy_count ≡ m.requests

-- The same with one request under way.
record HasOneMore (m : ClientMetrics) : Type 0 where
  ring : IsWellFormed m.recent
  all : suc (m.recent.ring_n + m.busy_count) ≡ m.requests

recorded-IsCounted :
    (m : ClientMetrics) (ns : ℕ) → HasOneMore m → IsCounted (record_client_latency m ns)
unfolding record_client_latency
recorded-IsCounted m ns v =
    let total = v.all in
    record { ring = (window-push_ring m.recent ns v.ring).0; all = unfold push_ring in omega arith }

non_busy-IsCounted :
    (m : ClientMetrics) → IsCounted m → (non_busy m ≡ m.recent.ring_n) × (m.busy_count ≤ m.requests)
unfolding non_busy
non_busy-IsCounted m v =
    let total = v.all in
    elim (Bool-cases (ltb m.requests m.busy_count)) [
      | inl over ↦ absurd (ground arith)
      | inr below ↦ rw below (omega arith, omega arith)
    ]

module _ {C W A : Type 0} where
  observe-IsCounted :
      (waited : ℕ) (r : Result Error A) (p : Client C W) (q : PlcQueue C W)
      → HasOneMore q.client
      → IsCounted (observe waited r p q).client
  unfolding observe
  observe-IsCounted waited (ok a) p q v = recorded-IsCounted q.client waited v
  observe-IsCounted waited (err e) p q v = elim (Bool-cases (as_busy e)) [
    | inl full ↦ let total = v.all in rw full (record { ring = v.ring; all = omega arith })
    | inr other ↦ rw other (recorded-IsCounted q.client waited v)
  ]

  -- Over `exec`, whatever the queue does with the job and whatever the job does: each request is
  -- either counted as busy or has one latency in the buffer. So the number that `/metrics` divides
  -- the client's total latency by is that of the latencies, and its subtraction never goes below 0.
  pub exec-IsCounted :
      (turn : Turn) (fn : Client C W → Result Error A × Client C W) (q : PlcQueue C W)
      → IsCounted q.client
      → IsCounted (exec turn fn q).1.client
        × (non_busy (exec turn fn q).1.client ≡ (exec turn fn q).1.client.recent.ring_n)
        × ((exec turn fn q).1.client.busy_count ≤ (exec turn fn q).1.client.requests)
  unfolding exec
  exec-IsCounted turn fn q v =
      let before : HasOneMore (record (q.client) { requests = suc q.client.requests }) = record {
        ring = v.ring;
        all = let total = v.all in omega arith;
      } in
      let r = do_work turn.fate fn q.plc in
      let after = observe-IsCounted turn.waited (r.0) (r.1) _ before in
      let (count, below) = non_busy-IsCounted (observe turn.waited (r.0) (r.1) _).client after in
      (after, count, below)
