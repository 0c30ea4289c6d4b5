-- ===== src/Queue/Exec.antt =====
-- queue.go: `PLCQueue` and `exec`. What the work queue did with a request is given as a `Turn`, as
-- its caller sees it: Work models the queue itself.
pub mod Counting
pub mod Serving
pub mod Logged
pub mod Keeping
use gomc_rest.Queue.Labels.{op_label, Operation}
use gomc_rest.Common.Text.{Text}
use gomc_rest.Common.{
  ◌++◌, ◌∷◌, [], List, some, none, Option, ℕ, suc, ◌-◌, ltb, if◌then◌else◌, Result, ok, err,
}
use gomc_rest.Failure.{Error, as_busy, is_deadline_exceeded}
use gomc_rest.Metrics.{ClientMetrics, record_client_latency, recent_avg_ms}
use gomc_rest.Plc.{Client}

-- The fate of a job: it ran and the caller got its result; it never ran, and `Do` returned the
-- error; or the caller's context ended with the error first, and the job ran all the same.
pub data Fate : Type 0 where
  served : Fate
  turned_down left_behind : Error → Fate

-- With the time that the caller spent in `Do`, in nanoseconds.
pub record Turn : Type 0 where
  pub fate : Fate
  pub waited : ℕ

-- What an operation leaves in the log: its name and its error.
pub record OpLog : Type 0 where
  pub label : Text
  pub failed : Option Error

-- `ops` is what `logPLCOp` was called with.
pub record PlcQueue (C W : Type 0) : Type 0 where
  pub plc : Client C W
  pub client : ClientMetrics
  pub ops : List OpLog

count_timeout : {C W : Type 0} → Error → Client C W → Client C W
count_timeout e p =
    if is_deadline_exceeded e
    then record p { metrics = record (p.metrics) { timeouts = suc p.metrics.timeouts } }
    else p

-- `work.Do`, as far as the state that the jobs share and the caller can tell. Work/Turns relates it
-- to the queue.
unfoldable pub do_work : {S A : Type 0} → Fate → (S → Result Error A × S) → S → Result Error A × S
do_work served fn s = fn s
do_work (turned_down e) fn s = (err e, s)
do_work (left_behind e) fn s = (err e, (fn s).1)

-- The error of an operation, which `logPLCOp` is given.
failure_of : {A : Type 0} → Result Error A → Option Error
failure_of (ok a) = none
failure_of (err e) = some e

module _ {C W A : Type 0} where
  -- The metrics behind `work.Do`.
  observe : ℕ → Result Error A → Client C W → PlcQueue C W → PlcQueue C W
  unfolding count_timeout
  observe waited (ok a) p q = record q { plc = p; client = record_client_latency q.client waited }
  observe waited (err e) p q = record q {
    plc = count_timeout e p;
    client =
        if as_busy e
        then record (q.client) { busy_count = suc q.client.busy_count }
        else record_client_latency q.client waited;
  }

  unfoldable pub exec :
      Turn
      → (Client C W → Result Error A × Client C W)
      → PlcQueue C W
      → Result Error A × PlcQueue C W
  unfolding do_work observe
  exec turn fn q =
      let (r, p) = do_work turn.fate fn q.plc in
      (
        r,
        observe turn.waited r p
            (record q { client = record (q.client) { requests = suc q.client.requests } }),
      )

  -- `logPLCOp` behind the operation.
  unfoldable pub log_op : Operation → Result Error A × PlcQueue C W → Result Error A × PlcQueue C W
  unfolding failure_of
  log_op op (r, q) =
      (r, record q { ops = q.ops ++ (record { label = op_label op; failed = failure_of r }) ∷ [] })

-- What `/metrics` reports, over the float64 averages of `F`.
pub record Report (F : Type 0) : Type 0 where
  pub client_request_count : ℕ
  pub busy_count : ℕ
  pub client_avg_latency_ms : F
  pub client_recent_avg_latency_ms : F
  pub queue_length : ℕ
  pub request_count : ℕ
  pub reconnect_count : ℕ
  pub timeout_count : ℕ
  pub plc_error_count : ℕ
  pub avg_latency_ms : F
  pub recent_avg_latency_ms : F

-- `cReqs - cBusy`, and 0 if the two were read across an update.
unfoldable pub non_busy : ClientMetrics → ℕ
non_busy c = if ltb c.requests c.busy_count then 0 else c.requests - c.busy_count

module _ {C W F : Type 0} (zero_ms : F) (round_ms : ℕ → ℕ → F) where
  -- `round_ms total count` is `math.Round(total/count/1e6*100) / 100`; the queue length is read
  -- from the channel.
  unfoldable pub metrics_report : ℕ → PlcQueue C W → Report F
  metrics_report queued q = record {
    client_request_count = q.client.requests;
    busy_count = q.client.busy_count;
    client_avg_latency_ms =
        if ltb 0 (non_busy q.client)
        then round_ms q.client.total_ns (non_busy q.client)
        else zero_ms;
    client_recent_avg_latency_ms = recent_avg_ms zero_ms round_ms q.client.recent;
    queue_length = queued;
    request_count = q.plc.metrics.requests;
    reconnect_count = q.plc.metrics.reconnects;
    timeout_count = q.plc.metrics.timeouts;
    plc_error_count = q.plc.metrics.plc_errors;
    avg_latency_ms =
        if ltb 0 q.plc.metrics.requests
        then round_ms q.plc.metrics.total_ns q.plc.metrics.requests
        else zero_ms;
    recent_avg_latency_ms = recent_avg_ms zero_ms round_ms q.plc.metrics.recent;
  }
