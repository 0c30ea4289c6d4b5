-- ===== src/Queue/Exec/Logged.antt =====
-- The counters and the log behind one call of `exec`.
use gomc_rest.Common.{
  ℕ, suc, ◌+◌, ◌≡◌, refl, Bool, Option, none, some, List, [], ◌∷◌, ◌++◌, arith, length, length-snoc,
  if◌then◌else◌, Result, ok, err,
}
use gomc_rest.Failure.{Error, as_busy, is_deadline_exceeded}
use gomc_rest.Metrics.{record_client_latency}
use gomc_rest.Plc.{Client}
use gomc_rest.Queue.Labels.{Operation, op_label}
use gomc_rest.Queue.Exec.{
  Turn, Fate, served, turned_down, left_behind, OpLog, PlcQueue, count_timeout, observe, exec,
  log_op, failure_of, do_work,
}

-- The lines with an error that passes the test.
abbrev pub count_one : (Error → Bool) → Option Error → ℕ
count_one test none = 0
count_one test (some e) = if test e then 1 else 0

abbrev pub count_failed : (Error → Bool) → List OpLog → ℕ
count_failed test [] = 0
count_failed test (o ∷ l) = count_one test o.failed + count_failed test l

count_failed-snoc :
    (test : Error → Bool) (l : List OpLog) (o : OpLog)
    → count_failed test (l ++ o ∷ []) ≡ count_failed test l + count_one test o.failed
count_failed-snoc test [] o = omega arith
count_failed-snoc test (x ∷ l) o = omega (arith, count_failed-snoc test l o)

module _ {C W : Type 0} where
  -- The metrics report what the lines of the operations show: how many there are, how many of them
  -- were busy, and how many ended in a timeout.
  pub record IsReported (q : PlcQueue C W) : Type 0 where
    pub requests : q.client.requests ≡ length q.ops
    pub busy : q.client.busy_count ≡ count_failed as_busy q.ops
    pub timeouts : q.plc.metrics.timeouts ≡ count_failed is_deadline_exceeded q.ops

module _ {C W A : Type 0} where
  -- What `observe` counts of one result.
  record Observed (r : Result Error A) (p : Client C W) (q q' : PlcQueue C W) : Type 0 where
    same_ops : q'.ops ≡ q.ops
    same_requests : q'.client.requests ≡ q.client.requests
    busy_more : q'.client.busy_count ≡ q.client.busy_count + count_one as_busy (failure_of r)
    timeouts_more :
        q'.plc.metrics.timeouts ≡ p.metrics.timeouts + count_one is_deadline_exceeded (failure_of r)

  observe-Observed :
      (waited : ℕ) (r : Result Error A) (p : Client C W) (q : PlcQueue C W)
      → Observed r p q (observe waited r p q)
  unfolding observe failure_of count_timeout record_client_latency
  observe-Observed waited (ok a) p q = record {
    same_ops = refl;
    same_requests = refl;
    busy_more = omega arith;
    timeouts_more = omega arith;
  }
  observe-Observed waited (err e) p q = record {
    same_ops = refl;
    same_requests = ground arith;
    busy_more = ground arith;
    timeouts_more = ground arith;
  }

  do_work-timeouts :
      (fate : Fate) (fn : Client C W → Result Error A × Client C W) (p : Client C W)
      → (fn p).1.metrics.timeouts ≡ p.metrics.timeouts
      → (do_work fate fn p).1.metrics.timeouts ≡ p.metrics.timeouts
  unfolding do_work
  do_work-timeouts served fn p same = same
  do_work-timeouts (turned_down e) fn p same = refl
  do_work-timeouts (left_behind e) fn p same = same

  -- An operation whose job leaves the count of timeouts to `exec`.
  pub exec-IsReported :
      (op : Operation) (turn : Turn) (fn : Client C W → Result Error A × Client C W)
      (q : PlcQueue C W)
      → ((p : Client C W) → (fn p).1.metrics.timeouts ≡ p.metrics.timeouts)
      → IsReported q
      → IsReported (log_op op (exec turn fn q)).1
  unfolding exec log_op
  exec-IsReported op turn fn q same v =
      let q' : PlcQueue C W = record q {
        client = record (q.client) { requests = suc q.client.requests };
      } in
      let (r, p) = do_work turn.fate fn q.plc in
      let o = observe-Observed turn.waited r p q' in
      let line : OpLog = record { label = op_label op; failed = failure_of r } in
      let kept = do_work-timeouts turn.fate fn q.plc (same q.plc) in
      record {
        requests =
            rw (o.same_ops) (omega (arith, o.same_requests, v.requests, length-snoc q.ops line));
        busy =
            rw (o.same_ops)
              (omega (arith, o.busy_more, v.busy, count_failed-snoc as_busy q.ops line));
        timeouts = rw (o.same_ops) (
            omega (
              arith,
              o.timeouts_more,
              v.timeouts,
              kept,
              count_failed-snoc is_deadline_exceeded q.ops line,
            ));
      }
