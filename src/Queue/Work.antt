-- ===== src/Queue/Work.antt =====
-- queue.go: `WorkQueue`, its one worker and its clients, as a state that events change. An event is
-- a step between two points where another goroutine may run: a send or receive on a channel, or a
-- section under the lock. `next` and `ended` are a log for the theorems, and no fields of the source.
pub mod Moves
pub mod Order
pub mod Serial
pub mod Drain
pub mod Delivery
pub mod Caller
pub mod Accepted
pub mod Answers
pub mod Rank
pub mod Response
pub mod Log
pub mod Turns
pub mod Received
pub mod Calls
pub mod Stopping
pub mod Keeping
mod Tests
use gomc_rest.Common.{
  ℕ, suc, Bool, true, false, ◌&&◌, Option, none, some, List, [], ◌∷◌, ◌++◌, ltb, ◌==◌,
  if◌then◌else◌, Result, ok, err, length,
}
use gomc_rest.Failure.{Error, busy, queue_closed}

-- `workJob`: `execute` acts on the state `S` that the jobs share. A context is known by the job.
pub record Job (S V : Type 0) : Type 0 where
  pub id : ℕ
  pub execute : S → Result Error V × S

-- How a job ended: it ran, its context was done before it ran, or the closed queue refused it.
pub data Ending (V : Type 0) : Type 0 where
  ran : Result Error V → Ending V
  skipped : Error → Ending V
  refused : Ending V

-- Where the worker stands: at the `select` of `run`, before `isClosed`, before `job.ctx.Err()`, before
-- `job.execute()`, before `finishJob`, in `rejectPendingJobs`, or behind `close(q.workerDone)`.
pub data Worker (S V : Type 0) : Type 0 where
  waiting : Worker S V
  checking : Job S V → Worker S V
  running : Job S V → Worker S V
  executing : Job S V → Worker S V
  finishing : ℕ → Result Error V → Worker S V
  rejecting : Worker S V
  stopped : Worker S V

pub record WorkQueue (S V : Type 0) : Type 0 where
  pub capacity : ℕ
  pub jobs : List (Job S V)
  -- `closed`, and `done` is a closed channel
  pub closed : Bool
  pub worker : Worker S V
  -- what lies in the result channels
  pub results : List (ℕ × Result Error V)
  -- `ctx.Err()` of each job
  pub ctx_err : ℕ → Option Error
  pub shared : S
  pub next : ℕ
  pub ended : List (Job S V × Ending V)

-- What the goroutines and the contexts do next.
pub data Event (S V : Type 0) : Type 0 where
  submits : (S → Result Error V × S) → Bool → Event S V
  shuts_down : Event S V
  cancels : ℕ → Error → Event S V
  works : Bool → Event S V

module _ {S V : Type 0} where
  unfoldable pub new_work_queue : ℕ → S → WorkQueue S V
  new_work_queue size s = record {
    capacity = size;
    jobs = [];
    closed = false;
    worker = waiting;
    results = [];
    ctx_err = λ _. none;
    shared = s;
    next = 0;
    ended = [];
  }

  pub accept : (S → Result Error V × S) → WorkQueue S V → WorkQueue S V
  accept execute q = record q {
    jobs = q.jobs ++ record { id = q.next; execute = execute } ∷ [];
    next = suc q.next;
  }

  -- The first `select` of `Do`, under the read lock, for a caller whose context passed the first
  -- test. Where a send and `ctx.Done` are both ready, `prefer_ctx` says which is taken.
  unfoldable pub submit :
      (S → Result Error V × S) → Bool → WorkQueue S V → Option Error × WorkQueue S V
  unfolding accept
  submit execute prefer_ctx q =
      if q.closed then (some queue_closed, q) else elim (q.ctx_err q.next) [
        | none ↦ if ltb (length q.jobs) q.capacity then (none, accept execute q) else (some busy, q)
        | some e ↦
            if ltb (length q.jobs) q.capacity && (if prefer_ctx then false else true)
            then (none, accept execute q)
            else (some e, q)
      ]

  -- `Shutdown`: `stopOnce` makes a second call change nothing.
  unfoldable pub shutdown : WorkQueue S V → WorkQueue S V
  shutdown q = record q { closed = true }

  -- A context ends once.
  unfoldable pub cancel : ℕ → Error → WorkQueue S V → WorkQueue S V
  cancel id e q = record q {
    ctx_err = λ i.
        if i == id then elim (q.ctx_err i) [ none ↦ some e | some e' ↦ some e' ] else q.ctx_err i;
  }

  -- `finishJob`: the channel has room for the result; `drop` takes `ctx.Done` where it is ready.
  pub deliver : ℕ → Result Error V → Bool → WorkQueue S V → WorkQueue S V
  deliver id r drop q = elim (q.ctx_err id) [
    | none ↦ record q { results = q.results ++ (id, r) ∷ [] }
    | some _ ↦ if drop then q else record q { results = q.results ++ (id, r) ∷ [] }
  ]

  pub log_end : Job S V → Ending V → WorkQueue S V → WorkQueue S V
  log_end j how q = record q { ended = q.ended ++ (j, how) ∷ [] }

  pub refuse : Job S V → Bool → WorkQueue S V → WorkQueue S V
  unfolding deliver log_end
  refuse j drop q = deliver j.id (err queue_closed) drop (log_end j refused q)

  -- The `select` of `run`; `prefer_done` chooses where both channels are ready.
  pub at_select : List (Job S V) → Bool → WorkQueue S V → WorkQueue S V
  at_select [] prefer_done q = if q.closed then record q { worker = rejecting } else q
  at_select (j ∷ js) prefer_done q =
      if q.closed && prefer_done
      then record q { worker = rejecting }
      else record q { jobs = js; worker = checking j }

  -- One turn of the loop in `rejectPendingJobs`.
  pub reject_next : List (Job S V) → Bool → WorkQueue S V → WorkQueue S V
  unfolding refuse
  reject_next [] drop q = record q { worker = stopped }
  reject_next (j ∷ js) drop q = refuse j drop (record q { jobs = js })

  -- `runJob` up to the call: the test of the context.
  pub run_job : Job S V → WorkQueue S V → WorkQueue S V
  unfolding log_end
  run_job j q = elim (q.ctx_err j.id) [
    | some e ↦ log_end j (skipped e) (record q { worker = finishing j.id (err e) })
    | none ↦ record q { worker = executing j }
  ]

  -- The call, which does not look at the context.
  pub execute_job : Job S V → WorkQueue S V → WorkQueue S V
  unfolding log_end
  execute_job j q =
      let (r, s) = j.execute q.shared in
      log_end j (ran r) (record q { worker = finishing j.id r; shared = s })

  pub work_from : Worker S V → Bool → WorkQueue S V → WorkQueue S V
  unfolding at_select reject_next run_job execute_job refuse
  work_from waiting choice q = at_select q.jobs choice q
  work_from (checking j) choice q =
      if q.closed
      then refuse j choice (record q { worker = rejecting })
      else record q { worker = running j }
  work_from (running j) choice q = run_job j q
  work_from (executing j) choice q = execute_job j q
  work_from (finishing id r) choice q = deliver id r choice (record q { worker = waiting })
  work_from rejecting choice q = reject_next q.jobs choice q
  work_from stopped choice q = q

  -- The next step of the worker. `choice` settles the `select` that it stands at. A worker that
  -- has nothing to do stays where it is.
  unfoldable pub work : Bool → WorkQueue S V → WorkQueue S V
  unfolding work_from
  work choice q = work_from q.worker choice q

  unfoldable pub step : WorkQueue S V → Event S V → WorkQueue S V
  step q (submits execute prefer_ctx) = (submit execute prefer_ctx q).1
  step q shuts_down = shutdown q
  step q (cancels id e) = cancel id e q
  step q (works choice) = work choice q

  unfoldable pub run : WorkQueue S V → List (Event S V) → WorkQueue S V
  run q [] = q
  run q (e ∷ es) = run (step q e) es
