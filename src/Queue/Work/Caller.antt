-- ===== src/Queue/Work/Caller.antt =====
-- queue.go: the caller's side of `Do`, which the worker's model leaves out: the test of the context
-- before the lock, and the second `select`, where the caller waits for its result or for the end of
-- its context. What happens while it waits is a list of events.
use gomc_rest.Common.{
  ◌&&◌, not, false, true, ok, ℕ, Bool, Option, none, some, List, [], ◌∷◌, ◌==◌, if◌then◌else◌,
  Result, err,
}
use gomc_rest.Failure.{Error}
use gomc_rest.Queue.Work.{shutdown, stopped, Worker, WorkQueue, Event, submit, run}

module _ {V : Type 0} where
  -- What lies in the channel `job.result` of the job `id`.
  abbrev pub find_result : ℕ → List (ℕ × Result Error V) → Option (Result Error V)
  find_result id [] = none
  find_result id ((i, r) ∷ xs) = if i == id then some r else find_result id xs

module _ {S V : Type 0} where
  -- The second `select` of `Do`: the result or the error of the context, whichever is ready, or
  -- what `prefer_ctx` says where both are; none while the caller still waits.
  unfoldable pub receive : ℕ → Bool → WorkQueue S V → Option (Result Error V)
  receive id prefer_ctx q = elim (find_result id q.results) [
    | none ↦ elim (q.ctx_err id) [ none ↦ none | some e ↦ some (err e) ]
    | some r ↦ elim (q.ctx_err id) [
      | none ↦ some r
      | some e ↦ some (if prefer_ctx then err e else r)
    ]
  ]

  -- `Do`, whose context has the error `early` at the first test. `between` is what happens from the
  -- acceptance of the job to the return.
  unfoldable pub do_job :
      Option Error
      → (S → Result Error V × S)
      → Bool
      → List (Event S V)
      → Bool
      → WorkQueue S V
      → Option (Result Error V) × WorkQueue S V
  do_job early execute prefer_ctx between choice q = elim early [
    | some e ↦ (some (err e), q)
    | none ↦
        let (refusal, admitted) = submit execute prefer_ctx q in
        elim refusal [
          | some e ↦ (some (err e), admitted)
          | none ↦ let last = run admitted between in (receive q.next choice last, last)
        ]
  ]

  abbrev pub is_stopped : Worker S V → Bool
  is_stopped stopped = true
  is_stopped _ = false

  -- The `select` of `Shutdown`: a worker that has ended, or the error of the context; none while
  -- neither is there.
  unfoldable pub await_worker : Option Error → Bool → WorkQueue S V → Option (Result Error Unit)
  await_worker ctx prefer_ctx q = elim ctx [
    | none ↦ if is_stopped q.worker then some (ok tt) else none
    | some e ↦ some (if is_stopped q.worker && not prefer_ctx then ok tt else err e)
  ]

  -- `Shutdown`, whose context has the error `ctx` when it returns. `between` is what happens from
  -- the closing of the queue to the return.
  unfoldable pub shut_down :
      Option Error
      → List (Event S V)
      → Bool
      → WorkQueue S V
      → Option (Result Error Unit) × WorkQueue S V
  shut_down ctx between choice q =
      let last = run (shutdown q) between in (await_worker ctx choice last, last)
