-- ===== src/Queue/Work/Rank.antt =====
-- The steps that the worker has left until the result of a job.
use gomc_rest.Common.{
  ap, subst, length-snoc, ℕ, suc, ◌+◌, ◌-◌, ◌*◌, ◌≤◌, ◌<◌, ◌≡◌, refl, inl, inr, Bool, true, List,
  [], ◌∷◌, arith, length, Result, err, Bool-cases, Option-cases,
}
use gomc_rest.Failure.{Error, queue_closed}
use gomc_rest.Queue.Work.Order.{run-IsOrderly, IsOrderly, step-IsOrderly}
use gomc_rest.Queue.Work.Accepted.{run-next, step-next, length-all_jobs, held}
use gomc_rest.Queue.Work.Answers.{
  run-IsAnswered_from, HasAnswer, IsAnswered, answered, step-IsAnswered,
}
use gomc_rest.Queue.Work.Drain.{count_works}
use gomc_rest.Queue.Work.Moves.{deliver-delivered}
use gomc_rest.Queue.Work.{
  Job, ran, skipped, refused, Worker, waiting, checking, running, executing, finishing, rejecting,
  stopped, WorkQueue, Event, accept, step, run, submits, shuts_down, cancels, works, submit,
  shutdown, cancel, deliver, log_end, refuse, at_select, reject_next, run_job, execute_job,
  work_from, work,
}

module _ {S V : Type 0} where
  abbrev pub rank_of : Worker S V → ℕ → ℕ → ℕ
  rank_of waiting n i = 5 * (suc i - n)
  rank_of (checking j) n i = 5 * (suc i - n) - 1
  rank_of (running j) n i = 5 * (suc i - n) - 2
  rank_of (executing j) n i = 5 * (suc i - n) - 3
  rank_of (finishing id r) n i = 5 * (suc i - (n - 1)) - 4
  rank_of rejecting n i = suc i - n
  rank_of stopped n i = 0

  -- The steps that the worker has left until the result of job `i` is delivered, at most.
  abbrev pub rank : ℕ → WorkQueue S V → ℕ
  rank i q = rank_of q.worker (length q.ended) i

  deliver-rank :
      (id : ℕ) (r : Result Error V) (drop : Bool) (i : ℕ) (q : WorkQueue S V)
      → rank i (deliver id r drop q) ≡ rank i q
  deliver-rank id r drop i q = rw (deliver-delivered id r drop q) refl

  at_select-rank :
      (js : List (Job S V)) (prefer_done : Bool) (i : ℕ) (q : WorkQueue S V)
      → q.jobs ≡ js
      → q.worker ≡ waiting
      → i < length q.ended + length js
      → rank i (at_select js prefer_done q) ≤ 5 * (suc i - length q.ended) - 1
  unfolding at_select
  at_select-rank [] prefer_done i q same at below = elim (Bool-cases q.closed) [
    | inl shut ↦ rw shut (omega arith)
    | inr is_open ↦ rw (is_open, at) (omega arith)
  ]
  at_select-rank (j ∷ js) prefer_done i q same at below = ground arith

  reject_next-rank :
      (js : List (Job S V)) (drop : Bool) (i : ℕ) (q : WorkQueue S V)
      → q.worker ≡ rejecting
      → rank i (reject_next js drop q) ≤ suc i - length q.ended - 1
  unfolding reject_next refuse log_end
  reject_next-rank [] drop i q at = omega arith
  reject_next-rank (j ∷ js) drop i q at =
      rw
        (
          deliver-rank j.id (err queue_closed) drop i (log_end j refused (record q { jobs = js })),
          at,
        )
        (omega (arith, length-snoc q.ended (j, refused)))

  -- `length-all_jobs` for a worker whose place is known.
  numbered :
      (w : Worker S V) (q : WorkQueue S V)
      → q.worker ≡ w
      → IsOrderly q
      → length q.ended + (length (held w) + length q.jobs) ≡ q.next
  numbered w q at o =
      subst (λ (w : Worker S V). length q.ended + (length (held w) + length q.jobs) ≡ q.next) at
        (length-all_jobs q o)

  work_from-rank :
      (w : Worker S V) (choice : Bool) (i : ℕ) (q : WorkQueue S V)
      → q.worker ≡ w
      → IsOrderly q
      → IsAnswered q
      → i < q.next
      → rank i (work_from w choice q) ≤ rank_of w (length q.ended) i - 1
  unfolding work_from refuse log_end run_job execute_job
  work_from-rank waiting choice i q at o v below =
      let counted = numbered waiting q at o in
      at_select-rank q.jobs choice i q refl at (omega arith)
  work_from-rank (checking j) choice i q at o v below = elim (Bool-cases q.closed) [
    | inl shut ↦
        rw
          (
            shut,
            deliver-rank j.id (err queue_closed) choice i
                (log_end j refused (record q { worker = rejecting; closed = true })),
          )
          (omega (arith, length-snoc q.ended (j, refused)))
    | inr is_open ↦ rw is_open (omega arith)
  ]
  work_from-rank (running j) choice i q at o v below = elim (Option-cases (q.ctx_err j.id)) [
    | inl live ↦ rw (live, run_job) (omega arith)
    | inr (e, over) ↦ rw (over, run_job) (omega (arith, length-snoc q.ended (j, skipped e)))
  ]
  work_from-rank (executing j) choice i q at o v below =
      omega (arith, length-snoc q.ended (j, ran (j.execute q.shared).0))
  work_from-rank (finishing id r) choice i q at o v below =
      let newest : suc id ≡ length q.ended = rw at at v.last in
      rw (deliver-rank id r choice i (record q { worker = waiting })) (omega arith)
  work_from-rank rejecting choice i q at o v below = reject_next-rank q.jobs choice i q at
  work_from-rank stopped choice i q at o v below = rw at (omega arith)

  submit-rank :
      (execute : S → Result Error V × S) (prefer_ctx : Bool) (i : ℕ) (q : WorkQueue S V)
      → (rank i (submit execute prefer_ctx q).1 ≡ rank i q)
        × (q.next ≤ (submit execute prefer_ctx q).1.next)
  unfolding submit accept
  submit-rank execute prefer_ctx i q = ground arith

  step-rank :
      (e : Event S V) (es : List (Event S V)) (i : ℕ) (q : WorkQueue S V)
      → IsOrderly q
      → IsAnswered q
      → i < q.next
      → rank i (step q e) - count_works es ≤ rank i q - count_works (e ∷ es)
  unfolding step shutdown cancel work
  step-rank (submits execute prefer_ctx) es i q o v below =
      omega (arith, submit-rank execute prefer_ctx i q)
  step-rank shuts_down es i q o v below = omega arith
  step-rank (cancels id e) es i q o v below = omega arith
  step-rank (works choice) es i q o v below =
      omega (arith, work_from-rank q.worker choice i q refl o v below)

  run-rank :
      (es : List (Event S V)) (i : ℕ) (q : WorkQueue S V)
      → IsOrderly q
      → IsAnswered q
      → i < q.next
      → rank i (run q es) ≤ rank i q - count_works es
  unfolding run
  run-rank [] i q o v below = omega arith
  run-rank (e ∷ es) i q o v below =
      let later = step-IsOrderly q e o in
      let further = step-next q e o in
      let rest =
        run-rank es i (step q e) later (step-IsAnswered q e o v) (omega (arith, below, further)) in
      omega (arith, rest, step-rank e es i q o v below)

  rank_zero :
      (w : Worker S V) (i : ℕ) (q : WorkQueue S V)
      → q.worker ≡ w
      → IsOrderly q
      → i < q.next
      → rank_of w (length q.ended) i ≤ 0
      → i < answered q
  rank_zero waiting i q at o below h = rw at (omega arith)
  rank_zero (checking j) i q at o below h = rw at (omega arith)
  rank_zero (running j) i q at o below h = rw at (omega arith)
  rank_zero (executing j) i q at o below h = rw at (omega arith)
  rank_zero (finishing id r) i q at o below h = rw at (omega arith)
  rank_zero rejecting i q at o below h = rw at (omega arith)
  rank_zero stopped i q at o below h =
      let counted = numbered stopped q at o in rw at (omega (arith, ap length (o.emptied at)))

  -- A job that was accepted is answered, or its context is over, once the worker has made the steps
  -- that it has left for it, whatever happens in between.
  pub run-HasAnswer :
      (es : List (Event S V)) (i : ℕ) (q : WorkQueue S V)
      → IsOrderly q
      → IsAnswered q
      → i < q.next
      → rank i q ≤ count_works es
      → HasAnswer (run q es).ctx_err (run q es).results i
  run-HasAnswer es i q o v below enough =
      let last = run q es in
      let o' = run-IsOrderly es q o in
      (run-IsAnswered_from es q o v).answers i (
        rank_zero last.worker i last refl o' (omega (arith, below, run-next es q o))
          (omega (arith, run-rank es i q o v below)))

  pub accept-rank :
      (w : Worker S V) (q : WorkQueue S V)
      → q.worker ≡ w
      → IsOrderly q
      → length q.jobs < q.capacity
      → rank_of w (length q.ended) q.next ≤ 5 * q.capacity + 4
  accept-rank waiting q at o room = omega (arith, numbered waiting q at o)
  accept-rank (checking j) q at o room = omega (arith, numbered (checking j) q at o)
  accept-rank (running j) q at o room = omega (arith, numbered (running j) q at o)
  accept-rank (executing j) q at o room = omega (arith, numbered (executing j) q at o)
  accept-rank (finishing id r) q at o room = omega (arith, numbered (finishing id r) q at o)
  accept-rank rejecting q at o room = omega (arith, numbered rejecting q at o)
  accept-rank stopped q at o room = omega arith
