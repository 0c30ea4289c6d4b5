-- ===== src/Queue/Work/Response.antt =====
-- How long the caller of `Do` waits.
use gomc_rest.Queue.Work.Rank.{run-HasAnswer, accept-rank, rank}
use gomc_rest.Queue.Work.Caller.{do_job, receive, find_result}
use gomc_rest.Common.{
  Option, some, none, if◌then◌else◌, ◌∙◌, ℕ, ◌+◌, ◌*◌, ◌≤◌, ◌<◌, ◌≡◌, refl, inl, inr, Bool, List,
  [], ◌∷◌, arith, length, Result, err, Option-cases,
}
use gomc_rest.Failure.{Error}
use gomc_rest.Queue.Work.Order.{run-Orderly, step-IsOrderly}
use gomc_rest.Queue.Work.Answers.{run-IsAnswered, HasAnswer, step-IsAnswered}
use gomc_rest.Queue.Work.Drain.{count_works}
use gomc_rest.Queue.Work.Moves.{
  step-Move, stops, rejects, finishes, executes, begins, skips, turns_away, starts, takes, leaves,
  ends_context, closes, accepts, idles, Move,
}
use gomc_rest.Queue.Work.{new_work_queue, WorkQueue, Event, accept, step, run, submits, submit}

module _ {S V : Type 0} where
  capacity-Move : (q q' : WorkQueue S V) → Move q q' → q'.capacity ≡ q.capacity
  unfolding accept
  capacity-Move q q' (idles e) = rw e refl
  capacity-Move q q' (accepts execute is_open room e) = rw e refl
  capacity-Move q q' (closes e) = rw e refl
  capacity-Move q q' (ends_context c kept e) = rw e refl
  capacity-Move q q' (leaves at shut e) = rw e refl
  capacity-Move q q' (takes j js at same e) = rw e refl
  capacity-Move q q' (starts j at is_open e) = rw e refl
  capacity-Move q q' (turns_away j drop at shut e) = rw e refl
  capacity-Move q q' (skips j x at over e) = rw e refl
  capacity-Move q q' (begins j at live e) = rw e refl
  capacity-Move q q' (executes j at e) = rw e refl
  capacity-Move q q' (finishes id r drop at e) = rw e refl
  capacity-Move q q' (rejects j js drop at same e) = rw e refl
  capacity-Move q q' (stops at none_left e) = rw e refl

  run-capacity : (es : List (Event S V)) (q : WorkQueue S V) → (run q es).capacity ≡ q.capacity
  unfolding run
  run-capacity [] q = refl
  run-capacity (e ∷ es) q = run-capacity es (step q e) ∙ capacity-Move q (step q e) (step-Move q e)

  receive-HasAnswer :
      (i : ℕ) (choice : Bool) (q : WorkQueue S V)
      → HasAnswer q.ctx_err q.results i
      → (r : Result Error V) × (receive i choice q ≡ some r)
  unfolding receive
  receive-HasAnswer i choice q (inl (r, found)) = elim (Option-cases (q.ctx_err i)) [
    | inl live ↦ (r, rw (found, live, receive) refl)
    | inr (e, over) ↦ (if choice then err e else r, rw (found, over, receive) refl)
  ]
  receive-HasAnswer i choice q (inr (e, over)) = elim (Option-cases (find_result i q.results)) [
    | inl empty ↦ (err e, rw (empty, over, receive) refl)
    | inr (r, found) ↦ (if choice then err e else r, rw (found, over, receive) refl)
  ]

  pub submit-accepted :
      (execute : S → Result Error V × S) (prefer_ctx : Bool) (q : WorkQueue S V)
      → (submit execute prefer_ctx q).0 ≡ none
      → (length q.jobs < q.capacity) × ((submit execute prefer_ctx q).1 ≡ accept execute q)
  unfolding submit
  submit-accepted execute prefer_ctx q e = ground arith

  -- A job that the queue accepts is answered.
  accepted-answer :
      (size : ℕ) (s : S) (before : List (Event S V)) (execute : S → Result Error V × S)
      (prefer_ctx : Bool) (between : List (Event S V)) (choice : Bool)
      → 5 * size + 4 ≤ count_works between
      → let q = run (new_work_queue size s) before in
        (submit execute prefer_ctx q).0 ≡ none
        → (r : Result Error V) × (receive q.next choice
              (run (submit execute prefer_ctx q).1 between)
            ≡ some r)
  unfolding step new_work_queue
  accepted-answer size s before execute prefer_ctx between choice enough admitted =
      let q = run (new_work_queue size s) before in
      let q' = (submit execute prefer_ctx q).1 in
      let (room, same) = submit-accepted execute prefer_ctx q admitted in
      let o = run-Orderly size s before in
      let kept : q.capacity ≡ size = run-capacity before (new_work_queue size s) in
      let below : q.next < q'.next = rw same (unfold accept in omega arith) in
      let few : rank q.next q' ≤ 5 * size + 4 =
        rw same (unfold accept in omega (arith, kept, accept-rank q.worker q refl o room)) in
      receive-HasAnswer q.next choice (run q' between) (
        run-HasAnswer between q.next q' (step-IsOrderly q (submits execute prefer_ctx) o)
          (step-IsAnswered q (submits execute prefer_ctx) o (run-IsAnswered size s before)) below
          (omega arith))

  -- `Do` returns: from any state that the queue can reach, whatever happens in between, it has an
  -- answer once the worker has made five steps for each place of the channel and four more.
  pub do_job-answers :
      (size : ℕ) (s : S) (before : List (Event S V)) (early : Option Error)
      (execute : S → Result Error V × S) (prefer_ctx : Bool) (between : List (Event S V))
      (choice : Bool)
      → 5 * size + 4 ≤ count_works between
      → let q = run (new_work_queue size s) before in
        (r : Result Error V) × ((do_job early execute prefer_ctx between choice q).0 ≡ some r)
  unfolding do_job
  do_job-answers size s before (some e) execute prefer_ctx between choice enough = (err e, refl)
  do_job-answers size s before none execute prefer_ctx between choice enough =
      let q = run (new_work_queue size s) before in
      elim (Option-cases (submit execute prefer_ctx q).0) [
        | inl admitted ↦
            rw (admitted, do_job)
              (accepted-answer size s before execute prefer_ctx between choice enough admitted)
        | inr (e, refusal) ↦ (err e, rw (refusal, do_job) refl)
      ]
