-- ===== src/Queue/Work/Drain.antt =====
-- After `Shutdown` the worker comes to its end.
use mathlib.Core.List.{append_assoc, append-nil}
use gomc_rest.Queue.Work.Order.{run-Orderly, ended_ids, upto}
use gomc_rest.Common.{
  ℕ, suc, ◌+◌, ◌≤◌, ◌≡◌, refl, sym, ◌∙◌, ap, Bool, true, arith, List, [], ◌∷◌, ◌++◌, length, Result,
  err, inl, inr, ◌⊎◌,
}
use gomc_rest.Failure.{Error, queue_closed}
use gomc_rest.Queue.Work.Moves.{deliver-delivered}
use gomc_rest.Queue.Work.{
  refused, Job, Worker, waiting, checking, running, executing, finishing, rejecting, stopped,
  WorkQueue, Event, submits, shuts_down, cancels, works, new_work_queue, accept, submit, shutdown,
  cancel, deliver, log_end, refuse, at_select, reject_next, run_job, execute_job, work_from, work,
  step, run,
}

module _ {S V : Type 0} where
  abbrev worker_left : Worker S V → ℕ
  worker_left waiting = 2
  worker_left (checking j) = 2
  worker_left (running j) = 5
  worker_left (executing j) = 4
  worker_left (finishing id r) = 3
  worker_left rejecting = 1
  worker_left stopped = 0

  -- The steps that the worker of a closed queue has left, at most.
  abbrev pub left : WorkQueue S V → ℕ
  left q = length q.jobs + worker_left q.worker

  -- The worker's steps in a schedule.
  abbrev pub count_works : List (Event S V) → ℕ
  count_works [] = 0
  count_works (works choice ∷ es) = suc (count_works es)
  count_works (_ ∷ es) = count_works es

  -- A step of the worker that is not at its end brings it nearer.
  abbrev Nearer : ℕ → WorkQueue S V → Type 0
  Nearer n q = (left q + 1 ≤ n) × (q.closed ≡ true)

  deliver-left :
      (id : ℕ) (r : Result Error V) (drop : Bool) (q : WorkQueue S V)
      → (left (deliver id r drop q) ≡ left q) × ((deliver id r drop q).closed ≡ q.closed)
  deliver-left id r drop q = rw (deliver-delivered id r drop q) (refl, refl)

  at_select-left :
      (js : List (Job S V)) (prefer_done : Bool) (q : WorkQueue S V)
      → q.closed ≡ true
      → q.jobs ≡ js
      → Nearer (length js + 2) (at_select js prefer_done q)
  unfolding at_select
  at_select-left [] prefer_done q shut same = ground (arith, ap length same)
  at_select-left (j ∷ js) prefer_done q shut same = ground (arith, ap length same)

  reject_next-left :
      (js : List (Job S V)) (drop : Bool) (q : WorkQueue S V)
      → q.closed ≡ true
      → q.jobs ≡ js
      → q.worker ≡ rejecting
      → Nearer (length js + 1) (reject_next js drop q)
  unfolding reject_next refuse log_end
  reject_next-left [] drop q shut same at = ground (arith, ap length same)
  reject_next-left (j ∷ js) drop q shut same at =
      let rest : WorkQueue S V = log_end j refused (record q { jobs = js }) in
      let (same_left, same_closed) = deliver-left j.id (err queue_closed) drop rest in
      (rw (same_left, at) (omega arith), same_closed ∙ shut)

  work_from-left :
      (w : Worker S V) (choice : Bool) (q : WorkQueue S V)
      → q.closed ≡ true
      → q.worker ≡ w
      → (w ≡ stopped) ⊎ Nearer (length q.jobs + worker_left w) (work_from w choice q)
  unfolding work_from refuse log_end run_job execute_job
  work_from-left waiting choice q shut at = inr (at_select-left q.jobs choice q shut refl)
  work_from-left (checking j) choice q shut at =
      let rest : WorkQueue S V = log_end j refused (record q { worker = rejecting }) in
      let (same_left, same_closed) = deliver-left j.id (err queue_closed) choice rest in
      inr (ground (arith, same_left, same_closed))
  work_from-left (running j) choice q shut at = inr (ground arith)
  work_from-left (executing j) choice q shut at = inr (ground arith)
  work_from-left (finishing id r) choice q shut at =
      let rest : WorkQueue S V = record q { worker = waiting } in
      let (same_left, same_closed) = deliver-left id r choice rest in
      inr (rw same_left (omega arith), same_closed ∙ shut)
  work_from-left rejecting choice q shut at = inr (reject_next-left q.jobs choice q shut refl at)
  work_from-left stopped choice q shut at = inl refl

  submit-left :
      (execute : S → Result Error V × S) (prefer_ctx : Bool) (q : WorkQueue S V)
      → q.closed ≡ true
      → (submit execute prefer_ctx q).1 ≡ q
  unfolding submit
  submit-left execute prefer_ctx q shut = ground arith

  submit-worker :
      (execute : S → Result Error V × S) (prefer_ctx : Bool) (q : WorkQueue S V)
      → (submit execute prefer_ctx q).1.worker ≡ q.worker
  unfolding submit accept
  submit-worker execute prefer_ctx q = ground arith

  run_stopped :
      (es : List (Event S V)) (q : WorkQueue S V) → q.worker ≡ stopped → (run q es).worker ≡ stopped
  unfolding run step shutdown cancel work
  run_stopped [] q at = at
  run_stopped (submits execute prefer_ctx ∷ es) q at =
      run_stopped es (submit execute prefer_ctx q).1 (submit-worker execute prefer_ctx q ∙ at)
  run_stopped (shuts_down ∷ es) q at = run_stopped es (shutdown q) at
  run_stopped (cancels id e ∷ es) q at = run_stopped es (cancel id e q) at
  run_stopped (works choice ∷ es) q at =
      run_stopped es (work choice q)
        (ap (λ w. (work_from w choice q).worker) at ∙ unfold work_from in at)

  worker_left_zero : (w : Worker S V) → worker_left w ≤ 0 → w ≡ stopped
  worker_left_zero waiting h = absurd (omega arith)
  worker_left_zero (checking j) h = absurd (omega arith)
  worker_left_zero (running j) h = absurd (omega arith)
  worker_left_zero (executing j) h = absurd (omega arith)
  worker_left_zero (finishing id r) h = absurd (omega arith)
  worker_left_zero rejecting h = absurd (omega arith)
  worker_left_zero stopped h = refl

  run-left :
      (es : List (Event S V)) (q : WorkQueue S V)
      → q.closed ≡ true
      → left q ≤ count_works es
      → (run q es).worker ≡ stopped
  unfolding run step shutdown cancel
  run-left [] q shut h = worker_left_zero q.worker (omega arith)
  run-left (submits execute prefer_ctx ∷ es) q shut h =
      ap (λ x. (run x es).worker) (submit-left execute prefer_ctx q shut) ∙ run-left es q shut h
  run-left (shuts_down ∷ es) q shut h = run-left es (shutdown q) refl h
  run-left (cancels id e ∷ es) q shut h = run-left es (cancel id e q) shut h
  run-left (works choice ∷ es) q shut h = elim (work_from-left q.worker choice q shut refl) [
    | inl at ↦ run_stopped es (work choice q) (run_stopped (works choice ∷ []) q at)
    | inr (nearer, still) ↦
        run-left es (work choice q) (unfold work in still) (unfold work in omega arith)
  ]

  pub run-append :
      (es fs : List (Event S V)) (q : WorkQueue S V) → run q (es ++ fs) ≡ run (run q es) fs
  unfolding run
  run-append [] fs q = refl
  run-append (e ∷ es) fs q = run-append es fs (step q e)

  -- From any state that the queue can reach, `Shutdown` brings the worker to its end within `left`
  -- steps of its own, however these are interleaved with those of clients and contexts. By then
  -- every job that was accepted has ended: it ran, was skipped or was refused.
  pub shutdown_drains :
      (size : ℕ) (s : S) (before after : List (Event S V))
      → left (run (new_work_queue size s) (before ++ shuts_down ∷ [])) ≤ count_works after
      → let q = run (new_work_queue size s) (before ++ shuts_down ∷ after) in
        (q.worker ≡ stopped) × (q.jobs ≡ []) × (ended_ids q.ended ≡ upto q.next)
  shutdown_drains size s before after h =
      let start = new_work_queue size s in
      let closed_at = run start (before ++ shuts_down ∷ []) in
      let shut : closed_at.closed ≡ true =
        ap (λ (q : WorkQueue S V). q.closed) (run-append before (shuts_down ∷ []) start)
        ∙ unfold run step shutdown in refl in
      let same : run start (before ++ shuts_down ∷ after) ≡ run closed_at after =
        ap (run start) (sym (append_assoc before (shuts_down ∷ []) after))
        ∙ run-append (before ++ shuts_down ∷ []) after start in
      let done = ap (λ (q : WorkQueue S V). q.worker) same ∙ run-left after closed_at shut h in
      let v = run-Orderly size s (before ++ shuts_down ∷ after) in
      let none_left = v.emptied done in
      (done, none_left, sym (append-nil _) ∙ rw (done, none_left) at v.order)
