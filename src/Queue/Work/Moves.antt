-- ===== src/Queue/Work/Moves.antt =====
-- The moves of the worker and of its clients as a relation, which the code's step functions keep to.
use gomc_rest.Common.{
  ℕ, ◌<◌, ◌≡◌, refl, Bool, true, false, arith, Option, none, some, List, [], ◌∷◌, ◌++◌, length,
  Result, err, Bool-cases, Option-cases, inl, inr, ◌⊎◌, if◌then◌else◌, ◌&&◌,
}
use gomc_rest.Failure.{Error, queue_closed}
use gomc_rest.Queue.Work.{
  Job, ran, skipped, refused, Worker, waiting, checking, running, executing, finishing, rejecting,
  stopped, WorkQueue, Event, submits, shuts_down, cancels, works, accept, submit, shutdown, cancel,
  deliver, log_end, refuse, at_select, reject_next, run_job, execute_job, work_from, work, step,
}

module _ {V : Type 0} where
  -- What delivery makes of the result channels.
  unfoldable pub delivered :
      ℕ
      → Result Error V
      → Bool
      → (ℕ → Option Error)
      → List (ℕ × Result Error V)
      → List (ℕ × Result Error V)
  delivered id r drop ctx_err results = elim (ctx_err id) [
    | none ↦ results ++ (id, r) ∷ []
    | some _ ↦ if drop then results else results ++ (id, r) ∷ []
  ]

module _ {S V : Type 0} where
  -- What may follow a state `q`, each move with its guard.
  pub data Move (q q' : WorkQueue S V) : Type 0 where
    idles : q' ≡ q → Move q q'
    accepts :
        (execute : S → Result Error V × S)
        → q.closed ≡ false
        → length q.jobs < q.capacity
        → q' ≡ accept execute q
        → Move q q'
    closes : q' ≡ record q { closed = true } → Move q q'
    ends_context :
        (c : ℕ → Option Error)
        → ((i : ℕ) (e : Error) → q.ctx_err i ≡ some e → c i ≡ some e)
        → q' ≡ record q { ctx_err = c }
        → Move q q'
    leaves : q.worker ≡ waiting → q.closed ≡ true → q' ≡ record q { worker = rejecting } → Move q q'
    takes :
        (j : Job S V) (js : List (Job S V))
        → q.worker ≡ waiting
        → q.jobs ≡ j ∷ js
        → q' ≡ record q { jobs = js; worker = checking j }
        → Move q q'
    starts :
        (j : Job S V)
        → q.worker ≡ checking j
        → q.closed ≡ false
        → q' ≡ record q { worker = running j }
        → Move q q'
    turns_away :
        (j : Job S V) (drop : Bool)
        → q.worker ≡ checking j
        → q.closed ≡ true
        → q' ≡ record q {
          worker = rejecting;
          ended = q.ended ++ (j, refused) ∷ [];
          results = delivered j.id (err queue_closed) drop q.ctx_err q.results;
        }
        → Move q q'
    skips :
        (j : Job S V) (e : Error)
        → q.worker ≡ running j
        → q.ctx_err j.id ≡ some e
        → q' ≡ record q { worker = finishing j.id (err e); ended = q.ended ++ (j, skipped e) ∷ [] }
        → Move q q'
    begins :
        (j : Job S V)
        → q.worker ≡ running j
        → q.ctx_err j.id ≡ none
        → q' ≡ record q { worker = executing j }
        → Move q q'
    executes :
        (j : Job S V)
        → q.worker ≡ executing j
        → q' ≡ record q {
          worker = finishing j.id (j.execute q.shared).0;
          shared = (j.execute q.shared).1;
          ended = q.ended ++ (j, ran (j.execute q.shared).0) ∷ [];
        }
        → Move q q'
    finishes :
        (id : ℕ) (r : Result Error V) (drop : Bool)
        → q.worker ≡ finishing id r
        → q' ≡ record q { worker = waiting; results = delivered id r drop q.ctx_err q.results }
        → Move q q'
    rejects :
        (j : Job S V) (js : List (Job S V)) (drop : Bool)
        → q.worker ≡ rejecting
        → q.jobs ≡ j ∷ js
        → q' ≡ record q {
          jobs = js;
          ended = q.ended ++ (j, refused) ∷ [];
          results = delivered j.id (err queue_closed) drop q.ctx_err q.results;
        }
        → Move q q'
    stops : q.worker ≡ rejecting → q.jobs ≡ [] → q' ≡ record q { worker = stopped } → Move q q'

  pub deliver-delivered :
      (id : ℕ) (r : Result Error V) (drop : Bool) (q : WorkQueue S V)
      → deliver id r drop q ≡ record q { results = delivered id r drop q.ctx_err q.results }
  unfolding deliver delivered
  deliver-delivered id r drop q = ground arith

  pub submit_result :
      (execute : S → Result Error V × S) (prefer_ctx : Bool) (q : WorkQueue S V)
      → ((submit execute prefer_ctx q).1 ≡ q)
        ⊎ ((q.closed ≡ false)
            × (length q.jobs < q.capacity)
            × ((submit execute prefer_ctx q).1 ≡ accept execute q))
  unfolding submit
  submit_result execute prefer_ctx q = ground arith

  submit-Move :
      (execute : S → Result Error V × S) (prefer_ctx : Bool) (q : WorkQueue S V)
      → Move q (submit execute prefer_ctx q).1
  unfolding submit
  submit-Move execute prefer_ctx q = elim (submit_result execute prefer_ctx q) [
    | inl same ↦ idles same
    | inr (is_open, room, added) ↦ accepts execute is_open room added
  ]

  at_select-Move :
      (js : List (Job S V)) (prefer_done : Bool) (q : WorkQueue S V)
      → q.jobs ≡ js
      → q.worker ≡ waiting
      → Move q (at_select js prefer_done q)
  unfolding at_select
  at_select-Move [] prefer_done q same at = elim (Bool-cases q.closed) [
    | inl shut ↦ leaves at shut (ground arith)
    | inr is_open ↦ idles (ground arith)
  ]
  at_select-Move (j ∷ js) prefer_done q same at = elim (Bool-cases (q.closed && prefer_done)) [
    | inl done ↦ leaves at (ground arith) (ground arith)
    | inr other ↦ takes j js at same (ground arith)
  ]

  reject_next-Move :
      (js : List (Job S V)) (drop : Bool) (q : WorkQueue S V)
      → q.jobs ≡ js
      → q.worker ≡ rejecting
      → Move q (reject_next js drop q)
  unfolding reject_next refuse log_end
  reject_next-Move [] drop q same at = stops at same refl
  reject_next-Move (j ∷ js) drop q same at =
      rejects j js drop at same (deliver-delivered _ _ drop _)

  run_job-Move : (j : Job S V) (q : WorkQueue S V) → q.worker ≡ running j → Move q (run_job j q)
  unfolding run_job log_end
  run_job-Move j q at = elim (Option-cases (q.ctx_err j.id)) [
    | inl live ↦ begins j at live (ground arith)
    | inr (e, over) ↦ skips j e at over (ground arith)
  ]

  work_from-Move :
      (w : Worker S V) (choice : Bool) (q : WorkQueue S V)
      → q.worker ≡ w
      → Move q (work_from w choice q)
  unfolding work_from refuse log_end execute_job
  work_from-Move waiting choice q at = at_select-Move q.jobs choice q refl at
  work_from-Move (checking j) choice q at = elim (Bool-cases q.closed) [
    | inl shut ↦ turns_away j choice at shut (
        ground (
          arith,
          deliver-delivered j.id (err queue_closed) choice
              (log_end j refused (record q { worker = rejecting })),
        ))
    | inr is_open ↦ starts j at is_open (ground arith)
  ]
  work_from-Move (running j) choice q at = run_job-Move j q at
  work_from-Move (executing j) choice q at = executes j at refl
  work_from-Move (finishing id r) choice q at =
      finishes id r choice at (deliver-delivered id r choice _)
  work_from-Move rejecting choice q at = reject_next-Move q.jobs choice q refl at
  work_from-Move stopped choice q at = idles refl

  -- Every step of the code is a move.
  pub step-Move : (q : WorkQueue S V) (e : Event S V) → Move q (step q e)
  unfolding step work shutdown cancel
  step-Move q (submits execute prefer_ctx) = submit-Move execute prefer_ctx q
  step-Move q shuts_down = closes refl
  step-Move q (cancels id e) = ends_context _ (λ i e' over. rw over (ground arith)) refl
  step-Move q (works choice) = work_from-Move q.worker choice q refl
