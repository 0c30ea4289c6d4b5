-- ===== src/Queue/Work/Keeping.antt =====
-- What every job keeps holds of the shared state at all times.
use mathlib.Core.Path.{◌≡◌, refl}
use gomc_rest.Common.{
  ℕ, suc, Bool, arith, List, [], ◌∷◌, ◌++◌, All, All-snoc, Result, err, Bool-cases, inl, inr, subst,
}
use mathlib.Core.List.{append_assoc}
use gomc_rest.Failure.{Error, queue_closed}
use gomc_rest.Queue.Work.Accepted.{held}
use gomc_rest.Queue.Work.Moves.{
  Move, idles, accepts, closes, ends_context, leaves, takes, starts, turns_away, skips, executes,
  begins, finishes, rejects, stops, step-Move, deliver-delivered, submit_result,
}
use gomc_rest.Queue.Work.{
  Job, refused, Worker, waiting, checking, running, executing, finishing, rejecting, stopped,
  WorkQueue, Event, submits, shuts_down, cancels, works, new_work_queue, accept, submit, shutdown,
  cancel, deliver, log_end, refuse, at_select, reject_next, run_job, execute_job, work_from, work,
  step, run,
}

module _ {S V : Type 0} where
  deliver-next :
      (id : ℕ) (r : Result Error V) (drop : Bool) (q : WorkQueue S V)
      → (deliver id r drop q).next ≡ q.next
  deliver-next id r drop q = rw (deliver-delivered id r drop q) refl

  at_select-next :
      (js : List (Job S V)) (prefer_done : Bool) (q : WorkQueue S V)
      → (at_select js prefer_done q).next ≡ q.next
  unfolding at_select
  at_select-next [] prefer_done q = ground arith
  at_select-next (j ∷ js) prefer_done q = ground arith

  reject_next-next :
      (js : List (Job S V)) (drop : Bool) (q : WorkQueue S V)
      → (reject_next js drop q).next ≡ q.next
  unfolding reject_next refuse log_end
  reject_next-next [] drop q = refl
  reject_next-next (j ∷ js) drop q =
      deliver-next j.id (err queue_closed) drop (log_end j refused (record q { jobs = js }))

  -- The worker accepts no job.
  work_from-next :
      (w : Worker S V) (choice : Bool) (q : WorkQueue S V) → (work_from w choice q).next ≡ q.next
  unfolding work_from refuse log_end run_job execute_job
  work_from-next waiting choice q = at_select-next q.jobs choice q
  work_from-next (checking j) choice q = elim (Bool-cases q.closed) [
    | inl shut ↦ ground (
      arith,
      deliver-next j.id (err queue_closed) choice
          (log_end j refused (record q { worker = rejecting })),
    )
    | inr is_open ↦ ground arith
  ]
  work_from-next (running j) choice q = ground arith
  work_from-next (executing j) choice q = ground arith
  work_from-next (finishing id r) choice q =
      deliver-next id r choice (record q { worker = waiting })
  work_from-next rejecting choice q = reject_next-next q.jobs choice q
  work_from-next stopped choice q = refl

module _ {S V : Type 0} (P : S → Type 0) where
  -- A job that leaves the state with `P` if it finds it so.
  abbrev pub Keeps : (S → Result Error V × S) → Type 0
  Keeps execute = (s : S) → P s → P (execute s).1

  -- Every job that a schedule submits does.
  abbrev pub AllKeep : List (Event S V) → Type 0
  AllKeep [] = Unit
  AllKeep (submits execute prefer_ctx ∷ es) = Keeps execute × AllKeep es
  AllKeep (_ ∷ es) = AllKeep es

  abbrev JobKeeps : Job S V → Type 0
  JobKeeps j = Keeps j.execute

  record Keeping (q : WorkQueue S V) : Type 0 where
    state : P q.shared
    jobs : All JobKeeps (held q.worker ++ q.jobs)

  accept-Keeping :
      (execute : S → Result Error V × S) (q : WorkQueue S V)
      → Keeps execute
      → Keeping q
      → Keeping (accept execute q)
  unfolding accept
  accept-Keeping execute q k v = record {
    state = v.state;
    jobs = subst (All JobKeeps) (append_assoc (held q.worker) q.jobs _) (
        All-snoc JobKeeps (held q.worker ++ q.jobs) (record { id = q.next; execute = execute })
          v.jobs k);
  }

  Move-Keeping : (q q' : WorkQueue S V) → Move q q' → q'.next ≡ q.next → Keeping q → Keeping q'
  Move-Keeping q q' (idles e) same v = rw e v
  Move-Keeping q q' (accepts execute is_open room e) same v =
      let more : q'.next ≡ suc q.next = rw e (unfold accept in refl) in
      absurd (omega (arith, more, same))
  Move-Keeping q q' (closes e) same v = rw e (record { state = v.state; jobs = v.jobs })
  Move-Keeping q q' (ends_context c kept e) same v =
      rw e (record { state = v.state; jobs = v.jobs })
  Move-Keeping q q' (leaves at shut e) same v =
      rw e (record { state = v.state; jobs = rw at at v.jobs })
  Move-Keeping q q' (takes j js at next e) same v =
      rw e (record { state = v.state; jobs = rw (at, next) at v.jobs })
  Move-Keeping q q' (starts j at is_open e) same v =
      rw e (record { state = v.state; jobs = rw at at v.jobs })
  Move-Keeping q q' (turns_away j drop at shut e) same v =
      rw e (record { state = v.state; jobs = (rw at at v.jobs).1 })
  Move-Keeping q q' (skips j x at over e) same v =
      rw e (record { state = v.state; jobs = (rw at at v.jobs).1 })
  Move-Keeping q q' (begins j at live e) same v =
      rw e (record { state = v.state; jobs = rw at at v.jobs })
  Move-Keeping q q' (executes j at e) same v =
      let mine = rw at at v.jobs in rw e (record { state = mine.0 q.shared v.state; jobs = mine.1 })
  Move-Keeping q q' (finishes id r drop at e) same v =
      rw e (record { state = v.state; jobs = rw at at v.jobs })
  Move-Keeping q q' (rejects j js drop at next e) same v =
      rw e (record { state = v.state; jobs = rw at (rw (at, next) at v.jobs).1 })
  Move-Keeping q q' (stops at none_left e) same v =
      rw e (record { state = v.state; jobs = rw at at v.jobs })

  run-Keeping :
      (es : List (Event S V)) (q : WorkQueue S V) → AllKeep es → Keeping q → Keeping (run q es)
  unfolding run step shutdown cancel work
  run-Keeping [] q k v = v
  run-Keeping (submits execute prefer_ctx ∷ es) q (k, ks) v =
      run-Keeping es (submit execute prefer_ctx q).1 ks (elim (submit_result execute prefer_ctx q) [
        | inl same ↦ rw same v
        | inr (is_open, room, added) ↦ rw added (accept-Keeping execute q k v)
      ])
  run-Keeping (shuts_down ∷ es) q k v =
      run-Keeping es (shutdown q) k (record { state = v.state; jobs = v.jobs })
  run-Keeping (cancels id e ∷ es) q k v =
      run-Keeping es (cancel id e q) k (record { state = v.state; jobs = v.jobs })
  run-Keeping (works choice ∷ es) q k v = run-Keeping es (work choice q) k (
      Move-Keeping q (work choice q) (step-Move q (works choice)) (work_from-next q.worker choice q)
        v)

  -- What holds of the first state and is kept by every job that clients submit holds of the shared
  -- state at all times, whatever the interleaving.
  pub run-keeps :
      (size : ℕ) (s : S) (es : List (Event S V))
      → P s
      → AllKeep es
      → P (run (new_work_queue size s) es).shared
  unfolding new_work_queue
  run-keeps size s es start ks =
      (run-Keeping es (new_work_queue size s) ks (record { state = start; jobs = tt })).state
