-- ===== src/Queue/Work/Log.antt =====
-- What was logged stays logged, and a job whose context is over before the worker's test never runs.
use gomc_rest.Common.{
  arith, ◌≤◌, subst, ap, suc, zero, ℕ, ◌≡◌, refl, sym, ◌∙◌, ◌⊎◌, inl, inr, none, some, List, [],
  ◌∷◌, ◌++◌, length, get_elem?,
}
use gomc_rest.Failure.{Error}
use gomc_rest.Queue.Work.Order.{run-Orderly, IsOrderly, step-IsOrderly}
use gomc_rest.Queue.Work.Accepted.{get_elem-lt, next_ending, get_elem-append}
use gomc_rest.Queue.Work.Moves.{
  Move, idles, accepts, closes, ends_context, leaves, takes, starts, turns_away, skips, executes,
  begins, finishes, rejects, stops, step-Move,
}
use gomc_rest.Queue.Work.{
  executing, Worker, new_work_queue, Job, Ending, ran, skipped, refused, WorkQueue, Event, accept,
  step, run,
}

module _ {V : Type 0} where
  abbrev pub IsRan : Ending V → Type 0
  IsRan (ran r) = Unit
  IsRan _ = ⊥

module _ {S V : Type 0} where
  -- What a move does to the log.
  data Logs (q q' : WorkQueue S V) : Type 0 where
    nothing_new : q'.ended ≡ q.ended → Logs q q'
    one_more :
        (j : Job S V) (how : Ending V)
        → q'.ended ≡ q.ended ++ (j, how) ∷ []
        → j.id ≡ length q.ended
        → (IsRan how → q.worker ≡ executing j)
        → Logs q q'

  Move-Logs : (q q' : WorkQueue S V) → Move q q' → IsOrderly q → Logs q q'
  Move-Logs q q' (idles e) o = nothing_new (rw e refl)
  Move-Logs q q' (accepts execute is_open room e) o = nothing_new (rw e (unfold accept in refl))
  Move-Logs q q' (closes e) o = nothing_new (rw e refl)
  Move-Logs q q' (ends_context c kept e) o = nothing_new (rw e refl)
  Move-Logs q q' (leaves at shut e) o = nothing_new (rw e refl)
  Move-Logs q q' (takes j js at same e) o = nothing_new (rw e refl)
  Move-Logs q q' (starts j at is_open e) o = nothing_new (rw e refl)
  Move-Logs q q' (turns_away j drop at shut e) o =
      one_more j refused (rw e refl) (next_ending q j q.jobs o (rw at refl)) (λ h. absurd h)
  Move-Logs q q' (skips j x at over e) o =
      one_more j (skipped x) (rw e refl) (next_ending q j q.jobs o (rw at refl)) (λ h. absurd h)
  Move-Logs q q' (begins j at live e) o = nothing_new (rw e refl)
  Move-Logs q q' (executes j at e) o =
      one_more j (ran (j.execute q.shared).0) (rw e refl) (next_ending q j q.jobs o (rw at refl))
        (λ _. at)
  Move-Logs q q' (finishes id r drop at e) o = nothing_new (rw e refl)
  Move-Logs q q' (rejects j js drop at same e) o =
      one_more j refused (rw e refl) (next_ending q j js o (rw (at, same) refl)) (λ h. absurd h)
  Move-Logs q q' (stops at none_left e) o = nothing_new (rw e refl)

  -- A context that is over stays over, with the same error.
  Move-ctx_err :
      (q q' : WorkQueue S V) (i : ℕ) (x : Error)
      → Move q q'
      → q.ctx_err i ≡ some x
      → q'.ctx_err i ≡ some x
  unfolding accept
  Move-ctx_err q q' i x (idles e) over = rw e over
  Move-ctx_err q q' i x (accepts execute is_open room e) over = rw e over
  Move-ctx_err q q' i x (closes e) over = rw e over
  Move-ctx_err q q' i x (ends_context c kept e) over = rw e (kept i x over)
  Move-ctx_err q q' i x (leaves at shut e) over = rw e over
  Move-ctx_err q q' i x (takes j js at same e) over = rw e over
  Move-ctx_err q q' i x (starts j at is_open e) over = rw e over
  Move-ctx_err q q' i x (turns_away j drop at shut e) over = rw e over
  Move-ctx_err q q' i x (skips j y at late e) over = rw e over
  Move-ctx_err q q' i x (begins j at live e) over = rw e over
  Move-ctx_err q q' i x (executes j at e) over = rw e over
  Move-ctx_err q q' i x (finishes id r drop at e) over = rw e over
  Move-ctx_err q q' i x (rejects j js drop at same e) over = rw e over
  Move-ctx_err q q' i x (stops at none_left e) over = rw e over

  -- The worker has tested the context of job `i`, so it executes the job whatever its context does.
  abbrev pub IsExecuting : ℕ → Worker S V → Type 0
  IsExecuting i (executing j) = j.id ≡ i
  IsExecuting i _ = ⊥

  Move-unbegun :
      (q q' : WorkQueue S V) (i : ℕ) (x : Error)
      → Move q q'
      → q.ctx_err i ≡ some x
      → ¬ IsExecuting i q.worker
      → ¬ IsExecuting i q'.worker
  unfolding accept
  Move-unbegun q q' i x (idles e) over v = rw e v
  Move-unbegun q q' i x (accepts execute is_open room e) over v = rw e v
  Move-unbegun q q' i x (closes e) over v = rw e v
  Move-unbegun q q' i x (ends_context c kept e) over v = rw e v
  Move-unbegun q q' i x (leaves at shut e) over v = rw e (λ h. h)
  Move-unbegun q q' i x (takes j js at same e) over v = rw e (λ h. h)
  Move-unbegun q q' i x (starts j at is_open e) over v = rw e (λ h. h)
  Move-unbegun q q' i x (turns_away j drop at shut e) over v = rw e (λ h. h)
  Move-unbegun q q' i x (skips j y at late e) over v = rw e (λ h. h)
  Move-unbegun q q' i x (begins j at live e) over v = rw e (λ (mine : j.id ≡ i). cc)
  Move-unbegun q q' i x (executes j at e) over v = rw e (λ h. h)
  Move-unbegun q q' i x (finishes id r drop at e) over v = rw e (λ h. h)
  Move-unbegun q q' i x (rejects j js drop at same e) over v = rw e v
  Move-unbegun q q' i x (stops at none_left e) over v = rw e (λ h. h)

  -- Job `i` has not run and is not being run, and its context is over with the error `x`.
  pub record IsGivenUp (i : ℕ) (x : Error) (q : WorkQueue S V) : Type 0 where
    pub over : q.ctx_err i ≡ some x
    pub idle : (y : Job S V × Ending V) → get_elem? q.ended i ≡ some y → IsRan y.1 → ⊥
    pub unbegun : ¬ IsExecuting i q.worker

  logged_before :
      (l : List (Job S V × Ending V)) (x y : Job S V × Ending V) (i : ℕ)
      → get_elem? (l ++ x ∷ []) i ≡ some y
      → (get_elem? l i ≡ some y) ⊎ ((i ≡ length l) × (x ≡ y))
  logged_before [] x y zero e = inr (refl, ap (λ o. elim o [ none ↦ x | some z ↦ z ]) e)
  logged_before [] x y (suc i) e = cc
  logged_before (z ∷ l) x y zero e = inl e
  logged_before (z ∷ l) x y (suc i) e = elim (logged_before l x y i e) [
    | inl before ↦ inl before
    | inr (last, same) ↦ inr (ap suc last, same)
  ]

  Logs-idle :
      (i : ℕ) (x : Error) (q q' : WorkQueue S V)
      → Logs q q'
      → IsGivenUp i x q
      → (y : Job S V × Ending V) → get_elem? q'.ended i ≡ some y
      → IsRan y.1
      → ⊥
  Logs-idle i x q q' (nothing_new same) v y there happened = v.idle y (rw same at there) happened
  Logs-idle i x q q' (one_more j how more mine live) v y there happened =
      elim (logged_before q.ended (j, how) y i (rw more at there)) [
        | inl before ↦ v.idle y before happened
        | inr (last, same) ↦
            let now = live (subst (λ (z : Job S V × Ending V). IsRan z.1) (sym same) happened) in
            v.unbegun (subst (IsExecuting i) (sym now) (mine ∙ sym last))
      ]

  step-IsGivenUp :
      (i : ℕ) (x : Error) (q : WorkQueue S V) (e : Event S V)
      → IsOrderly q
      → IsGivenUp i x q
      → IsGivenUp i x (step q e)
  step-IsGivenUp i x q e o v = record {
    over = Move-ctx_err q (step q e) i x (step-Move q e) v.over;
    idle = Logs-idle i x q (step q e) (Move-Logs q (step q e) (step-Move q e) o) v;
    unbegun = Move-unbegun q (step q e) i x (step-Move q e) v.over v.unbegun;
  }

  -- A job whose context is over before the worker's test never runs.
  pub run-IsGivenUp :
      (es : List (Event S V)) (i : ℕ) (x : Error) (q : WorkQueue S V)
      → IsOrderly q
      → IsGivenUp i x q
      → IsGivenUp i x (run q es)
  unfolding run
  run-IsGivenUp [] i x q o v = v
  run-IsGivenUp (e ∷ es) i x q o v =
      run-IsGivenUp es i x (step q e) (step-IsOrderly q e o) (step-IsGivenUp i x q e o v)

  -- What was logged stays where it is.
  pub run-ended :
      (es : List (Event S V)) (i : ℕ) (y : Job S V × Ending V) (q : WorkQueue S V)
      → IsOrderly q
      → get_elem? q.ended i ≡ some y
      → get_elem? (run q es).ended i ≡ some y
  unfolding run
  run-ended [] i y q o there = there
  run-ended (e ∷ es) i y q o there =
      run-ended es i y (step q e) (step-IsOrderly q e o)
        (elim (Move-Logs q (step q e) (step-Move q e) o) [
          | nothing_new same ↦ rw same there
          | one_more j how more mine live ↦
              rw more (get_elem-append q.ended ((j, how) ∷ []) i y there)
        ])

  -- From any state that the queue can reach: if the context of a job is over, and the job has not
  -- ended and the worker is not executing it, then it never runs, whatever happens later.
  pub cancelled-never_runs :
      (size : ℕ) (s : S) (es later : List (Event S V)) (i : ℕ) (x : Error) (y : Job S V × Ending V)
      → let q = run (new_work_queue size s) es in
        q.ctx_err i ≡ some x
        → length q.ended ≤ i
        → ¬ IsExecuting i q.worker
        → get_elem? (run q later).ended i ≡ some y
        → ¬ IsRan y.1
  cancelled-never_runs size s es later i x y over early unbegun there =
      let q = run (new_work_queue size s) es in
      let given_up : IsGivenUp i x q = record {
        over = over;
        idle = λ z ended _. let below = get_elem-lt q.ended i z ended in absurd (omega arith);
        unbegun = unbegun;
      } in
      (run-IsGivenUp later i x q (run-Orderly size s es) given_up).idle y there
