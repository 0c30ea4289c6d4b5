-- ===== src/Queue/Work/Serial.antt =====
-- The jobs run one at a time, in the order of acceptance, and none starts once the queue is closed.
use gomc_rest.Common.{ℕ, ◌≡◌, refl, sym, ◌∙◌, ap, subst, true, List, [], ◌∷◌, ◌++◌}
use mathlib.Core.Bool.{false≢true}
use gomc_rest.Failure.{Error}
use gomc_rest.Queue.Work.Moves.{
  Move, idles, accepts, closes, ends_context, leaves, takes, starts, turns_away, skips, executes,
  begins, finishes, rejects, stops, step-Move,
}
use gomc_rest.Queue.Work.{
  Job, Ending, ran, skipped, refused, Worker, running, executing, WorkQueue, Event, new_work_queue,
  accept, step, run,
}

module _ {S V : Type 0} where
  -- The log takes the state from `s` to `t`: each job that ran acted on what the one before it
  -- left, and its result is the one logged; the others did nothing.
  abbrev pub Explains : List (Job S V × Ending V) → S → S → Type 0
  Explains [] s t = s ≡ t
  Explains ((j, ran r) ∷ l) s t = (r ≡ (j.execute s).0) × Explains l (j.execute s).1 t
  Explains ((j, skipped e) ∷ l) s t = Explains l s t
  Explains ((j, refused) ∷ l) s t = Explains l s t

  Explains-ran :
      (l : List (Job S V × Ending V)) (s t : S) (j : Job S V)
      → Explains l s t
      → Explains (l ++ (j, ran (j.execute t).0) ∷ []) s (j.execute t).1
  Explains-ran [] s t j e = (ap (λ x. (j.execute x).0) (sym e), ap (λ x. (j.execute x).1) e)
  Explains-ran ((i, ran r) ∷ l) s t j (same, rest) = (same, Explains-ran l (i.execute s).1 t j rest)
  Explains-ran ((i, skipped x) ∷ l) s t j rest = Explains-ran l s t j rest
  Explains-ran ((i, refused) ∷ l) s t j rest = Explains-ran l s t j rest

  Explains-skipped :
      (l : List (Job S V × Ending V)) (s t : S) (j : Job S V) (x : Error)
      → Explains l s t
      → Explains (l ++ (j, skipped x) ∷ []) s t
  Explains-skipped [] s t j x e = e
  Explains-skipped ((i, ran r) ∷ l) s t j x (same, rest) =
      (same, Explains-skipped l (i.execute s).1 t j x rest)
  Explains-skipped ((i, skipped y) ∷ l) s t j x rest = Explains-skipped l s t j x rest
  Explains-skipped ((i, refused) ∷ l) s t j x rest = Explains-skipped l s t j x rest

  Explains-refused :
      (l : List (Job S V × Ending V)) (s t : S) (j : Job S V)
      → Explains l s t
      → Explains (l ++ (j, refused) ∷ []) s t
  Explains-refused [] s t j e = e
  Explains-refused ((i, ran r) ∷ l) s t j (same, rest) =
      (same, Explains-refused l (i.execute s).1 t j rest)
  Explains-refused ((i, skipped y) ∷ l) s t j rest = Explains-refused l s t j rest
  Explains-refused ((i, refused) ∷ l) s t j rest = Explains-refused l s t j rest

  Move-Explains :
      (s : S) (q q' : WorkQueue S V)
      → Move q q'
      → Explains q.ended s q.shared
      → Explains q'.ended s q'.shared
  Move-Explains s q q' (idles e) v = rw e v
  Move-Explains s q q' (accepts execute is_open room e) v = rw e (unfold accept in v)
  Move-Explains s q q' (closes e) v = rw e v
  Move-Explains s q q' (ends_context c kept e) v = rw e v
  Move-Explains s q q' (leaves at shut e) v = rw e v
  Move-Explains s q q' (takes j js at same e) v = rw e v
  Move-Explains s q q' (starts j at is_open e) v = rw e v
  Move-Explains s q q' (turns_away j res at shut e) v =
      rw e (Explains-refused q.ended s q.shared j v)
  Move-Explains s q q' (skips j x at over e) v = rw e (Explains-skipped q.ended s q.shared j x v)
  Move-Explains s q q' (begins j at live e) v = rw e v
  Move-Explains s q q' (executes j at e) v = rw e (Explains-ran q.ended s q.shared j v)
  Move-Explains s q q' (finishes id r res at e) v = rw e v
  Move-Explains s q q' (rejects j js res at same e) v =
      rw e (Explains-refused q.ended s q.shared j v)
  Move-Explains s q q' (stops at none_left e) v = rw e v

  pub run-Explains_from :
      (s : S) (es : List (Event S V)) (q : WorkQueue S V)
      → Explains q.ended s q.shared
      → Explains (run q es).ended s (run q es).shared
  unfolding run
  run-Explains_from s [] q v = v
  run-Explains_from s (e ∷ es) q v =
      run-Explains_from s es (step q e) (Move-Explains s q (step q e) (step-Move q e) v)

  -- Whatever the interleaving, the shared state is what the jobs that ran make of the first state
  -- one after the other, in the order in which they ended, and each got the result of its turn.
  pub run-Explains :
      (size : ℕ) (s : S) (es : List (Event S V))
      → Explains (run (new_work_queue size s) es).ended s (run (new_work_queue size s) es).shared
  run-Explains size s es =
      run-Explains_from s es (new_work_queue size s) (unfold new_work_queue in refl)

  abbrev pub IsBetweenJobs : Worker S V → Type 0
  IsBetweenJobs (running j) = ⊥
  IsBetweenJobs (executing j) = ⊥
  IsBetweenJobs _ = Unit

  pub record IsFrozen (s : S) (q : WorkQueue S V) : Type 0 where
    pub shut : q.closed ≡ true
    pub between : IsBetweenJobs q.worker
    pub kept : q.shared ≡ s

  Move-IsFrozen : (s : S) (q q' : WorkQueue S V) → Move q q' → IsFrozen s q → IsFrozen s q'
  Move-IsFrozen s q q' (idles e) v = rw e v
  Move-IsFrozen s q q' (accepts execute is_open room e) v =
      absurd (false≢true (sym is_open ∙ v.shut))
  Move-IsFrozen s q q' (closes e) v =
      rw e (record { shut = refl; between = v.between; kept = v.kept })
  Move-IsFrozen s q q' (ends_context c kept e) v =
      rw e (record { shut = v.shut; between = v.between; kept = v.kept })
  Move-IsFrozen s q q' (leaves at shut e) v =
      rw e (record { shut = v.shut; between = tt; kept = v.kept })
  Move-IsFrozen s q q' (takes j js at same e) v =
      rw e (record { shut = v.shut; between = tt; kept = v.kept })
  Move-IsFrozen s q q' (starts j at is_open e) v = absurd (false≢true (sym is_open ∙ v.shut))
  Move-IsFrozen s q q' (turns_away j res at shut e) v =
      rw e (record { shut = v.shut; between = tt; kept = v.kept })
  Move-IsFrozen s q q' (skips j x at over e) v = absurd (subst IsBetweenJobs at v.between)
  Move-IsFrozen s q q' (begins j at live e) v = absurd (subst IsBetweenJobs at v.between)
  Move-IsFrozen s q q' (executes j at e) v = absurd (subst IsBetweenJobs at v.between)
  Move-IsFrozen s q q' (finishes id r res at e) v =
      rw e (record { shut = v.shut; between = tt; kept = v.kept })
  Move-IsFrozen s q q' (rejects j js res at same e) v =
      rw e (record { shut = v.shut; between = v.between; kept = v.kept })
  Move-IsFrozen s q q' (stops at none_left e) v =
      rw e (record { shut = v.shut; between = tt; kept = v.kept })

  -- Once `Shutdown` has closed the queue and no job is being run, nothing that happens later runs
  -- one: the state that the jobs share stays as it is, and the queue stays closed.
  pub run-IsFrozen :
      (es : List (Event S V)) (s : S) (q : WorkQueue S V) → IsFrozen s q → IsFrozen s (run q es)
  unfolding run
  run-IsFrozen [] s q v = v
  run-IsFrozen (e ∷ es) s q v =
      run-IsFrozen es s (step q e) (Move-IsFrozen s q (step q e) (step-Move q e) v)
