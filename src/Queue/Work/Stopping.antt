-- ===== src/Queue/Work/Stopping.antt =====
-- What it means that `Shutdown` returns nil.
use mathlib.Core.List.{append-nil}
use mathlib.Core.Bool.{false≢true}
use gomc_rest.Common.{
  suc, zero, All-snoc, All, ℕ, ◌<◌, ◌≡◌, refl, sym, subst, ◌∙◌, Bool, true, Option, some, List, [],
  ◌∷◌, ◌++◌, ok, arith, Bool-cases, inl, inr,
}
use gomc_rest.Failure.{Error}
use gomc_rest.Queue.Work.Order.{IsOrderly, run-Orderly, ended_ids, upto, IsClosing}
use gomc_rest.Queue.Work.Answers.{IsAnswered, HasAnswer, run-IsAnswered}
use gomc_rest.Queue.Work.Caller.{await_worker, is_stopped, shut_down}
use gomc_rest.Queue.Work.Drain.{run-append}
use gomc_rest.Queue.Work.Rank.{run-HasAnswer}
use gomc_rest.Queue.Work.Serial.{IsBetweenJobs, run-IsFrozen}
use gomc_rest.Queue.Work.{
  Worker, waiting, checking, running, executing, finishing, rejecting, stopped, WorkQueue, Event,
  shuts_down, new_work_queue, shutdown, step, run,
}

All-upto : (n : ℕ) {P : ℕ → Type 0} → ((i : ℕ) → i < n → P i) → All P (upto n)
All-upto zero h = tt
All-upto (suc n) {P} h =
    All-snoc P (upto n) n (All-upto n {P = P} (λ i below. h i (omega arith))) (h n (omega arith))

module _ {S V : Type 0} where
  is_stopped_sound : (w : Worker S V) → is_stopped w ≡ true → w ≡ stopped
  is_stopped_sound waiting e = absurd (false≢true e)
  is_stopped_sound (checking j) e = absurd (false≢true e)
  is_stopped_sound (running j) e = absurd (false≢true e)
  is_stopped_sound (executing j) e = absurd (false≢true e)
  is_stopped_sound (finishing id r) e = absurd (false≢true e)
  is_stopped_sound rejecting e = absurd (false≢true e)
  is_stopped_sound stopped e = refl

  await_worker-nil :
      (ctx : Option Error) (choice : Bool) (q : WorkQueue S V)
      → await_worker ctx choice q ≡ some (ok tt)
      → q.worker ≡ stopped
  unfolding await_worker
  await_worker-nil ctx choice q got = elim (Bool-cases (is_stopped q.worker)) [
    | inl at ↦ is_stopped_sound q.worker at
    | inr other ↦ absurd (ground arith)
  ]

  -- A queue whose worker has ended has ended every job and answered every caller.
  pub record IsDrained (q : WorkQueue S V) : Type 0 where
    pub emptied : q.jobs ≡ []
    pub all_ended : ended_ids q.ended ≡ upto q.next
    pub all_answered : All (HasAnswer q.ctx_err q.results) (upto q.next)

  stopped-IsDrained :
      (q : WorkQueue S V) → IsOrderly q → IsAnswered q → q.worker ≡ stopped → IsDrained q
  unfolding run
  stopped-IsDrained q o v at =
      let none_left = o.emptied at in
      record {
        emptied = none_left;
        all_ended = sym (append-nil _) ∙ rw (at, none_left) at o.order;
        all_answered =
            All-upto q.next λ i below. run-HasAnswer [] i q o v below (rw at (omega arith));
      }

  pub record IsEnded (q : WorkQueue S V) : Type 0 where
    pub at_end : q.worker ≡ stopped
    pub shut : q.closed ≡ true
    pub drained : IsDrained q

  pub shut_down-IsEnded :
      (size : ℕ) (s : S) (before : List (Event S V)) (ctx : Option Error)
      (between : List (Event S V)) (choice : Bool)
      → (shut_down ctx between choice (run (new_work_queue size s) before)).0 ≡ some (ok tt)
      → IsEnded (shut_down ctx between choice (run (new_work_queue size s) before)).1
  unfolding shut_down
  shut_down-IsEnded size s before ctx between choice got =
      let q = run (shutdown (run (new_work_queue size s) before)) between in
      let at = await_worker-nil ctx choice q got in
      let es = before ++ shuts_down ∷ between in
      let whole : run (new_work_queue size s) es ≡ q =
        run-append before (shuts_down ∷ between) (new_work_queue size s)
        ∙ unfold run step in refl in
      let o = subst IsOrderly whole (run-Orderly size s es) in
      record {
        at_end = at;
        shut = o.closing (subst IsClosing (sym at) tt);
        drained = stopped-IsDrained q o (subst IsAnswered whole (run-IsAnswered size s es)) at;
      }

  -- Nothing acts on the state of a queue that has ended, also where `Close` has changed it.
  pub IsEnded-final :
      (q : WorkQueue S V) (s : S) (later : List (Event S V))
      → IsEnded q
      → (run (record q { shared = s }) later).shared ≡ s
  IsEnded-final q s later v =
      (run-IsFrozen later s (record q { shared = s })
        (record {
          shut = v.shut;
          between = subst IsBetweenJobs (sym v.at_end) tt;
          kept = refl;
        })).kept

  -- From any state that the queue can reach, and whatever happens in between: if `Shutdown` returns
  -- nil, no job is left in the channel, every accepted job has ended, each caller has its result or
  -- its context is over, and nothing that happens later changes the state that the jobs share.
  pub shut_down-IsDrained :
      (size : ℕ) (s : S) (before : List (Event S V)) (ctx : Option Error)
      (between : List (Event S V)) (choice : Bool) (later : List (Event S V))
      → (shut_down ctx between choice (run (new_work_queue size s) before)).0 ≡ some (ok tt)
      → let q = (shut_down ctx between choice (run (new_work_queue size s) before)).1 in
        IsDrained q × ((run q later).shared ≡ q.shared)
  shut_down-IsDrained size s before ctx between choice later got =
      let q = (shut_down ctx between choice (run (new_work_queue size s) before)).1 in
      let v = shut_down-IsEnded size s before ctx between choice got in
      (v.drained, IsEnded-final q q.shared later v)
