-- ===== src/Queue/Work/Tests.antt =====
-- The properties of the work queue on a short run: two jobs that count.
use gomc_rest.Queue.Work.Stopping.{shut_down-IsDrained, IsDrained}
use gomc_rest.Queue.Work.Log.{IsExecuting, cancelled-never_runs, IsRan}
use gomc_rest.Queue.Work.Turns.{TakesTurn}
use gomc_rest.Queue.Work.Calls.{IsRefusal, do_job-TakesTurn}
use gomc_rest.Queue.Work.Response.{do_job-answers}
use gomc_rest.Queue.Work.Caller.{await_worker, shut_down, receive, do_job}
use gomc_rest.Common.{
  ◌⊎◌, get_elem?, length, err, some, none, ℕ, suc, ◌≤◌, ◌≡◌, refl, arith, true, false, List, [],
  ◌∷◌, ◌++◌, Result, ok,
}
use gomc_rest.Failure.{Error, canceled}
use gomc_rest.Queue.Work.{
  skipped, Ending, Job, cancel, Event, submits, shuts_down, cancels, works, stopped, new_work_queue,
  run, step, submit, work, shutdown, accept, work_from, at_select, run_job, execute_job, log_end,
  deliver, reject_next, refuse,
}
use gomc_rest.Queue.Work.Order.{IsOrderly, run-Orderly, ended_ids, upto}
use gomc_rest.Queue.Work.Serial.{Explains, run-Explains, IsFrozen, run-IsFrozen}
use gomc_rest.Queue.Work.Drain.{left, count_works, shutdown_drains}

abbrev tick : ℕ → Result Error ℕ × ℕ
tick s = (ok s, suc s)

abbrev opening : List (Event ℕ ℕ)
opening =
    submits tick false
    ∷ works false
    ∷ submits tick false
    ∷ works false
    ∷ works false
    ∷ works false
    ∷ []

abbrev closing_time : List (Event ℕ ℕ)
closing_time =
    works false ∷ submits tick true ∷ works true ∷ works false ∷ works true ∷ works false ∷ []

run-Orderly_example : IsOrderly (run (new_work_queue 2 5) (opening ++ shuts_down ∷ closing_time))
run-Orderly_example = run-Orderly 2 5 (opening ++ shuts_down ∷ closing_time)

run-Explains_example :
    Explains
      (run (new_work_queue 2 5) (cancels 1 canceled ∷ opening)).ended
      5
      (run (new_work_queue 2 5) (cancels 1 canceled ∷ opening)).shared
run-Explains_example = run-Explains 2 5 (cancels 1 canceled ∷ opening)

shut_queue-IsFrozen : IsFrozen {S = ℕ} 5 (shutdown (new_work_queue {S = ℕ} {V = ℕ} 2 5))
unfolding shutdown new_work_queue
shut_queue-IsFrozen = record { shut = refl; between = tt; kept = refl }

run-IsFrozen_example : IsFrozen {S = ℕ} 5 (run (shutdown (new_work_queue 2 5)) opening)
run-IsFrozen_example = run-IsFrozen opening 5 (shutdown (new_work_queue 2 5)) shut_queue-IsFrozen

enough_turns :
    left (run (new_work_queue 2 5) (opening ++ shuts_down ∷ [])) ≤ count_works closing_time
unfolding run step new_work_queue submit work shutdown accept work_from at_select run_job
    execute_job log_end deliver reject_next refuse
enough_turns = ground arith

shutdown_drains_example :
    let q = run (new_work_queue 2 5) (opening ++ shuts_down ∷ closing_time) in
    (q.worker ≡ stopped) × (q.jobs ≡ []) × (ended_ids q.ended ≡ upto q.next)
shutdown_drains_example = shutdown_drains 2 5 opening closing_time enough_turns

-- Enough steps for a queue of two.
abbrev patience : List (Event ℕ ℕ)
patience =
    works false
    ∷ works false
    ∷ works false
    ∷ works false
    ∷ works true
    ∷ works false
    ∷ works false
    ∷ works true
    ∷ works false
    ∷ works false
    ∷ works true
    ∷ works false
    ∷ works false
    ∷ works false
    ∷ []

do_job-answers_example :
    (r : Result Error ℕ) × ((do_job none tick false patience true
        (run (new_work_queue 2 5) opening)).0
      ≡ some r)
do_job-answers_example = do_job-answers 2 5 opening none tick false patience true (omega arith)

third_answer :
    (do_job none tick false patience true (run (new_work_queue 2 5) opening)).0 ≡ some (ok 7)
unfolding do_job receive run step new_work_queue submit work shutdown accept work_from at_select
    run_job execute_job log_end deliver reject_next refuse
third_answer = refl

abbrev the_answer : Result Error ℕ
the_answer = ok 7

do_job-TakesTurn_example :
    let q = run (new_work_queue 2 5) opening in
    let back = (do_job none tick false patience true q).1 in
    let last = run back closing_time in
    ((e : Error) × (the_answer ≡ err e) × IsRefusal none q e × (back ≡ q))
    ⊎ TakesTurn
        (back.ctx_err q.next)
        (record { id = q.next; execute = tick })
        (ok 7)
        last.ended
        5
        last.shared
do_job-TakesTurn_example =
    do_job-TakesTurn 2 5 opening none tick false patience true closing_time (ok 7) third_answer

-- A caller that leaves before its turn: its job never runs.
abbrev impatience : List (Event ℕ ℕ)
impatience = cancels 2 canceled ∷ []

left_answer :
    (do_job none tick false impatience true (run (new_work_queue 2 5) opening)).0
    ≡ some (err canceled)
unfolding do_job receive run step new_work_queue submit work shutdown accept work_from at_select
    run_job execute_job log_end deliver reject_next refuse cancel
left_answer = refl

left_state :
    (run
      (do_job none tick false impatience true (run (new_work_queue 2 5) opening)).1
      patience).shared
    ≡ 7
unfolding do_job receive run step new_work_queue submit work shutdown accept work_from at_select
    run_job execute_job log_end deliver reject_next refuse cancel
left_state = refl

abbrev given_up : List (Event ℕ ℕ)
given_up = opening ++ submits tick false ∷ cancels 2 canceled ∷ []

abbrev third : Job ℕ ℕ × Ending ℕ
third = (record { id = 2; execute = tick }, skipped canceled)

third_over : (run (new_work_queue 2 5) given_up).ctx_err 2 ≡ some canceled
unfolding run step new_work_queue submit work shutdown accept work_from at_select run_job
    execute_job log_end deliver reject_next refuse cancel
third_over = refl

third_early : length (run (new_work_queue 2 5) given_up).ended ≤ 2
unfolding run step new_work_queue submit work shutdown accept work_from at_select run_job
    execute_job log_end deliver reject_next refuse cancel
third_early = omega arith

third_there : get_elem? (run (run (new_work_queue 2 5) given_up) patience).ended 2 ≡ some third
unfolding run step new_work_queue submit work shutdown accept work_from at_select run_job
    execute_job log_end deliver reject_next refuse cancel
third_there = refl

third_unbegun : ¬ IsExecuting 2 (run (new_work_queue 2 5) given_up).worker
unfolding run step new_work_queue submit work shutdown accept work_from at_select run_job
    execute_job log_end deliver reject_next refuse cancel
third_unbegun = λ h. h

cancelled-never_runs_example : ¬ IsRan third.1
cancelled-never_runs_example =
    cancelled-never_runs 2 5 given_up patience 2 canceled third third_over third_early third_unbegun
      third_there

nil_answer : (shut_down none closing_time true (run (new_work_queue 2 5) opening)).0 ≡ some (ok tt)
unfolding shut_down await_worker run step new_work_queue submit work shutdown accept work_from
    at_select run_job execute_job log_end deliver reject_next refuse
nil_answer = refl

shut_down-IsDrained_example :
    let q = (shut_down none closing_time true (run (new_work_queue 2 5) opening)).1 in
    IsDrained q × ((run q patience).shared ≡ q.shared)
shut_down-IsDrained_example =
    shut_down-IsDrained 2 5 opening none closing_time true patience nil_answer
