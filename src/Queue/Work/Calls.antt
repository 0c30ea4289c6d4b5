-- ===== src/Queue/Work/Calls.antt =====
-- A call of `Do` over the concurrent queue, whatever it answers.
use gomc_rest.Queue.Work.Drain.{run-append}
use mathlib.Core.Option.{some-injective, none-ne-some}
use gomc_rest.Common.{
  refl, ℕ, ◌≡◌, sym, subst, ◌∙◌, inl, inr, Bool, Option, none, some, List, [], ◌∷◌, ◌++◌, length,
  get_elem?, Result, err, Option-cases, Bool-cases, arith, true, false, ltb, ◌&&◌, ◌≤◌, ◌⊎◌,
  if◌then◌else◌,
}
use native.Mathlib.Decide.{dec_lt}
use gomc_rest.Failure.{Error, busy, queue_closed}
use gomc_rest.Queue.Work.Delivery.{run-Delivered}
use gomc_rest.Queue.Work.Received.{receive_cases, Logged-place, find_result-Logged}
use gomc_rest.Queue.Work.Caller.{receive, do_job}
use gomc_rest.Queue.Work.Order.{IsOrderly, run-Orderly}
use gomc_rest.Queue.Work.Accepted.{
  all_jobs, ended_jobs, held, all_jobs-id, run-jobs, accept-jobs, count-all_jobs, get_elem-append,
  get_elem-map, get_elem-length, get_elem-below,
}
use gomc_rest.Queue.Work.Log.{run-ended}
use gomc_rest.Queue.Work.Response.{submit-accepted}
use gomc_rest.Queue.Work.Serial.{Explains, run-Explains, run-Explains_from}
use gomc_rest.Queue.Work.Turns.{TakesTurn, Answer, split_turn, Turned-TakesTurn, unlogged-TakesTurn}
use gomc_rest.Queue.Work.{
  Job, Ending, WorkQueue, Event, submits, accept, submit, step, run, new_work_queue,
}

module _ {S V : Type 0} where
  logged-all_jobs :
      (q : WorkQueue S V) (i : ℕ) (y : Job S V × Ending V)
      → get_elem? q.ended i ≡ some y
      → get_elem? (all_jobs q) i ≡ some y.0
  logged-all_jobs q i y logged =
      get_elem-append (ended_jobs q.ended) (held q.worker ++ q.jobs) i y.0
        (get_elem-map (λ (x : Job S V × Ending V). x.0) q.ended i y logged)

  -- An accepted job that has ended, and an answer to its caller.
  ended-TakesTurn :
      (ctx : Option Error) (q : WorkQueue S V) (j : Job S V) (s : S) (r : Result Error V)
      (y : Job S V × Ending V)
      → get_elem? (all_jobs q) j.id ≡ some j
      → get_elem? q.ended j.id ≡ some y
      → Answer ctx y.1 r
      → Explains q.ended s q.shared
      → TakesTurn ctx j r q.ended s q.shared
  ended-TakesTurn ctx q j s r y there logged answer history =
      let mine : y.0 ≡ j = some-injective _ _ (sym (logged-all_jobs q j.id y logged) ∙ there) in
      Turned-TakesTurn ctx q.ended j s q.shared r y.1 answer (
        split_turn q.ended j.id j y.1 s q.shared
          (subst (λ k. get_elem? q.ended j.id ≡ some (k, y.1)) mine logged) history)

  -- A call that the queue accepted as the job `j`, seen at a later time.
  accepted-TakesTurn :
      (size : ℕ) (s : S) (es later : List (Event S V)) (j : Job S V) (choice : Bool)
      (r : Result Error V)
      → let q = run (new_work_queue size s) es in
        get_elem? (all_jobs q) j.id ≡ some j
        → receive j.id choice q ≡ some r
        → TakesTurn (q.ctx_err j.id) j r (run q later).ended s (run q later).shared
  accepted-TakesTurn size s es later j choice r there got =
      let i = j.id in
      let q = run (new_work_queue size s) es in
      let last = run q later in
      let o : IsOrderly q = run-Orderly size s es in
      let history : Explains last.ended s last.shared =
        run-Explains_from s later q (run-Explains size s es) in
      let there' = run-jobs later q i j there in
      elim (receive_cases i choice q r got) [
        | inl found ↦
            let (k, j', how, logged, own, same) =
              Logged-place q.ended (i, r)
                (find_result-Logged q.ended q.results i r (run-Delivered size s es).sent found) in
            let place : k ≡ i =
              sym (all_jobs-id q k j' o (logged-all_jobs q k (j', how) logged)) ∙ own in
            let logged' =
              run-ended later i (j', how) q o
                (subst (λ k. get_elem? q.ended k ≡ some (j', how)) place logged) in
            ended-TakesTurn (q.ctx_err i) last j s r (j', how) there' logged' (inl same) history
        | inr (e, late, over) ↦ elim (dec_lt i (length last.ended)) [
          | yes ended ↦
              let (y, logged) = get_elem-below last.ended i ended in
              ended-TakesTurn (q.ctx_err i) last j s r y there' logged (inr (e, late, over)) history
          | no unlogged ↦
              unlogged-TakesTurn (q.ctx_err i) last.ended j s last.shared r e over (omega arith)
                late history
        ]
      ]

  accepted-place :
      (q : WorkQueue S V) (execute : S → Result Error V × S)
      → IsOrderly q
      → get_elem? (all_jobs (accept execute q)) q.next
        ≡ some (record { id = q.next; execute = execute })
  accepted-place q execute o =
      let mine : Job S V = record { id = q.next; execute = execute } in
      rw (accept-jobs execute q) (
        subst (λ n. get_elem? (all_jobs q ++ mine ∷ []) n ≡ some mine) (count-all_jobs q o)
          (get_elem-length (all_jobs q) [] mine))

  admitted-TakesTurn :
      (size : ℕ) (s : S) (before : List (Event S V)) (execute : S → Result Error V × S)
      (prefer_ctx : Bool) (between : List (Event S V)) (choice : Bool) (later : List (Event S V))
      (r : Result Error V)
      → let q = run (new_work_queue size s) before in
        let last = run (submit execute prefer_ctx q).1 between in
        (submit execute prefer_ctx q).0 ≡ none
        → receive q.next choice last ≡ some r
        → TakesTurn
            (last.ctx_err q.next)
            (record { id = q.next; execute = execute })
            r
            (run last later).ended
            s
            (run last later).shared
  unfolding step run
  admitted-TakesTurn size s before execute prefer_ctx between choice later r admitted got =
      let q = run (new_work_queue size s) before in
      let j : Job S V = record { id = q.next; execute = execute } in
      let es = before ++ submits execute prefer_ctx ∷ between in
      let last = run (submit execute prefer_ctx q).1 between in
      let whole : run (new_work_queue size s) es ≡ last =
        run-append before (submits execute prefer_ctx ∷ between) (new_work_queue size s) in
      let (room, same) = submit-accepted execute prefer_ctx q admitted in
      let placed : get_elem? (all_jobs (submit execute prefer_ctx q).1) q.next ≡ some j =
        rw same (accepted-place q execute (run-Orderly size s before)) in
      let there = run-jobs between (submit execute prefer_ctx q).1 q.next j placed in
      subst
        (λ (p : WorkQueue S V).
          TakesTurn (p.ctx_err j.id) j r (run p later).ended s (run p later).shared)
        whole
        (accepted-TakesTurn size s es later j choice r
          (subst (λ (p : WorkQueue S V). get_elem? (all_jobs p) q.next ≡ some j) (sym whole) there)
          (subst (λ (p : WorkQueue S V). receive q.next choice p ≡ some r) (sym whole) got))

  -- Why `Do` turns a call down at once with the error `e`: its context is over, the queue is closed,
  -- or all places are taken.
  abbrev pub IsRefusal : Option Error → WorkQueue S V → Error → Type 0
  IsRefusal early q e =
      (early ≡ some e)
      ⊎ (((q.closed ≡ true) × (e ≡ queue_closed))
          ⊎ ((q.ctx_err q.next ≡ some e) ⊎ ((q.capacity ≤ length q.jobs) × (e ≡ busy))))

  submit-refused :
      (execute : S → Result Error V × S) (prefer_ctx : Bool) (q : WorkQueue S V) (e : Error)
      → (submit execute prefer_ctx q).0 ≡ some e
      → (submit execute prefer_ctx q).1 ≡ q
  unfolding submit
  submit-refused execute prefer_ctx q e refusal = ground arith

  submit-IsRefusal :
      (early : Option Error) (execute : S → Result Error V × S) (prefer_ctx : Bool)
      (q : WorkQueue S V) (e : Error)
      → (submit execute prefer_ctx q).0 ≡ some e
      → IsRefusal early q e
  unfolding submit
  submit-IsRefusal early execute prefer_ctx q e refusal = elim (Bool-cases q.closed) [
    | inl shut ↦ inr (inl (shut, sym (some-injective _ _ (rw shut at refusal))))
    | inr is_open ↦ elim (Option-cases (q.ctx_err q.next)) [
      | inl live ↦ elim (Bool-cases (ltb (length q.jobs) q.capacity)) [
        | inl room ↦ absurd (none-ne-some _ (rw (is_open, live, room) at refusal))
        | inr full ↦ inr (
            inr
              (inr (ground arith, sym (some-injective _ _ (rw (is_open, live, full) at refusal)))))
      ]
      | inr (x, over) ↦
          elim (Bool-cases
            (ltb (length q.jobs) q.capacity && (if prefer_ctx then false else true))) [
              | inl taken ↦ absurd (none-ne-some _ (rw (is_open, over, taken) at refusal))
              | inr left ↦ inr (inr (inl (over ∙ rw (is_open, over, left) at refusal)))
            ]
    ]
  ]

  -- What `Do` is to the rest of the program. From any state that the queue can reach, a call of `Do`
  -- that returns with the answer `r` is one of two things. Either it was turned down at once: `r` is
  -- the error of its context, of a closed queue or of a full one, whichever was so when it came, and
  -- it left the queue as it was. Or it was accepted: at its return and at every later time the log
  -- and the shared state are as if `do_work` of some fate had been called with the caller's `execute`,
  -- at the job's own place between the jobs of the others. It found the state that those ahead of it
  -- led to, it gave the answer `r`, and those behind it went on from the state that it left. The fate
  -- fits the job's entry in the log, and an answer that is not the one of the entry is the error of
  -- the caller's context at the return; a job without an entry has not acted, and its place is ahead.
  pub do_job-TakesTurn :
      (size : ℕ) (s : S) (before : List (Event S V)) (early : Option Error)
      (execute : S → Result Error V × S) (prefer_ctx : Bool) (between : List (Event S V))
      (choice : Bool) (later : List (Event S V)) (r : Result Error V)
      → let q = run (new_work_queue size s) before in
        let (answer, back) = do_job early execute prefer_ctx between choice q in
        let last = run back later in
        answer ≡ some r
        → ((e : Error) × (r ≡ err e) × IsRefusal early q e × (back ≡ q))
          ⊎ TakesTurn
              (back.ctx_err q.next)
              (record { id = q.next; execute = execute })
              r
              last.ended
              s
              last.shared
  unfolding do_job step run
  do_job-TakesTurn size s before (some e) execute prefer_ctx between choice later r got =
      inl (e, sym (some-injective _ _ got), inl refl, refl)
  do_job-TakesTurn size s before none execute prefer_ctx between choice later r got =
      let q = run (new_work_queue size s) before in
      elim (Option-cases (submit execute prefer_ctx q).0) [
        | inl admitted ↦ inr (
            rw (admitted, do_job)
              (admitted-TakesTurn size s before execute prefer_ctx between choice later r admitted
                (rw (admitted, do_job) at got)))
        | inr (e, refusal) ↦
            let same = submit-refused execute prefer_ctx q e refusal in
            inl (
              e,
              sym (some-injective _ _ (rw (refusal, do_job) at got)),
              submit-IsRefusal none execute prefer_ctx q e refusal,
              rw (refusal, do_job) same,
            )
      ]
