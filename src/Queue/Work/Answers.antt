-- ===== src/Queue/Work/Answers.antt =====
-- Every job that ended has its result in its channel, or a caller whose context is over.
use gomc_rest.Queue.Work.{
  new_work_queue, run, step, accept, Event, WorkQueue, finishing, Worker, refused, skipped, ran,
  Job,
}
use gomc_rest.Queue.Work.Accepted.{next_ending}
use gomc_rest.Queue.Work.Order.{run-Orderly, step-IsOrderly, IsOrderly}
use native.Mathlib.Decide.{dec_lt}
use gomc_rest.Common.{
  length-snoc, err, length-append, length, ◌<◌, ◌-◌, suc, ℕ, ◌≡◌, refl, ◌⊎◌, inl, inr, Bool, Option,
  some, List, [], ◌∷◌, ◌++◌, arith, Result, Bool-cases, Option-cases, ◌==◌,
}
use gomc_rest.Failure.{queue_closed, Error}
use gomc_rest.Queue.Work.Caller.{find_result}
use gomc_rest.Queue.Work.Moves.{
  step-Move, stops, rejects, finishes, executes, begins, skips, turns_away, starts, takes, leaves,
  ends_context, closes, accepts, idles, Move, delivered,
}

module _ {V : Type 0} where
  -- The second `select` of `Do` has something to take.
  abbrev pub HasAnswer : (ℕ → Option Error) → List (ℕ × Result Error V) → ℕ → Type 0
  HasAnswer ctx xs i =
      ((r : Result Error V) × (find_result i xs ≡ some r)) ⊎ ((e : Error) × (ctx i ≡ some e))

  find_result-before :
      (i : ℕ) (xs ys : List (ℕ × Result Error V)) (r : Result Error V)
      → find_result i xs ≡ some r
      → find_result i (xs ++ ys) ≡ some r
  find_result-before i [] ys r e = cc
  find_result-before i ((k, r') ∷ xs) ys r e = elim (Bool-cases (k == i)) [
    | inl same ↦ rw same (rw same at e)
    | inr other ↦ rw other (find_result-before i xs ys r (rw other at e))
  ]

  find_result-last :
      (i : ℕ) (xs : List (ℕ × Result Error V)) (r : Result Error V)
      → (r' : Result Error V) × (find_result i (xs ++ (i, r) ∷ []) ≡ some r')
  find_result-last i [] r = (r, ground arith)
  find_result-last i ((k, r') ∷ xs) r = elim (Bool-cases (k == i)) [
    | inl same ↦ (r', rw same refl)
    | inr other ↦ let (found, e) = find_result-last i xs r in (found, rw other e)
  ]

  HasAnswer-before :
      (ctx : ℕ → Option Error) (xs ys : List (ℕ × Result Error V)) (i : ℕ)
      → HasAnswer ctx xs i
      → HasAnswer ctx (xs ++ ys) i
  HasAnswer-before ctx xs ys i (inl (r, e)) = inl (r, find_result-before i xs ys r e)
  HasAnswer-before ctx xs ys i (inr over) = inr over

  delivered-HasAnswer_before :
      (id : ℕ) (r : Result Error V) (drop : Bool) (ctx : ℕ → Option Error)
      (xs : List (ℕ × Result Error V)) (i : ℕ)
      → HasAnswer ctx xs i
      → HasAnswer ctx (delivered id r drop ctx xs) i
  unfolding delivered
  delivered-HasAnswer_before id r drop ctx xs i h = elim (Option-cases (ctx id)) [
    | inl live ↦ rw (live, delivered) (HasAnswer-before ctx xs ((id, r) ∷ []) i h)
    | inr (e, over) ↦ elim (Bool-cases drop) [
      | inl dropped ↦ rw (over, dropped, delivered) h
      | inr kept ↦ rw (over, kept, delivered) (HasAnswer-before ctx xs ((id, r) ∷ []) i h)
    ]
  ]

  delivered-HasAnswer :
      (id : ℕ) (r : Result Error V) (drop : Bool) (ctx : ℕ → Option Error)
      (xs : List (ℕ × Result Error V))
      → HasAnswer ctx (delivered id r drop ctx xs) id
  unfolding delivered
  delivered-HasAnswer id r drop ctx xs = elim (Option-cases (ctx id)) [
    | inl live ↦ rw (live, delivered) (inl (find_result-last id xs r))
    | inr over ↦ inr over
  ]

module _ {S V : Type 0} where
  -- The jobs that ended, less the one whose result the worker still holds.
  abbrev answered_of : Worker S V → ℕ → ℕ
  answered_of (finishing id r) n = n - 1
  answered_of _ n = n

  abbrev pub answered : WorkQueue S V → ℕ
  answered q = answered_of q.worker (length q.ended)

  -- The result that the worker holds is that of the job that ended last.
  abbrev IsLast : Worker S V → ℕ → Type 0
  IsLast (finishing id r) n = suc id ≡ n
  IsLast _ n = Unit

  pub record IsAnswered (q : WorkQueue S V) : Type 0 where
    pub last : IsLast q.worker (length q.ended)
    pub answers : (i : ℕ) → i < answered q → HasAnswer q.ctx_err q.results i

  -- One more job has ended, and its result was delivered.
  refused-answers :
      (j : Job S V) (drop : Bool) (q : WorkQueue S V) (i : ℕ)
      → j.id ≡ length q.ended
      → ((i : ℕ) → i < length q.ended → HasAnswer q.ctx_err q.results i)
      → i < length (q.ended ++ (j, refused) ∷ [])
      → HasAnswer q.ctx_err (delivered j.id (err queue_closed) drop q.ctx_err q.results) i
  refused-answers j drop q i mine h below = elim (dec_lt i (length q.ended)) [
    | yes before ↦ delivered-HasAnswer_before j.id _ drop q.ctx_err q.results i (h i before)
    | no other ↦
        let same : i ≡ j.id = omega (arith, length-append q.ended ((j, refused) ∷ [])) in
        rw same (delivered-HasAnswer j.id (err queue_closed) drop q.ctx_err q.results)
  ]

  Move-IsAnswered : (q q' : WorkQueue S V) → Move q q' → IsOrderly q → IsAnswered q → IsAnswered q'
  Move-IsAnswered q q' (idles e) o v = rw e v
  Move-IsAnswered q q' (accepts execute is_open room e) o v =
      rw e (record { last = unfold accept in v.last; answers = unfold accept in v.answers })
  Move-IsAnswered q q' (closes e) o v = rw e (record { last = v.last; answers = v.answers })
  Move-IsAnswered q q' (ends_context c kept e) o v = rw e (record {
    last = v.last;
    answers = λ i below. elim (v.answers i below) [
      | inl result ↦ inl result
      | inr (x, over) ↦ inr (x, kept i x over)
    ];
  })
  Move-IsAnswered q q' (leaves at shut e) o v =
      rw e (record { last = tt; answers = rw at at v.answers })
  Move-IsAnswered q q' (takes j js at same e) o v =
      rw e (record { last = tt; answers = rw at at v.answers })
  Move-IsAnswered q q' (starts j at is_open e) o v =
      rw e (record { last = tt; answers = rw at at v.answers })
  Move-IsAnswered q q' (turns_away j drop at shut e) o v = rw e (record {
    last = tt;
    answers = λ i.
        refused-answers j drop q i (next_ending q j q.jobs o (rw at refl)) (rw at at v.answers);
  })
  Move-IsAnswered q q' (skips j x at over e) o v = rw e (record {
    last = omega (arith, length-snoc q.ended (j, skipped x), next_ending q j q.jobs o (rw at refl));
    answers = λ i below.
        (rw at at v.answers) i (omega (arith, below, length-snoc q.ended (j, skipped x)));
  })
  Move-IsAnswered q q' (begins j at live e) o v =
      rw e (record { last = tt; answers = rw at at v.answers })
  Move-IsAnswered q q' (executes j at e) o v = rw e (record {
    last = omega (arith, length-snoc q.ended (j, ran _), next_ending q j q.jobs o (rw at refl));
    answers = λ i below.
        (rw at at v.answers) i
          (omega (arith, below, length-snoc q.ended (j, ran (j.execute q.shared).0)));
  })
  Move-IsAnswered q q' (finishes id r drop at e) o v = rw e (record {
    last = tt;
    answers = λ i below.
        let newest : suc id ≡ length q.ended = rw at at v.last in
        let before : (i : ℕ) → i < length q.ended - 1 → HasAnswer q.ctx_err q.results i =
          rw at at v.answers in
        elim (dec_lt i id) [
          | yes older ↦
              delivered-HasAnswer_before id r drop q.ctx_err q.results i (before i (omega arith))
          | no other ↦
              let same : i ≡ id = omega arith in
              rw same (delivered-HasAnswer id r drop q.ctx_err q.results)
        ];
  })
  Move-IsAnswered q q' (rejects j js drop at same e) o v = rw e (record {
    last = rw at tt;
    answers = rw at λ i.
        refused-answers j drop q i (next_ending q j js o (rw (at, same) refl)) (rw at at v.answers);
  })
  Move-IsAnswered q q' (stops at none_left e) o v =
      rw e (record { last = tt; answers = rw at at v.answers })

  pub step-IsAnswered :
      (q : WorkQueue S V) (e : Event S V) → IsOrderly q → IsAnswered q → IsAnswered (step q e)
  step-IsAnswered q e o v = Move-IsAnswered q (step q e) (step-Move q e) o v

  pub run-IsAnswered_from :
      (es : List (Event S V)) (q : WorkQueue S V)
      → IsOrderly q
      → IsAnswered q
      → IsAnswered (run q es)
  unfolding run
  run-IsAnswered_from [] q o v = v
  run-IsAnswered_from (e ∷ es) q o v =
      run-IsAnswered_from es (step q e) (step-IsOrderly q e o) (step-IsAnswered q e o v)

  -- Whatever the interleaving, every job that ended, but for one whose result the worker holds, has
  -- its result in its channel, or its context is over: its caller need not wait.
  pub run-IsAnswered :
      (size : ℕ) (s : S) (es : List (Event S V)) → IsAnswered (run (new_work_queue size s) es)
  unfolding new_work_queue run
  run-IsAnswered size s es =
      run-IsAnswered_from es (new_work_queue size s) (run-Orderly size s [])
        (record { last = tt; answers = λ i below. absurd (omega arith) })
