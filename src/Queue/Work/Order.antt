-- ===== src/Queue/Work/Order.antt =====
-- No job is lost, doubled or overtaken, and the channel holds no more than its capacity.
use mathlib.Core.List.{append_assoc, map-append}
use gomc_rest.Common.{
  ℕ, zero, suc, ◌≤◌, ◌<◌, ◌≡◌, refl, sym, ap, subst, ◌∙◌, Bool, true, false, arith, List, [], ◌∷◌,
  ◌++◌, map, length, length-append, Result,
}
use mathlib.Core.Bool.{false≢true}
use gomc_rest.Failure.{Error}
use gomc_rest.Queue.Work.Moves.{
  Move, idles, accepts, closes, ends_context, leaves, takes, starts, turns_away, skips, executes,
  begins, finishes, rejects, stops, step-Move,
}
use gomc_rest.Queue.Work.{
  Job, Ending, skipped, refused, Worker, checking, running, executing, rejecting, stopped,
  WorkQueue, Event, new_work_queue, accept, step, run,
}

-- The numbers below `n`, in order.
abbrev pub upto : ℕ → List ℕ
upto zero = []
upto (suc n) = upto n ++ n ∷ []

regroup {ℓ} :
    {A : Type ℓ} (xs ys zs ws : List A) → xs ++ (ys ++ (zs ++ ws)) ≡ (xs ++ (ys ++ zs)) ++ ws
regroup xs ys zs ws = simp append_assoc

module _ {S V : Type 0} where
  abbrev pub in_hand : Worker S V → List ℕ
  in_hand (checking j) = j.id ∷ []
  in_hand (running j) = j.id ∷ []
  in_hand (executing j) = j.id ∷ []
  in_hand _ = []

  abbrev pub ended_ids : List (Job S V × Ending V) → List ℕ
  ended_ids = map (λ (x : Job S V × Ending V). x.0.id)

  abbrev pub queued_ids : List (Job S V) → List ℕ
  queued_ids = map (λ (j : Job S V). j.id)

  abbrev pub IsClosing : Worker S V → Type 0
  IsClosing rejecting = Unit
  IsClosing stopped = Unit
  IsClosing _ = ⊥

  -- The jobs that ended, the one in hand and those that wait are, in this order, all that were
  -- accepted; they wait within the capacity, and a worker that has stopped left none behind.
  pub record Orderly (capacity : ℕ) (jobs : List (Job S V)) (closed : Bool) (worker : Worker S V)
      (next : ℕ) (ended : List (Job S V × Ending V)) : Type 0 where
    pub order : ended_ids ended ++ (in_hand worker ++ queued_ids jobs) ≡ upto next
    pub bounded : length jobs ≤ capacity
    pub closing : IsClosing worker → closed ≡ true
    pub emptied : worker ≡ stopped → jobs ≡ []

  abbrev pub IsOrderly : WorkQueue S V → Type 0
  IsOrderly q = Orderly q.capacity q.jobs q.closed q.worker q.next q.ended

  new_work_queue-IsOrderly : (size : ℕ) (s : S) → IsOrderly (new_work_queue size s)
  unfolding new_work_queue
  new_work_queue-IsOrderly size s = record {
    order = refl;
    bounded = omega arith;
    closing = λ h. absurd h;
    emptied = λ _. refl;
  }

  accept-IsOrderly :
      (execute : S → Result Error V × S) (q : WorkQueue S V)
      → IsOrderly q
      → length q.jobs < q.capacity
      → q.closed ≡ false
      → IsOrderly (accept execute q)
  unfolding accept
  accept-IsOrderly execute q v room is_open = record {
    order =
        ap (λ l. ended_ids q.ended ++ (in_hand q.worker ++ l)) (map-append _ q.jobs _)
        ∙ regroup (ended_ids q.ended) (in_hand q.worker) (queued_ids q.jobs) (q.next ∷ [])
        ∙ ap (λ l. l ++ q.next ∷ []) v.order;
    bounded = omega (arith, length-append q.jobs (record { id = q.next; execute = execute } ∷ []));
    closing = v.closing;
    emptied = λ e. absurd (false≢true (sym is_open ∙ v.closing (subst IsClosing (sym e) tt)));
  }

  -- A job that leaves the hand or the queue is logged behind those that ended before.
  logged-order :
      (j : Job S V) (how : Ending V) (ended : List (Job S V × Ending V)) (ids : List ℕ)
      → ended_ids (ended ++ (j, how) ∷ []) ++ ids ≡ ended_ids ended ++ j.id ∷ ids
  logged-order j how ended ids =
      ap (λ l. l ++ ids) (map-append _ ended ((j, how) ∷ []))
      ∙ append_assoc (ended_ids ended) (j.id ∷ []) ids

  Move-IsOrderly : (q q' : WorkQueue S V) → Move q q' → IsOrderly q → IsOrderly q'
  Move-IsOrderly q q' (idles e) v = rw e v
  Move-IsOrderly q q' (accepts execute is_open room e) v =
      rw e (accept-IsOrderly execute q v room is_open)
  Move-IsOrderly q q' (closes e) v =
      rw e
        (record { order = v.order; bounded = v.bounded; closing = λ _. refl; emptied = v.emptied })
  Move-IsOrderly q q' (ends_context c kept e) v =
      rw e
        (record { order = v.order; bounded = v.bounded; closing = v.closing; emptied = v.emptied })
  Move-IsOrderly q q' (leaves at shut e) v = rw e (record {
    order = rw at at v.order;
    bounded = v.bounded;
    closing = λ _. shut;
    emptied = λ e. cc;
  })
  Move-IsOrderly q q' (takes j js at same e) v = rw e (record {
    order = rw (at, same) at v.order;
    bounded = omega (arith, v.bounded, ap length same);
    closing = λ h. absurd h;
    emptied = λ e. cc;
  })
  Move-IsOrderly q q' (starts j at is_open e) v = rw e (record {
    order = rw at at v.order;
    bounded = v.bounded;
    closing = λ h. absurd h;
    emptied = λ e. cc;
  })
  Move-IsOrderly q q' (turns_away j res at shut e) v = rw e (record {
    order = logged-order j refused q.ended (queued_ids q.jobs) ∙ rw at at v.order;
    bounded = v.bounded;
    closing = λ _. shut;
    emptied = λ e. cc;
  })
  Move-IsOrderly q q' (skips j x at over e) v = rw e (record {
    order = logged-order j (skipped x) q.ended (queued_ids q.jobs) ∙ rw at at v.order;
    bounded = v.bounded;
    closing = λ h. absurd h;
    emptied = λ e. cc;
  })
  Move-IsOrderly q q' (begins j at live e) v = rw e (record {
    order = rw at at v.order;
    bounded = v.bounded;
    closing = λ h. absurd h;
    emptied = λ e. cc;
  })
  Move-IsOrderly q q' (executes j at e) v = rw e (record {
    order = logged-order j _ q.ended (queued_ids q.jobs) ∙ rw at at v.order;
    bounded = v.bounded;
    closing = λ h. absurd h;
    emptied = λ e. cc;
  })
  Move-IsOrderly q q' (finishes id r res at e) v = rw e (record {
    order = rw at at v.order;
    bounded = v.bounded;
    closing = λ h. absurd h;
    emptied = λ e. cc;
  })
  Move-IsOrderly q q' (rejects j js res at same e) v = rw e (record {
    order = rw at (logged-order j refused q.ended (queued_ids js) ∙ rw (at, same) at v.order);
    bounded = omega (arith, v.bounded, ap length same);
    closing = v.closing;
    emptied = λ h. cc;
  })
  Move-IsOrderly q q' (stops at none_left e) v = rw e (record {
    order = rw at at v.order;
    bounded = v.bounded;
    closing = λ _. v.closing (subst IsClosing (sym at) tt);
    emptied = λ _. none_left;
  })

  pub step-IsOrderly : (q : WorkQueue S V) (e : Event S V) → IsOrderly q → IsOrderly (step q e)
  step-IsOrderly q e v = Move-IsOrderly q (step q e) (step-Move q e) v

  pub run-IsOrderly :
      (es : List (Event S V)) (q : WorkQueue S V) → IsOrderly q → IsOrderly (run q es)
  unfolding run
  run-IsOrderly [] q v = v
  run-IsOrderly (e ∷ es) q v = run-IsOrderly es (step q e) (step-IsOrderly q e v)

  -- Whatever the clients, the contexts and the worker do, in whatever order: the jobs that ended,
  -- the one in hand and those that wait are, in this order, all the jobs that were accepted; those
  -- that wait are within the capacity; and a worker that has stopped has left none waiting, and
  -- found the queue closed.
  pub run-Orderly :
      (size : ℕ) (s : S) (es : List (Event S V)) → IsOrderly (run (new_work_queue size s) es)
  run-Orderly size s es = run-IsOrderly es (new_work_queue size s) (new_work_queue-IsOrderly size s)
