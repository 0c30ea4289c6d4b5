-- ===== src/Queue/Work/Delivery.antt =====
-- What lies in the result channels.
use gomc_rest.Common.{
  All-snoc, ℕ, ◌≡◌, refl, ◌⊎◌, inl, inr, Bool, Option, List, [], ◌∷◌, ◌++◌, All, Result, err,
  Option-cases, Bool-cases,
}
use gomc_rest.Failure.{Error, queue_closed}
use gomc_rest.Queue.Work.Moves.{
  Move, idles, accepts, closes, ends_context, leaves, takes, starts, turns_away, skips, executes,
  begins, finishes, rejects, stops, step-Move, delivered,
}
use gomc_rest.Queue.Work.{
  Job, Ending, ran, skipped, refused, Worker, finishing, WorkQueue, Event, new_work_queue, accept,
  step, run,
}

module _ {V : Type 0} where
  -- The result that a caller gets for the end of its job.
  abbrev pub outcome : Ending V → Result Error V
  outcome (ran r) = r
  outcome (skipped e) = err e
  outcome refused = err queue_closed

module _ {S V : Type 0} where
  -- A result is that of the job with its number, which has ended.
  abbrev pub Logged : List (Job S V × Ending V) → ℕ × Result Error V → Type 0
  Logged [] x = ⊥
  Logged ((j, how) ∷ l) x = ((j.id ≡ x.0) × (outcome how ≡ x.1)) ⊎ Logged l x

  Logged-before :
      (l m : List (Job S V × Ending V)) (x : ℕ × Result Error V) → Logged l x → Logged (l ++ m) x
  Logged-before [] m x h = absurd h
  Logged-before ((j, how) ∷ l) m x (inl here) = inl here
  Logged-before ((j, how) ∷ l) m x (inr later) = inr (Logged-before l m x later)

  Logged-last :
      (l : List (Job S V × Ending V)) (j : Job S V) (how : Ending V)
      → Logged (l ++ (j, how) ∷ []) (j.id, outcome how)
  Logged-last [] j how = inl (refl, refl)
  Logged-last ((i, other) ∷ l) j how = inr (Logged-last l j how)

  All-Logged-before :
      (l m : List (Job S V × Ending V)) (xs : List (ℕ × Result Error V))
      → All (Logged l) xs
      → All (Logged (l ++ m)) xs
  All-Logged-before l m [] h = tt
  All-Logged-before l m (x ∷ xs) (p, ps) = (Logged-before l m x p, All-Logged-before l m xs ps)

  delivered-Logged :
      (l : List (Job S V × Ending V)) (id : ℕ) (r : Result Error V) (drop : Bool)
      (ctx : ℕ → Option Error) (xs : List (ℕ × Result Error V))
      → All (Logged l) xs
      → Logged l (id, r)
      → All (Logged l) (delivered id r drop ctx xs)
  unfolding delivered
  delivered-Logged l id r drop ctx xs h p = elim (Option-cases (ctx id)) [
    | inl live ↦ rw (live, delivered) (All-snoc (Logged l) xs (id, r) h p)
    | inr (e, over) ↦ elim (Bool-cases drop) [
      | inl dropped ↦ rw (over, dropped, delivered) h
      | inr kept ↦ rw (over, kept, delivered) (All-snoc (Logged l) xs (id, r) h p)
    ]
  ]

  -- The result in the worker's hand.
  abbrev pub HandLogged : List (Job S V × Ending V) → Worker S V → Type 0
  HandLogged l (finishing id r) = Logged l (id, r)
  HandLogged l _ = Unit

  pub record IsDelivered (q : WorkQueue S V) : Type 0 where
    pub sent : All (Logged q.ended) q.results
    pub in_hand : HandLogged q.ended q.worker

  Move-IsDelivered : (q q' : WorkQueue S V) → Move q q' → IsDelivered q → IsDelivered q'
  Move-IsDelivered q q' (idles e) v = rw e v
  Move-IsDelivered q q' (accepts execute is_open room e) v =
      rw e (record { sent = unfold accept in v.sent; in_hand = unfold accept in v.in_hand })
  Move-IsDelivered q q' (closes e) v = rw e (record { sent = v.sent; in_hand = v.in_hand })
  Move-IsDelivered q q' (ends_context c kept e) v =
      rw e (record { sent = v.sent; in_hand = v.in_hand })
  Move-IsDelivered q q' (leaves at shut e) v = rw e (record { sent = v.sent; in_hand = tt })
  Move-IsDelivered q q' (takes j js at same e) v = rw e (record { sent = v.sent; in_hand = tt })
  Move-IsDelivered q q' (starts j at is_open e) v = rw e (record { sent = v.sent; in_hand = tt })
  Move-IsDelivered q q' (turns_away j drop at shut e) v = rw e (record {
    sent =
        delivered-Logged (q.ended ++ (j, refused) ∷ []) j.id (err queue_closed) drop q.ctx_err
          q.results (All-Logged-before q.ended ((j, refused) ∷ []) q.results v.sent)
          (Logged-last q.ended j refused);
    in_hand = tt;
  })
  Move-IsDelivered q q' (skips j x at over e) v = rw e (record {
    sent = All-Logged-before q.ended ((j, skipped x) ∷ []) q.results v.sent;
    in_hand = Logged-last q.ended j (skipped x);
  })
  Move-IsDelivered q q' (begins j at live e) v = rw e (record { sent = v.sent; in_hand = tt })
  Move-IsDelivered q q' (executes j at e) v = rw e (record {
    sent = All-Logged-before q.ended ((j, ran (j.execute q.shared).0) ∷ []) q.results v.sent;
    in_hand = Logged-last q.ended j (ran (j.execute q.shared).0);
  })
  Move-IsDelivered q q' (finishes id r drop at e) v = rw e (record {
    sent = delivered-Logged q.ended id r drop q.ctx_err q.results v.sent (rw at at v.in_hand);
    in_hand = tt;
  })
  Move-IsDelivered q q' (rejects j js drop at same e) v = rw e (record {
    sent =
        delivered-Logged (q.ended ++ (j, refused) ∷ []) j.id (err queue_closed) drop q.ctx_err
          q.results (All-Logged-before q.ended ((j, refused) ∷ []) q.results v.sent)
          (Logged-last q.ended j refused);
    in_hand = rw at tt;
  })
  Move-IsDelivered q q' (stops at none_left e) v = rw e (record { sent = v.sent; in_hand = tt })

  run-IsDelivered :
      (es : List (Event S V)) (q : WorkQueue S V) → IsDelivered q → IsDelivered (run q es)
  unfolding run
  run-IsDelivered [] q v = v
  run-IsDelivered (e ∷ es) q v =
      run-IsDelivered es (step q e) (Move-IsDelivered q (step q e) (step-Move q e) v)

  -- Whatever the interleaving, each result in a result channel is that of the job that it belongs
  -- to: what its `execute` returned, the error of its context if it was skipped, or that the queue is
  -- closed.
  pub run-Delivered :
      (size : ℕ) (s : S) (es : List (Event S V)) → IsDelivered (run (new_work_queue size s) es)
  run-Delivered size s es =
      run-IsDelivered es (new_work_queue size s)
        (unfold new_work_queue in record { sent = tt; in_hand = tt })
