-- ===== src/Queue/Work/Accepted.antt =====
-- The jobs that the queue has accepted, each at the place of its number, for good.
use mathlib.Core.List.{append_assoc, map-append}
use gomc_rest.Common.{
  length-snoc, ◌≤◌, inr, inl, ◌⊎◌, ℕ, zero, suc, ◌+◌, ◌<◌, ◌≡◌, refl, sym, ap, subst, ◌∙◌, none,
  some, List, [], ◌∷◌, ◌++◌, map, arith, length, length-append, length-map, get_elem?, Result,
}
use gomc_rest.Queue.Work.Order.{step-IsOrderly, IsOrderly, upto, in_hand, ended_ids, queued_ids}
use gomc_rest.Queue.Work.Moves.{
  Move, idles, accepts, closes, ends_context, leaves, takes, starts, turns_away, skips, executes,
  begins, finishes, rejects, stops, step-Move,
}
use native.Mathlib.Decide.{dec_lt}
use gomc_rest.Failure.{Error}
use gomc_rest.Queue.Work.{
  waiting, finishing, rejecting, stopped, Job, Ending, skipped, refused, Worker, checking, running,
  executing, WorkQueue, Event, accept, step, run,
}

module _ {ℓ} {A : Type ℓ} where
  pub get_elem-append :
      (xs ys : List A) (i : ℕ) (x : A) → get_elem? xs i ≡ some x → get_elem? (xs ++ ys) i ≡ some x
  get_elem-append [] ys i x e = cc
  get_elem-append (y ∷ xs) ys zero x e = e
  get_elem-append (y ∷ xs) ys (suc i) x e = get_elem-append xs ys i x e

  pub get_elem-length : (xs ys : List A) (y : A) → get_elem? (xs ++ y ∷ ys) (length xs) ≡ some y
  get_elem-length [] ys y = refl
  get_elem-length (x ∷ xs) ys y = get_elem-length xs ys y

  pub get_elem-below : (xs : List A) (i : ℕ) → i < length xs → (x : A) × (get_elem? xs i ≡ some x)
  get_elem-below [] i h = absurd (omega arith)
  get_elem-below (x ∷ xs) zero h = (x, refl)
  get_elem-below (x ∷ xs) (suc i) h = get_elem-below xs i (omega arith)

pub get_elem-map {ℓ κ} :
    {A : Type ℓ} {B : Type κ} (f : A → B) (xs : List A) (i : ℕ) (x : A)
    → get_elem? xs i ≡ some x
    → get_elem? (map f xs) i ≡ some (f x)
get_elem-map f [] i x e = cc
get_elem-map f (y ∷ xs) zero x e = ap (λ o. elim o [ none ↦ none | some a ↦ some (f a) ]) e
get_elem-map f (y ∷ xs) (suc i) x e = get_elem-map f xs i x e

length-upto : (n : ℕ) → length (upto n) ≡ n
length-upto zero = refl
length-upto (suc n) = omega (arith, length-append (upto n) (n ∷ []), length-upto n)

get_elem-upto : (n i : ℕ) → i < n → get_elem? (upto n) i ≡ some i
get_elem-upto zero i h = absurd (omega arith)
get_elem-upto (suc n) i h = elim (dec_lt i n) [
  | yes below ↦ get_elem-append (upto n) (n ∷ []) i i (get_elem-upto n i below)
  | no other ↦
      let same : i ≡ n = omega arith in
      rw same (
        subst (λ k. get_elem? (upto n ++ n ∷ []) k ≡ some n) (length-upto n)
          (get_elem-length (upto n) [] n))
]

pub get_elem-lt {ℓ} :
    {A : Type ℓ} (xs : List A) (i : ℕ) (x : A) → get_elem? xs i ≡ some x → i < length xs
get_elem-lt [] i x e = cc
get_elem-lt (y ∷ xs) zero x e = omega arith
get_elem-lt (y ∷ xs) (suc i) x e = let below = get_elem-lt xs i x e in omega arith

module _ {S V : Type 0} where
  abbrev pub held : Worker S V → List (Job S V)
  held (checking j) = j ∷ []
  held (running j) = j ∷ []
  held (executing j) = j ∷ []
  held _ = []

  abbrev pub ended_jobs : List (Job S V × Ending V) → List (Job S V)
  ended_jobs = map (λ (x : Job S V × Ending V). x.0)

  -- The jobs that ended, the one in hand and those that wait.
  abbrev pub all_jobs : WorkQueue S V → List (Job S V)
  all_jobs q = ended_jobs q.ended ++ (held q.worker ++ q.jobs)

  held-in_hand : (w : Worker S V) → queued_ids (held w) ≡ in_hand w
  held-in_hand waiting = refl
  held-in_hand (checking j) = refl
  held-in_hand (running j) = refl
  held-in_hand (executing j) = refl
  held-in_hand (finishing id r) = refl
  held-in_hand rejecting = refl
  held-in_hand stopped = refl

  ended_jobs-ids : (l : List (Job S V × Ending V)) → queued_ids (ended_jobs l) ≡ ended_ids l
  ended_jobs-ids [] = refl
  ended_jobs-ids (x ∷ l) = ap (λ r. x.0.id ∷ r) (ended_jobs-ids l)

  all_jobs-ids : (q : WorkQueue S V) → IsOrderly q → queued_ids (all_jobs q) ≡ upto q.next
  all_jobs-ids q v =
      map-append _ (ended_jobs q.ended) (held q.worker ++ q.jobs)
      ∙ rw (ended_jobs-ids q.ended, map-append _ (held q.worker) q.jobs, held-in_hand q.worker)
          v.order

  pub count-all_jobs : (q : WorkQueue S V) → IsOrderly q → length (all_jobs q) ≡ q.next
  count-all_jobs q v = omega (
    arith,
    length-map (λ (j : Job S V). j.id) (all_jobs q),
    length-upto q.next,
    ap length (all_jobs-ids q v),
  )

  -- As many jobs were accepted as are numbered.
  pub length-all_jobs :
      (q : WorkQueue S V)
      → IsOrderly q
      → length q.ended + (length (held q.worker) + length q.jobs) ≡ q.next
  length-all_jobs q v = omega (
    arith,
    length-append (ended_jobs q.ended) (held q.worker ++ q.jobs),
    length-append (held q.worker) q.jobs,
    length-map (λ (x : Job S V × Ending V). x.0) q.ended,
    count-all_jobs q v,
  )

  -- Each stands at the place of its number.
  pub all_jobs-id :
      (q : WorkQueue S V) (i : ℕ) (j : Job S V)
      → IsOrderly q
      → get_elem? (all_jobs q) i ≡ some j
      → j.id ≡ i
  all_jobs-id q i j v e =
      let there = get_elem-map (λ (j : Job S V). j.id) (all_jobs q) i j e in
      let numbered = rw (all_jobs-ids q v) at there in
      let below = get_elem-lt (upto q.next) i j.id numbered in
      let mine = get_elem-upto q.next i (omega (arith, length-upto q.next)) in cc

module _ {S V : Type 0} where
  logged-jobs :
      (l : List (Job S V × Ending V)) (j : Job S V) (how : Ending V) (js : List (Job S V))
      → ended_jobs (l ++ (j, how) ∷ []) ++ js ≡ ended_jobs l ++ j ∷ js
  logged-jobs l j how js =
      ap (λ l. l ++ js) (map-append _ l ((j, how) ∷ [])) ∙ append_assoc (ended_jobs l) (j ∷ []) js

  pub accept-jobs :
      (execute : S → Result Error V × S) (q : WorkQueue S V)
      → all_jobs (accept execute q) ≡ all_jobs q ++ record { id = q.next; execute = execute } ∷ []
  unfolding accept
  accept-jobs execute q =
      ap (λ l. ended_jobs q.ended ++ l) (sym (append_assoc (held q.worker) q.jobs _))
      ∙ sym (append_assoc (ended_jobs q.ended) (held q.worker ++ q.jobs) _)

  Move-jobs :
      (q q' : WorkQueue S V)
      → Move q q'
      → (all_jobs q' ≡ all_jobs q) ⊎ ((j : Job S V) × (all_jobs q' ≡ all_jobs q ++ j ∷ []))
  Move-jobs q q' (idles e) = inl (ap all_jobs e)
  Move-jobs q q' (accepts execute is_open room e) = inr (_, ap all_jobs e ∙ accept-jobs execute q)
  Move-jobs q q' (closes e) = inl (ap all_jobs e)
  Move-jobs q q' (ends_context c kept e) = inl (ap all_jobs e)
  Move-jobs q q' (leaves at shut e) = inl (rw (e, at) refl)
  Move-jobs q q' (takes j js at same e) = inl (rw (e, at, same) refl)
  Move-jobs q q' (starts j at is_open e) = inl (rw (e, at) refl)
  Move-jobs q q' (turns_away j drop at shut e) =
      inl (rw (e, at) (logged-jobs q.ended j refused q.jobs))
  Move-jobs q q' (skips j x at over e) = inl (rw (e, at) (logged-jobs q.ended j (skipped x) q.jobs))
  Move-jobs q q' (begins j at live e) = inl (rw (e, at) refl)
  Move-jobs q q' (executes j at e) = inl (rw (e, at) (logged-jobs q.ended j _ q.jobs))
  Move-jobs q q' (finishes id r drop at e) = inl (rw (e, at) refl)
  Move-jobs q q' (rejects j js drop at same e) =
      inl (rw (e, at, same) (logged-jobs q.ended j refused js))
  Move-jobs q q' (stops at none_left e) = inl (rw (e, at) refl)

  -- An accepted job keeps its place.
  pub run-jobs :
      (es : List (Event S V)) (q : WorkQueue S V) (i : ℕ) (j : Job S V)
      → get_elem? (all_jobs q) i ≡ some j
      → get_elem? (all_jobs (run q es)) i ≡ some j
  unfolding run
  run-jobs [] q i j there = there
  run-jobs (e ∷ es) q i j there =
      run-jobs es (step q e) i j (elim (Move-jobs q (step q e) (step-Move q e)) [
        | inl same ↦ rw same there
        | inr (new, more) ↦ rw more (get_elem-append (all_jobs q) (new ∷ []) i j there)
      ])

  -- The job that comes after those that ended has their count for its number.
  pub next_ending :
      (q : WorkQueue S V) (j : Job S V) (rest : List (Job S V))
      → IsOrderly q
      → held q.worker ++ q.jobs ≡ j ∷ rest
      → j.id ≡ length q.ended
  next_ending q j rest v e = all_jobs-id q (length q.ended) j v (
      subst (λ k. get_elem? (all_jobs q) k ≡ some j)
        (length-map (λ (x : Job S V × Ending V). x.0) q.ended)
        (rw e (get_elem-length (ended_jobs q.ended) rest j)))

  pub step-next : (q : WorkQueue S V) (e : Event S V) → IsOrderly q → q.next ≤ (step q e).next
  step-next q e v =
      let counted = count-all_jobs q v in
      let later = count-all_jobs (step q e) (step-IsOrderly q e v) in
      elim (Move-jobs q (step q e) (step-Move q e)) [
        | inl same ↦ omega (arith, ap length same)
        | inr (new, more) ↦ omega (arith, ap length more, length-snoc (all_jobs q) new)
      ]

  pub run-next :
      (es : List (Event S V)) (q : WorkQueue S V) → IsOrderly q → q.next ≤ (run q es).next
  unfolding run
  run-next [] q v = omega arith
  run-next (e ∷ es) q v =
      omega (arith, step-next q e v, run-next es (step q e) (step-IsOrderly q e v))
