-- ===== src/Queue/Work/Received.antt =====
-- What the second `select` of `Do` takes, and where the log has it.
use mathlib.Core.Option.{some-injective}
use gomc_rest.Common.{
  ℕ, suc, ◌≡◌, refl, sym, ap, subst, ◌∙◌, ◌⊎◌, inl, inr, Bool, some, List, [], ◌∷◌, arith,
  get_elem?, Result, err, Option-cases, Bool-cases, ◌==◌, All,
}
use gomc_rest.Failure.{Error}
use gomc_rest.Queue.Work.Delivery.{Logged, outcome}
use gomc_rest.Queue.Work.Caller.{find_result, receive}
use gomc_rest.Queue.Work.{Job, Ending, WorkQueue}

module _ {S V : Type 0} where
  pub receive_cases :
      (i : ℕ) (choice : Bool) (q : WorkQueue S V) (r : Result Error V)
      → receive i choice q ≡ some r
      → (find_result i q.results ≡ some r) ⊎ ((e : Error) × (r ≡ err e) × (q.ctx_err i ≡ some e))
  unfolding receive
  receive_cases i choice q r got = elim (Option-cases (find_result i q.results)) [
    | inl empty ↦ elim (Option-cases (q.ctx_err i)) [
      | inl live ↦ absurd (ground arith)
      | inr (e, over) ↦ inr (e, sym (some-injective _ _ (sym (ground arith) ∙ got)), over)
    ]
    | inr (x, found) ↦ elim (Option-cases (q.ctx_err i)) [
      | inl live ↦ inl (found ∙ rw (found, live, receive) at got)
      | inr (e, over) ↦ elim (Bool-cases choice) [
        | inl late ↦
            inr (e, sym (some-injective _ _ (rw (found, over, late, receive) at got)), over)
        | inr kept ↦ inl (found ∙ rw (found, over, kept, receive) at got)
      ]
    ]
  ]

  -- A result in the channel is logged for its job.
  pub Logged-place :
      (l : List (Job S V × Ending V)) (x : ℕ × Result Error V)
      → Logged l x
      → (k : ℕ) × (j : Job S V) × (how : Ending V) × (get_elem? l k ≡ some (j, how))
        × (j.id ≡ x.0)
        × (outcome how ≡ x.1)
  Logged-place [] x h = absurd h
  Logged-place ((j, how) ∷ l) x (inl (own, same)) = (0, j, how, refl, own, same)
  Logged-place ((j, how) ∷ l) x (inr later) =
      let (k, j', how', there, own, same) = Logged-place l x later in
      (suc k, j', how', there, own, same)

  pub find_result-Logged :
      (l : List (Job S V × Ending V)) (xs : List (ℕ × Result Error V)) (i : ℕ) (r : Result Error V)
      → All (Logged l) xs
      → find_result i xs ≡ some r
      → Logged l (i, r)
  find_result-Logged l [] i r h found = cc
  find_result-Logged l ((k, r') ∷ xs) i r (p, ps) found = elim (Bool-cases (k == i)) [
    | inl same ↦
        let here : k ≡ i = ground arith in
        let value : r' ≡ r = some-injective _ _ (rw same at found) in
        subst (λ (y : ℕ × Result Error V). Logged l y)
          (ap (λ a. (a, r')) here ∙ ap (λ a. (i, a)) value) p
    | inr other ↦ find_result-Logged l xs i r ps (rw other at found)
  ]
