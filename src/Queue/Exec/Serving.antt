-- ===== src/Queue/Exec/Serving.antt =====
-- A job that ran and whose caller waited for it.
use gomc_rest.Common.{ℕ, ◌≡◌, refl, Result, ok, err, Bool-cases, inl, inr}
use gomc_rest.Failure.{Error, is_deadline_exceeded}
use gomc_rest.Plc.{Client}
use gomc_rest.Queue.Exec.{Turn, served, PlcQueue, count_timeout, do_work, observe, exec}

module _ {C W A : Type 0} where
  observe-conn :
      (waited : ℕ) (r : Result Error A) (p : Client C W) (q : PlcQueue C W)
      → (observe waited r p q).plc.conn ≡ p.conn
  unfolding observe count_timeout
  observe-conn waited (ok a) p q = refl
  observe-conn waited (err e) p q = elim (Bool-cases (is_deadline_exceeded e)) [
    | inl late ↦ rw late refl
    | inr other ↦ rw other refl
  ]

  -- The caller gets the job's result, and the connection is as the job left it.
  pub exec-served :
      (turn : Turn) (fn : Client C W → Result Error A × Client C W) (q : PlcQueue C W)
      → turn.fate ≡ served
      → ((exec turn fn q).0 ≡ (fn q.plc).0) × ((exec turn fn q).1.plc.conn ≡ (fn q.plc).1.conn)
  unfolding exec do_work
  exec-served turn fn q e = rw e (refl, observe-conn turn.waited (fn q.plc).0 (fn q.plc).1 _)
