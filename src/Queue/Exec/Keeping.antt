-- ===== src/Queue/Exec/Keeping.antt =====
-- What a job keeps of the client, `exec` keeps too.
use gomc_rest.Common.{ℕ, suc, Result, ok, err, Bool-cases, inl, inr}
use gomc_rest.Failure.{Error, is_deadline_exceeded}
use gomc_rest.Plc.{Client}
use gomc_rest.Queue.Exec.{
  Turn, Fate, served, turned_down, left_behind, PlcQueue, count_timeout, observe, exec, do_work,
}

module _ {C W A : Type 0} (Q : Client C W → Type 0)
    (late : (p : Client C W)
      → Q p
      → Q (record p { metrics = record (p.metrics) { timeouts = suc p.metrics.timeouts } })) where
  observe_keeps :
      (waited : ℕ) (r : Result Error A) (p : Client C W) (q : PlcQueue C W)
      → Q p
      → Q (observe waited r p q).plc
  unfolding observe count_timeout
  observe_keeps waited (ok a) p q v = v
  observe_keeps waited (err e) p q v = elim (Bool-cases (is_deadline_exceeded e)) [
    | inl over ↦ rw over (late p v)
    | inr other ↦ rw other v
  ]

  do_work_keeps :
      (fate : Fate) (fn : Client C W → Result Error A × Client C W) (p : Client C W)
      → Q p
      → Q (fn p).1
      → Q (do_work fate fn p).1
  unfolding do_work
  do_work_keeps served fn p v w = w
  do_work_keeps (turned_down e) fn p v w = v
  do_work_keeps (left_behind e) fn p v w = w

  pub exec_keeps :
      (turn : Turn) (fn : Client C W → Result Error A × Client C W) (q : PlcQueue C W)
      → ((p : Client C W) → Q p → Q (fn p).1)
      → Q q.plc
      → Q (exec turn fn q).1.plc
  unfolding exec
  exec_keeps turn fn q keep v =
      observe_keeps turn.waited (do_work turn.fate fn q.plc).0 (do_work turn.fate fn q.plc).1 _
        (do_work_keeps turn.fate fn q.plc v (keep q.plc v))
