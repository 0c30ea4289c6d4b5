-- ===== src/Queue/Ops/Sound.antt =====
-- What the operations keep of the queue and its client, all together.
use gomc_rest.Common.{suc, Result, ok, ◌≡◌}
use gomc_rest.Failure.{Error}
use gomc_rest.Plc.{Act, Net, PlcConfig, Env, Client, do_plc, do_reset}
use gomc_rest.Plc.Accounting.{do_plc-IsAccounted}
use gomc_rest.Plc.Timeouts.{do_plc-timeouts, do_reset-timeouts}
use gomc_rest.Plc.Trace.Kept.{do_plc-IsTraced}
use gomc_rest.Queue.Labels.{Operation}
use gomc_rest.Queue.Exec.{Turn, PlcQueue, exec, log_op}
use gomc_rest.Queue.Exec.Counting.{IsCounted, exec-IsCounted}
use gomc_rest.Queue.Exec.Logged.{IsReported, exec-IsReported}
use gomc_rest.Queue.Exec.Keeping.{exec_keeps}
use gomc_rest.Queue.Ops.{timed, on_plc, remote_reset}
use gomc_rest.Queue.Shared.{IsConsistent}

abbrev nothing : Result Error (Unit {0})
nothing = ok tt

module _ {C W : Type 0} (net : Net C W) (cfg : PlcConfig) where
  -- The metrics report what the log shows of the operations; each request of a client was busy or has
  -- its latency in the buffer; and the client's log and counters are consistent.
  pub record IsSound (q : PlcQueue C W) : Type 0 where
    pub reported : IsReported q
    pub counted : IsCounted q.client
    pub consistent : IsConsistent net cfg q.plc

  late_keeps :
      (p : Client C W)
      → IsConsistent net cfg p
      → IsConsistent net cfg
          (record p { metrics = record (p.metrics) { timeouts = suc p.metrics.timeouts } })
  late_keeps p (traced, accounted) =
      (traced, record { ring = accounted.ring; timed = accounted.timed; errors = accounted.errors })

  do_plc_keeps :
      {A : Type 0} (fn : C → Env W → Result Error A × Env W) (p : Client C W)
      → IsConsistent net cfg p
      → IsConsistent net cfg (do_plc net cfg fn p).1 × IsConsistent net cfg (do_reset net cfg p).1
  do_plc_keeps fn p (traced, accounted) =
      let (t, t', _) = do_plc-IsTraced net cfg fn p traced in
      let (a, a') = do_plc-IsAccounted net cfg fn p accounted in ((t, a), (t', a'))

  -- An operation whose job keeps the client consistent and leaves the count of timeouts to `exec`.
  exec-IsSound :
      {A : Type 0} (op : Operation) (turn : Turn) (fn : Client C W → Result Error A × Client C W)
      (q : PlcQueue C W)
      → ((p : Client C W) → (fn p).1.metrics.timeouts ≡ p.metrics.timeouts)
      → ((p : Client C W) → IsConsistent net cfg p → IsConsistent net cfg (fn p).1)
      → IsSound q
      → IsSound (log_op op (exec turn fn q)).1
  unfolding log_op
  exec-IsSound op turn fn q same keep v = record {
    reported = exec-IsReported op turn fn q same v.reported;
    counted = (exec-IsCounted turn fn q v.counted).0;
    consistent = exec_keeps (IsConsistent net cfg) late_keeps turn fn q keep v.consistent;
  }

  pub on_plc-IsSound :
      {A : Type 0} (op : Operation) (turn : Turn) (act : C → Act W A) (q : PlcQueue C W)
      → IsSound q
      → IsSound (on_plc net cfg op turn act q).1
  unfolding on_plc
  on_plc-IsSound op turn act q =
      exec-IsSound op turn (do_plc net cfg (timed net cfg act)) q
        (do_plc-timeouts net cfg (timed net cfg act))
        (λ p w. (do_plc_keeps (timed net cfg act) p w).0)

  pub remote_reset-IsSound :
      (turn : Turn) (q : PlcQueue C W) → IsSound q → IsSound (remote_reset net cfg turn q).1
  unfolding remote_reset
  remote_reset-IsSound turn q =
      exec-IsSound Operation.remote_reset turn (do_reset net cfg) q (do_reset-timeouts net cfg)
        (λ p w. (do_plc_keeps (λ (c : C) (e : Env W). (nothing, e)) p w).1)
