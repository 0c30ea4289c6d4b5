-- ===== src/Queue/Ops/Reporting.antt =====
-- What `/metrics` reports of the operations is what their lines in the log show.
use gomc_rest.Plc.{Act, Net, PlcConfig}
use gomc_rest.Plc.Timeouts.{do_plc-timeouts, do_reset-timeouts}
use gomc_rest.Queue.Labels.{Operation}
use gomc_rest.Queue.Exec.{Turn, PlcQueue}
use gomc_rest.Queue.Exec.Logged.{IsReported, exec-IsReported}
use gomc_rest.Queue.Ops.{timed, on_plc, remote_reset}

-- Over every operation, whatever the queue and the PLC make of it: `/metrics` reports as many requests
-- as the log has lines of operations, as many busy ones as lines with the result "busy", and as many
-- timeouts as lines whose error is a deadline.
pub on_plc-IsReported :
    {C W A : Type 0} (net : Net C W) (cfg : PlcConfig) (op : Operation) (turn : Turn)
    (act : C → Act W A) (q : PlcQueue C W)
    → IsReported q
    → IsReported (on_plc net cfg op turn act q).1 × IsReported (remote_reset net cfg turn q).1
unfolding on_plc remote_reset
on_plc-IsReported net cfg op turn act q v = (
  exec-IsReported op turn _ q (do_plc-timeouts net cfg (timed net cfg act)) v,
  exec-IsReported Operation.remote_reset turn _ q (do_reset-timeouts net cfg) v,
)
