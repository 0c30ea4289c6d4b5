-- ===== src/Queue/Ops/Serving.antt =====
-- An operation that the PLC answers over an open connection, and whose caller waits.
use gomc_rest.Common.{◌≡◌, ◌∙◌, some, ok, refl}
use gomc_rest.Plc.{Act, Net, PlcConfig, do_plc}
use gomc_rest.Plc.Connection.{do_plc-ok}
use gomc_rest.Queue.Labels.{Operation}
use gomc_rest.Queue.Exec.{log_op, Turn, served, PlcQueue}
use gomc_rest.Queue.Exec.Serving.{exec-served}
use gomc_rest.Queue.Ops.{timed, on_plc}

pub on_plc-served :
    {C W A : Type 0} (net : Net C W) (cfg : PlcConfig) (op : Operation) (turn : Turn)
    (act : C → Act W A) (q : PlcQueue C W) (c : C) {a : A} {w : W}
    → turn.fate ≡ served
    → q.plc.conn ≡ some c
    → act c q.plc.env.world ≡ (ok a, w)
    → (on_plc net cfg op turn act q).0 ≡ ok a
unfolding on_plc timed log_op
on_plc-served net cfg op turn act q c waits live done =
    (exec-served turn (do_plc net cfg (timed net cfg act)) q waits).0
    ∙ do_plc-ok net cfg (timed net cfg act) q.plc c live (rw done refl)
