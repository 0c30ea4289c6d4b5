-- ===== src/Plc/Tests.antt =====
-- The properties of the PLC layer on the simulated PLC.
use mathlib.Core.Option.{none-ne-some}
use gomc_rest.Plc.Trace.{fresh}
use gomc_rest.Plc.Trace.Kept.{do_plc-IsTraced, IsTraced}
use gomc_rest.Common.{ℕ, refl, false, List, Result}
use gomc_rest.Common.Text.{codes}
use gomc_rest.Failure.{Error, as_conn_wrap}
use gomc_rest.Plc.{close_plc, Env, do_plc, do_reset}
use gomc_rest.Plc.Connection.{IsSettled, do_plc-IsSettled}
use gomc_rest.Plc.Simulator.{SimWorld, sim_net, sim_config, sim_client}

-- A read of D100 over a connection that breaks.
abbrev broken_read : Unit {0} → Env SimWorld → Result Error (List ℕ) × Env SimWorld
broken_read c e =
    let (r, w) = (sim_net false).read_words c (codes "D") 100 1 e.world in
    (r, record e { world = w })

do_plc-IsSettled_example : IsSettled (do_plc (sim_net false) sim_config broken_read sim_client)
do_plc-IsSettled_example =
    do_plc-IsSettled (sim_net false) sim_config broken_read sim_client
      (λ c e. unfold as_conn_wrap in refl)

sim_client-IsTraced : IsTraced (sim_net false) sim_config sim_client
sim_client-IsTraced = record {
  phase = fresh;
  readable = refl;
  at_rest = tt;
  shown = λ c here. absurd (none-ne-some c here);
  counted = refl;
}

do_plc-IsTraced_example :
    IsTraced (sim_net false) sim_config (do_plc (sim_net false) sim_config broken_read sim_client).1
    × IsTraced (sim_net false) sim_config (do_reset (sim_net false) sim_config sim_client).1
    × IsTraced (sim_net false) sim_config (close_plc (sim_net false) sim_config sim_client)
do_plc-IsTraced_example =
    do_plc-IsTraced (sim_net false) sim_config broken_read sim_client sim_client-IsTraced
