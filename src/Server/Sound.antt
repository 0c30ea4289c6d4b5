-- ===== src/Server/Sound.antt =====
-- main.go: what holds of the queue and its client at every moment of a server.
use gomc_rest.Server.Main.{run_server, serve_each, new_plc_queue, new_plc_client}
use gomc_rest.Config.Parse.{plc_config}
use gomc_rest.Config.{ServerConfig}
use gomc_rest.Queue.Ops.{close_queue, initial_connect_queue}
use gomc_rest.Plc.Trace.Kept.{close_plc-IsTraced, initial_connect-IsTraced}
use gomc_rest.Plc.Accounting.{initial_connect-metrics, IsAccounted}
use gomc_rest.Metrics.Window.{empty_ring-IsWellFormed}
use gomc_rest.Metrics.{empty_ring}
use gomc_rest.Common.{arith, List, subst, sym, refl, ◌≡◌}
use gomc_rest.Plc.{close_plc, initial_connect, Client, Net, PlcConfig}
use gomc_rest.Queue.Exec.{PlcQueue}
use gomc_rest.Queue.Ops.Sound.{IsSound, on_plc-IsSound, remote_reset-IsSound}
use gomc_rest.Server.{Incoming, Build, fresh_latency}
use gomc_rest.Server.Keeping.{serve_each_keeps, KeptByOps}

module _ {C W : Type 0} (net : Net C W) (cfg : PlcConfig) where
  fresh_latency-IsSound : (q : PlcQueue C W) → IsSound net cfg q → IsSound net cfg (fresh_latency q)
  unfolding fresh_latency
  fresh_latency-IsSound q v = record {
    reported = record {
      requests = v.reported.requests;
      busy = v.reported.busy;
      timeouts = v.reported.timeouts;
    };
    counted = v.counted;
    consistent = v.consistent;
  }

  KeptByOps-IsSound : KeptByOps net cfg (IsSound net cfg)
  KeptByOps-IsSound = record {
    by_op = on_plc-IsSound net cfg;
    by_reset = remote_reset-IsSound net cfg;
    by_fresh = fresh_latency-IsSound;
  }

  close_queue-IsSound :
      (q : PlcQueue C W) → IsSound net cfg q → IsSound net cfg (close_queue net cfg q)
  unfolding close_queue
  close_queue-IsSound q v =
      let same : (close_plc net cfg q.plc).metrics ≡ q.plc.metrics =
        (initial_connect-metrics net cfg q.plc).1 in
      record {
        reported = record {
          requests = v.reported.requests;
          busy = v.reported.busy;
          timeouts = rw same v.reported.timeouts;
        };
        counted = v.counted;
        consistent = (
          close_plc-IsTraced net cfg q.plc v.consistent.0,
          subst IsAccounted (sym same) v.consistent.1,
        );
      }

  -- A new server, after its first attempt to connect.
  started-IsSound :
      (w : W) → IsSound net cfg (initial_connect_queue net cfg (new_plc_queue (new_plc_client w)))
  unfolding initial_connect_queue new_plc_queue new_plc_client
  started-IsSound w =
      let p : Client C W = new_plc_client w in
      let same : (initial_connect net cfg p).metrics ≡ p.metrics =
        (initial_connect-metrics net cfg p).0 in
      record {
        reported = record { requests = refl; busy = refl; timeouts = rw same refl };
        counted = record { ring = empty_ring-IsWellFormed; all = unfold empty_ring in refl };
        consistent = (
          initial_connect-IsTraced net cfg p refl refl refl,
          subst IsAccounted (sym same) (record {
            ring = empty_ring-IsWellFormed;
            timed = unfold empty_ring in refl;
            errors = omega arith;
          }),
        );
      }

module _ {C W : Type 0} (net : Net C W) (cfg : ServerConfig) (build : Build) where
  -- A server from its start, after any requests, and at its end behind the last `Close`, however the
  -- PLC, the network and the queue fare: `/metrics` reports the requests, the busy ones and the
  -- timeouts that the log shows; each request was busy or has its latency in the buffer; the state log
  -- of the client is one that a reader can follow, which says so where there is a connection, with as
  -- many dials as the metrics count; and the counters of the PLC layer are consistent.
  pub run_server-IsSound :
      (cs : List Incoming) (w : W)
      → let start = initial_connect_queue net (plc_config cfg) (new_plc_queue (new_plc_client w)) in
        IsSound net (plc_config cfg) (serve_each net cfg build cs start).1
        × IsSound net (plc_config cfg) (run_server net cfg build cs w).1
  unfolding run_server
  run_server-IsSound cs w =
      let start = initial_connect_queue net (plc_config cfg) (new_plc_queue (new_plc_client w)) in
      let served =
        serve_each_keeps net cfg build (IsSound net (plc_config cfg))
          (KeptByOps-IsSound net (plc_config cfg)) cs start
          (started-IsSound net (plc_config cfg) w) in
      (
        served,
        close_queue-IsSound net (plc_config cfg) (serve_each net cfg build cs start).1 served,
      )
