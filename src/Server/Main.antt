-- ===== src/Server/Main.antt =====
-- main.go: `main` from the arguments to the end; with `newPLCQueue` and the constructor of the
-- client. The requests are served one after the other, as the work queue runs their jobs, up to the
-- signal that stops the server; log lines of its own and the log file's errors are left out.
use gomc_rest.Common.{ℕ, String, Bool, Option, none, List, [], ◌∷◌, Result, ok, err, ◌++◌}
use gomc_rest.Common.Decimal.{itoa}
use gomc_rest.Logging.{Value, text, other_kind, Attr, Record, log_state}
use gomc_rest.Common.Text.{codes, Text}
use gomc_rest.Common.Flags.{help}
use gomc_rest.Http.{Request, Response}
use gomc_rest.Metrics.{empty_ring}
use gomc_rest.Plc.{Net, Client}
use gomc_rest.Queue.Exec.{PlcQueue}
use gomc_rest.Queue.Ops.{initial_connect_queue, close_queue}
use gomc_rest.Config.{ServerConfig, ConfigError, bad_flags}
use gomc_rest.Config.Parse.{parse_config, plc_config}
use gomc_rest.Handler.Info.{gomcprotocol_version}
use gomc_rest.Handler.Info.Listen.{InterfaceAddr, listen_addrs}
use gomc_rest.Server.{Build, Incoming, RequestLog, serve}

-- What surrounds the process: the embedded files and the build info, the interfaces, the package net
-- and the mux.
pub record Machine : Type 0 where
  pub spec : Text
  pub version : Text
  pub build_info : Option (List (Text × Text))
  pub interfaces : Option (List InterfaceAddr)
  pub is_unspecified : Text → Bool
  pub unrouted : Request → Response

unfoldable pub build_of : Machine → ServerConfig → Build
build_of m cfg = record {
  spec = m.spec;
  version = m.version;
  mc_version = gomcprotocol_version m.build_info;
  addrs = listen_addrs m.is_unspecified m.interfaces cfg.listen;
  unrouted = m.unrouted;
}

-- `newConfiguredPLCClient`, in the world `w`; the configuration is `plc_config`.
unfoldable pub new_plc_client : {C W : Type 0} → W → Client C W
new_plc_client w = record {
  conn = none;
  metrics = record {
    requests = 0;
    reconnects = 0;
    timeouts = 0;
    plc_errors = 0;
    total_ns = 0;
    recent = empty_ring;
  };
  env = record { world = w; wire_ns = 0 };
  states = [];
}

unfoldable pub new_plc_queue : {C W : Type 0} → Client C W → PlcQueue C W
new_plc_queue p = record {
  plc = p;
  client = record { requests = 0; busy_count = 0; total_ns = 0; recent = empty_ring };
  ops = [];
}

abbrev pub Answer : Type 0
Answer = Response × RequestLog

-- How the process ends: it has shown its help, it refused its configuration, or it has served.
pub data Exit : Type 0 where
  helped : Exit
  refused : ConfigError → Exit
  served : List Answer → Exit

abbrev pub attr : String → Value → Attr
attr key value = record { key = codes key; value = value }

-- The state event that `main` logs once it serves; values that are no strings have another kind.
unfoldable pub service_started : (run_id version : Text) → ServerConfig → Record
unfolding log_state
service_started run_id version cfg = log_state run_id (codes "service_started") (
    attr "version" (text version)
    ∷ attr "pid" other_kind
    ∷ attr "addr" (text cfg.listen)
    ∷ attr "plc" (text (cfg.host ++ (b':' ∷ itoa cfg.port)))
    ∷ attr "frame" other_kind
    ∷ attr "transport" other_kind
    ∷ attr "mode" (text cfg.mode_string)
    ∷ attr "readonly" other_kind
    ∷ attr "enable_remote" other_kind
    ∷ attr "auth" other_kind
    ∷ attr "log_level" other_kind
    ∷ attr "queue_size" other_kind
    ∷ attr "timeout" other_kind
    ∷ [])

module _ {C W : Type 0} (net : Net C W) where
  unfoldable pub serve_each :
      ServerConfig → Build → List Incoming → PlcQueue C W → List Answer × PlcQueue C W
  serve_each cfg build [] q = ([], q)
  serve_each cfg build (c ∷ cs) q =
      let (answer, q') = serve net cfg build c q in
      let (answers, q'') = serve_each cfg build cs q' in (answer ∷ answers, q'')

  -- From the first connection to the last `Close`.
  unfoldable pub run_server : ServerConfig → Build → List Incoming → W → List Answer × PlcQueue C W
  unfolding new_plc_client new_plc_queue serve_each
  run_server cfg build cs w =
      let start = initial_connect_queue net (plc_config cfg) (new_plc_queue (new_plc_client w)) in
      let (answers, q) = serve_each cfg build cs start in
      (answers, close_queue net (plc_config cfg) q)

  -- What becomes of the configuration, and of the world.
  unfoldable pub run_config :
      Machine → List Incoming → Result ConfigError ServerConfig → W → Exit × W
  unfolding run_server build_of
  run_config m cs (err (bad_flags help)) w = (helped, w)
  run_config m cs (err e) w = (refused e, w)
  run_config m cs (ok cfg) w =
      let (answers, q) = run_server cfg (build_of m cfg) cs w in (served answers, q.plc.env.world)

  unfoldable pub main :
      (ℕ → ℕ → ℕ → ℕ) → List Text → (String → Text) → Machine → List Incoming → W → Exit × W
  unfolding run_config
  main fraction args lookup_env m cs w = run_config m cs (parse_config fraction args lookup_env) w
