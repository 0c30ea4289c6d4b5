-- ===== src/Server/Tests.antt =====
-- The program on the simulated PLC: in read-only mode and with a token, its logs and its end.
use gomc_rest.Config.Parse.{plc_config}
use gomc_rest.Queue.Ops.{initial_connect_queue}
use gomc_rest.Queue.Ops.Sound.{IsSound}
use gomc_rest.Server.Sound.{run_server-IsSound}
use gomc_rest.Queue.Shared.{run-IsConsistent, IsPlcJob, IsConsistent}
use gomc_rest.Metrics.Window.{empty_ring-IsWellFormed}
use mathlib.Core.Option.{none-ne-some}
use gomc_rest.Plc.Trace.{fresh}
use gomc_rest.Queue.Work.Caller.{await_worker, shut_down}
use gomc_rest.Common.{
  ◌++◌, inl, ℕ, Result, ap, length, length-append, ◌≡◌, refl, arith, String, none, some, true,
  false, List, [], ◌∷◌,
}
use gomc_rest.Failure.{Error, deadline_exceeded}
use gomc_rest.Plc.{Env, Client, do_plc}
use gomc_rest.Plc.Simulator.{sim_config, sim_client, SimWorld, sim_net}
use gomc_rest.Queue.Work.{
  shuts_down, Event, submits, works, new_work_queue, run, step, submit, work, shutdown,
}
use gomc_rest.Logging.{
  Level, error, reaches, Record, Handler, log_state, log_state_warn, rank, is_state_event,
}
use gomc_rest.Config.{ServerConfig}
use gomc_rest.Server.Logs.{to_file, main_log, main_log-sinks}
use gomc_rest.Server.Shutdown.{end_main}
use gomc_rest.Server.Shutdown.Lines.{
  error_lines, queue_lines, stop_main, stop_main-final, is_logged,
}
use gomc_rest.Common.Int.{pos}
use gomc_rest.Common.Text.{Text, codes, text_eq}
use gomc_rest.Http.{bad_request, addr_required}
use gomc_rest.Http.Json.{int, array, decoded, invalid}
use gomc_rest.Auth.{is_exempt, unauthorized}
use gomc_rest.Auth.Bearer.{IsBearer}
use gomc_rest.Plc.Reading.{with_writes}
use gomc_rest.Queue.Exec.{served, PlcQueue}
use gomc_rest.Metrics.{empty_ring}
use gomc_rest.Config.Sample.{whole, arguments, variables, expected, parsed}
use gomc_rest.Server.{Incoming, serve, fresh_latency}
use gomc_rest.Server.Main.{
  run_server, serve_each, new_plc_client, new_plc_queue, Machine, build_of, main,
}
use gomc_rest.Server.ReadOnly.{main-readonly}
use gomc_rest.Server.Access.{refusal_log, serve-unauthorized}

abbrev incoming : String → String → String → List (String × List String) → Incoming
incoming method path authorization query = record {
  request = record { method = method; path = path; authorization = authorization; query = query };
  raw_query = codes "addr=D100";
  remote = codes "10.0.0.9:4711";
  write_body = decoded (some (array (int (pos 7) ∷ [])));
  random_read_body = invalid;
  random_write_body = invalid;
  turn = record { fate = served; waited = 100 };
  queued = 0;
}

abbrev requests : List Incoming
requests =
    incoming "GET" "/read" "Bearer secret" (("addr", "D100" ∷ []) ∷ [])
    ∷ incoming "POST" "/write" "Bearer secret" (("addr", "D100" ∷ []) ∷ [])
    ∷ incoming "POST" "/remote/stop" "Bearer secret" []
    ∷ []

abbrev machine : Machine
machine = record {
  spec = codes "openapi: 3.0.3";
  version = codes "dev";
  build_info = none;
  interfaces = none;
  is_unspecified = λ host. false;
  unrouted = λ r. bad_request addr_required;
}

abbrev at_start : SimWorld
at_start = record { words = λ a. 0; time = 0 }

main-readonly_example :
    main
      (with_writes (sim_net true) (sim_net false))
      whole
      arguments
      variables
      machine
      requests
      at_start
    ≡ main (sim_net true) whole arguments variables machine requests at_start
main-readonly_example =
    main-readonly (sim_net true) (sim_net false) whole arguments variables machine requests at_start
      expected parsed refl

abbrev stranger : Incoming
stranger = incoming "POST" "/write" "" []

abbrev waiting_queue : PlcQueue (Unit {0}) SimWorld
waiting_queue = record {
  plc = sim_client;
  client = record { requests = 0; busy_count = 0; total_ns = 0; recent = empty_ring };
  ops = [];
}

without_token : ¬ IsBearer [] (codes "secret")
without_token (s, same, whole_header) =
    omega (arith, ap length whole_header, length-append s (codes "secret"))

serve-unauthorized_example :
    serve (sim_net true) expected (build_of machine expected) stranger waiting_queue
    ≡ ((unauthorized, refusal_log stranger), fresh_latency waiting_queue)
serve-unauthorized_example =
    serve-unauthorized (sim_net true) expected (build_of machine expected) stranger waiting_queue
      (unfold text_eq in refl) (unfold is_exempt in refl) without_token

-- Lines with the name of their sink, the latest first.
abbrev lines : Text → Handler Level (List (Text × Text))
lines sink = record {
  enabled = λ threshold level. reaches level threshold;
  handle = λ threshold r o. (some (codes "disk full"), (sink, r.message) ∷ o);
  with_attrs = λ attrs threshold. threshold;
  with_group = λ name threshold. threshold;
}

abbrev connected : Record
connected = log_state (codes "7-1") (codes "PLC connected") []

-- The terminal and the file only take errors.
abbrev quiet : ServerConfig
quiet = record expected { log_file = codes "gomc.log"; log_level = error; log_file_level = error }

main_log-sinks_example :
    (main_log
        (lines (codes "terminal"))
        (lines (codes "file"))
        (λ level. level)
        (λ level. level)
        quiet
        connected
        []
      ≡ (codes "file", codes "PLC connected") ∷ [])
    × (to_file
          (lines (codes "terminal"))
          (lines (codes "file"))
          (λ level. level)
          (λ level. level)
          quiet
          connected
        ≡ true)
    × (to_file
          (lines (codes "terminal"))
          (lines (codes "file"))
          (λ level. level)
          (λ level. level)
          quiet
          (log_state_warn (codes "7-1") (codes "PLC connected") [])
        ≡ true)
unfolding log_state reaches rank is_state_event text_eq
main_log-sinks_example =
    main_log-sinks (lines (codes "terminal")) (lines (codes "file")) (λ level. level)
      (λ level. level) quiet (λ threshold level. refl) (λ threshold level. refl) connected []
      (codes "7-1") (codes "PLC connected") []

-- A job that reads D100.
abbrev read_d100_act : Unit {0} → Env SimWorld → Result Error (List ℕ) × Env SimWorld
read_d100_act c e =
    let (r, w) = (sim_net true).read_words c (codes "D") 100 1 e.world in
    (r, record e { world = w })

abbrev read_d100 : Client (Unit {0}) SimWorld → Result Error (List ℕ) × Client (Unit {0}) SimWorld
read_d100 = do_plc (sim_net true) sim_config read_d100_act

abbrev under_way : List (Event (Client (Unit {0}) SimWorld) (List ℕ))
under_way = submits read_d100 false ∷ works false ∷ works false ∷ []

abbrev last_steps : List (Event (Client (Unit {0}) SimWorld) (List ℕ))
last_steps =
    works false ∷ submits read_d100 true ∷ works true ∷ works true ∷ works true ∷ works true ∷ []

abbrev too_late : List (Event (Client (Unit {0}) SimWorld) (List ℕ))
too_late = submits read_d100 false ∷ works false ∷ works true ∷ []

abbrev stop_lines : List Record
stop_lines =
    (stop_main (sim_net true) sim_config (codes "7-1") (some deadline_exceeded) none last_steps true
      (run (new_work_queue 2 sim_client) under_way)).0

is_stopped_logged : is_logged "service_stopped" stop_lines ≡ true
unfolding is_logged stop_main end_main shut_down await_worker run step new_work_queue submit work
    shutdown text_eq log_state error_lines queue_lines
is_stopped_logged = refl

no_queue_error : is_logged "queue shutdown error" stop_lines ≡ false
unfolding is_logged stop_main end_main shut_down await_worker run step new_work_queue submit work
    shutdown text_eq log_state error_lines queue_lines
no_queue_error = refl

stop_main-final_example :
    let (lines, q) =
      stop_main
        (sim_net true)
        sim_config
        (codes "7-1")
        (some deadline_exceeded)
        none
        last_steps
        true
        (run (new_work_queue 2 sim_client) under_way) in
    (q.shared.conn ≡ none) × ((run q too_late).shared ≡ q.shared)
stop_main-final_example =
    stop_main-final (sim_net true) sim_config 2 sim_client under_way (codes "7-1")
      (some deadline_exceeded) none last_steps true too_late is_stopped_logged no_queue_error

sim_client-IsConsistent : IsConsistent (sim_net true) sim_config sim_client
sim_client-IsConsistent = (
  record {
    phase = fresh;
    readable = refl;
    at_rest = tt;
    shown = λ c here. absurd (none-ne-some c here);
    counted = refl;
  },
  record {
    ring = empty_ring-IsWellFormed;
    timed = unfold empty_ring in refl;
    errors = omega arith;
  },
)

read_d100-IsPlcJob : IsPlcJob (sim_net true) sim_config read_d100
read_d100-IsPlcJob = inl (read_d100_act, λ p. refl)

run-IsConsistent_example :
    IsConsistent
      (sim_net true)
      sim_config
      (run (new_work_queue 2 sim_client) (under_way ++ shuts_down ∷ last_steps)).shared
run-IsConsistent_example =
    run-IsConsistent (sim_net true) sim_config 2 sim_client (under_way ++ shuts_down ∷ last_steps)
      sim_client-IsConsistent (read_d100-IsPlcJob, (read_d100-IsPlcJob, tt))

run_server-IsSound_example :
    let start =
      initial_connect_queue
        (sim_net false)
        (plc_config expected)
        (new_plc_queue (new_plc_client at_start)) in
    IsSound
      (sim_net false)
      (plc_config expected)
      (serve_each (sim_net false) expected (build_of machine expected) requests start).1
    × IsSound
        (sim_net false)
        (plc_config expected)
        (run_server (sim_net false) expected (build_of machine expected) requests at_start).1
run_server-IsSound_example =
    run_server-IsSound (sim_net false) expected (build_of machine expected) requests at_start
