-- ===== src/Server.antt =====
-- main.go: the routes and the handlers around them; and logging.go: `logRequests` and
-- `recoverPanic`. The mux answers other paths itself: `unrouted` is its answer.
pub mod ReadOnly
pub mod Access
pub mod Logs
pub mod Shutdown
pub mod Keeping
pub mod Sound
pub mod Main
mod Tests
use text.Mathlib.Text.{◌==◌}
use gomc_rest.Common.{ℕ, String, Option, none, some, List, ltb, leb, if◌then◌else◌}
use gomc_rest.Common.Text.{Text}
use gomc_rest.Http.{Request, Response}
use gomc_rest.Http.Json.{Decoded}
use gomc_rest.Auth.{require_token}
use gomc_rest.LogQuery.{cap_log_query}
use gomc_rest.Logging.{Level, info, warn, error}
use gomc_rest.Plc.{Net}
use gomc_rest.Queue.Exec.{Turn, PlcQueue}
use gomc_rest.Config.{ServerConfig}
use gomc_rest.Config.Parse.{plc_config}
use gomc_rest.Handler.Info.{
  handle_openapi, handle_version, handle_info, handle_metrics, handle_health, info_of,
}
use gomc_rest.Handler.Read.{handle_read}
use gomc_rest.Handler.Write.{WriteBody, handle_write}
use gomc_rest.Handler.RandomRead.{RandomReadBody, handle_random_read}
use gomc_rest.Handler.RandomWrite.{RandomWriteBody, handle_random_write}
use gomc_rest.Handler.Trace.{random_read_query, random_write_query}
use gomc_rest.Handler.Remote.{
  Endpoint, at_run, at_stop, at_pause, at_latch_clear, at_reset, handle_remote,
}

pub data Route : Type 0 where
  openapi_route version_route info_route metrics_route health_route : Route
  read_route write_route random_read_route random_write_route : Route
  remote_route : Endpoint → Route

-- The pattern of the mux that a path matches.
unfoldable pub route_of : String → Option Route
route_of path =
    if path == "/openapi.yaml"
    then some openapi_route
    else if path == "/version"
    then some version_route
    else if path == "/info"
    then some info_route
    else if path == "/metrics"
    then some metrics_route
    else if path == "/health"
    then some health_route
    else if path == "/read"
    then some read_route
    else if path == "/write"
    then some write_route
    else if path == "/random-read"
    then some random_read_route
    else if path == "/random-write"
    then some random_write_route
    else if path == "/remote/run"
    then some (remote_route at_run)
    else if path == "/remote/stop"
    then some (remote_route at_stop)
    else if path == "/remote/pause"
    then some (remote_route at_pause)
    else if path == "/remote/latch-clear"
    then some (remote_route at_latch_clear)
    else if path == "/remote/reset"
    then some (remote_route at_reset)
    else none

-- What the process starts with, besides its configuration.
pub record Build : Type 0 where
  pub spec : Text
  pub version : Text
  pub mc_version : Text
  pub addrs : List Text
  pub unrouted : Request → Response

-- A request as it comes: the query as it was sent, the client's address, what the body decodes to at
-- each endpoint that has one, what the queue does with its job, and the length of the queue.
pub record Incoming : Type 0 where
  pub request : Request
  pub raw_query : Text
  pub remote : Text
  pub write_body : WriteBody
  pub random_read_body : Decoded RandomReadBody
  pub random_write_body : Decoded RandomWriteBody
  pub turn : Turn
  pub queued : ℕ

-- A record of the request log; the latency is in nanoseconds, and the duration is left out.
pub record RequestLog : Type 0 where
  pub level : Level
  pub remote : Text
  pub method : String
  pub path : String
  pub query : Text
  pub status : ℕ
  pub plc_latency : Option ℕ

-- The level of a request by its status.
unfoldable pub request_level : ℕ → Level
request_level status = if leb 500 status then error else if leb 400 status then warn else info

-- `plcLatencyMs`: no latency was stored, or the stored one.
unfoldable pub plc_latency : ℕ → Option ℕ
plc_latency ns = if ltb 0 ns then some ns else none

-- What a handler works on: the queue, and the query that the request has for the log.
abbrev pub Visit : Type 0 → Type 0 → Type 0
Visit C W = PlcQueue C W × Text

module _ {C W : Type 0} where
  -- The latency cell of the request, which is new.
  unfoldable pub fresh_latency : PlcQueue C W → PlcQueue C W
  fresh_latency q = record q { plc = record (q.plc) { env = record (q.plc.env) { wire_ns = 0 } } }

  unfoldable pub request_log : Incoming → Response → Visit C W → RequestLog
  unfolding request_level plc_latency
  request_log c response (q, query) = record {
    level = request_level response.status;
    remote = c.remote;
    method = c.request.method;
    path = c.request.path;
    query = cap_log_query query;
    status = response.status;
    plc_latency = plc_latency q.plc.env.wire_ns;
  }

module _ {C W : Type 0} (net : Net C W) (cfg : ServerConfig) (build : Build) where
  unfoldable pub run_route : Route → Incoming → Request → PlcQueue C W → Response × PlcQueue C W
  run_route openapi_route c r q = (handle_openapi build.spec r, q)
  run_route version_route c r q = (handle_version build.version r, q)
  run_route info_route c r q =
      (handle_info (info_of cfg build.version build.mc_version build.addrs) r, q)
  run_route metrics_route c r q = (handle_metrics c.queued r q, q)
  run_route health_route c r q = (handle_health net (plc_config cfg) r q, q)
  run_route read_route c r q = handle_read net (plc_config cfg) r c.turn q
  run_route write_route c r q =
      handle_write net (plc_config cfg) cfg.readonly r c.write_body c.turn q
  run_route random_read_route c r q =
      handle_random_read net (plc_config cfg) r c.random_read_body c.turn q
  run_route random_write_route c r q =
      handle_random_write net (plc_config cfg) cfg.readonly r c.random_write_body c.turn q
  run_route (remote_route endpoint) c r q =
      handle_remote net (plc_config cfg) endpoint cfg.readonly cfg.enable_remote r c.turn q

  unfoldable pub query_left : Route → Incoming → Request → Text → Text
  query_left random_read_route c r raw = random_read_query raw r c.random_read_body
  query_left random_write_route c r raw = random_write_query cfg.readonly raw r c.random_write_body
  query_left _ c r raw = raw

  -- The mux.
  unfoldable pub serve_mux : Incoming → Request → Visit C W → Response × Visit C W
  unfolding run_route query_left
  serve_mux c r (q, raw) = elim (route_of r.path) [
    | none ↦ (build.unrouted r, (q, raw))
    | some route ↦
        let (response, q') = run_route route c r q in (response, (q', query_left route c r raw))
  ]

  -- `logRequests(recoverPanic(requireToken(mux, cfg.Token)))`. A handler that panics has given the
  -- answer of `recoverPanic` for its own.
  unfoldable pub serve : Incoming → PlcQueue C W → (Response × RequestLog) × PlcQueue C W
  unfolding serve_mux fresh_latency request_log
  serve c q =
      let (response, visit) =
        require_token (serve_mux c) cfg.token c.request (fresh_latency q, c.raw_query) in
      ((response, request_log c response visit), visit.0)
