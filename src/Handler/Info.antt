-- ===== src/Handler/Info.antt =====
-- handler.go: the handlers that report: `handleOpenAPI`, `handleMetrics`, `handleVersion`,
-- `handleInfo` and `handleHealth`, with `gomcprotocolVersion` and `listenAddrs`.
pub mod Listen
use gomc_rest.Common.{ℕ, not, Option, none, some, List, [], ◌∷◌, if◌then◌else◌, ok, err, ◌>>◌}
use gomc_rest.Common.Text.{Text, codes, text_eq}
use gomc_rest.Http.{
  Request, Response, write_json, spec_document, version_document, info_document, metrics_document,
  health_document, Info, zero_average, average,
}
use gomc_rest.Http.Guards.{Guard, require_method, allow_params}
use gomc_rest.Plc.{Net, PlcConfig}
use gomc_rest.Queue.Exec.{PlcQueue, metrics_report}
use gomc_rest.Queue.Ops.{is_connected_queue}
use gomc_rest.Config.{ServerConfig}

-- The guards that the five handlers begin with.
unfoldable pub information_guard : Request → Guard (Unit {0})
information_guard r = do require_method r "GET"; allow_params r []

-- The response of a guard that refuses, and else what the handler reports.
abbrev pub report : Guard (Unit {0}) → Response → Response
report (err refusal) response = refusal
report (ok _) response = response

unfoldable pub handle_openapi : Text → Request → Response
unfolding information_guard
handle_openapi spec r = report (information_guard r) (record {
  status = 200;
  headers = ("Content-Type", "application/yaml; charset=utf-8") ∷ [];
  body = spec_document spec;
})

unfoldable pub handle_version : Text → Request → Response
unfolding information_guard
handle_version version r = report (information_guard r) (write_json 200 (version_document version))

-- `gomcprotocolVersion` on the build info, which the binary may lack: the paths and versions of the
-- modules that it was built from.
unfoldable pub gomcprotocol_version : Option (List (Text × Text)) → Text
gomcprotocol_version none = codes "unknown"
gomcprotocol_version (some []) = codes "unknown"
gomcprotocol_version (some ((path, version) ∷ deps)) =
    let rest = gomcprotocol_version (some deps) in
    if text_eq path (codes "github.com/moge800/gomcprotocol") then version else rest

-- What the handler computes when it is made.
unfoldable pub info_of : ServerConfig → Text → Text → List Text → Info
info_of cfg version mc_version addrs = record {
  version = version;
  gomcprotocol_version = mc_version;
  host = cfg.host;
  port = cfg.port;
  frame = cfg.frame;
  transport = cfg.transport;
  mode = cfg.mode_string;
  listen_addrs = addrs;
  readonly = cfg.readonly;
  enable_remote = cfg.enable_remote;
}

unfoldable pub handle_info : Info → Request → Response
unfolding information_guard
handle_info info r = report (information_guard r) (write_json 200 (info_document info))

module _ {C W : Type 0} where
  -- `queued` is the length of the queue.
  unfoldable pub handle_metrics : ℕ → Request → PlcQueue C W → Response
  unfolding information_guard
  handle_metrics queued r q =
      report (information_guard r)
        (write_json 200 (metrics_document (metrics_report zero_average average queued q)))

  unfoldable pub handle_health : Net C W → PlcConfig → Request → PlcQueue C W → Response
  unfolding information_guard
  handle_health net cfg r q = report (information_guard r) (
      write_json 200 (
        health_document (if not (is_connected_queue net cfg q) then "disconnected" else "ok")
          (is_connected_queue net cfg q)))
