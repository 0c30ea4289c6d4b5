-- ===== src/Server/Access.antt =====
-- main.go: who gets past the token of a server, and what a refused request leaves.
use gomc_rest.Common.{◌≡◌, refl, false, none, inl, inr, []}
use gomc_rest.Common.Text.{codes, text_eq}
use gomc_rest.Http.{write_err}
use gomc_rest.Auth.{is_exempt, unauthorized}
use gomc_rest.Auth.Bearer.{IsBearer, require_token-gate}
use gomc_rest.LogQuery.{cap_log_query}
use gomc_rest.Logging.{warn}
use gomc_rest.Plc.{Net}
use gomc_rest.Queue.Exec.{PlcQueue}
use gomc_rest.Config.{ServerConfig}
use gomc_rest.Server.{
  request_level, plc_latency, fresh_latency, request_log, Build, Incoming, RequestLog, serve,
  serve_mux,
}

-- The record of a refused request.
abbrev pub refusal_log : Incoming → RequestLog
refusal_log c = record {
  level = warn;
  remote = c.remote;
  method = c.request.method;
  path = c.request.path;
  query = cap_log_query c.raw_query;
  status = 401;
  plc_latency = none;
}

module _ {C W : Type 0} (net : Net C W) (cfg : ServerConfig) (build : Build) where
  -- With a token set, a request for another path than /health that does not carry the scheme
  -- "Bearer " and exactly the token gets the 401 answer and a warning in the log with the query that
  -- was sent, and changes nothing: the queue, its counters, the connection and the PLC stay as they
  -- were, whatever the endpoint; only the latency cell is the request's own, and empty.
  pub serve-unauthorized :
      (c : Incoming) (q : PlcQueue C W)
      → text_eq cfg.token [] ≡ false
      → is_exempt c.request.path ≡ false
      → ¬ IsBearer (codes c.request.authorization) cfg.token
      → serve net cfg build c q ≡ ((unauthorized, refusal_log c), fresh_latency q)
  unfolding serve request_log fresh_latency request_level plc_latency unauthorized write_err
  serve-unauthorized c q set closed stranger =
      elim (require_token-gate (serve_mux net cfg build c) cfg.token c.request
        (fresh_latency q, c.raw_query) set closed) [
          | inl (bearer, _) ↦ absurd (stranger bearer)
          | inr (_, refused) ↦ rw refused refl
        ]
