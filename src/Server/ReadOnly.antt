-- ===== src/Server/ReadOnly.antt =====
-- main.go: a server in read-only mode, from the request to the PLC.
use gomc_rest.Common.{
  ◌≡◌, refl, Bool, true, Result-cases, inl, inr, ap, Option-cases, ℕ, String, List, [], ◌∷◌, ok,
}
use gomc_rest.Http.{Request, Response}
use gomc_rest.Plc.{Net, PlcConfig}
use gomc_rest.Plc.Reading.{with_writes}
use gomc_rest.Queue.Exec.{Turn, PlcQueue}
use gomc_rest.Queue.Ops.Reading.{
  read_words-with_writes, read_bits-with_writes, read_word_bits-with_writes,
  read_bits_as_word-with_writes, random_read-with_writes, is_connected_queue-with_writes,
  initial_connect_queue-with_writes, close_queue-with_writes,
}
use gomc_rest.Http.Json.{Decoded}
use gomc_rest.Handler.Info.{handle_health}
use gomc_rest.Handler.Read.{
  ReadPlan, k_word, word_bits, words, bits, run_read, plan_read, handle_read,
}
use gomc_rest.Handler.RandomRead.{
  RandomReadBody, plan_random_read, run_random_read, handle_random_read,
}
use gomc_rest.Handler.Write.{WriteBody, handle_write}
use gomc_rest.Handler.RandomWrite.{RandomWriteBody, handle_random_write}
use gomc_rest.Handler.Remote.{Endpoint, handle_remote}
use gomc_rest.Handler.Remote.Guarded.{
  plan_write-readonly, plan_random_write-readonly, plan_remote-refuses,
}
use gomc_rest.Auth.{require_token}
use gomc_rest.Common.Text.{Text}
use gomc_rest.Config.{ServerConfig}
use gomc_rest.Config.Parse.{plc_config, parse_config}
use gomc_rest.Server.{
  request_log, Route, openapi_route, version_route, info_route, metrics_route, health_route,
  read_route, write_route, random_read_route, random_write_route, remote_route, route_of, Build,
  Incoming, run_route, serve_mux, serve, fresh_latency,
}
use gomc_rest.Queue.Ops.{initial_connect_queue}
use gomc_rest.Server.Main.{
  Answer, served, Machine, build_of, new_plc_client, new_plc_queue, serve_each, run_server,
  run_config, main,
}

module _ {C W : Type 0} (net other : Net C W) (cfg : PlcConfig) where
  run_read-with_writes :
      (turn : Turn) (plan : ReadPlan) (q : PlcQueue C W)
      → run_read (with_writes net other) cfg turn plan q ≡ run_read net cfg turn plan q
  unfolding run_read
  run_read-with_writes turn (k_word device addr nibbles sint) q =
      rw (read_bits_as_word-with_writes net other cfg turn device addr nibbles q) refl
  run_read-with_writes turn (word_bits device addr bit count) q =
      rw (read_word_bits-with_writes net other cfg turn device addr bit count q) refl
  run_read-with_writes turn (words device addr count dword sint) q =
      rw (read_words-with_writes net other cfg turn device addr _ q) refl
  run_read-with_writes turn (bits device addr count) q =
      rw (read_bits-with_writes net other cfg turn device addr count q) refl

  handle_read-with_writes :
      (r : Request) (turn : Turn) (q : PlcQueue C W)
      → handle_read (with_writes net other) cfg r turn q ≡ handle_read net cfg r turn q
  unfolding handle_read
  handle_read-with_writes r turn q = elim (Result-cases (plan_read r)) [
    | inl (plan, e) ↦ rw (e, handle_read) (run_read-with_writes turn plan q)
    | inr (response, e) ↦ rw (e, handle_read) refl
  ]

  handle_random_read-with_writes :
      (r : Request) (sent : Decoded RandomReadBody) (turn : Turn) (q : PlcQueue C W)
      → handle_random_read (with_writes net other) cfg r sent turn q
        ≡ handle_random_read net cfg r sent turn q
  unfolding handle_random_read run_random_read
  handle_random_read-with_writes r sent turn q = elim (Result-cases (plan_random_read r sent)) [
    | inl (plan, e) ↦
        rw (e, handle_random_read) (rw (random_read-with_writes net other cfg turn _ _ _ q) refl)
    | inr (response, e) ↦ rw (e, handle_random_read) refl
  ]

  handle_health-with_writes :
      (r : Request) (q : PlcQueue C W)
      → handle_health (with_writes net other) cfg r q ≡ handle_health net cfg r q
  unfolding handle_health
  handle_health-with_writes r q = rw (is_connected_queue-with_writes net other cfg q) refl

  handle_write-with_writes :
      (r : Request) (body : WriteBody) (turn : Turn) (q : PlcQueue C W)
      → handle_write (with_writes net other) cfg true r body turn q
        ≡ handle_write net cfg true r body turn q
  unfolding handle_write
  handle_write-with_writes r body turn q =
      let (response, refused, code) = plan_write-readonly r body in rw (refused, handle_write) refl

  handle_random_write-with_writes :
      (r : Request) (sent : Decoded RandomWriteBody) (turn : Turn) (q : PlcQueue C W)
      → handle_random_write (with_writes net other) cfg true r sent turn q
        ≡ handle_random_write net cfg true r sent turn q
  unfolding handle_random_write
  handle_random_write-with_writes r sent turn q =
      let (response, refused, code) = plan_random_write-readonly r sent in
      rw (refused, handle_random_write) refl

  handle_remote-with_writes :
      (endpoint : Endpoint) (enable_remote : Bool) (r : Request) (turn : Turn) (q : PlcQueue C W)
      → handle_remote (with_writes net other) cfg endpoint true enable_remote r turn q
        ≡ handle_remote net cfg endpoint true enable_remote r turn q
  unfolding handle_remote
  handle_remote-with_writes endpoint enable_remote r turn q =
      let (response, refused, code) = plan_remote-refuses endpoint true enable_remote r refl in
      rw (refused, handle_remote) refl

module _ {C W : Type 0} (net other : Net C W) (cfg : ServerConfig) (build : Build) where
  run_route-with_writes :
      (route : Route) (c : Incoming) (r : Request) (q : PlcQueue C W)
      → cfg.readonly ≡ true
      → run_route (with_writes net other) cfg build route c r q
        ≡ run_route net cfg build route c r q
  unfolding run_route plc_config
  run_route-with_writes openapi_route c r q on = refl
  run_route-with_writes version_route c r q on = refl
  run_route-with_writes info_route c r q on = refl
  run_route-with_writes metrics_route c r q on = refl
  run_route-with_writes health_route c r q on =
      ap (λ response. (response, q)) (handle_health-with_writes net other (plc_config cfg) r q)
  run_route-with_writes read_route c r q on =
      handle_read-with_writes net other (plc_config cfg) r c.turn q
  run_route-with_writes write_route c r q on =
      rw on (handle_write-with_writes net other (plc_config cfg) r c.write_body c.turn q)
  run_route-with_writes random_read_route c r q on =
      handle_random_read-with_writes net other (plc_config cfg) r c.random_read_body c.turn q
  run_route-with_writes random_write_route c r q on =
      rw on
        (handle_random_write-with_writes net other (plc_config cfg) r c.random_write_body c.turn q)
  run_route-with_writes (remote_route endpoint) c r q on =
      rw on
        (handle_remote-with_writes net other (plc_config cfg) endpoint cfg.enable_remote r c.turn q)

  serve_mux-with_writes :
      (c : Incoming) (r : Request) (visit : PlcQueue C W × Text)
      → cfg.readonly ≡ true
      → serve_mux (with_writes net other) cfg build c r visit ≡ serve_mux net cfg build c r visit
  unfolding serve_mux
  serve_mux-with_writes c r (q, raw) on = elim (Option-cases (route_of r.path)) [
    | inl e ↦ rw (e, serve_mux) refl
    | inr (route, e) ↦ rw (e, serve_mux) (rw (run_route-with_writes route c r q on) refl)
  ]

  serve-readonly :
      (c : Incoming) (q : PlcQueue C W)
      → cfg.readonly ≡ true
      → serve (with_writes net other) cfg build c q ≡ serve net cfg build c q
  unfolding serve fresh_latency request_log
  serve-readonly c q on =
      ap
        (λ (h : Request → PlcQueue C W × Text → Response × (PlcQueue C W × Text)).
          let (response, visit) =
            require_token h cfg.token c.request (fresh_latency q, c.raw_query) in
          ((response, request_log c response visit), visit.0))
        (λ i r visit. serve_mux-with_writes c r visit on i)

  serve_each-readonly :
      (cs : List Incoming) (q : PlcQueue C W)
      → cfg.readonly ≡ true
      → serve_each (with_writes net other) cfg build cs q ≡ serve_each net cfg build cs q
  unfolding serve_each
  serve_each-readonly [] q on = refl
  serve_each-readonly (c ∷ cs) q on =
      rw (serve-readonly c q on) (rw (serve_each-readonly cs (serve net cfg build c q).1 on) refl)

  run_server-readonly :
      (cs : List Incoming) (w : W)
      → cfg.readonly ≡ true
      → run_server (with_writes net other) cfg build cs w ≡ run_server net cfg build cs w
  unfolding run_server
  run_server-readonly cs w on =
      let start : PlcQueue C W = new_plc_queue (new_plc_client w) in
      let opened = initial_connect_queue net (plc_config cfg) start in
      rw (initial_connect_queue-with_writes net other (plc_config cfg) start) (
        rw (serve_each-readonly cs opened on) (
          rw
            (close_queue-with_writes net other (plc_config cfg)
              (serve_each net cfg build cs opened).1)
            refl))

-- A program whose arguments and environment put it into read-only mode never writes to the PLC and
-- never controls it, from its start to its end, whatever the requests, their bodies and tokens, and
-- however the connection and the queue fare: exchange the writing and the controlling methods of the
-- PLC for any others, and the responses, the request log and the world at the end are the same.
pub main-readonly :
    {C W : Type 0} (net other : Net C W) (fraction : ℕ → ℕ → ℕ → ℕ) (args : List Text)
    (lookup_env : String → Text) (m : Machine) (cs : List Incoming) (w : W) (cfg : ServerConfig)
    → parse_config fraction args lookup_env ≡ ok cfg
    → cfg.readonly ≡ true
    → main (with_writes net other) fraction args lookup_env m cs w
      ≡ main net fraction args lookup_env m cs w
unfolding main run_config
main-readonly {C} {W} net other fraction args lookup_env m cs w cfg parsed on = rw parsed (
    ap
      (λ (end : List Answer × PlcQueue C W).
        let (answers, q) = end in (served answers, q.plc.env.world))
      (run_server-readonly net other cfg (build_of m cfg) cs w on))
