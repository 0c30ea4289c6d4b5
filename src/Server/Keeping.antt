-- ===== src/Server/Keeping.antt =====
-- handler.go and main.go: what every operation of the queue keeps, the server keeps.
use gomc_rest.Common.{Bool, Result-cases, inl, inr, Option-cases, Bool-cases, List, [], ◌∷◌}
use gomc_rest.Common.Text.{Text, text_eq, codes}
use gomc_rest.Http.{Request, Response}
use gomc_rest.Http.Json.{Decoded}
use gomc_rest.Plc.{Act, Net, PlcConfig}
use gomc_rest.Queue.Labels.{Operation}
use gomc_rest.Queue.Exec.{Turn, PlcQueue}
use gomc_rest.Queue.Ops.{
  on_plc, remote_reset, read_words, read_bits, read_word_bits, read_bits_as_word, random_read,
  write_words, write_bits, write_word_bits, write_bits_as_word, random_write, remote_run,
  remote_stop, remote_pause, remote_latch_clear,
}
use gomc_rest.Handler.Read.{ReadPlan, run_read, plan_read, handle_read}
use gomc_rest.Handler.RandomRead.{
  RandomReadBody, plan_random_read, run_random_read, handle_random_read,
}
use gomc_rest.Handler.Write.{WriteBody, WritePlan, run_write, plan_write, handle_write}
use gomc_rest.Handler.RandomWrite.{
  RandomWriteBody, plan_random_write, run_random_write, handle_random_write,
}
use gomc_rest.Handler.Remote.{
  Endpoint, RemotePlan, remote_op, run_remote, plan_remote, handle_remote,
}
use gomc_rest.Auth.{require_token, is_exempt, token_matches}
use gomc_rest.Config.{ServerConfig}
use gomc_rest.Config.Parse.{plc_config}
use gomc_rest.Server.{
  Route, openapi_route, version_route, info_route, metrics_route, health_route, read_route,
  write_route, random_read_route, random_write_route, remote_route, route_of, Build, Incoming,
  run_route, serve_mux, serve, fresh_latency, Visit,
}
use gomc_rest.Server.Main.{serve_each}

-- A property of the queue that each operation keeps, and a new latency cell too.
pub record KeptByOps {C W : Type 0} (net : Net C W) (cfg : PlcConfig) (P : PlcQueue C W → Type 0)
    : Type 1 where
  pub by_op :
      {A : Type 0} (op : Operation) (turn : Turn) (act : C → Act W A) (q : PlcQueue C W)
      → P q
      → P (on_plc net cfg op turn act q).1
  pub by_reset : (turn : Turn) (q : PlcQueue C W) → P q → P (remote_reset net cfg turn q).1
  pub by_fresh : (q : PlcQueue C W) → P q → P (fresh_latency q)

module _ {C W : Type 0} (net : Net C W) (cfg : PlcConfig) (P : PlcQueue C W → Type 0)
    (kept : KeptByOps net cfg P) where
  run_read_keeps :
      (turn : Turn) (plan : ReadPlan) (q : PlcQueue C W) → P q → P (run_read net cfg turn plan q).1
  unfolding run_read read_bits_as_word read_word_bits read_words read_bits
  run_read_keeps turn (ReadPlan.k_word device addr nibbles sint) q v = kept.by_op _ turn _ q v
  run_read_keeps turn (ReadPlan.word_bits device addr bit count) q v = kept.by_op _ turn _ q v
  run_read_keeps turn (ReadPlan.words device addr count dword sint) q v = kept.by_op _ turn _ q v
  run_read_keeps turn (ReadPlan.bits device addr count) q v = kept.by_op _ turn _ q v

  run_write_keeps :
      (turn : Turn) (plan : WritePlan) (q : PlcQueue C W)
      → P q
      → P (run_write net cfg turn plan q).1
  unfolding run_write write_bits_as_word write_word_bits write_words write_bits
  run_write_keeps turn (WritePlan.k_word device addr nibbles value) q v = kept.by_op _ turn _ q v
  run_write_keeps turn (WritePlan.word_bits device addr bit values) q v = kept.by_op _ turn _ q v
  run_write_keeps turn (WritePlan.words device addr values) q v = kept.by_op _ turn _ q v
  run_write_keeps turn (WritePlan.bits device addr values) q v = kept.by_op _ turn _ q v

  remote_op_keeps :
      (turn : Turn) (plan : RemotePlan) (q : PlcQueue C W)
      → P q
      → P (remote_op net cfg turn plan q).1
  unfolding remote_op remote_run remote_stop remote_pause remote_latch_clear
  remote_op_keeps turn (RemotePlan.run clear force) q v = kept.by_op _ turn _ q v
  remote_op_keeps turn RemotePlan.stop q v = kept.by_op _ turn _ q v
  remote_op_keeps turn (RemotePlan.pause force) q v = kept.by_op _ turn _ q v
  remote_op_keeps turn RemotePlan.latch_clear q v = kept.by_op _ turn _ q v
  remote_op_keeps turn RemotePlan.reset q v = kept.by_reset turn q v

  -- A handler whose plan may be refused.
  pub handle_read_keeps :
      (r : Request) (turn : Turn) (q : PlcQueue C W) → P q → P (handle_read net cfg r turn q).1
  unfolding handle_read
  handle_read_keeps r turn q v = elim (Result-cases (plan_read r)) [
    | inl (plan, e) ↦ rw (e, handle_read) (run_read_keeps turn plan q v)
    | inr (response, e) ↦ rw (e, handle_read) v
  ]

  pub handle_write_keeps :
      (readonly : Bool) (r : Request) (body : WriteBody) (turn : Turn) (q : PlcQueue C W)
      → P q
      → P (handle_write net cfg readonly r body turn q).1
  unfolding handle_write
  handle_write_keeps readonly r body turn q v = elim (Result-cases (plan_write readonly r body)) [
    | inl (plan, e) ↦ rw (e, handle_write) (run_write_keeps turn plan q v)
    | inr (response, e) ↦ rw (e, handle_write) v
  ]

  pub handle_random_read_keeps :
      (r : Request) (sent : Decoded RandomReadBody) (turn : Turn) (q : PlcQueue C W)
      → P q
      → P (handle_random_read net cfg r sent turn q).1
  unfolding handle_random_read run_random_read random_read
  handle_random_read_keeps r sent turn q v = elim (Result-cases (plan_random_read r sent)) [
    | inl (plan, e) ↦ rw (e, handle_random_read) (kept.by_op _ turn _ q v)
    | inr (response, e) ↦ rw (e, handle_random_read) v
  ]

  pub handle_random_write_keeps :
      (readonly : Bool) (r : Request) (sent : Decoded RandomWriteBody) (turn : Turn)
      (q : PlcQueue C W)
      → P q
      → P (handle_random_write net cfg readonly r sent turn q).1
  unfolding handle_random_write run_random_write random_write
  handle_random_write_keeps readonly r sent turn q v =
      elim (Result-cases (plan_random_write readonly r sent)) [
        | inl (plan, e) ↦ rw (e, handle_random_write) (kept.by_op _ turn _ q v)
        | inr (response, e) ↦ rw (e, handle_random_write) v
      ]

  pub handle_remote_keeps :
      (endpoint : Endpoint) (readonly enable_remote : Bool) (r : Request) (turn : Turn)
      (q : PlcQueue C W)
      → P q
      → P (handle_remote net cfg endpoint readonly enable_remote r turn q).1
  unfolding handle_remote run_remote
  handle_remote_keeps endpoint readonly enable_remote r turn q v =
      elim (Result-cases (plan_remote endpoint readonly enable_remote r)) [
        | inl (plan, e) ↦ rw (e, handle_remote) (remote_op_keeps turn plan q v)
        | inr (response, e) ↦ rw (e, handle_remote) v
      ]

module _ {C W : Type 0} (net : Net C W) (cfg : ServerConfig) (build : Build)
    (P : PlcQueue C W → Type 0) (kept : KeptByOps net (plc_config cfg) P) where
  run_route_keeps :
      (route : Route) (c : Incoming) (r : Request) (q : PlcQueue C W)
      → P q
      → P (run_route net cfg build route c r q).1
  unfolding run_route
  run_route_keeps openapi_route c r q v = v
  run_route_keeps version_route c r q v = v
  run_route_keeps info_route c r q v = v
  run_route_keeps metrics_route c r q v = v
  run_route_keeps health_route c r q v = v
  run_route_keeps read_route c r q v = handle_read_keeps net (plc_config cfg) P kept r c.turn q v
  run_route_keeps write_route c r q v =
      handle_write_keeps net (plc_config cfg) P kept cfg.readonly r c.write_body c.turn q v
  run_route_keeps random_read_route c r q v =
      handle_random_read_keeps net (plc_config cfg) P kept r c.random_read_body c.turn q v
  run_route_keeps random_write_route c r q v =
      handle_random_write_keeps net (plc_config cfg) P kept cfg.readonly r c.random_write_body
        c.turn q v
  run_route_keeps (remote_route endpoint) c r q v =
      handle_remote_keeps net (plc_config cfg) P kept endpoint cfg.readonly cfg.enable_remote r
        c.turn q v

  serve_mux_keeps :
      (c : Incoming) (r : Request) (visit : Visit C W)
      → P visit.0
      → P (serve_mux net cfg build c r visit).1.0
  unfolding serve_mux
  serve_mux_keeps c r (q, raw) v = elim (Option-cases (route_of r.path)) [
    | inl e ↦ rw (e, serve_mux) v
    | inr (route, e) ↦ rw (e, serve_mux) (run_route_keeps route c r q v)
  ]

  -- The token decides only whether the handler is asked.
  require_token_keeps :
      (h : Request → Visit C W → Response × Visit C W) (token : Text) (r : Request)
      (visit : Visit C W)
      → P visit.0
      → P (h r visit).1.0
      → P (require_token h token r visit).1.0
  unfolding require_token
  require_token_keeps h token r visit v w = elim (Bool-cases (text_eq token [])) [
    | inl e ↦ rw (e, require_token) w
    | inr e ↦ elim (Bool-cases (is_exempt r.path)) [
      | inl e' ↦ rw (e, e', require_token) w
      | inr e' ↦ elim (Bool-cases (token_matches (codes r.authorization) token)) [
        | inl m ↦ rw (e, e', m, require_token) w
        | inr m ↦ rw (e, e', m, require_token) v
      ]
    ]
  ]

  pub serve_keeps : (c : Incoming) (q : PlcQueue C W) → P q → P (serve net cfg build c q).1
  unfolding serve
  serve_keeps c q v =
      let fresh = kept.by_fresh q v in
      require_token_keeps (serve_mux net cfg build c) cfg.token c.request
        (fresh_latency q, c.raw_query) fresh
        (serve_mux_keeps c c.request (fresh_latency q, c.raw_query) fresh)

  pub serve_each_keeps :
      (cs : List Incoming) (q : PlcQueue C W) → P q → P (serve_each net cfg build cs q).1
  unfolding serve_each
  serve_each_keeps [] q v = v
  serve_each_keeps (c ∷ cs) q v =
      serve_each_keeps cs (serve net cfg build c q).1 (serve_keeps c q v)
