-- ===== src/Plc.antt =====
-- plc.go: the connection to the PLC. `Net` stands for the gomcprotocol package, the network and the
-- clock: a world `W` and connections `C` that the package hands out. A method of the package is an
-- action on the world. The state events that the client logs are kept in the order of their logging;
-- Plc/States has the records that they are.
pub mod Connection
pub mod Accounting
pub mod Reading
pub mod Simulator
pub mod Trace
pub mod States
pub mod Timeouts
mod Tests
use text.Mathlib.Text.{◌==◌}
use gomc_rest.Common.{
  [], ◌∷◌, ◌++◌, ℕ, suc, ◌+◌, ◌-◌, String, Bool, Option, none, some, List, if◌then◌else◌, Result,
  ok, err,
}
use gomc_rest.Common.Text.{Text}
use gomc_rest.Device.{DeviceAddr}
use gomc_rest.Failure.{Error, unsupported_frame, conn_wrap, as_mc_connection}
use gomc_rest.Metrics.{PlcMetrics, record_plc_latency}

-- An action on the world, with a result or an error.
abbrev pub Act : Type 0 → Type 0 → Type 0
Act W A = W → Result Error A × W

-- `plcConnection`, `plcDialer` and the constructors of the package, with the monotonic clock.
pub record Net (C W : Type 0) : Type 0 where
  pub clock : W → ℕ
  pub new_3e_udp : Text → ℕ → Bool → Act W C
  pub new_3e : Text → ℕ → Bool → Act W C
  pub new_4e : Text → ℕ → Bool → Act W C
  pub set_timeout : C → ℕ → W → W
  pub connect_to : C → Act W (Unit {0})
  pub read_words : C → Text → ℕ → ℕ → Act W (List ℕ)
  pub write_words : C → Text → ℕ → List ℕ → Act W (Unit {0})
  pub read_bits : C → Text → ℕ → ℕ → Act W (List Bool)
  pub write_bits : C → Text → ℕ → List Bool → Act W (Unit {0})
  pub random_read : C → List DeviceAddr → List DeviceAddr → Act W (List ℕ × List ℕ)
  pub random_write : C → List DeviceAddr → List ℕ → List DeviceAddr → List ℕ → Act W (Unit {0})
  pub random_write_bits : C → List DeviceAddr → List Bool → Act W (Unit {0})
  pub remote_run : C → ℕ → Bool → Act W (Unit {0})
  pub remote_stop : C → Act W (Unit {0})
  pub remote_pause : C → Bool → Act W (Unit {0})
  pub remote_latch_clear : C → Act W (Unit {0})
  pub remote_reset : C → Act W (Unit {0})
  pub close : C → W → W

-- The fields of `PLCClient` that do not change. `ascii` is the mode.
pub record PlcConfig : Type 0 where
  pub host : Text
  pub port : ℕ
  pub ascii : Bool
  pub frame : String
  pub transport : String
  pub timeout : ℕ

-- The world and the latency cell in the context of the request at hand (logging.go).
pub record Env (W : Type 0) : Type 0 where
  pub world : W
  pub wire_ns : ℕ

-- What the client logs of its connection with `logState` and `logStateWarn`.
pub data PlcState : Type 0 where
  first_connected reconnecting reconnected : PlcState
  first_failed reconnect_failed connection_lost : Error → PlcState

-- The state of `PLCClient`: no connection is `nil`. `states` is what it has logged.
pub record Client (C W : Type 0) : Type 0 where
  pub conn : Option C
  pub metrics : PlcMetrics
  pub env : Env W
  pub states : List PlcState

log_plc : {C W : Type 0} → PlcState → Client C W → Client C W
log_plc s p = record p { states = p.states ++ s ∷ [] }

-- `writePLCLatency`
unfoldable pub write_plc_latency : {W : Type 0} → ℕ → Env W → Env W
write_plc_latency ns e = record e { wire_ns = ns }

module _ {C W : Type 0} (net : Net C W) (cfg : PlcConfig) where
  unfoldable pub new_connection : Act W C
  new_connection w =
      if cfg.frame == "3e"
      then if cfg.transport == "udp"
        then net.new_3e_udp cfg.host cfg.port cfg.ascii w
        else net.new_3e cfg.host cfg.port cfg.ascii w
      else if cfg.frame == "4e"
      then net.new_4e cfg.host cfg.port cfg.ascii w
      else (err unsupported_frame, w)

  at_world : Client C W → W → Client C W
  at_world p w = record p { env = record (p.env) { world = w } }

  -- `c.Connect()` and what follows it.
  finish_connect : C → Client C W → Result Error (Unit {0}) → Result Error C × Client C W
  finish_connect c p (ok _) = (ok c, record p { conn = some c })
  finish_connect c p (err e) = (err e, p)

  dial_with : Client C W → Result Error C → W → Result Error C × Client C W
  unfolding finish_connect at_world
  dial_with p (err e) w = (err e, at_world p w)
  dial_with p (ok c) w =
      let (r, w') = net.connect_to c (net.set_timeout c cfg.timeout w) in
      finish_connect c (at_world p w') r

  -- `connect`; the new connection, which it stores, is also returned.
  unfoldable pub connect : Client C W → Result Error C × Client C W
  unfolding dial_with new_connection
  connect p = let (r, w) = new_connection p.env.world in dial_with p r w

  unfoldable pub reconnect : Client C W → Result Error C × Client C W
  unfolding connect
  reconnect p =
      connect (record p { metrics = record (p.metrics) { reconnects = suc p.metrics.reconnects } })

  -- The end of `initialConnect`.
  after_connect : Result Error C → Client C W → Client C W
  unfolding log_plc
  after_connect (ok c) p = log_plc first_connected p
  after_connect (err e) p = log_plc (first_failed e) p

  unfoldable pub initial_connect : Client C W → Client C W
  unfolding connect after_connect
  initial_connect p = let (r, p') = connect p in after_connect r p'

  unfoldable pub is_connected : Client C W → Bool
  is_connected p = elim p.conn [ none ↦ Bool.false | some _ ↦ Bool.true ]

  count_error : Client C W → Client C W
  count_error p = record p {
    metrics = record (p.metrics) { plc_errors = suc p.metrics.plc_errors };
  }

  drop_conn : C → Client C W → Client C W
  drop_conn c p = record p { conn = none; env = record (p.env) { world = net.close c p.env.world } }

  -- The end of `do`: what an error of the operation does to the connection.
  settle : {A : Type 0} → C → Client C W → Result Error A → Result Error A × Client C W
  unfolding count_error drop_conn log_plc
  settle c p (ok a) = (ok a, p)
  settle c p (err e) =
      if as_mc_connection e
      then (err (conn_wrap e), log_plc (connection_lost e) (drop_conn c (count_error p)))
      else (err e, count_error p)

  -- The latency of an operation that took the client to the environment `e`.
  timed_request : Client C W → Env W → Client C W
  timed_request p e = record p {
    metrics =
        record_plc_latency (record (p.metrics) { requests = suc p.metrics.requests })
          (net.clock e.world - net.clock p.env.world);
    env = e;
  }

  run_on :
      {A : Type 0}
      → (C → Env W → Result Error A × Env W)
      → C
      → Client C W
      → Result Error A × Client C W
  unfolding settle timed_request
  run_on fn c p = let (r, e) = fn c p.env in settle c (timed_request p e) r

  -- A failed reconnection is an error of its own.
  after_reconnect :
      {A : Type 0}
      → (C → Client C W → Result Error A × Client C W)
      → Result Error C
      → Client C W
      → Result Error A × Client C W
  unfolding count_error log_plc
  after_reconnect run (ok c) p = run c (log_plc reconnected p)
  after_reconnect run (err e) p = (err (conn_wrap e), log_plc (reconnect_failed e) (count_error p))

  connected :
      {A : Type 0}
      → (C → Client C W → Result Error A × Client C W)
      → Client C W
      → Result Error A × Client C W
  unfolding after_reconnect reconnect log_plc
  connected run p = elim p.conn [
    | some c ↦ run c p
    | none ↦ let (r, p') = reconnect (log_plc reconnecting p) in after_reconnect run r p'
  ]

  -- `do`, for an operation that gives a value.
  unfoldable pub do_plc :
      {A : Type 0} → (C → Env W → Result Error A × Env W) → Client C W → Result Error A × Client C W
  unfolding connected run_on
  do_plc fn p = connected (run_on fn) p

  reset_error : Result Error (Unit {0}) → Client C W → Result Error (Unit {0}) × Client C W
  unfolding count_error
  reset_error (ok u) p = (ok u, p)
  reset_error (err e) p =
      if as_mc_connection e then (err (conn_wrap e), count_error p) else (err e, count_error p)

  -- The reset is timed, the latency goes to the request, and the connection is closed.
  run_reset : C → Client C W → Result Error (Unit {0}) × Client C W
  unfolding reset_error timed_request drop_conn write_plc_latency
  run_reset c p =
      let (r, w) = net.remote_reset c p.env.world in
      let elapsed = net.clock w - net.clock p.env.world in
      let e : Env W = write_plc_latency elapsed (record { world = w; wire_ns = p.env.wire_ns }) in
      reset_error r (drop_conn c (timed_request p e))

  unfoldable pub do_reset : Client C W → Result Error (Unit {0}) × Client C W
  unfolding connected run_reset
  do_reset p = connected run_reset p

  -- `close`
  unfoldable pub close_plc : Client C W → Client C W
  unfolding drop_conn
  close_plc p = elim p.conn [ none ↦ p | some c ↦ drop_conn c p ]
