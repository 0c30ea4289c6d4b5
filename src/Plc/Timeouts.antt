-- ===== src/Plc/Timeouts.antt =====
-- The PLC layer leaves the count of timeouts to the queue.
use gomc_rest.Common.{◌≡◌, refl, ◌∙◌, ap, Result, ok, err, Bool-cases, Option-cases, inl, inr, ◌-◌}
use gomc_rest.Failure.{Error, as_mc_connection}
use gomc_rest.Metrics.{PlcMetrics, record_plc_latency}
use gomc_rest.Plc.{
  Net, PlcConfig, Env, Client, log_plc, reconnecting, reconnected, reconnect, count_error,
  drop_conn, settle, timed_request, run_on, after_reconnect, connected, do_plc, reset_error,
  run_reset, do_reset,
}
use gomc_rest.Plc.Accounting.{reconnect-metrics}

module _ {C W : Type 0} (net : Net C W) (cfg : PlcConfig) where
  abbrev SameTimeouts : Client C W → Client C W → Type 0
  SameTimeouts p q = q.metrics.timeouts ≡ p.metrics.timeouts

  settle-timeouts :
      {A : Type 0} (c : C) (p : Client C W) (r : Result Error A)
      → SameTimeouts p (settle net cfg c p r).1
  unfolding settle count_error drop_conn log_plc
  settle-timeouts c p (ok a) = refl
  settle-timeouts c p (err e) = elim (Bool-cases (as_mc_connection e)) [
    | inl gone ↦ rw gone refl
    | inr kept ↦ rw kept refl
  ]

  reset_error-timeouts :
      (p : Client C W) (r : Result Error (Unit {0})) → SameTimeouts p (reset_error net cfg r p).1
  unfolding reset_error count_error
  reset_error-timeouts p (ok u) = refl
  reset_error-timeouts p (err e) = elim (Bool-cases (as_mc_connection e)) [
    | inl gone ↦ rw gone refl
    | inr kept ↦ rw kept refl
  ]

  run_reset-timeouts : (c : C) (p : Client C W) → SameTimeouts p (run_reset net cfg c p).1
  unfolding run_reset drop_conn timed_request record_plc_latency
  run_reset-timeouts c p =
      let (r, w) = net.remote_reset c p.env.world in
      let e : Env W = record { world = w; wire_ns = net.clock w - net.clock p.env.world } in
      reset_error-timeouts (drop_conn net cfg c (timed_request net cfg p e)) r

  module _ {A : Type 0} (run : C → Client C W → Result Error A × Client C W) where
    after_reconnect-timeouts :
        ((c : C) (q : Client C W) → SameTimeouts q (run c q).1)
        → (r : Result Error C) (q : Client C W) → SameTimeouts q (after_reconnect net cfg run r q).1
    unfolding after_reconnect log_plc count_error
    after_reconnect-timeouts keep (ok c) q = keep c (log_plc reconnected q)
    after_reconnect-timeouts keep (err e) q = refl

    connected-timeouts :
        ((c : C) (q : Client C W) → SameTimeouts q (run c q).1)
        → (p : Client C W) → SameTimeouts p (connected net cfg run p).1
    unfolding connected log_plc
    connected-timeouts keep p = elim (Option-cases p.conn) [
      | inl gone ↦
          let q = log_plc reconnecting p in
          rw (gone, connected)
            (after_reconnect-timeouts keep (reconnect net cfg q).0 (reconnect net cfg q).1
              ∙ ap (λ (m : PlcMetrics). m.timeouts) (reconnect-metrics net cfg q))
      | inr (c, here) ↦ rw (here, connected) (keep c p)
    ]

  pub do_plc-timeouts :
      {A : Type 0} (fn : C → Env W → Result Error A × Env W) (p : Client C W)
      → SameTimeouts p (do_plc net cfg fn p).1
  unfolding do_plc run_on timed_request record_plc_latency
  do_plc-timeouts fn p =
      connected-timeouts (run_on net cfg fn)
        (λ c q. settle-timeouts c (timed_request net cfg q (fn c q.env).1) (fn c q.env).0) p

  pub do_reset-timeouts : (p : Client C W) → SameTimeouts p (do_reset net cfg p).1
  unfolding do_reset
  do_reset-timeouts p = connected-timeouts (run_reset net cfg) run_reset-timeouts p
