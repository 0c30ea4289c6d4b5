-- ===== src/Plc/Accounting.antt =====
-- The counters of the PLC layer stay consistent with one another.
use gomc_rest.Common.{
  ◌∙◌, suc, ◌+◌, ◌-◌, ◌≤◌, ◌≡◌, refl, ap, arith, Result, ok, err, Bool-cases, Option-cases, inl,
  inr,
}
use gomc_rest.Failure.{Error, as_mc_connection}
use gomc_rest.Metrics.{PlcMetrics, push_ring, record_plc_latency}
use gomc_rest.Metrics.Window.{IsWellFormed, window-push_ring}
use gomc_rest.Plc.{
  after_connect, close_plc, initial_connect, run_on, reconnecting, reconnected, log_plc, drop_conn,
  Net, PlcConfig, Env, Client, connect, reconnect, new_connection, dial_with, finish_connect,
  at_world, settle, timed_request, after_reconnect, connected, do_plc, reset_error, run_reset,
  do_reset,
}

-- Every attempted operation has one latency in the buffer, and an error belongs to an operation or
-- to a reconnection.
pub record IsAccounted (m : PlcMetrics) : Type 0 where
  pub ring : IsWellFormed m.recent
  pub timed : m.recent.ring_n ≡ m.requests
  pub errors : m.plc_errors ≤ m.requests + m.reconnects

-- The same with room for one more error.
record HasRoom (m : PlcMetrics) : Type 0 where
  ring : IsWellFormed m.recent
  timed : m.recent.ring_n ≡ m.requests
  errors : suc m.plc_errors ≤ m.requests + m.reconnects

module _ {C W : Type 0} (net : Net C W) (cfg : PlcConfig) where
  finish_connect-metrics :
      (c : C) (p : Client C W) (r : Result Error (Unit {0}))
      → (finish_connect net cfg c p r).1.metrics ≡ p.metrics
  unfolding finish_connect
  finish_connect-metrics c p (ok _) = refl
  finish_connect-metrics c p (err e) = refl

  dial_with-metrics :
      (p : Client C W) (r : Result Error C) (w : W)
      → (dial_with net cfg p r w).1.metrics ≡ p.metrics
  unfolding dial_with
  dial_with-metrics p (err e) w = refl
  dial_with-metrics p (ok c) w =
      finish_connect-metrics c
        (at_world net cfg p (net.connect_to c (net.set_timeout c cfg.timeout w)).1)
        (net.connect_to c (net.set_timeout c cfg.timeout w)).0

  connect-metrics : (p : Client C W) → (connect net cfg p).1.metrics ≡ p.metrics
  unfolding connect
  connect-metrics p =
      dial_with-metrics p (new_connection net cfg p.env.world).0
        (new_connection net cfg p.env.world).1

  after_connect-metrics :
      (r : Result Error C) (p : Client C W) → (after_connect net cfg r p).metrics ≡ p.metrics
  unfolding after_connect log_plc
  after_connect-metrics (ok c) p = refl
  after_connect-metrics (err e) p = refl

  -- A dial changes no counter but that of the dials.
  pub reconnect-metrics :
      (p : Client C W)
      → (reconnect net cfg p).1.metrics
        ≡ record (p.metrics) { reconnects = suc p.metrics.reconnects }
  unfolding reconnect
  reconnect-metrics p = connect-metrics _

  -- The first dial changes no counter, and neither does closing.
  pub initial_connect-metrics :
      (p : Client C W)
      → ((initial_connect net cfg p).metrics ≡ p.metrics)
        × ((close_plc net cfg p).metrics ≡ p.metrics)
  unfolding initial_connect close_plc drop_conn
  initial_connect-metrics p = (
    after_connect-metrics (connect net cfg p).0 (connect net cfg p).1 ∙ connect-metrics p,
    elim (Option-cases p.conn) [
      | inl gone ↦ rw (gone, close_plc) refl
      | inr (c, here) ↦ rw (here, close_plc) refl
    ],
  )

  timed_request-HasRoom :
      (p : Client C W) (e : Env W)
      → IsAccounted p.metrics
      → HasRoom (timed_request net cfg p e).metrics
  unfolding timed_request record_plc_latency
  timed_request-HasRoom p e v = record {
    ring = (window-push_ring p.metrics.recent _ v.ring).0;
    timed = unfold push_ring in ap suc v.timed;
    errors = omega (arith, v.errors);
  }

  settle-IsAccounted :
      {A : Type 0} (c : C) (p : Client C W) (r : Result Error A)
      → HasRoom p.metrics
      → IsAccounted (settle net cfg c p r).1.metrics
  unfolding settle
  settle-IsAccounted c p (ok a) v = record { ring = v.ring; timed = v.timed; errors = omega arith }
  settle-IsAccounted c p (err e) v = elim (Bool-cases (as_mc_connection e)) [
    | inl lost ↦ rw lost (record { ring = v.ring; timed = v.timed; errors = v.errors })
    | inr kept ↦ rw kept (record { ring = v.ring; timed = v.timed; errors = v.errors })
  ]

  reset_error-IsAccounted :
      (p : Client C W) (r : Result Error (Unit {0}))
      → HasRoom p.metrics
      → IsAccounted (reset_error net cfg r p).1.metrics
  unfolding reset_error
  reset_error-IsAccounted p (ok a) v = record {
    ring = v.ring;
    timed = v.timed;
    errors = omega arith;
  }
  reset_error-IsAccounted p (err e) v = elim (Bool-cases (as_mc_connection e)) [
    | inl lost ↦ rw lost (record { ring = v.ring; timed = v.timed; errors = v.errors })
    | inr kept ↦ rw kept (record { ring = v.ring; timed = v.timed; errors = v.errors })
  ]

  reconnect-HasRoom :
      (p : Client C W) → IsAccounted p.metrics → HasRoom (reconnect net cfg p).1.metrics
  unfolding reconnect
  reconnect-HasRoom p v =
      rw (connect-metrics _)
        (record { ring = v.ring; timed = v.timed; errors = omega (arith, v.errors) })

  HasRoom-IsAccounted : (m : PlcMetrics) → HasRoom m → IsAccounted m
  HasRoom-IsAccounted m v = record {
    ring = v.ring;
    timed = v.timed;
    errors = omega (arith, v.errors);
  }

  after_reconnect-IsAccounted :
      {A : Type 0} (run : C → Client C W → Result Error A × Client C W)
      → ((c : C) (q : Client C W) → IsAccounted q.metrics → IsAccounted (run c q).1.metrics)
      → (r : Result Error C) (p : Client C W) → HasRoom p.metrics
      → IsAccounted (after_reconnect net cfg run r p).1.metrics
  unfolding after_reconnect log_plc
  after_reconnect-IsAccounted run keep (ok c) p v =
      keep c (log_plc reconnected p) (HasRoom-IsAccounted p.metrics v)
  after_reconnect-IsAccounted run keep (err e) p v = record {
    ring = v.ring;
    timed = v.timed;
    errors = v.errors;
  }

  connected-IsAccounted :
      {A : Type 0} (run : C → Client C W → Result Error A × Client C W)
      → ((c : C) (q : Client C W) → IsAccounted q.metrics → IsAccounted (run c q).1.metrics)
      → (p : Client C W) → IsAccounted p.metrics
      → IsAccounted (connected net cfg run p).1.metrics
  unfolding connected
  connected-IsAccounted run keep p v = elim (Option-cases p.conn) [
    | inl none_yet ↦
        rw (none_yet, connected)
          (let q = log_plc reconnecting p in
            after_reconnect-IsAccounted run keep (reconnect net cfg q).0 (reconnect net cfg q).1
              (reconnect-HasRoom q (unfold log_plc in v)))
    | inr (c, live) ↦ rw (live, connected) (keep c p v)
  ]

  run_reset-IsAccounted :
      (c : C) (q : Client C W)
      → IsAccounted q.metrics
      → IsAccounted (run_reset net cfg c q).1.metrics
  unfolding run_reset
  run_reset-IsAccounted c q h =
      let (r, w) = net.remote_reset c q.env.world in
      let e : Env W = record { world = w; wire_ns = net.clock w - net.clock q.env.world } in
      reset_error-IsAccounted (drop_conn net cfg c (timed_request net cfg q e)) r
        (timed_request-HasRoom q e h)

  -- Whatever an operation does, the counters stay consistent over `do` and over `doReset`, also
  -- when the PLC cannot be reached or the connection is lost.
  pub do_plc-IsAccounted :
      {A : Type 0} (fn : C → Env W → Result Error A × Env W) (p : Client C W)
      → IsAccounted p.metrics
      → IsAccounted (do_plc net cfg fn p).1.metrics × IsAccounted (do_reset net cfg p).1.metrics
  unfolding do_plc do_reset
  do_plc-IsAccounted fn p v = (
    connected-IsAccounted (run_on net cfg fn)
        (λ c q h.
          settle-IsAccounted c (timed_request net cfg q (fn c q.env).1) (fn c q.env).0
            (timed_request-HasRoom q (fn c q.env).1 h))
        p v,
    connected-IsAccounted (run_reset net cfg) run_reset-IsAccounted p v,
  )
