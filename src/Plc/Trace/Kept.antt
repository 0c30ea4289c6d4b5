-- ===== src/Plc/Trace/Kept.antt =====
-- The client keeps to the protocol of its state log.
use gomc_rest.Metrics.{PlcMetrics, record_plc_latency}
use mathlib.Core.Option.{none-ne-some}
use gomc_rest.Common.{
  ap, ◌-◌, suc, ◌≡◌, refl, sym, ◌∙◌, none, some, [], Result, ok, err, Bool-cases, Option-cases, inl,
  inr,
}
use gomc_rest.Failure.{Error, as_mc_connection}
use gomc_rest.Plc.{
  initial_connect, after_connect, run_on, Env, do_reset, timed_request, after_reconnect, do_plc,
  close_plc, run_reset, connected, Net, PlcConfig, Client, reconnecting, reconnected, log_plc,
  dial_with, finish_connect, at_world, connect, reconnect, new_connection, count_error, drop_conn,
  settle, reset_error,
}
use gomc_rest.Plc.Trace.{
  lost, live, Traced, Dialling, Traced-Dialling, Dialling-reconnected, Dialling-failed, Traced-lost,
  Traced-closed,
}
use gomc_rest.Plc.Connection.{connect-Dialled, Dialled, reconnect-Dialled}

module _ {C W : Type 0} (net : Net C W) (cfg : PlcConfig) where
  abbrev pub IsTraced : Client C W → Type 0
  IsTraced p = Traced p.conn p.metrics.reconnects p.states

  -- A dial logs nothing by itself.
  abbrev Unlogged : Client C W → Client C W → Type 0
  Unlogged p q = (q.metrics ≡ p.metrics) × (q.states ≡ p.states)

  finish_connect-Unlogged :
      (c : C) (p : Client C W) (r : Result Error (Unit {0}))
      → Unlogged p (finish_connect net cfg c p r).1
  unfolding finish_connect
  finish_connect-Unlogged c p (ok _) = (refl, refl)
  finish_connect-Unlogged c p (err e) = (refl, refl)

  dial_with-Unlogged :
      (p : Client C W) (r : Result Error C) (w : W) → Unlogged p (dial_with net cfg p r w).1
  unfolding dial_with at_world
  dial_with-Unlogged p (err e) w = (refl, refl)
  dial_with-Unlogged p (ok c) w =
      finish_connect-Unlogged c
        (at_world net cfg p (net.connect_to c (net.set_timeout c cfg.timeout w)).1)
        (net.connect_to c (net.set_timeout c cfg.timeout w)).0

  reconnect-Dialling :
      (p : Client C W)
      → Dialling (suc p.metrics.reconnects) p.states
      → Dialling (reconnect net cfg p).1.metrics.reconnects (reconnect net cfg p).1.states
  unfolding reconnect connect
  reconnect-Dialling p v =
      let p' : Client C W = record p {
        metrics = record (p.metrics) { reconnects = suc p.metrics.reconnects };
      } in
      let (same, kept) =
        dial_with-Unlogged p' (new_connection net cfg p'.env.world).0
          (new_connection net cfg p'.env.world).1 in
      rw (same, kept) v

  settle-IsTraced :
      {A : Type 0} (c : C) (p : Client C W) (r : Result Error A)
      → p.conn ≡ some c
      → IsTraced p
      → IsTraced (settle net cfg c p r).1
  unfolding settle count_error drop_conn log_plc
  settle-IsTraced c p (ok a) here v = v
  settle-IsTraced c p (err e) here v = elim (Bool-cases (as_mc_connection e)) [
    | inl gone ↦ rw gone (Traced-lost c p.conn p.metrics.reconnects p.states e here v)
    | inr kept ↦ rw kept v
  ]

  reset_error-IsTraced :
      (p : Client C W) (r : Result Error (Unit {0}))
      → IsTraced p
      → IsTraced (reset_error net cfg r p).1
  unfolding reset_error count_error
  reset_error-IsTraced p (ok u) v = v
  reset_error-IsTraced p (err e) v = elim (Bool-cases (as_mc_connection e)) [
    | inl gone ↦ rw gone v
    | inr kept ↦ rw kept v
  ]

  run_reset-IsTraced :
      (c : C) (p : Client C W) → p.conn ≡ some c → IsTraced p → IsTraced (run_reset net cfg c p).1
  unfolding run_reset drop_conn timed_request record_plc_latency
  run_reset-IsTraced c p here v =
      let (r, w) = net.remote_reset c p.env.world in
      let e : Env W = record { world = w; wire_ns = net.clock w - net.clock p.env.world } in
      reset_error-IsTraced (drop_conn net cfg c (timed_request net cfg p e)) r
        (Traced-closed p.conn p.metrics.reconnects p.states v)

  module _ {A : Type 0} (run : C → Client C W → Result Error A × Client C W) where
    after_reconnect-IsTraced :
        ((c : C) (q : Client C W) → q.conn ≡ some c → IsTraced q → IsTraced (run c q).1)
        → (p : Client C W) → p.conn ≡ none
        → (r : Result Error C) (q : Client C W) → Dialled net cfg p (r, q)
        → Dialling q.metrics.reconnects q.states
        → IsTraced (after_reconnect net cfg run r q).1
    unfolding after_reconnect log_plc count_error
    after_reconnect-IsTraced keep p gone (ok c) q here v =
        keep c (log_plc reconnected q) here
          (Dialling-reconnected q.conn q.metrics.reconnects q.states v)
    after_reconnect-IsTraced keep p gone (err e) q same v =
        Dialling-failed q.conn q.metrics.reconnects q.states e (same ∙ gone) v

    connected-IsTraced :
        ((c : C) (q : Client C W) → q.conn ≡ some c → IsTraced q → IsTraced (run c q).1)
        → (p : Client C W) → IsTraced p
        → IsTraced (connected net cfg run p).1
    unfolding connected log_plc
    connected-IsTraced keep p v = elim (Option-cases p.conn) [
      | inl gone ↦
          let q = log_plc reconnecting p in
          rw (gone, connected)
            (after_reconnect-IsTraced keep q gone (reconnect net cfg q).0 (reconnect net cfg q).1
              (reconnect-Dialled net cfg q)
              (reconnect-Dialling q (Traced-Dialling p.conn p.metrics.reconnects p.states v)))
      | inr (c, here) ↦ rw (here, connected) (keep c p here v)
    ]

  pub close_plc-IsTraced : (p : Client C W) → IsTraced p → IsTraced (close_plc net cfg p)
  unfolding close_plc drop_conn
  close_plc-IsTraced p v = elim (Option-cases p.conn) [
    | inl gone ↦ rw (gone, close_plc) v
    | inr (c, here) ↦ rw (here, close_plc) (Traced-closed p.conn p.metrics.reconnects p.states v)
  ]

  after_connect-IsTraced :
      (r : Result Error C) (p : Client C W)
      → ((e : Error) → r ≡ err e → p.conn ≡ none)
      → (p.states ≡ [])
      → (p.metrics.reconnects ≡ 0)
      → IsTraced (after_connect net cfg r p)
  unfolding after_connect log_plc
  after_connect-IsTraced (ok c) p gone silent counted = record {
    phase = live;
    readable = rw silent refl;
    at_rest = tt;
    shown = λ c here. refl;
    counted = rw (silent, counted) refl;
  }
  after_connect-IsTraced (err e) p gone silent counted = record {
    phase = lost;
    readable = rw silent refl;
    at_rest = tt;
    shown = λ c here. absurd (none-ne-some c (sym (gone e refl) ∙ here));
    counted = rw (silent, counted) refl;
  }

  Dialled-failed :
      (p : Client C W) (r : Result Error C) (q : Client C W)
      → Dialled net cfg p (r, q)
      → (e : Error) → r ≡ err e
      → q.conn ≡ p.conn
  Dialled-failed p (ok c) q here e is_err = cc
  Dialled-failed p (err _) q same e is_err = same

  -- The log of a client begins with its first connection, or with the failure of it.
  pub initial_connect-IsTraced :
      (p : Client C W)
      → p.conn ≡ none
      → p.states ≡ []
      → p.metrics.reconnects ≡ 0
      → IsTraced (initial_connect net cfg p)
  unfolding initial_connect connect
  initial_connect-IsTraced p gone silent counted =
      let (r, w) = new_connection net cfg p.env.world in
      let d = dial_with net cfg p r w in
      let (same, kept) = dial_with-Unlogged p r w in
      after_connect-IsTraced (d.0) (d.1)
        (λ e is_err. Dialled-failed p (d.0) (d.1) (connect-Dialled net cfg p) e is_err ∙ gone)
        (kept ∙ silent) (ap (λ (m : PlcMetrics). m.reconnects) same ∙ counted)

  -- Whatever an operation does, and over `doReset` and `close` as well: the state log stays one that
  -- a reader can follow, from "reconnecting" to "reconnected" or "reconnect failed", and from a
  -- connection to its loss; where the client holds a connection the log says so; and the metrics
  -- count the dials that it shows.
  pub do_plc-IsTraced :
      {A : Type 0} (fn : C → Env W → Result Error A × Env W) (p : Client C W)
      → IsTraced p
      → IsTraced (do_plc net cfg fn p).1
        × IsTraced (do_reset net cfg p).1
        × IsTraced (close_plc net cfg p)
  unfolding do_plc do_reset run_on timed_request record_plc_latency
  do_plc-IsTraced fn p v = (
    connected-IsTraced (run_on net cfg fn)
        (λ c q here h.
          settle-IsTraced c (timed_request net cfg q (fn c q.env).1) (fn c q.env).0 here h)
        p v,
    connected-IsTraced (run_reset net cfg) run_reset-IsTraced p v,
    close_plc-IsTraced p v,
  )
