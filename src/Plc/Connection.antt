-- ===== src/Plc/Connection.antt =====
-- When the client holds a connection, and what an operation runs on.
use gomc_rest.Common.{
  suc, Option-cases, ◌≡◌, refl, ◌∙◌, ◌↔◌, true, false, arith, none, some, Result, ok, err,
  Bool-cases, inl, inr,
}
use gomc_rest.Failure.{Error, as_conn_wrap, as_mc_connection}
use gomc_rest.Plc.{
  connect, timed_request, run_on, reconnecting, reconnected, log_plc, at_world, run_reset,
  close_plc, Env, new_connection, reset_error, connected, dial_with, reconnect, do_reset,
  after_reconnect, do_plc, Net, PlcConfig, Client, finish_connect, settle,
}

-- A result that `do` marked as a connection error.
abbrev pub IsConnectionError : {A : Type 0} → Result Error A → Type 0
IsConnectionError (ok a) = ⊥
IsConnectionError (err e) = as_conn_wrap e ≡ true

-- The gomcprotocol package knows nothing of `connErrWrap`.
abbrev pub IsForeign : {A : Type 0} → Result Error A → Type 0
IsForeign (ok a) = Unit
IsForeign (err e) = as_conn_wrap e ≡ false

-- A live client, or a connection error: never both, never neither.
abbrev pub IsSettled : {A C W : Type 0} → Result Error A × Client C W → Type 0
IsSettled (r, p) = (p.conn ≡ none) ↔ IsConnectionError r

module _ {C W : Type 0} (net : Net C W) (cfg : PlcConfig) where
  settle-IsSettled :
      {A : Type 0} (c : C) (p : Client C W) (r : Result Error A)
      → p.conn ≡ some c
      → IsForeign r
      → IsSettled (settle net cfg c p r)
  unfolding settle
  settle-IsSettled c p (ok a) live foreign = ground arith
  settle-IsSettled c p (err e) live foreign = elim (Bool-cases (as_mc_connection e)) [
    | inl lost ↦ rw lost (unfold as_conn_wrap in (λ _. refl, λ _. refl))
    | inr kept ↦ rw kept (ground arith)
  ]

  -- A dial that succeeds stores its connection; one that fails leaves the client as it was.
  abbrev pub Dialled : Client C W → Result Error C × Client C W → Type 0
  Dialled p (ok d, q) = q.conn ≡ some d
  Dialled p (err e, q) = q.conn ≡ p.conn

  finish_connect-Dialled :
      (c : C) (p q : Client C W) (r : Result Error (Unit {0}))
      → q.conn ≡ p.conn
      → Dialled p (finish_connect net cfg c q r)
  unfolding finish_connect
  finish_connect-Dialled c p q (ok _) same = refl
  finish_connect-Dialled c p q (err e) same = same

  dial_with-Dialled :
      (p : Client C W) (r : Result Error C) (w : W) → Dialled p (dial_with net cfg p r w)
  unfolding dial_with
  dial_with-Dialled p (err e) w = refl
  dial_with-Dialled p (ok c) w =
      let (r, w') = net.connect_to c (net.set_timeout c cfg.timeout w) in
      finish_connect-Dialled c p (at_world net cfg p w') r refl

  pub connect-Dialled : (p : Client C W) → Dialled p (connect net cfg p)
  unfolding connect
  connect-Dialled p =
      dial_with-Dialled p (new_connection net cfg p.env.world).0
        (new_connection net cfg p.env.world).1

  pub reconnect-Dialled : (p : Client C W) → Dialled p (reconnect net cfg p)
  unfolding reconnect
  reconnect-Dialled p =
      connect-Dialled
        (record p { metrics = record (p.metrics) { reconnects = suc p.metrics.reconnects } })

  -- The client that has logged that it dials again.
  abbrev trying : Client C W → Client C W
  trying p = log_plc reconnecting p

  module _ {A : Type 0} (run : C → Client C W → Result Error A × Client C W) where
    after_reconnect-IsSettled :
        ((c : C) (q : Client C W) → q.conn ≡ some c → IsSettled (run c q))
        → (p : Client C W) → p.conn ≡ none
        → (r : Result Error C) (q : Client C W) → Dialled p (r, q)
        → IsSettled (after_reconnect net cfg run r q)
    unfolding after_reconnect log_plc
    after_reconnect-IsSettled ends p gone (ok d) q live = ends d (log_plc reconnected q) live
    after_reconnect-IsSettled ends p gone (err e) q same =
        unfold as_conn_wrap in (λ _. refl, λ _. same ∙ gone)

    connected-IsSettled :
        ((c : C) (q : Client C W) → q.conn ≡ some c → IsSettled (run c q))
        → (p : Client C W) → IsSettled (connected net cfg run p)
    unfolding connected
    connected-IsSettled ends p = elim (Option-cases p.conn) [
      | inl gone ↦
          rw (gone, connected)
            (after_reconnect-IsSettled ends (trying p) (unfold log_plc in gone)
              (reconnect net cfg (trying p)).0 (reconnect net cfg (trying p)).1
              (reconnect-Dialled (trying p)))
      | inr (c, live) ↦ rw (live, connected) (ends c p live)
    ]

  -- After `do` the client is disconnected exactly when the caller got a connection error. The
  -- operation itself returns no `connErrWrap`.
  pub do_plc-IsSettled :
      {A : Type 0} (fn : C → Env W → Result Error A × Env W) (p : Client C W)
      → ((c : C) (e : Env W) → IsForeign (fn c e).0)
      → IsSettled (do_plc net cfg fn p)
  unfolding do_plc
  do_plc-IsSettled fn p foreign =
      connected-IsSettled (run_on net cfg fn)
        (λ c q live.
          settle-IsSettled c (timed_request net cfg q (fn c q.env).1) (fn c q.env).0 live
            (foreign c q.env))
        p

  -- An operation that succeeds over an open connection.
  pub do_plc-ok :
      {A : Type 0} (fn : C → Env W → Result Error A × Env W) (p : Client C W) (c : C) {a : A}
      → p.conn ≡ some c
      → (fn c p.env).0 ≡ ok a
      → (do_plc net cfg fn p).0 ≡ ok a
  unfolding do_plc connected run_on settle
  do_plc-ok fn p c live done = rw live (rw done refl)

  reset_error-conn :
      (p : Client C W) (r : Result Error (Unit {0})) → (reset_error net cfg r p).1.conn ≡ p.conn
  unfolding reset_error
  reset_error-conn p (ok u) = refl
  reset_error-conn p (err e) = ground arith

  after_reconnect_reset :
      (p : Client C W)
      → p.conn ≡ none
      → (r : Result Error C) (q : Client C W) → Dialled p (r, q)
      → (after_reconnect net cfg (run_reset net cfg) r q).1.conn ≡ none
  unfolding after_reconnect run_reset
  after_reconnect_reset p gone (ok d) q live = reset_error-conn _ (net.remote_reset d q.env.world).0
  after_reconnect_reset p gone (err e) q same = same ∙ gone

  -- A remote reset leaves the client disconnected whatever the PLC answers, and closing does too.
  pub do_reset-disconnected :
      (p : Client C W) → ((do_reset net cfg p).1.conn ≡ none) × ((close_plc net cfg p).conn ≡ none)
  unfolding do_reset close_plc
  do_reset-disconnected p = elim (Option-cases p.conn) [
    | inl gone ↦ (
      rw (gone, connected)
          (after_reconnect_reset (trying p) (unfold log_plc in gone)
            (reconnect net cfg (trying p)).0 (reconnect net cfg (trying p)).1
            (reconnect-Dialled (trying p))),
      rw (gone, close_plc) gone,
    )
    | inr (c, live) ↦ (
      rw (live, connected)
          (unfold run_reset in reset_error-conn _ (net.remote_reset c p.env.world).0),
      rw (live, close_plc),
    )
  ]
