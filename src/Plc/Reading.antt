-- ===== src/Plc/Reading.antt =====
-- plc.go: a client that only reads uses none of the methods that change a PLC.
use gomc_rest.Common.{◌≡◌, refl, Result}
use gomc_rest.Failure.{Error}
use gomc_rest.Plc.{
  initial_connect, close_plc, connect, new_connection, Net, PlcConfig, Env, Client, new_connection,
  connect, reconnect, do_plc, is_connected, connected, run_on, settle, count_error, drop_conn,
  timed_request, after_reconnect, dial_with, finish_connect, at_world,
}

-- The network `net` with the methods of `other` that write to a PLC or control it.
abbrev pub with_writes : {C W : Type 0} → Net C W → Net C W → Net C W
with_writes net other = record net {
  write_words = other.write_words;
  write_bits = other.write_bits;
  random_write = other.random_write;
  random_write_bits = other.random_write_bits;
  remote_run = other.remote_run;
  remote_stop = other.remote_stop;
  remote_pause = other.remote_pause;
  remote_latch_clear = other.remote_latch_clear;
  remote_reset = other.remote_reset;
}

module _ {C W : Type 0} (net other : Net C W) (cfg : PlcConfig) where
  pub do_plc-with_writes :
      {A : Type 0} (fn : C → Env W → Result Error A × Env W) (p : Client C W)
      → do_plc (with_writes net other) cfg fn p ≡ do_plc net cfg fn p
  unfolding do_plc connected run_on settle count_error drop_conn timed_request after_reconnect
      reconnect connect dial_with finish_connect at_world new_connection
  do_plc-with_writes fn p = refl

  pub is_connected-with_writes :
      (p : Client C W) → is_connected (with_writes net other) cfg p ≡ is_connected net cfg p
  unfolding is_connected
  is_connected-with_writes p = refl

  pub initial_connect-with_writes :
      (p : Client C W) → initial_connect (with_writes net other) cfg p ≡ initial_connect net cfg p
  unfolding initial_connect connect dial_with finish_connect at_world new_connection
  initial_connect-with_writes p = refl

  pub close_plc-with_writes :
      (p : Client C W) → close_plc (with_writes net other) cfg p ≡ close_plc net cfg p
  unfolding close_plc drop_conn
  close_plc-with_writes p = refl
