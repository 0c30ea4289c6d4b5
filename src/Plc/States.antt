-- ===== src/Plc/States.antt =====
-- plc.go: the records that the client logs of its connection.
use gomc_rest.Common.{List, [], ◌∷◌, String, ◌≡◌, arith, true, ◌&&◌}
use gomc_rest.Common.Text.{Text, codes, text_eq}
use gomc_rest.Logging.{
  Attr, Value, text, other_kind, Record, info, rank, reaches, is_state_event, log_state,
  log_state_warn,
}
use gomc_rest.Plc.{
  PlcConfig, PlcState, first_connected, reconnecting, reconnected, first_failed, reconnect_failed,
  connection_lost,
}

abbrev attr : String → Value → Attr
attr key value = record { key = codes key; value = value }

-- The host is a string; the port and an error have kinds of their own.
abbrev address : PlcConfig → List Attr
address cfg = attr "host" (text cfg.host) ∷ attr "port" other_kind ∷ []

abbrev failure : List Attr
failure = attr "error" other_kind ∷ []

unfoldable pub plc_record : (run_id : Text) → PlcConfig → PlcState → Record
unfolding log_state log_state_warn
plc_record run_id cfg first_connected = log_state run_id (codes "PLC connected") (address cfg)
plc_record run_id cfg (first_failed e) =
    log_state_warn run_id (codes "PLC initial connect failed, will retry on first request") failure
plc_record run_id cfg reconnecting = log_state_warn run_id (codes "PLC reconnecting") (address cfg)
plc_record run_id cfg reconnected = log_state run_id (codes "PLC reconnected") (address cfg)
plc_record run_id cfg (reconnect_failed e) =
    log_state_warn run_id (codes "PLC reconnect failed") failure
plc_record run_id cfg (connection_lost e) =
    log_state_warn run_id (codes "PLC connection lost")
      (attr "host" (text cfg.host) ∷ attr "port" other_kind ∷ failure)

-- Each is a state event that the log file takes, whatever its level.
pub plc_record-reaches :
    (run_id : Text) (cfg : PlcConfig) (s : PlcState)
    → (reaches (plc_record run_id cfg s).level info && is_state_event (plc_record run_id cfg s))
      ≡ true
unfolding plc_record reaches rank is_state_event text_eq
plc_record-reaches run_id cfg first_connected = ground arith
plc_record-reaches run_id cfg (first_failed e) = ground arith
plc_record-reaches run_id cfg reconnecting = ground arith
plc_record-reaches run_id cfg reconnected = ground arith
plc_record-reaches run_id cfg (reconnect_failed e) = ground arith
plc_record-reaches run_id cfg (connection_lost e) = ground arith
