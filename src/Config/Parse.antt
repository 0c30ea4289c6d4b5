-- ===== src/Config/Parse.antt =====
-- config.go: the checks of `parseConfig`, `parseLogLevel` and `normalizeListen`; and plc.go:
-- `newConfiguredPLCClient`.
use text.Mathlib.Text.{◌==◌}
use gomc_rest.Common.{
  ℕ, String, Bool, true, false, ◌&&◌, ◌||◌, Option, none, some, List, ◌∷◌, ltb, leb, if◌then◌else◌,
  Result, ok, err, fail_if, ◌>>=◌, ◌>>◌,
}
use gomc_rest.Common.Int.{ℤ, pos}
use gomc_rest.Common.Text.{Text, codes, text_eq, to_lower, parse_int, split_at_byte?}
use gomc_rest.Common.Duration.{DurationError, out_of_fuel, parse_duration}
use gomc_rest.Logging.{Level, debug, info, warn, error}
use gomc_rest.Plc.{PlcConfig}
use gomc_rest.Config.{
  ServerConfig, ConfigError, stopped, invalid_port, invalid_mode, invalid_frame, invalid_transport,
  invalid_queue_size, invalid_timeout, invalid_log_level, invalid_log_file_level, udp_with_4e,
  Setting, the_host, the_port, the_mode, the_listen, the_readonly, the_enable_remote, the_frame,
  the_transport, the_queue_size, the_timeout, the_log_file, the_log_level, the_log_file_level,
  the_token, parse_flags, text_setting, bool_setting,
}

unfoldable pub parse_port : Text → Result ConfigError ℕ
parse_port s = elim (parse_int 10 s) [
  | some (pos n) ↦ if ltb n 1 || ltb 65535 n then err (invalid_port s) else ok n
  | _ ↦ err (invalid_port s)
]

-- Whether the mode is ASCII.
unfoldable pub parse_mode : Text → Result ConfigError Bool
parse_mode s =
    if text_eq s (codes "binary")
    then ok false
    else if text_eq s (codes "ascii")
    then ok true
    else err (invalid_mode s)

unfoldable pub parse_frame : Text → Result ConfigError String
parse_frame s =
    if text_eq s (codes "3e")
    then ok "3e"
    else if text_eq s (codes "4e")
    then ok "4e"
    else err (invalid_frame s)

unfoldable pub parse_transport : Text → Result ConfigError String
parse_transport s =
    if text_eq s (codes "tcp")
    then ok "tcp"
    else if text_eq s (codes "udp")
    then ok "udp"
    else err (invalid_transport s)

unfoldable pub parse_queue_size : Text → Result ConfigError ℕ
parse_queue_size s = elim (parse_int 10 s) [
  | some (pos n) ↦ if leb n 0 then err (invalid_queue_size s) else ok n
  | _ ↦ err (invalid_queue_size s)
]

abbrev positive : Text → Result DurationError ℤ → Result ConfigError ℕ
positive s (ok (pos n)) = if leb n 0 then err (invalid_timeout s) else ok n
positive s (err out_of_fuel) = err stopped
positive s _ = err (invalid_timeout s)

unfoldable pub parse_log_level : Text → Option Level
parse_log_level s =
    if text_eq (to_lower s) (codes "debug")
    then some debug
    else if text_eq (to_lower s) (codes "info")
    then some info
    else if text_eq (to_lower s) (codes "warn")
    then some warn
    else if text_eq (to_lower s) (codes "error")
    then some error
    else none

unfoldable pub the_level : (Text → ConfigError) → Text → Result ConfigError Level
unfolding parse_log_level
the_level invalid s = elim (parse_log_level s) [ some level ↦ ok level | none ↦ err (invalid s) ]

-- `strings.Contains(s, ":")` is a split at the first colon.
unfoldable pub normalize_listen : Text → Text
normalize_listen s = elim (split_at_byte? b':' s) [ none ↦ b':' ∷ s | some _ ↦ s ]

module _ (fraction : ℕ → ℕ → ℕ → ℕ) where
  unfoldable pub parse_timeout : Text → Result ConfigError ℕ
  parse_timeout s = positive s (parse_duration fraction s)

  -- What follows `fs.Parse`: the booleans, and the checks of the texts.
  unfoldable pub configure :
      (Setting → Text) → (Setting → Result ConfigError Bool) → Result ConfigError ServerConfig
  unfolding the_level parse_port parse_mode parse_frame parse_transport parse_queue_size
      parse_timeout
  configure text bool = do
    readonly ← bool the_readonly
    enable_remote ← bool the_enable_remote
    port ← parse_port (text the_port)
    ascii ← parse_mode (text the_mode)
    frame ← parse_frame (text the_frame)
    transport ← parse_transport (text the_transport)
    fail_if (frame == "4e" && transport == "udp") udp_with_4e
    queue_size ← parse_queue_size (text the_queue_size)
    timeout ← parse_timeout (text the_timeout)
    log_level ← the_level invalid_log_level (text the_log_level)
    log_file_level ← the_level invalid_log_file_level (text the_log_file_level)
    ok (record {
      host = text the_host;
      port = port;
      ascii = ascii;
      mode_string = text the_mode;
      listen = normalize_listen (text the_listen);
      readonly = readonly;
      enable_remote = enable_remote;
      frame = frame;
      transport = transport;
      queue_size = queue_size;
      timeout = timeout;
      log_file = text the_log_file;
      log_level = log_level;
      log_file_level = log_file_level;
      token = text the_token;
    })

  unfoldable pub parse_config : List Text → (String → Text) → Result ConfigError ServerConfig
  parse_config args lookup_env = do
    given ← parse_flags args
    configure (text_setting lookup_env given) (bool_setting lookup_env given)

-- `newConfiguredPLCClient`
unfoldable pub plc_config : ServerConfig → PlcConfig
plc_config cfg = record {
  host = cfg.host;
  port = cfg.port;
  ascii = cfg.ascii;
  frame = cfg.frame;
  transport = cfg.transport;
  timeout = cfg.timeout;
}

-- `newPLCClient`; the timeout is in nanoseconds.
unfoldable pub default_plc_config : Text → ℕ → Bool → PlcConfig
default_plc_config host port ascii = record {
  host = host;
  port = port;
  ascii = ascii;
  frame = "3e";
  transport = "tcp";
  timeout = 5000000000;
}
