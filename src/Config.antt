-- ===== src/Config.antt =====
-- config.go: flags, environment variables and their checks; and plc.go, which copies the result. An
-- environment gives a variable its text, empty if it is not set. Go's int is 64 bits wide.
pub mod Parse
pub mod Valid
pub mod Precedence
pub mod Ends
pub mod Dial
pub mod Sample
mod Tests
use text.Mathlib.Text.{◌==◌}
use gomc_rest.Common.{
  ℕ, String, Bool, true, false, not, ◌&&◌, ◌||◌, Option, none, some, List, [], ◌∷◌, ltb, leb,
  if◌then◌else◌, Result, ok, err, fail_if, ◌>>=◌, ◌>>◌,
}
use gomc_rest.Common.Int.{ℤ, pos}
use gomc_rest.Common.Text.{Text, codes, text_eq, to_lower, parse_int, split_at_byte?}
use gomc_rest.Common.Flags.{
  FlagKind, text_flag, bool_flag, FlagError, Given, parse_args, parse_bool, last_given,
}
use gomc_rest.Common.Duration.{DurationError, out_of_fuel, parse_duration}
use gomc_rest.Logging.{Level, debug, info, warn, error}
use gomc_rest.Plc.{PlcConfig}

-- `frame` and `transport` are the strings that the types PLCFrame and PLCTransport hold, and `ascii`
-- is the mode.
pub record ServerConfig : Type 0 where
  pub host : Text
  pub port : ℕ
  pub ascii : Bool
  pub mode_string : Text
  pub listen : Text
  pub readonly : Bool
  pub enable_remote : Bool
  pub frame : String
  pub transport : String
  pub queue_size : ℕ
  pub timeout : ℕ
  pub log_file : Text
  pub log_level : Level
  pub log_file_level : Level
  pub token : Text

pub data ConfigError : Type 0 where
  bad_flags : FlagError → ConfigError
  invalid_boolean_variable : String → Text → ConfigError
  invalid_port invalid_mode invalid_frame invalid_transport invalid_queue_size : Text → ConfigError
  invalid_timeout invalid_log_level invalid_log_file_level : Text → ConfigError
  udp_with_4e : ConfigError
  -- no error of the source: the model of `time.ParseDuration` was stopped
  stopped : ConfigError

-- The flags.
pub data Setting : Type 0 where
  the_host the_port the_mode the_listen the_readonly the_enable_remote the_frame : Setting
  the_transport the_queue_size the_timeout the_log_file the_log_level : Setting
  the_log_file_level the_token : Setting

abbrev pub settings : List Setting
settings =
    the_host ∷ the_port ∷ the_mode ∷ the_listen ∷ the_readonly ∷ the_enable_remote ∷ the_frame
    ∷ the_transport ∷ the_queue_size ∷ the_timeout ∷ the_log_file ∷ the_log_level
    ∷ the_log_file_level ∷ the_token ∷ []

unfoldable pub flag_name : Setting → Text
flag_name the_host = codes "host"
flag_name the_port = codes "port"
flag_name the_mode = codes "mode"
flag_name the_listen = codes "listen"
flag_name the_readonly = codes "readonly"
flag_name the_enable_remote = codes "enable-remote"
flag_name the_frame = codes "frame"
flag_name the_transport = codes "transport"
flag_name the_queue_size = codes "queue-size"
flag_name the_timeout = codes "timeout"
flag_name the_log_file = codes "log-file"
flag_name the_log_level = codes "log-level"
flag_name the_log_file_level = codes "log-file-level"
flag_name the_token = codes "token"

unfoldable pub variable : Setting → String
variable the_host = "GOMCR_HOST"
variable the_port = "GOMCR_PORT"
variable the_mode = "GOMCR_MODE"
variable the_listen = "GOMCR_LISTEN"
variable the_readonly = "GOMCR_READONLY"
variable the_enable_remote = "GOMCR_ENABLE_REMOTE"
variable the_frame = "GOMCR_FRAME"
variable the_transport = "GOMCR_TRANSPORT"
variable the_queue_size = "GOMCR_QUEUE_SIZE"
variable the_timeout = "GOMCR_TIMEOUT"
variable the_log_file = "GOMCR_LOG_FILE"
variable the_log_level = "GOMCR_LOG_LEVEL"
variable the_log_file_level = "GOMCR_LOG_FILE_LEVEL"
variable the_token = "GOMCR_TOKEN"

-- The default of a text.
unfoldable pub default_text : Setting → Text
default_text the_host = codes "192.168.0.1"
default_text the_port = codes "5007"
default_text the_mode = codes "binary"
default_text the_listen = codes ":8080"
default_text the_frame = codes "3e"
default_text the_transport = codes "tcp"
default_text the_queue_size = codes "32"
default_text the_timeout = codes "5s"
default_text the_log_level = codes "info"
default_text the_log_file_level = codes "warn"
default_text _ = []

kind : Setting → FlagKind
kind the_readonly = bool_flag
kind the_enable_remote = bool_flag
kind _ = text_flag

find_kind : List Setting → Text → Option FlagKind
unfolding flag_name kind
find_kind [] name = none
find_kind (s ∷ ss) name = if text_eq name (flag_name s) then some (kind s) else find_kind ss name

abbrev flags_or_fail : Result FlagError Given → Result ConfigError Given
flags_or_fail (ok given) = ok given
flags_or_fail (err e) = err (bad_flags e)

-- `fs.Parse`
unfoldable pub parse_flags : List Text → Result ConfigError Given
unfolding find_kind
parse_flags args = flags_or_fail (parse_args (find_kind settings) args [])

unfoldable pub getenv_with : (String → Text) → String → Text → Text
getenv_with lookup_env key fallback =
    if text_eq (lookup_env key) [] then fallback else lookup_env key

-- A variable's boolean, with the variable's text.
bool_of_variable : String → Text → Bool → Result ConfigError Bool
bool_of_variable key v fallback =
    if text_eq v []
    then ok fallback
    else elim (parse_bool v) [ none ↦ err (invalid_boolean_variable key v) | some b ↦ ok b ]

unfoldable pub getenv_bool_with : (String → Text) → String → Bool → Result ConfigError Bool
unfolding bool_of_variable
getenv_bool_with lookup_env key fallback = bool_of_variable key (lookup_env key) fallback

-- The value of a text: the flag's, else the variable's, else the default.
unfoldable pub text_setting : (String → Text) → Given → Setting → Text
unfolding getenv_with
text_setting lookup_env given s = elim (last_given (flag_name s) given) [
  | some v ↦ v
  | none ↦ getenv_with lookup_env (variable s) (default_text s)
]

-- `Parse` accepts no boolean flag with another value than those of `ParseBool`.
is_true : Option Bool → Bool
is_true (some b) = b
is_true none = false

unfoldable pub bool_setting : (String → Text) → Given → Setting → Result ConfigError Bool
unfolding is_true
bool_setting lookup_env given s = elim (last_given (flag_name s) given) [
  | some v ↦ ok (is_true (parse_bool v))
  | none ↦ getenv_bool_with lookup_env (variable s) false
]
