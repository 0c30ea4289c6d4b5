-- ===== src/Config/Sample.antt =====
-- Arguments and an environment, and the configuration that they give.
use text.Mathlib.Text.{◌==◌}
use gomc_rest.Common.{
  ℕ, ◌*◌, ◌/◌, ◌≡◌, refl, String, List, [], ◌∷◌, ok, err, true, false, if◌then◌else◌,
}
use gomc_rest.Common.Text.{
  Text, codes, text_eq, to_lower, lower_byte, split_at_byte?, parse_int, parse_uint, parse_digits,
  digit_value, in_int64,
}
use gomc_rest.Common.Flags.{Given, last_given, parse_args, classify, named, cut_value, parse_bool}
use gomc_rest.Common.Duration.{
  parse_duration, cut_sign, parse_items, read_item, add_item, cut_fraction, span_digits, span_unit,
  leading_int, leading_fraction, unit_ns,
}
use gomc_rest.Logging.{debug, warn}
use gomc_rest.Config.{
  default_text, getenv_with, bool_of_variable, getenv_bool_with, is_true, text_setting,
  bool_setting, kind, find_kind, ServerConfig, udp_with_4e, flag_name, variable, parse_flags,
}
use gomc_rest.Config.Parse.{
  configure, parse_port, parse_mode, parse_frame, parse_transport, parse_queue_size, parse_timeout,
  the_level, parse_log_level, normalize_listen, parse_config,
}

abbrev pub whole : ℕ → ℕ → ℕ → ℕ
whole f unit scale = f * unit / scale

abbrev pub arguments : List Text
arguments =
    codes "-frame=4e"
    ∷ codes "--port"
    ∷ codes "5010"
    ∷ codes "-readonly"
    ∷ codes "-log-level"
    ∷ codes "DEBUG"
    ∷ codes "-listen=8080"
    ∷ []

abbrev pub given_arguments : Given
given_arguments =
    (codes "listen", codes "8080")
    ∷ (codes "log-level", codes "DEBUG")
    ∷ (codes "readonly", codes "true")
    ∷ (codes "port", codes "5010")
    ∷ (codes "frame", codes "4e")
    ∷ []

abbrev pub variables : String → Text
variables key =
    if key == "GOMCR_TIMEOUT"
    then codes "1m1.5s"
    else if key == "GOMCR_TOKEN"
    then codes "secret"
    else if key == "GOMCR_READONLY"
    then codes "no boolean"
    else []

-- The same without the variable that a flag hides.
abbrev pub fewer_variables : String → Text
fewer_variables key = if key == "GOMCR_READONLY" then [] else variables key

abbrev pub expected : ServerConfig
expected = record {
  host = codes "192.168.0.1";
  port = 5010;
  ascii = false;
  mode_string = codes "binary";
  listen = codes ":8080";
  readonly = true;
  enable_remote = false;
  frame = "4e";
  transport = "tcp";
  queue_size = 32;
  timeout = 61500000000;
  log_file = [];
  log_level = debug;
  log_file_level = warn;
  token = codes "secret";
}

pub parsed_flags : parse_flags arguments ≡ ok given_arguments
unfolding parse_flags parse_args classify named cut_value find_kind kind flag_name text_eq
    parse_bool
parsed_flags = refl

pub parsed : parse_config whole arguments variables ≡ ok expected
unfolding parse_flags parse_args classify named cut_value find_kind kind flag_name text_eq
    parse_bool parse_config configure bool_setting text_setting last_given is_true getenv_bool_with
    bool_of_variable getenv_with variable default_text parse_port parse_mode parse_frame
    parse_transport parse_queue_size parse_timeout the_level parse_log_level to_lower lower_byte
    normalize_listen split_at_byte? parse_int parse_uint parse_digits digit_value in_int64
    parse_duration cut_sign parse_items read_item add_item cut_fraction span_digits span_unit
    leading_int leading_fraction unit_ns
parsed = refl

refused :
    parse_config whole (codes "-frame=4e" ∷ codes "-transport=udp" ∷ []) fewer_variables
    ≡ err udp_with_4e
unfolding parse_flags parse_args classify named cut_value find_kind kind flag_name text_eq
    parse_bool parse_config configure bool_setting text_setting last_given is_true getenv_bool_with
    bool_of_variable getenv_with variable default_text parse_port parse_mode parse_frame
    parse_transport parse_queue_size parse_timeout the_level parse_log_level to_lower lower_byte
    normalize_listen split_at_byte? parse_int parse_uint parse_digits digit_value in_int64
    parse_duration cut_sign parse_items read_item add_item cut_fraction span_digits span_unit
    leading_int leading_fraction unit_ns
refused = refl
