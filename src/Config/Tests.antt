-- ===== src/Config/Tests.antt =====
-- Runs of config.go's `parseConfig`.
use gomc_rest.Common.{◌≡◌, refl, ok, true, none, arith}
use gomc_rest.Common.Text.{text_eq}
use gomc_rest.Common.Flags.{last_given}
use gomc_rest.Plc.Simulator.{sim_net, SimWorld}
use gomc_rest.Plc.{new_connection}
use gomc_rest.Config.{
  the_host, the_port, the_mode, the_listen, the_readonly, the_enable_remote, the_frame,
  the_transport, the_queue_size, the_timeout, the_log_file, the_log_level, the_log_file_level,
  the_token, Setting, flag_name, variable,
}
use gomc_rest.Config.Parse.{parse_config, plc_config}
use gomc_rest.Config.Valid.{IsValid, parse_config-IsValid}
use gomc_rest.Config.Precedence.{parse_config-flags_win}
use gomc_rest.Config.Dial.{new_connection-parse_config}
use gomc_rest.Config.Sample.{
  whole, arguments, given_arguments, variables, fewer_variables, expected, parsed_flags, parsed,
}

abbrev no_words : SimWorld
no_words = record { words = λ a. 0; time = 0 }

agree :
    (s : Setting)
    → last_given (flag_name s) given_arguments ≡ none
    → variables (variable s) ≡ fewer_variables (variable s)
unfolding variable last_given flag_name text_eq
agree the_host e = refl
agree the_port e = refl
agree the_mode e = refl
agree the_listen e = refl
agree the_readonly e = absurd (ground arith)
agree the_enable_remote e = refl
agree the_frame e = refl
agree the_transport e = refl
agree the_queue_size e = refl
agree the_timeout e = refl
agree the_log_file e = refl
agree the_log_level e = refl
agree the_log_file_level e = refl
agree the_token e = refl

parse_config-IsValid_example : IsValid expected
parse_config-IsValid_example = parse_config-IsValid whole arguments variables expected parsed

new_connection-parse_config_example :
    new_connection (sim_net true) (plc_config expected) no_words ≡ (ok tt, no_words)
new_connection-parse_config_example =
    new_connection-parse_config (sim_net true) whole arguments variables expected no_words parsed

parse_config-flags_win_example :
    parse_config whole arguments variables ≡ parse_config whole arguments fewer_variables
parse_config-flags_win_example =
    parse_config-flags_win whole arguments given_arguments variables fewer_variables parsed_flags
      agree
