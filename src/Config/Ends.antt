-- ===== src/Config/Ends.antt =====
-- config.go: `parseConfig` ends.
use text.Mathlib.Text.{◌==◌}
use gomc_rest.Common.{
  ◌&&◌, then_never, Result, fail_if, bind_never, Bool, ℕ, ◌≡◌, String, List, arith, err,
}
use gomc_rest.Common.Flags.{Given}
use gomc_rest.Common.Text.{Text}
use gomc_rest.Common.Duration.Ends.{parse_duration-Ends}
use gomc_rest.Config.{
  bool_of_variable, the_log_file_level, the_log_level, the_timeout, the_queue_size, the_transport,
  the_frame, the_mode, the_port, the_enable_remote, the_readonly, udp_with_4e, text_setting,
  ConfigError, invalid_log_file_level, invalid_log_level, Given, stopped, Setting, parse_flags,
  bool_setting, getenv_bool_with,
}
use gomc_rest.Config.Parse.{
  configure, parse_frame, parse_queue_size, parse_config, parse_transport, parse_mode, the_level,
  parse_port, parse_timeout,
}

parse_timeout-Ends :
    (fraction : ℕ → ℕ → ℕ → ℕ) (s : Text) → ¬ (parse_timeout fraction s ≡ err stopped)
unfolding parse_timeout
parse_timeout-Ends fraction s = ground (arith, parse_duration-Ends fraction s)

parse_flags-Ends : (args : List Text) → ¬ (parse_flags args ≡ err stopped)
unfolding parse_flags
parse_flags-Ends args = ground arith

bool_setting-Ends :
    (lookup_env : String → Text) (given : Given) (s : Setting)
    → ¬ (bool_setting lookup_env given s ≡ err stopped)
unfolding bool_setting getenv_bool_with bool_of_variable
bool_setting-Ends lookup_env given s = ground arith

parse_port-Ends : (s : Text) → ¬ (parse_port s ≡ err stopped)
unfolding parse_port
parse_port-Ends s = ground arith

parse_mode-Ends : (s : Text) → ¬ (parse_mode s ≡ err stopped)
unfolding parse_mode
parse_mode-Ends s = ground arith

parse_frame-Ends : (s : Text) → ¬ (parse_frame s ≡ err stopped)
unfolding parse_frame
parse_frame-Ends s = ground arith

parse_transport-Ends : (s : Text) → ¬ (parse_transport s ≡ err stopped)
unfolding parse_transport
parse_transport-Ends s = ground arith

parse_queue_size-Ends : (s : Text) → ¬ (parse_queue_size s ≡ err stopped)
unfolding parse_queue_size
parse_queue_size-Ends s = ground arith

log_level-Ends : (s : Text) → ¬ (the_level invalid_log_level s ≡ err stopped)
unfolding the_level
log_level-Ends s = ground arith

log_file_level-Ends : (s : Text) → ¬ (the_level invalid_log_file_level s ≡ err stopped)
unfolding the_level
log_file_level-Ends s = ground arith

fits-Ends : (b : Bool) → ¬ (fail_if b udp_with_4e ≡ err stopped)
fits-Ends b = ground arith

configure-Ends :
    (fraction : ℕ → ℕ → ℕ → ℕ) (text : Setting → Text) (bool : Setting → Result ConfigError Bool)
    → ((s : Setting) → ¬ (bool s ≡ err stopped))
    → ¬ (configure fraction text bool ≡ err stopped)
unfolding configure
configure-Ends fraction text bool bool_ends =
    bind_never (bool the_readonly) (bool_ends the_readonly) (λ readonly _.
      bind_never (bool the_enable_remote) (bool_ends the_enable_remote) (λ enable_remote _.
        bind_never (parse_port (text the_port)) (parse_port-Ends (text the_port)) (λ port _.
          bind_never (parse_mode (text the_mode)) (parse_mode-Ends (text the_mode)) (λ ascii _.
            bind_never (parse_frame (text the_frame)) (parse_frame-Ends (text the_frame))
              (λ frame _.
                bind_never (parse_transport (text the_transport))
                  (parse_transport-Ends (text the_transport))
                  (λ transport _.
                    then_never (fail_if (frame == "4e" && transport == "udp") udp_with_4e)
                      (fits-Ends _)
                      (bind_never (parse_queue_size (text the_queue_size))
                        (parse_queue_size-Ends (text the_queue_size))
                        (λ queue_size _.
                          bind_never (parse_timeout fraction (text the_timeout))
                            (parse_timeout-Ends fraction (text the_timeout))
                            (λ timeout _.
                              bind_never (the_level invalid_log_level (text the_log_level))
                                (log_level-Ends (text the_log_level))
                                (λ log_level _.
                                  bind_never
                                    (the_level invalid_log_file_level (text the_log_file_level))
                                    (log_file_level-Ends (text the_log_file_level))
                                    (λ log_file_level _. λ e. ground arith)))))))))))

-- `parseConfig` ends with a configuration or an error of the source, whatever the arguments and the
-- environment: the loop that parses the timeout is never stopped for want of fuel.
pub parse_config-Ends :
    (fraction : ℕ → ℕ → ℕ → ℕ) (args : List Text) (lookup_env : String → Text)
    → ¬ (parse_config fraction args lookup_env ≡ err stopped)
unfolding parse_config
parse_config-Ends fraction args lookup_env =
    bind_never (parse_flags args) (parse_flags-Ends args) (λ given _.
      configure-Ends fraction (text_setting lookup_env given) (bool_setting lookup_env given)
        (bool_setting-Ends lookup_env given))
