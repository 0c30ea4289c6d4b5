-- ===== src/Server/Logs.antt =====
-- main.go: the logger that `main` sets up, on the terminal and in a log file. `new_terminal` and
-- `new_file` make the charm logger and the `slog.TextHandler` with the levels of the configuration.
use gomc_rest.Common.{
  arith, true, List, ◌≡◌, refl, ◌∙◌, Bool, ◌||◌, ◌&&◌, [], ◌∷◌, inl, inr, if◌then◌else◌, Bool-cases,
}
use gomc_rest.Common.Text.{Text, text_eq}
use gomc_rest.Logging.{
  rank, Attr, log_state, log_state_warn, Level, info, reaches, Record, Handler, tee, state_event,
  either, log, is_state_event,
}
use gomc_rest.Logging.StateEvents.{write_if, log-tee}
use gomc_rest.Config.{ServerConfig}

module _ {T F O : Type 0} (terminal : Handler T O) (file : Handler F O) (new_terminal : Level → T)
    (new_file : Level → F) (cfg : ServerConfig) where
  -- A line logged through the default logger.
  unfoldable pub main_log : Record → O → O
  main_log r o =
      if text_eq cfg.log_file []
      then log terminal (new_terminal cfg.log_level) r o
      else log (tee (either terminal (state_event file)))
          (inl (new_terminal cfg.log_level) ∷ inr (new_file cfg.log_file_level) ∷ []) r o

  -- What the terminal and the file are to get.
  abbrev pub to_terminal : Record → Bool
  to_terminal r = reaches r.level cfg.log_level

  abbrev pub to_file : Record → Bool
  to_file r = reaches r.level cfg.log_file_level || (reaches r.level info && is_state_event r)

  -- For sinks that take the records from their level on, a record is written to the terminal if it
  -- reaches the terminal's level, and then, with a log file, to the file if it reaches the file's level
  -- or is a state event of level Info at least; neither depends on the other, nor on its errors. What
  -- `logState` and `logStateWarn` log is always for the file, whatever its level.
  pub main_log-sinks :
      ((threshold level : Level)
        → terminal.enabled (new_terminal threshold) level ≡ reaches level threshold)
      → ((threshold level : Level)
          → file.enabled (new_file threshold) level ≡ reaches level threshold)
      → (r : Record) (o : O) (run_id message : Text) (args : List Attr)
      → (main_log r o ≡ (
          let shown = write_if (to_terminal r) terminal (new_terminal cfg.log_level) r o in
          if text_eq cfg.log_file []
          then shown
          else write_if (to_file r) file (new_file cfg.log_file_level) r shown))
        × (to_file (log_state run_id message args) ≡ true)
        × (to_file (log_state_warn run_id message args) ≡ true)
  unfolding main_log reaches rank is_state_event log_state log_state_warn text_eq
  main_log-sinks takes keeps r o run_id message args =
      let at_terminal = takes cfg.log_level r.level in
      let at_file = keeps cfg.log_file_level r.level in
      (
        elim (Bool-cases (text_eq cfg.log_file [])) [
          | inl none_set ↦ rw (none_set, main_log) (unfold log in rw at_terminal refl)
          | inr set ↦
              rw (set, main_log)
                (log-tee terminal file (new_terminal cfg.log_level) (new_file cfg.log_file_level) r
                    o
                  ∙ rw (at_terminal, at_file) refl)
        ],
        ground arith,
        ground arith,
      )
