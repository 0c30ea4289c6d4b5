-- ===== src/Logging/StateEvents.antt =====
-- logging.go and main.go: which records reach the terminal and the log file.
use gomc_rest.Common.{◌≡◌, arith, Bool, ◌||◌, ◌&&◌, [], ◌∷◌, inl, inr, if◌then◌else◌}
use gomc_rest.Logging.{
  info, reaches, Record, Handler, tee, state_event, either, log, is_state_event, any_enabled,
  handle_each,
}

-- Whether the file gets a record, for a file handler `h`.
abbrev pub reaches_file : {H O : Type 0} → Handler H O → H → Record → Bool
reaches_file file h r = file.enabled h r.level || (reaches r.level info && is_state_event r)

-- A line written, or left out.
abbrev pub write_if : {H O : Type 0} → Bool → Handler H O → H → Record → O → O
write_if wanted methods h r o = if wanted then (methods.handle h r o).1 else o

-- With a log file, a record is written to the terminal if the terminal's handler takes its level, and
-- then to the file if the file's handler takes its level or it is a state event of level Info at
-- least; whether a handler takes the one has no effect on the other, and neither has an error.
pub log-tee :
    {T F O : Type 0} (terminal : Handler T O) (file : Handler F O) (t : T) (f : F) (r : Record)
    (o : O)
    → log (tee (either terminal (state_event file))) (inl t ∷ inr f ∷ []) r o
      ≡ write_if
          (reaches_file file f r)
          file
          f
          r
          (write_if (terminal.enabled t r.level) terminal t r o)
unfolding log tee either state_event any_enabled handle_each
log-tee terminal file t f r o = ground arith
