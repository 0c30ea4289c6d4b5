-- ===== src/Server/Shutdown/Lines.antt =====
-- main.go: the lines that `main` logs itself from the signal on, around `srv.Shutdown` and the end in
-- Server.Shutdown. Other lines of the program may stand between them.
use gomc_rest.Common.{
  arith, Bool, ok, err, Result, some, Option, ℕ, ◌≡◌, refl, true, false, none, List, [], ◌∷◌, ◌++◌,
  ◌||◌, String,
}
use gomc_rest.Common.Text.{Text, codes, text_eq}
use gomc_rest.Failure.{Error}
use gomc_rest.Logging.{Record, error, other_kind, log_state}
use gomc_rest.Plc.{Net, PlcConfig, Client}
use gomc_rest.Queue.Work.{WorkQueue, Event, new_work_queue, run}
use gomc_rest.Server.Main.{attr}
use gomc_rest.Server.Shutdown.{end_main, end_main-final}

-- `slog.Error` with the error, where there is one.
unfoldable pub error_lines : String → Option Error → List Record
error_lines message none = []
error_lines message (some e) =
    record { level = error; message = codes message; attrs = attr "error" other_kind ∷ [] } ∷ []

-- What follows `plcQueue.Shutdown`, by what it has returned; nothing does while it has not.
unfoldable pub queue_lines : (run_id : Text) → Option (Result Error Unit) → List Record
unfolding error_lines
queue_lines run_id none = []
queue_lines run_id (some (err e)) =
    error_lines "queue shutdown error" (some e)
    ++ log_state run_id (codes "service_stopped") [] ∷ []
queue_lines run_id (some (ok _)) = log_state run_id (codes "service_stopped") [] ∷ []

-- `main` from the signal on: `stop` is the error of `srv.Shutdown`, and the rest is as in `end_main`.
-- The lines are those of `main` itself.
unfoldable pub stop_main :
    {C W V : Type 0}
    → Net C W
    → PlcConfig
    → (run_id : Text) → (stop ctx : Option Error) → List (Event (Client C W) V)
    → Bool
    → WorkQueue (Client C W) V
    → List Record × WorkQueue (Client C W) V
unfolding error_lines queue_lines
stop_main net cfg run_id stop ctx between choice q =
    let (answer, last) = end_main net cfg ctx between choice q in
    (
      log_state run_id (codes "service_stopping") [] ∷ error_lines "shutdown error" stop
          ++ queue_lines run_id answer,
      last,
    )

-- A line with this message is among them.
unfoldable pub is_logged : String → List Record → Bool
is_logged message [] = false
is_logged message (r ∷ rs) = text_eq r.message (codes message) || is_logged message rs

-- The lines tell what `plcQueue.Shutdown` has returned.
lines-nil :
    (run_id : Text) (stop : Option Error) (answer : Option (Result Error Unit))
    → let lines =
        log_state run_id (codes "service_stopping") [] ∷ error_lines "shutdown error" stop
        ++ queue_lines run_id answer in
      is_logged "service_stopped" lines ≡ true
      → is_logged "queue shutdown error" lines ≡ false
      → answer ≡ some (ok tt)
unfolding is_logged text_eq error_lines queue_lines log_state
lines-nil run_id none none stopped quiet = ground arith
lines-nil run_id (some e) none stopped quiet = ground arith
lines-nil run_id none (some (err e)) stopped quiet = ground arith
lines-nil run_id (some f) (some (err e)) stopped quiet = ground arith
lines-nil run_id stop (some (ok _)) stopped quiet = refl

-- The log tells whether the program has left the PLC for good: from any state that the queue can
-- reach, if the lines of `main` have service_stopped and no queue shutdown error, then no connection
-- is open when the last of them is logged, and whatever happens afterwards, nothing acts on the
-- client any more. An error of `srv.Shutdown` does not matter for it.
pub stop_main-final :
    {C W V : Type 0} (net : Net C W) (cfg : PlcConfig) (size : ℕ) (p : Client C W)
    (before : List (Event (Client C W) V)) (run_id : Text) (stop ctx : Option Error)
    (between : List (Event (Client C W) V)) (choice : Bool) (later : List (Event (Client C W) V))
    → let (lines, q) =
        stop_main net cfg run_id stop ctx between choice (run (new_work_queue size p) before) in
      is_logged "service_stopped" lines ≡ true
      → is_logged "queue shutdown error" lines ≡ false
      → (q.shared.conn ≡ none) × ((run q later).shared ≡ q.shared)
unfolding stop_main
stop_main-final net cfg size p before run_id stop ctx between choice later stopped quiet =
    end_main-final net cfg size p before ctx between choice later (
      lines-nil run_id stop
        (end_main net cfg ctx between choice (run (new_work_queue size p) before)).0 stopped quiet)
