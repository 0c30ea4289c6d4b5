-- ===== src/Server/Shutdown.antt =====
-- main.go: the end of `main`, over the work queue with its interleavings: `plcQueue.Shutdown`, the
-- worker's last steps, and `plcQueue.Close`, where the jobs act on the client.
pub mod Lines
use gomc_rest.Queue.Work.Stopping.{IsEnded-final, shut_down-IsEnded}
use mathlib.Core.Option.{none-ne-some}
use gomc_rest.Queue.Work.Caller.{shut_down}
use gomc_rest.Failure.{Error}
use gomc_rest.Common.{
  inr, inl, Option-cases, Bool, ok, Result, some, Option, ℕ, ◌≤◌, ◌≡◌, refl, sym, subst, ◌∙◌, ap,
  true, none, List, [], ◌∷◌, ◌++◌,
}
use gomc_rest.Plc.{Net, PlcConfig, Client, close_plc}
use gomc_rest.Plc.Connection.{do_reset-disconnected}
use gomc_rest.Queue.Work.{WorkQueue, Event, shuts_down, stopped, new_work_queue, run}
use gomc_rest.Queue.Work.Order.{IsClosing, run-Orderly}
use gomc_rest.Queue.Work.Drain.{left, count_works, shutdown_drains}
use gomc_rest.Queue.Work.Serial.{IsBetweenJobs, IsFrozen, run-IsFrozen}

module _ {C W V : Type 0} (net : Net C W) (cfg : PlcConfig) where
  -- `plcQueue.Close` on the client that the jobs share.
  unfoldable pub close_shared : WorkQueue (Client C W) V → WorkQueue (Client C W) V
  close_shared q = record q { shared = close_plc net cfg q.shared }

  -- `plcQueue.Shutdown`, and `plcQueue.Close` once it has returned, whatever it returned: the end of
  -- `main`, whose context has the error `ctx` when `Shutdown` returns. `between` is what clients,
  -- contexts and the worker do before.
  unfoldable pub end_main :
      Option Error
      → List (Event (Client C W) V)
      → Bool
      → WorkQueue (Client C W) V
      → Option (Result Error Unit) × WorkQueue (Client C W) V
  unfolding close_shared
  end_main ctx between choice q =
      let (answer, last) = shut_down ctx between choice q in
      elim answer [ none ↦ (none, last) | some r ↦ (some r, close_shared last) ]

  closed_queue-IsFrozen :
      (q : WorkQueue (Client C W) V)
      → q.closed ≡ true
      → q.worker ≡ stopped
      → IsFrozen (close_plc net cfg q.shared) (close_shared q)
  unfolding close_shared
  closed_queue-IsFrozen q shut ended = record {
    shut = shut;
    between = subst IsBetweenJobs (sym ended) tt;
    kept = refl;
  }

  -- If the worker gets its last steps before `Close`, the PLC is left for good: from any state that
  -- the server can reach, `Shutdown`, these steps and `Close` end with no connection, and whatever
  -- the clients, their contexts and the worker do afterwards, none is opened again, and the world and
  -- the counters of the PLC layer stay as `Close` left them.
  pub close_shared-final :
      (size : ℕ) (p : Client C W) (before after later : List (Event (Client C W) V))
      → left (run (new_work_queue size p) (before ++ shuts_down ∷ [])) ≤ count_works after
      → let q = run (new_work_queue size p) (before ++ shuts_down ∷ after) in
        ((run (close_shared q) later).shared ≡ close_plc net cfg q.shared)
        × ((run (close_shared q) later).shared.conn ≡ none)
  close_shared-final size p before after later enough =
      let q = run (new_work_queue size p) (before ++ shuts_down ∷ after) in
      let (ended, _, _) = shutdown_drains size p before after enough in
      let orderly = run-Orderly size p (before ++ shuts_down ∷ after) in
      let shut = orderly.closing (subst IsClosing (sym ended) tt) in
      let frozen =
        run-IsFrozen later (close_plc net cfg q.shared) (close_shared q)
          (closed_queue-IsFrozen q shut ended) in
      (
        frozen.kept,
        ap (λ (c : Client C W). c.conn) frozen.kept ∙ (do_reset-disconnected net cfg q.shared).1,
      )

  end_main-nil :
      (ctx : Option Error) (between : List (Event (Client C W) V)) (choice : Bool)
      (q : WorkQueue (Client C W) V)
      → (end_main ctx between choice q).0 ≡ some (ok tt)
      → ((shut_down ctx between choice q).0 ≡ some (ok tt))
        × ((end_main ctx between choice q).1 ≡ close_shared (shut_down ctx between choice q).1)
  unfolding end_main
  end_main-nil ctx between choice q got = elim (Option-cases (shut_down ctx between choice q).0) [
    | inl waits ↦ absurd (none-ne-some _ (rw (waits, end_main) at got))
    | inr (r, found) ↦ (found ∙ rw (found, end_main) at got, rw (found, end_main) refl)
  ]

  -- The same from what `main` can see: if the `Shutdown` of the queue returns nil, the program has
  -- left the PLC for good when it has closed the client. Whatever happens in between and afterwards,
  -- no connection is open, and nothing acts on the client any more.
  pub end_main-final :
      (size : ℕ) (p : Client C W) (before : List (Event (Client C W) V)) (ctx : Option Error)
      (between : List (Event (Client C W) V)) (choice : Bool) (later : List (Event (Client C W) V))
      → (end_main ctx between choice (run (new_work_queue size p) before)).0 ≡ some (ok tt)
      → let q = (end_main ctx between choice (run (new_work_queue size p) before)).1 in
        (q.shared.conn ≡ none) × ((run q later).shared ≡ q.shared)
  unfolding close_shared
  end_main-final size p before ctx between choice later got =
      let (nil, closed_after) =
        end_main-nil ctx between choice (run (new_work_queue size p) before) got in
      let last = (shut_down ctx between choice (run (new_work_queue size p) before)).1 in
      let v = shut_down-IsEnded size p before ctx between choice nil in
      rw closed_after (
        (do_reset-disconnected net cfg last.shared).1,
        IsEnded-final last (close_plc net cfg last.shared) later v,
      )
