-- ===== src/Queue/Shared.antt =====
-- plc.go behind queue.go: the client that the jobs of the work queue share.
use gomc_rest.Common.{ok, ℕ, ◌≡◌, ◌⊎◌, inl, inr, List, [], ◌∷◌, Result, sym, subst}
use gomc_rest.Failure.{Error}
use gomc_rest.Plc.{Net, PlcConfig, Env, Client, do_plc, do_reset}
use gomc_rest.Plc.Accounting.{IsAccounted, do_plc-IsAccounted}
use gomc_rest.Plc.Trace.Kept.{IsTraced, do_plc-IsTraced}
use gomc_rest.Queue.Work.{Event, submits, shuts_down, cancels, works, new_work_queue, run}
use gomc_rest.Queue.Work.Keeping.{Keeps, AllKeep, run-keeps}

abbrev idle : Result Error (Unit {0})
idle = ok tt

module _ {C W : Type 0} (net : Net C W) (cfg : PlcConfig) where
  -- The log of the client is readable, and its counters are consistent.
  abbrev pub IsConsistent : Client C W → Type 0
  IsConsistent p = IsTraced net cfg p × IsAccounted p.metrics

module _ {C W V : Type 0} (net : Net C W) (cfg : PlcConfig) where
  -- A job that leaves the client as one `do` or one `doReset` leaves it.
  abbrev pub IsPlcJob : (Client C W → Result Error V × Client C W) → Type 0
  IsPlcJob execute =
      ((fn : C → Env W → Result Error V × Env W) × ((p : Client C W)
          → (execute p).1 ≡ (do_plc net cfg fn p).1))
      ⊎ ((p : Client C W) → (execute p).1 ≡ (do_reset net cfg p).1)

  abbrev pub AllPlcJobs : List (Event (Client C W) V) → Type 0
  AllPlcJobs [] = Unit
  AllPlcJobs (submits execute prefer_ctx ∷ es) = IsPlcJob execute × AllPlcJobs es
  AllPlcJobs (_ ∷ es) = AllPlcJobs es

  IsPlcJob-Keeps :
      (execute : Client C W → Result Error V × Client C W)
      → IsPlcJob execute
      → Keeps (IsConsistent net cfg) execute
  IsPlcJob-Keeps execute (inl (fn, same)) p (traced, accounted) =
      subst (IsConsistent net cfg) (sym (same p))
        ((do_plc-IsTraced net cfg fn p traced).0, (do_plc-IsAccounted net cfg fn p accounted).0)
  IsPlcJob-Keeps execute (inr same) p (traced, accounted) =
      subst (IsConsistent net cfg) (sym (same p)) (
        (do_plc-IsTraced net cfg (λ (c : C) (e : Env W). (idle, e)) p traced).1,
        (do_plc-IsAccounted net cfg (λ (c : C) (e : Env W). (idle, e)) p accounted).1,
      )

  AllPlcJobs-AllKeep :
      (es : List (Event (Client C W) V)) → AllPlcJobs es → AllKeep (IsConsistent net cfg) es
  AllPlcJobs-AllKeep [] all = tt
  AllPlcJobs-AllKeep (submits execute prefer_ctx ∷ es) (job, all) =
      (IsPlcJob-Keeps execute job, AllPlcJobs-AllKeep es all)
  AllPlcJobs-AllKeep (shuts_down ∷ es) all = AllPlcJobs-AllKeep es all
  AllPlcJobs-AllKeep (cancels id e ∷ es) all = AllPlcJobs-AllKeep es all
  AllPlcJobs-AllKeep (works choice ∷ es) all = AllPlcJobs-AllKeep es all

  -- Clients submit operations that go through `do` or `doReset`, in whatever order, and whatever their
  -- contexts, the worker and `Shutdown` do in between: at all times the state log of the shared client
  -- is one that a reader can follow, which says so where there is a connection and shows as many
  -- dials as the metrics count; and the counters of the PLC layer are consistent.
  pub run-IsConsistent :
      (size : ℕ) (p : Client C W) (es : List (Event (Client C W) V))
      → IsConsistent net cfg p
      → AllPlcJobs es
      → IsConsistent net cfg (run (new_work_queue size p) es).shared
  run-IsConsistent size p es start all =
      run-keeps (IsConsistent net cfg) size p es start (AllPlcJobs-AllKeep es all)
