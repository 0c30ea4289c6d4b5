-- ===== src/Handler/Remote.antt =====
-- handler.go: `handleRemoteRun`, `handleRemoteStop`, `handleRemotePause`, `handleRemoteLatchClear`
-- and `handleRemoteReset`.
pub mod Guarded
use gomc_rest.Common.{
  ℕ, String, Bool, true, false, List, [], ◌∷◌, Option, none, some, ltb, if◌then◌else◌, Result, ok,
  err, ◌>>=◌, ◌>>◌,
}
use gomc_rest.Common.Int.{ℤ, pos}
use gomc_rest.Common.Text.{codes, parse_int, text_eq}
use gomc_rest.Failure.{Error}
use gomc_rest.Http.{clear_range, Request, Response, bad_request}
use gomc_rest.Http.Params.{get, parse_bool_param}
use gomc_rest.Http.Guards.{
  Guard, require_method, require_writable, require_remote_enabled, allow_params, or_bad_request,
}
use gomc_rest.Handler.Read.{respond}
use gomc_rest.Handler.Write.{ok_response}
use gomc_rest.Plc.{Net, PlcConfig}
use gomc_rest.Queue.Exec.{Turn, PlcQueue}
use gomc_rest.Queue.Ops.{remote_run, remote_stop, remote_pause, remote_latch_clear, remote_reset}

-- The operation that a valid request asks for.
pub data RemotePlan : Type 0 where
  run : (clear : ℕ) (force : Bool) → RemotePlan
  stop latch_clear reset : RemotePlan
  pause : (force : Bool) → RemotePlan

-- The guards that the five handlers begin with.
unfoldable pub remote_guard : Bool → Bool → Request → List String → Guard (Unit {0})
remote_guard readonly enable_remote r allowed = do
  require_method r "POST"
  require_writable readonly
  require_remote_enabled enable_remote
  allow_params r allowed

abbrev clear_of : Option ℤ → Guard ℕ
clear_of (some (pos n)) = if ltb 2 n then err (bad_request clear_range) else ok n
clear_of _ = err (bad_request clear_range)

-- The parameter `clear`, 0 if it is left out.
unfoldable pub parse_clear : String → Guard ℕ
parse_clear s = if text_eq (codes s) [] then ok 0 else clear_of (parse_int 10 (codes s))

unfoldable pub plan_run : Bool → Bool → Request → Guard RemotePlan
plan_run readonly enable_remote r = do
  remote_guard readonly enable_remote r ("force" ∷ "clear" ∷ [])
  clear ← parse_clear (get r.query "clear")
  force ← or_bad_request (parse_bool_param r.query "force")
  ok (run clear force)

unfoldable pub plan_stop : Bool → Bool → Request → Guard RemotePlan
plan_stop readonly enable_remote r = do remote_guard readonly enable_remote r []; ok stop

unfoldable pub plan_pause : Bool → Bool → Request → Guard RemotePlan
plan_pause readonly enable_remote r = do
  remote_guard readonly enable_remote r ("force" ∷ [])
  force ← or_bad_request (parse_bool_param r.query "force")
  ok (pause force)

unfoldable pub plan_latch_clear : Bool → Bool → Request → Guard RemotePlan
plan_latch_clear readonly enable_remote r = do
  remote_guard readonly enable_remote r []
  ok latch_clear

unfoldable pub plan_reset : Bool → Bool → Request → Guard RemotePlan
plan_reset readonly enable_remote r = do remote_guard readonly enable_remote r []; ok reset

-- The five endpoints.
pub data Endpoint : Type 0 where
  at_run at_stop at_pause at_latch_clear at_reset : Endpoint

unfoldable pub plan_remote : Endpoint → Bool → Bool → Request → Guard RemotePlan
plan_remote at_run readonly enable_remote r = plan_run readonly enable_remote r
plan_remote at_stop readonly enable_remote r = plan_stop readonly enable_remote r
plan_remote at_pause readonly enable_remote r = plan_pause readonly enable_remote r
plan_remote at_latch_clear readonly enable_remote r = plan_latch_clear readonly enable_remote r
plan_remote at_reset readonly enable_remote r = plan_reset readonly enable_remote r

module _ {C W : Type 0} (net : Net C W) (cfg : PlcConfig) where
  unfoldable pub remote_op :
      Turn → RemotePlan → PlcQueue C W → Result Error (Unit {0}) × PlcQueue C W
  remote_op turn (run clear force) = remote_run net cfg turn clear force
  remote_op turn stop = remote_stop net cfg turn
  remote_op turn (pause force) = remote_pause net cfg turn force
  remote_op turn latch_clear = remote_latch_clear net cfg turn
  remote_op turn reset = remote_reset net cfg turn

  unfoldable pub run_remote : Turn → RemotePlan → PlcQueue C W → Response × PlcQueue C W
  run_remote turn plan q =
      let (answer, q') = remote_op turn plan q in (respond ok_response answer, q')

  unfoldable pub handle_remote :
      Endpoint → Bool → Bool → Request → Turn → PlcQueue C W → Response × PlcQueue C W
  handle_remote endpoint readonly enable_remote r turn q =
      elim (plan_remote endpoint readonly enable_remote r) [
        | err response ↦ (response, q)
        | ok plan ↦ run_remote turn plan q
      ]
