-- ===== src/Handler/Remote/Guarded.antt =====
-- Who may control the PLC or write to it.
use text.Mathlib.Text.{◌==◌}
use gomc_rest.Common.{
  ℕ, ◌≡◌, refl, arith, String, Bool, true, not, ◌||◌, List, [], ◌∷◌, err, Bool-cases, inl, inr,
  if◌then◌else◌,
}
use gomc_rest.Http.{write_err, Request, Response}
use gomc_rest.Http.Guards.{require_method, require_writable, require_remote_enabled}
use gomc_rest.Handler.Write.{WriteBody, plan_write, handle_write}
use gomc_rest.Http.Json.{Decoded}
use gomc_rest.Handler.RandomWrite.{RandomWriteBody, plan_random_write, handle_random_write}
use gomc_rest.Handler.Remote.{
  Endpoint, at_run, at_stop, at_pause, at_latch_clear, at_reset, remote_guard, plan_run, plan_stop,
  plan_pause, plan_latch_clear, plan_reset, plan_remote, handle_remote,
}
use gomc_rest.Plc.{Net, PlcConfig}
use gomc_rest.Queue.Exec.{Turn, PlcQueue}

-- The status of a refusal: the method is looked at first.
abbrev pub refusal_status : Request → ℕ
refusal_status r = if r.method == "POST" then 403 else 405

remote_guard-refuses :
    (readonly enable_remote : Bool) (r : Request) (allowed : List String)
    → (readonly || not enable_remote) ≡ true
    → (response : Response) × (remote_guard readonly enable_remote r allowed ≡ err response)
      × (response.status ≡ refusal_status r)
unfolding remote_guard require_method require_writable require_remote_enabled write_err
remote_guard-refuses readonly enable_remote r allowed locked =
    elim (Bool-cases (r.method == "POST")) [
      | inr other ↦ rw other (_, refl, refl)
      | inl post ↦ rw post (elim (Bool-cases readonly) [
        | inl on ↦ rw on (_, refl, refl)
        | inr off ↦ elim (Bool-cases enable_remote) [
          | inl on ↦ absurd (ground arith)
          | inr disabled ↦ rw (off, disabled) (_, refl, refl)
        ]
      ])
    ]

pub plan_remote-refuses :
    (endpoint : Endpoint) (readonly enable_remote : Bool) (r : Request)
    → (readonly || not enable_remote) ≡ true
    → (response : Response) × (plan_remote endpoint readonly enable_remote r ≡ err response)
      × (response.status ≡ refusal_status r)
unfolding plan_remote plan_run plan_stop plan_pause plan_latch_clear plan_reset
plan_remote-refuses at_run readonly enable_remote r locked =
    let (response, refused, code) =
      remote_guard-refuses readonly enable_remote r ("force" ∷ "clear" ∷ []) locked in
    (response, rw refused refl, code)
plan_remote-refuses at_stop readonly enable_remote r locked =
    let (response, refused, code) = remote_guard-refuses readonly enable_remote r [] locked in
    (response, rw refused refl, code)
plan_remote-refuses at_pause readonly enable_remote r locked =
    let (response, refused, code) =
      remote_guard-refuses readonly enable_remote r ("force" ∷ []) locked in
    (response, rw refused refl, code)
plan_remote-refuses at_latch_clear readonly enable_remote r locked =
    let (response, refused, code) = remote_guard-refuses readonly enable_remote r [] locked in
    (response, rw refused refl, code)
plan_remote-refuses at_reset readonly enable_remote r locked =
    let (response, refused, code) = remote_guard-refuses readonly enable_remote r [] locked in
    (response, rw refused refl, code)

-- In read-only mode, or with remote control off, none of the five remote endpoints touches the
-- queue, the PLC or a counter, whatever the request and the PLC: the answer has status 403, or 405
-- if the method is not POST.
pub handle_remote-locked :
    {C W : Type 0} (net : Net C W) (cfg : PlcConfig) (endpoint : Endpoint)
    (readonly enable_remote : Bool) (r : Request) (turn : Turn) (q : PlcQueue C W)
    → (readonly || not enable_remote) ≡ true
    → (response : Response) × (handle_remote net cfg endpoint readonly enable_remote r turn q
        ≡ (response, q))
      × (response.status ≡ refusal_status r)
unfolding handle_remote
handle_remote-locked net cfg endpoint readonly enable_remote r turn q locked =
    let (response, refused, code) = plan_remote-refuses endpoint readonly enable_remote r locked in
    (response, rw (refused, handle_remote) refl, code)

pub plan_write-readonly :
    (r : Request) (body : WriteBody)
    → (response : Response) × (plan_write true r body ≡ err response)
      × (response.status ≡ refusal_status r)
unfolding plan_write require_method require_writable write_err
plan_write-readonly r body = elim (Bool-cases (r.method == "POST")) [
  | inr other ↦ rw other (_, refl, refl)
  | inl post ↦ rw post (_, refl, refl)
]

-- In read-only mode a write touches neither the queue, the PLC nor a counter, whatever its address,
-- its parameters and its body: the answer has status 403, or 405 if the method is not POST.
pub handle_write-readonly :
    {C W : Type 0} (net : Net C W) (cfg : PlcConfig) (r : Request) (body : WriteBody) (turn : Turn)
    (q : PlcQueue C W)
    → (response : Response) × (handle_write net cfg true r body turn q ≡ (response, q))
      × (response.status ≡ refusal_status r)
unfolding handle_write
handle_write-readonly net cfg r body turn q =
    let (response, refused, code) = plan_write-readonly r body in
    (response, rw (refused, handle_write) refl, code)

pub plan_random_write-readonly :
    (r : Request) (sent : Decoded RandomWriteBody)
    → (response : Response) × (plan_random_write true r sent ≡ err response)
      × (response.status ≡ refusal_status r)
unfolding plan_random_write require_method require_writable write_err
plan_random_write-readonly r sent = elim (Bool-cases (r.method == "POST")) [
  | inr other ↦ rw other (_, refl, refl)
  | inl post ↦ rw post (_, refl, refl)
]

-- In read-only mode a random write touches neither the queue, the PLC nor a counter, whatever its
-- body: the answer has status 403, or 405 if the method is not POST.
pub handle_random_write-readonly :
    {C W : Type 0} (net : Net C W) (cfg : PlcConfig) (r : Request) (sent : Decoded RandomWriteBody)
    (turn : Turn) (q : PlcQueue C W)
    → (response : Response) × (handle_random_write net cfg true r sent turn q ≡ (response, q))
      × (response.status ≡ refusal_status r)
unfolding handle_random_write
handle_random_write-readonly net cfg r sent turn q =
    let (response, refused, code) = plan_random_write-readonly r sent in
    (response, rw (refused, handle_random_write) refl, code)
