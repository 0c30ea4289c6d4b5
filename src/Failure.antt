-- ===== src/Failure.antt =====
-- The errors of queue.go and plc.go, the context errors, and the questions that `errors.As` and
-- `errors.Is` ask of them. An error of the gomcprotocol package is a leaf: a connection error, a
-- protocol error with its end code, or another.
use gomc_rest.Common.{ℕ, Bool, true, false, Option, none, some}
use gomc_rest.Common.Text.{Text}

pub data Error : Type 0 where
  busy queue_closed canceled deadline_exceeded unsupported_frame : Error
  -- no error of the source: a run-time panic of the worker, which ends the process
  crash : Error
  mc_connection : Text → Error
  mc_protocol : ℕ → Error
  mc_other : Text → Error
  -- `connErrWrap`, which unwraps to its cause
  conn_wrap : Error → Error

-- `errors.As(err, &busyE)`
unfoldable pub as_busy : Error → Bool
as_busy busy = true
as_busy (conn_wrap e) = as_busy e
as_busy _ = false

unfoldable pub is_queue_closed : Error → Bool
is_queue_closed queue_closed = true
is_queue_closed (conn_wrap e) = is_queue_closed e
is_queue_closed _ = false

unfoldable pub is_canceled : Error → Bool
is_canceled canceled = true
is_canceled (conn_wrap e) = is_canceled e
is_canceled _ = false

unfoldable pub is_deadline_exceeded : Error → Bool
is_deadline_exceeded deadline_exceeded = true
is_deadline_exceeded (conn_wrap e) = is_deadline_exceeded e
is_deadline_exceeded _ = false

-- `errors.As(err, &connErr)` for `*mc.MCProtocolConnectionError`
unfoldable pub as_mc_connection : Error → Bool
as_mc_connection (mc_connection m) = true
as_mc_connection (conn_wrap e) = as_mc_connection e
as_mc_connection _ = false

-- and for `*connErrWrap`
unfoldable pub as_conn_wrap : Error → Bool
as_conn_wrap (conn_wrap e) = true
as_conn_wrap _ = false

-- and for `*mc.MCProtocolError`, with its end code
unfoldable pub as_mc_protocol : Error → Option ℕ
as_mc_protocol (mc_protocol c) = some c
as_mc_protocol (conn_wrap e) = as_mc_protocol e
as_mc_protocol _ = none
