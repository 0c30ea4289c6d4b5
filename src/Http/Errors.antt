-- ===== src/Http/Errors.antt =====
-- How `writePLCErr` answers the errors that an operation can end with: the table of errors in the
-- README.
use gomc_rest.Common.{ℕ, String, Bool, true, false, ◌≡◌, refl, Option, none, some, if◌then◌else◌}
use gomc_rest.Failure.{
  Error, busy, queue_closed, canceled, deadline_exceeded, unsupported_frame, crash, mc_connection,
  mc_protocol, mc_other, conn_wrap, as_busy, is_queue_closed, is_canceled, is_deadline_exceeded,
  as_conn_wrap, as_mc_protocol,
}
use gomc_rest.Http.{
  Message, plc_error, request_canceled, request_timed_out, Body, failure, plc_failure, Response,
  write_json, with_header, write_plc_err, plc_code, write_err,
}

-- A row of the table: what the body states, and whether the client is told to try again.
pub record Row : Type 0 where
  pub status : ℕ
  pub code : String
  pub message : Message
  pub end_code : Option ℕ
  pub retry : Bool

-- What lies under the marks of `connErrWrap`.
abbrev pub root : Error → Error
root (conn_wrap e) = root e
root e = e

abbrev pub is_marked : Error → Bool
is_marked (conn_wrap e) = true
is_marked _ = false

-- The row of the error `e`, by its root: the queue's errors and those of the context are told apart
-- also under a mark; any other marked error is one of the connection; what is left is the PLC's.
abbrev pub row : (e root : Error) (marked : Bool) → Row
row e busy marked = record {
  status = 503;
  code = "busy";
  message = plc_error e;
  end_code = none;
  retry = true;
}
row e queue_closed marked = record {
  status = 503;
  code = "queue_closed";
  message = plc_error e;
  end_code = none;
  retry = false;
}
row e canceled marked = record {
  status = 499;
  code = "request_canceled";
  message = request_canceled;
  end_code = none;
  retry = false;
}
row e deadline_exceeded marked = record {
  status = 504;
  code = "request_timeout";
  message = request_timed_out;
  end_code = none;
  retry = false;
}
row e _ true = record {
  status = 503;
  code = "connection_error";
  message = plc_error e;
  end_code = none;
  retry = false;
}
row e (mc_protocol c) false = record {
  status = 502;
  code = "plc_error";
  message = plc_error e;
  end_code = some c;
  retry = false;
}
row e _ false = record {
  status = 502;
  code = "plc_error";
  message = plc_error e;
  end_code = none;
  retry = false;
}

-- The response with this row: JSON, whose body repeats the status.
abbrev pub response_of : Row → Response
response_of x =
    let body : Body = elim x.end_code [
      | none ↦ failure x.status x.code x.message
      | some c ↦ plc_failure x.status x.message c
    ] in
    if x.retry
    then with_header "Retry-After" "1" (write_json x.status body)
    else write_json x.status body

-- A marked error, whose root is that of `e`.
marked-row :
    (whole e : Error)
    → as_busy whole ≡ as_busy e
    → is_queue_closed whole ≡ is_queue_closed e
    → is_canceled whole ≡ is_canceled e
    → is_deadline_exceeded whole ≡ is_deadline_exceeded e
    → as_conn_wrap whole ≡ true
    → write_plc_err whole ≡ response_of (row whole (root e) true)
unfolding write_plc_err write_err as_busy is_queue_closed is_canceled is_deadline_exceeded
marked-row x busy a b c d m = rw a refl
marked-row x queue_closed a b c d m = rw (a, b) refl
marked-row x canceled a b c d m = rw (a, b, c) refl
marked-row x deadline_exceeded a b c d m = rw (a, b, c, d) refl
marked-row x unsupported_frame a b c d m = rw (a, b, c, d, m) refl
marked-row x crash a b c d m = rw (a, b, c, d, m) refl
marked-row x (mc_connection t) a b c d m = rw (a, b, c, d, m) refl
marked-row x (mc_protocol n) a b c d m = rw (a, b, c, d, m) refl
marked-row x (mc_other t) a b c d m = rw (a, b, c, d, m) refl
marked-row x (conn_wrap e) a b c d m = marked-row x e a b c d m

-- `writePLCErr` answers every error with its row of the README's table: 503 busy with Retry-After,
-- 503 queue_closed, 499 request_canceled and 504 request_timeout whether or not the error is marked as
-- one of the connection, 503 connection_error for any other marked error, and 502 plc_error for the
-- rest, with the end code of the PLC if there is one. No error is answered as a success, and the body
-- repeats the status.
pub write_plc_err-row : (e : Error) → write_plc_err e ≡ response_of (row e (root e) (is_marked e))
unfolding write_plc_err write_err plc_code as_busy is_queue_closed is_canceled is_deadline_exceeded
    as_conn_wrap as_mc_protocol
write_plc_err-row busy = refl
write_plc_err-row queue_closed = refl
write_plc_err-row canceled = refl
write_plc_err-row deadline_exceeded = refl
write_plc_err-row unsupported_frame = refl
write_plc_err-row crash = refl
write_plc_err-row (mc_connection t) = refl
write_plc_err-row (mc_protocol n) = refl
write_plc_err-row (mc_other t) = refl
write_plc_err-row (conn_wrap e) = marked-row (conn_wrap e) e refl refl refl refl refl
