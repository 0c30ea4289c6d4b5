-- ===== src/Http.antt =====
-- handler.go: requests and responses, and the guards and parameters that the handlers share.
-- A query is the list of its keys, each with its values, in the order in which the map is walked.
-- A formatted message is a constructor with the values that the source formats.
pub mod Params
pub mod Guards
pub mod Json
pub mod Errors
mod Tests
use gomc_rest.Common.{
  ℕ, String, Bool, true, false, not, ◌&&◌, ◌||◌, Option, none, some, List, [], ◌∷◌, ◌++◌,
  if◌then◌else◌, Result, ok, err,
}
use gomc_rest.Common.Int.{ℤ}
use gomc_rest.Common.Text.{Text}
use gomc_rest.Device.{AddrError}
use gomc_rest.Queue.Exec.{Report}
use gomc_rest.Failure.{
  Error, as_busy, is_queue_closed, is_canceled, is_deadline_exceeded, as_conn_wrap, as_mc_protocol,
}

pub data Message : Type 0 where
  method_required unknown_param must_appear_once must_be_bool : String → Message
  read_only remote_disabled addr_required invalid_count clear_range all_empty : Message
  count_at_most dword_count_at_most body_too_large values_at_most each_at_most native_at_most :
      ℕ → Message
  bad_addr : AddrError → Message
  dword_with_k count_with_k flags_with_bit dword_word_only sint_word_only invalid_json : Message
  bit_overrun bit_values_overrun : (bit count : ℕ) → Message
  values_required ints_for_k one_value_for_k bools_for_bits not_ints not_bools : Message
  values_empty sint_dword_range dword_range sint_word_range : Message
  does_not_fit : ℤ → ℕ → Message
  bit_suffix word_only k_only_read_write bits_need_bit words_need_word dwords_need_word :
      String → Message
  bits_need_bit_device : String → Message
  combined_at_most : (most got : ℕ) → Message
  plc_error : Error → Message
  request_canceled request_timed_out bad_token : Message

-- The float64 that /metrics shows for a total and a count.
pub data Average : Type 0 where
  zero_average : Average
  average : (total count : ℕ) → Average

-- The object of /info.
pub record Info : Type 0 where
  pub version : Text
  pub gomcprotocol_version : Text
  pub host : Text
  pub port : ℕ
  pub frame : String
  pub transport : String
  pub mode : Text
  pub listen_addrs : List Text
  pub readonly : Bool
  pub enable_remote : Bool

pub data Body : Type 0 where
  -- `writeErr`: status, code and message
  failure : ℕ → String → Message → Body
  -- the same with an end code
  plc_failure : ℕ → Message → ℕ → Body
  int_values : List ℤ → Body
  bool_values : List Bool → Body
  random_values : List ℕ → List ℕ → List Bool → Body
  done : Body
  -- what the information handlers report
  spec_document version_document : Text → Body
  info_document : Info → Body
  metrics_document : Report Average → Body
  health_document : (plc_status : String) (connected : Bool) → Body
  -- `http.Error` of `recoverPanic`, in logging.go
  panicked : Body

pub record Response : Type 0 where
  pub status : ℕ
  pub headers : List (String × String)
  pub body : Body

pub record Request : Type 0 where
  pub method : String
  pub path : String
  pub authorization : String
  pub query : List (String × List String)

abbrev pub write_json : ℕ → Body → Response
write_json status body = record {
  status = status;
  headers = ("Content-Type", "application/json; charset=utf-8") ∷ [];
  body = body;
}

unfoldable pub write_err : ℕ → String → Message → Response
write_err status code msg = write_json status (failure status code msg)

-- What `recoverPanic` answers when a handler panics.
abbrev pub internal_error : Response
internal_error = record {
  status = 500;
  headers =
      ("Content-Type", "text/plain; charset=utf-8") ∷ ("X-Content-Type-Options", "nosniff") ∷ [];
  body = panicked;
}

abbrev pub with_header : String → String → Response → Response
with_header key value r = record r { headers = (key, value) ∷ r.headers }

abbrev pub bad_request : Message → Response
bad_request msg = write_err 400 "bad_request" msg

unfoldable pub plc_code : Error → Option ℕ → Response
unfolding write_err
plc_code e (some code) = write_json 502 (plc_failure 502 (plc_error e) code)
plc_code e none = write_err 502 "plc_error" (plc_error e)

-- `writePLCErr`
unfoldable pub write_plc_err : Error → Response
unfolding plc_code
write_plc_err e =
    if as_busy e
    then with_header "Retry-After" "1" (write_err 503 "busy" (plc_error e))
    else if is_queue_closed e
    then write_err 503 "queue_closed" (plc_error e)
    else if is_canceled e
    then write_err 499 "request_canceled" request_canceled
    else if is_deadline_exceeded e
    then write_err 504 "request_timeout" request_timed_out
    else if as_conn_wrap e
    then write_err 503 "connection_error" (plc_error e)
    else plc_code e (as_mc_protocol e)
