-- ===== src/Logging.antt =====
-- logging.go: log levels, records, and the handlers that log lines pass through. The charm logger and
-- `slog.TextHandler` are parameters: a handler is a value of a type `H` on which `Handler` gives the
-- methods of `slog.Handler`, and what it writes is a state `O`.
pub mod StateEvents
use gomc_rest.Common.{
  ℕ, String, Bool, true, false, ◌&&◌, ◌||◌, Option, none, some, List, [], ◌∷◌, ◌++◌, map, ◌⊎◌, inl,
  inr, if◌then◌else◌,
}
use gomc_rest.Common.Int.{ℤ, pos, negsuc, leb_ℤ}
use gomc_rest.Common.Text.{Text, codes, text_eq}
use gomc_rest.Failure.{
  Error, as_busy, is_queue_closed, is_canceled, is_deadline_exceeded, as_conn_wrap, as_mc_protocol,
}

-- The four levels of slog that the code uses.
pub data Level : Type 0 where
  debug info warn error : Level

-- The number that slog gives a level.
unfoldable pub rank : Level → ℤ
rank debug = negsuc 3
rank info = pos 0
rank warn = pos 4
rank error = pos 8

-- `level >= threshold`
unfoldable pub reaches : Level → Level → Bool
unfolding rank
reaches level threshold = leb_ℤ (rank threshold) (rank level)

-- The value of an attribute: a string, or another kind.
pub data Value : Type 0 where
  text : Text → Value
  other_kind : Value

pub record Attr : Type 0 where
  pub key : Text
  pub value : Value

pub record Record : Type 0 where
  pub level : Level
  pub message : Text
  pub attrs : List Attr

-- The methods of `slog.Handler`; `handle` may return an error.
pub record Handler (H O : Type 0) : Type 0 where
  pub enabled : H → Level → Bool
  pub handle : H → Record → O → Option Text × O
  pub with_attrs : List Attr → H → H
  pub with_group : Text → H → H

-- `firstErr` behind a call that returned `next`.
abbrev first_error : Option Text → Option Text → Option Text
first_error none next = next
first_error (some e) next = some e

module _ {H O : Type 0} (methods : Handler H O) where
  any_enabled : List H → Level → Bool
  any_enabled [] level = false
  any_enabled (h ∷ hs) level = if methods.enabled h level then true else any_enabled hs level

  -- The loop of `teeHandler.Handle`, with `firstErr` so far. (The record is copied for each.)
  handle_each : List H → Record → Option Text → O → Option Text × O
  handle_each [] r failed o = (failed, o)
  handle_each (h ∷ hs) r failed o =
      let (e, o') = methods.handle h r o in
      let written = handle_each hs r (first_error failed e) o' in
      let skipped = handle_each hs r failed o in
      if methods.enabled h r.level then written else skipped

  -- `teeHandler`
  unfoldable pub tee : Handler (List H) O
  unfolding any_enabled handle_each
  tee = record {
    enabled = any_enabled;
    handle = λ hs r o. handle_each hs r none o;
    with_attrs = λ attrs hs. map (methods.with_attrs attrs) hs;
    with_group = λ name hs. map (methods.with_group name) hs;
  }

abbrev is_state : Attr → Bool
is_state a =
    text_eq a.key (codes "kind")
    && (elim a.value [ text s ↦ text_eq s (codes "state") | other_kind ↦ false ])

any_state : List Attr → Bool
any_state [] = false
any_state (a ∷ attrs) = if is_state a then true else any_state attrs

unfoldable pub is_state_event : Record → Bool
unfolding any_state
is_state_event r = any_state r.attrs

-- `stateEventHandler`
unfoldable pub state_event : {H O : Type 0} → Handler H O → Handler H O
state_event methods = record {
  enabled = λ h level. reaches level info || methods.enabled h level;
  handle = λ h r o.
      if methods.enabled h r.level || is_state_event r then methods.handle h r o else (none, o);
  with_attrs = methods.with_attrs;
  with_group = methods.with_group;
}

-- Two kinds of handlers behind the one interface.
unfoldable pub either : {H K O : Type 0} → Handler H O → Handler K O → Handler (H ⊎ K) O
either {H} {K} {O} first second = record {
  enabled = λ h level. elim h [ inl a ↦ first.enabled a level | inr b ↦ second.enabled b level ];
  handle = λ h r o. elim h [ inl a ↦ first.handle a r o | inr b ↦ second.handle b r o ];
  with_attrs = λ attrs h. elim h [
    | inl a ↦ inl (first.with_attrs attrs a)
    | inr b ↦ inr (second.with_attrs attrs b)
  ];
  with_group = λ name h. elim h [
    | inl a ↦ inl (first.with_group name a)
    | inr b ↦ inr (second.with_group name b)
  ];
}

-- `Logger.Log`: the handler is asked first, and its error is dropped.
unfoldable pub log : {H O : Type 0} → Handler H O → H → Record → O → O
log methods h r o = if methods.enabled h r.level then (methods.handle h r o).1 else o

-- `logStateAt`
unfoldable pub state_record : Level → (run_id message : Text) → List Attr → Record
state_record level run_id message args = record {
  level = level;
  message = message;
  attrs =
      (record { key = codes "run_id"; value = text run_id })
      ∷ (record { key = codes "kind"; value = text (codes "state") })
      ∷ args;
}

-- `logState` and `logStateWarn`
unfoldable pub log_state : (run_id message : Text) → List Attr → Record
unfolding state_record
log_state run_id message args = state_record info run_id message args

unfoldable pub log_state_warn : (run_id message : Text) → List Attr → Record
unfolding state_record
log_state_warn run_id message args = state_record warn run_id message args

-- The result that `logPLCOp` gives an operation.
unfoldable pub plc_op_result : Option Error → String
plc_op_result none = "ok"
plc_op_result (some e) =
    if as_busy e
    then "busy"
    else if is_queue_closed e
    then "queue_closed"
    else if is_canceled e
    then "canceled"
    else if is_deadline_exceeded e
    then "timeout"
    else if as_conn_wrap e
    then "connection_error"
    else elim (as_mc_protocol e) [ some code ↦ "plc_error" | none ↦ "error" ]

-- The record of `logPLCOp`.
unfoldable pub plc_op_record : Text → Option Error → Record
unfolding plc_op_result
plc_op_record addr failed = record {
  level = debug;
  message = codes "plc_op";
  attrs =
      (record { key = codes "addr"; value = text addr })
      ∷ (record { key = codes "latency_ms"; value = other_kind })
      ∷ (record { key = codes "result"; value = text (codes (plc_op_result failed)) })
      ∷ [];
}
