-- ===== src/Plc/Trace.antt =====
-- What the state log tells of the connection, to one who reads it.
pub mod Kept
use mathlib.Core.Option.{none-ne-some, some-injective}
use gomc_rest.Common.{
  ℕ, suc, ◌+◌, ◌≡◌, refl, sym, ◌∙◌, Option, none, some, List, [], ◌∷◌, ◌++◌, arith, Result, ok, err,
  Bool-cases, Option-cases, inl, inr,
}
use gomc_rest.Failure.{Error, as_mc_connection}
use gomc_rest.Plc.{
  Net, PlcConfig, Client, PlcState, first_connected, reconnecting, reconnected, first_failed,
  reconnect_failed, connection_lost, log_plc, dial_with, finish_connect, at_world, connect,
  reconnect, new_connection, count_error, drop_conn, settle, reset_error,
}

-- What a reader of the log knows: nothing yet, that the client dials, that it has a connection
-- unless it closed it since, or that it has none.
pub data Phase : Type 0 where
  fresh dialing live lost : Phase

abbrev pub next_phase : Phase → PlcState → Option Phase
next_phase fresh first_connected = some live
next_phase fresh (first_failed e) = some lost
next_phase dialing reconnected = some live
next_phase dialing (reconnect_failed e) = some lost
next_phase dialing _ = none
next_phase live (connection_lost e) = some lost
next_phase _ reconnecting = some dialing
next_phase _ _ = none

-- None if the log is none that a client can have written.
abbrev pub read_log : Phase → List PlcState → Option Phase
read_log phase [] = some phase
read_log phase (s ∷ l) = elim (next_phase phase s) [ none ↦ none | some after ↦ read_log after l ]

-- How often the log says that the client dials again.
abbrev pub dials : List PlcState → ℕ
dials [] = 0
dials (reconnecting ∷ l) = suc (dials l)
dials (_ ∷ l) = dials l

pub read_log-log_plc :
    (l : List PlcState) (s : PlcState) (start phase after : Phase)
    → read_log start l ≡ some phase
    → next_phase phase s ≡ some after
    → read_log start (l ++ s ∷ []) ≡ some after
read_log-log_plc [] s start phase after read step =
    let same : start ≡ phase = some-injective _ _ read in rw (same, step, read_log) refl
read_log-log_plc (x ∷ l) s start phase after read step = elim (Option-cases (next_phase start x)) [
  | inl stuck ↦ absurd (none-ne-some _ (rw (stuck, read_log) at read))
  | inr (mid, known) ↦
      rw (known, read_log)
        (read_log-log_plc l s mid phase after (rw (known, read_log) at read) step)
]

dials-append : (l m : List PlcState) → dials (l ++ m) ≡ dials l + dials m
dials-append [] m = omega arith
dials-append (first_connected ∷ l) m = dials-append l m
dials-append (reconnecting ∷ l) m = omega (arith, dials-append l m)
dials-append (reconnected ∷ l) m = dials-append l m
dials-append (first_failed e ∷ l) m = dials-append l m
dials-append (reconnect_failed e ∷ l) m = dials-append l m
dials-append (connection_lost e ∷ l) m = dials-append l m

abbrev pub IsAtRest : Phase → Type 0
IsAtRest dialing = ⊥
IsAtRest _ = Unit

-- The log in the midst of a dial.
pub record Dialling (reconnects : ℕ) (states : List PlcState) : Type 0 where
  readable : read_log fresh states ≡ some dialing
  counted : reconnects ≡ dials states

begins_dial : (phase : Phase) → IsAtRest phase → next_phase phase reconnecting ≡ some dialing
begins_dial fresh rest = refl
begins_dial dialing rest = absurd rest
begins_dial live rest = refl
begins_dial lost rest = refl

module _ {C : Type 0} where
  -- The log is one that a reader can follow; where the client holds a connection the log says so; and
  -- the metrics count the dials that it shows.
  pub record Traced (conn : Option C) (reconnects : ℕ) (states : List PlcState) : Type 0 where
    pub phase : Phase
    pub readable : read_log fresh states ≡ some phase
    pub at_rest : IsAtRest phase
    pub shown : (c : C) → conn ≡ some c → phase ≡ live
    pub counted : reconnects ≡ dials states

  pub Traced-Dialling :
      (conn : Option C) (n : ℕ) (l : List PlcState)
      → Traced conn n l
      → Dialling (suc n) (l ++ reconnecting ∷ [])
  Traced-Dialling conn n l v = record {
    readable =
        read_log-log_plc l reconnecting fresh v.phase dialing v.readable
          (begins_dial v.phase v.at_rest);
    counted = omega (arith, dials-append l (reconnecting ∷ []), v.counted);
  }

  pub Dialling-reconnected :
      (conn : Option C) (n : ℕ) (l : List PlcState)
      → Dialling n l
      → Traced conn n (l ++ reconnected ∷ [])
  Dialling-reconnected conn n l v = record {
    phase = live;
    readable = read_log-log_plc l reconnected fresh dialing live v.readable refl;
    at_rest = tt;
    shown = λ c here. refl;
    counted = omega (arith, dials-append l (reconnected ∷ []), v.counted);
  }

  pub Dialling-failed :
      (conn : Option C) (n : ℕ) (l : List PlcState) (e : Error)
      → conn ≡ none
      → Dialling n l
      → Traced conn n (l ++ reconnect_failed e ∷ [])
  Dialling-failed conn n l e gone v = record {
    phase = lost;
    readable = read_log-log_plc l (reconnect_failed e) fresh dialing lost v.readable refl;
    at_rest = tt;
    shown = λ c here. absurd (none-ne-some c (sym gone ∙ here));
    counted = omega (arith, dials-append l (reconnect_failed e ∷ []), v.counted);
  }

  pub Traced-lost :
      (c : C) (conn : Option C) (n : ℕ) (l : List PlcState) (e : Error)
      → conn ≡ some c
      → Traced conn n l
      → Traced none n (l ++ connection_lost e ∷ [])
  Traced-lost c conn n l e here v = record {
    phase = lost;
    readable =
        read_log-log_plc l (connection_lost e) fresh v.phase lost v.readable
          (rw (v.shown c here) refl);
    at_rest = tt;
    shown = λ c here. absurd (none-ne-some c here);
    counted = omega (arith, dials-append l (connection_lost e ∷ []), v.counted);
  }

  -- A connection may be closed in silence.
  pub Traced-closed :
      (conn : Option C) (n : ℕ) (l : List PlcState) → Traced conn n l → Traced none n l
  Traced-closed conn n l v = record {
    phase = v.phase;
    readable = v.readable;
    at_rest = v.at_rest;
    shown = λ c here. absurd (none-ne-some c here);
    counted = v.counted;
  }
