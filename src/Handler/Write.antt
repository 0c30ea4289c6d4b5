-- ===== src/Handler/Write.antt =====
-- handler.go: `handleWrite`.
pub mod Limits
use gomc_rest.Common.{
  ℕ, ◌+◌, ◌*◌, ◌/◌, String, Bool, true, false, not, ◌&&◌, ◌||◌, Option, none, some, List, [], ◌∷◌,
  length, ltb, ◌==◌, if◌then◌else◌, Result, ok, err, ◌>>=◌, ◌>>◌, fail_if,
}
use gomc_rest.Common.Int.{ℤ}
use gomc_rest.Common.Text.{Text, codes, text_eq}
use gomc_rest.Device.{ParsedAddr, parse_addr, is_word_device}
use gomc_rest.Http.{
  Message, values_at_most, addr_required, dword_with_k, flags_with_bit, dword_word_only,
  sint_word_only, bit_values_overrun, values_required, ints_for_k, one_value_for_k, bools_for_bits,
  not_ints, not_bools, values_empty, sint_dword_range, dword_range, sint_word_range, does_not_fit,
  done, Request, Response, write_json, bad_request,
}
use gomc_rest.Http.Params.{get, parse_bool_param}
use gomc_rest.Http.Guards.{Guard, require_method, require_writable, allow_params, or_bad_request}
use gomc_rest.Http.Json.{
  Item, RawValues, Decoded, decode_body, unmarshal, as_int64, as_uint16, as_bool,
}
use gomc_rest.Handler.Numbers.{fits_in_bits, to_unsigned, words_of_sints, words_of_dwords}
use gomc_rest.Handler.Read.{parsed, respond}
use gomc_rest.Plc.{Net, PlcConfig}
use gomc_rest.Queue.Exec.{Turn, PlcQueue}
use gomc_rest.Queue.Ops.{write_bits_as_word, write_word_bits, write_words, write_bits}

abbrev pub max_write_values : ℕ
max_write_values = 1024

-- The operation that a valid request asks for.
pub data WritePlan : Type 0 where
  k_word : (device : Text) (addr nibbles value : ℕ) → WritePlan
  word_bits : (device : Text) (addr bit : ℕ) (values : List Bool) → WritePlan
  words : (device : Text) (addr : ℕ) (values : List ℕ) → WritePlan
  bits : (device : Text) (addr : ℕ) (values : List Bool) → WritePlan

-- The body of a request: `values` may be left out.
abbrev pub WriteBody : Type 0
WriteBody = Decoded (Option RawValues)

abbrev pub present : Option RawValues → Guard RawValues
present (some raw) = ok raw
present none = err (bad_request values_required)

-- The raw values of the body.
unfoldable pub raw_values : WriteBody → Guard RawValues
raw_values body = do found ← decode_body body; present found

-- One message for values of another type and for no values.
abbrev pub filled : {A : Type 0} → Message → Option (List A) → Guard (List A)
filled msg none = err (bad_request msg)
filled msg (some []) = err (bad_request msg)
filled msg (some (v ∷ vs)) = ok (v ∷ vs)

-- The checks on plain values.
abbrev pub at_most : {A : Type 0} → Message → ℕ → Option (List A) → Guard (List A)
at_most msg most none = err (bad_request msg)
at_most msg most (some []) = err (bad_request values_empty)
at_most msg most (some (v ∷ vs)) =
    if ltb most (length (v ∷ vs)) then err (bad_request (values_at_most most)) else ok (v ∷ vs)

abbrev pub in_range : {A : Type 0} → Message → Option A → Guard A
in_range msg (some a) = ok a
in_range msg none = err (bad_request msg)

abbrev pub the_one : List ℤ → Guard ℤ
the_one (v ∷ []) = ok v
the_one _ = err (bad_request one_value_for_k)

unfoldable pub plan_write_k : ParsedAddr → WriteBody → Bool → Bool → Guard WritePlan
plan_write_k da body dword sint = do
  fail_if dword (bad_request dword_with_k)
  raw ← raw_values body
  vals ← filled ints_for_k (unmarshal as_int64 raw)
  v ← the_one vals
  fail_if (not (fits_in_bits v (da.nibbles * 4) sint))
      (bad_request (does_not_fit v (da.nibbles * 4)))
  ok (k_word da.device da.addr da.nibbles (to_unsigned 32 v))

unfoldable pub plan_write_bit : ParsedAddr → ℕ → WriteBody → Bool → Bool → Guard WritePlan
plan_write_bit da bit body dword sint = do
  fail_if (dword || sint) (bad_request flags_with_bit)
  raw ← raw_values body
  vals ← filled bools_for_bits (unmarshal as_bool raw)
  fail_if (ltb 16 (bit + length vals)) (bad_request (bit_values_overrun bit (length vals)))
  ok (word_bits da.device da.addr bit vals)

-- The words of a write to a word device.
unfoldable pub words_to_write : RawValues → Bool → Bool → Guard (List ℕ)
words_to_write raw true sint = do
  vals ← at_most not_ints (max_write_values / 2) (unmarshal as_int64 raw)
  in_range (if sint then sint_dword_range else dword_range) (words_of_dwords sint vals)
words_to_write raw false true = do
  vals ← at_most not_ints max_write_values (unmarshal as_int64 raw)
  in_range sint_word_range (words_of_sints vals)
words_to_write raw false false = at_most not_ints max_write_values (unmarshal as_uint16 raw)

unfoldable pub plan_write_words : ParsedAddr → RawValues → Bool → Bool → Guard WritePlan
plan_write_words da raw dword sint = do
  ws ← words_to_write raw dword sint
  ok (words da.device da.addr ws)

unfoldable pub plan_write_bits : ParsedAddr → RawValues → Guard WritePlan
plan_write_bits da raw = do
  vals ← at_most not_bools max_write_values (unmarshal as_bool raw)
  ok (bits da.device da.addr vals)

unfoldable pub plan_write_plain : ParsedAddr → WriteBody → Bool → Bool → Guard WritePlan
plan_write_plain da body dword sint = do
  fail_if ((dword || sint) && not (is_word_device da.device))
      (bad_request (if dword then dword_word_only else sint_word_only))
  raw ← raw_values body
  if is_word_device da.device then plan_write_words da raw dword sint else plan_write_bits da raw

-- The branches on the kind of address.
unfoldable pub plan_write_addr : ParsedAddr → WriteBody → Bool → Bool → Guard WritePlan
plan_write_addr da body dword sint =
    if ltb 0 da.nibbles then plan_write_k da body dword sint else elim da.bit [
      | some bit ↦ plan_write_bit da bit body dword sint
      | none ↦ plan_write_plain da body dword sint
    ]

-- The checks of `handleWrite`, in their order.
unfoldable pub plan_write : Bool → Request → WriteBody → Guard WritePlan
plan_write readonly r body = do
  require_method r "POST"
  require_writable readonly
  allow_params r ("addr" ∷ "dword" ∷ "sint" ∷ [])
  fail_if (text_eq (codes (get r.query "addr")) []) (bad_request addr_required)
  da ← parsed (parse_addr (codes (get r.query "addr")))
  dword ← or_bad_request (parse_bool_param r.query "dword")
  sint ← or_bad_request (parse_bool_param r.query "sint")
  plan_write_addr da body dword sint

abbrev pub ok_response : Unit {0} → Response
ok_response _ = write_json 200 done

module _ {C W : Type 0} (net : Net C W) (cfg : PlcConfig) where
  unfoldable pub run_write : Turn → WritePlan → PlcQueue C W → Response × PlcQueue C W
  run_write turn (k_word device addr nibbles value) q =
      let (r, q') = write_bits_as_word net cfg turn device addr nibbles value q in
      (respond ok_response r, q')
  run_write turn (word_bits device addr bit values) q =
      let (r, q') = write_word_bits net cfg turn device addr bit values q in
      (respond ok_response r, q')
  run_write turn (words device addr values) q =
      let (r, q') = write_words net cfg turn device addr values q in (respond ok_response r, q')
  run_write turn (bits device addr values) q =
      let (r, q') = write_bits net cfg turn device addr values q in (respond ok_response r, q')

  unfoldable pub handle_write :
      Bool → Request → WriteBody → Turn → PlcQueue C W → Response × PlcQueue C W
  handle_write readonly r body turn q = elim (plan_write readonly r body) [
    | err response ↦ (response, q)
    | ok plan ↦ run_write turn plan q
  ]
