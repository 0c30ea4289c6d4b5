-- ===== src/Handler/Read.antt =====
-- handler.go: `handleRead`.
pub mod Limits
use gomc_rest.Common.{
  ℕ, ◌+◌, ◌*◌, ◌/◌, String, Bool, true, false, not, ◌&&◌, ◌||◌, Option, none, some, List, [], ◌∷◌,
  map, ltb, leb, ◌==◌, if◌then◌else◌, Result, ok, err, ◌>>=◌, ◌>>◌, fail_if,
}
use gomc_rest.Common.Int.{ℤ, pos, negsuc}
use gomc_rest.Common.Text.{Text, codes, parse_int, text_eq}
use gomc_rest.Device.{ParsedAddr, AddrError, parse_addr, is_word_device}
use gomc_rest.Failure.{Error, crash}
use gomc_rest.Http.{
  internal_error, Message, invalid_count, count_at_most, dword_count_at_most, addr_required,
  bad_addr, dword_with_k, count_with_k, flags_with_bit, bit_overrun, dword_word_only,
  sint_word_only, int_values, bool_values, Body, Request, Response, write_json, write_plc_err,
  bad_request,
}
use gomc_rest.Http.Params.{get, parse_bool_param}
use gomc_rest.Http.Guards.{Guard, require_method, allow_params, or_bad_request}
use gomc_rest.Handler.Numbers.{sign_extend, word_value, dword_values}
use gomc_rest.Plc.{Net, PlcConfig}
use gomc_rest.Queue.Exec.{Turn, PlcQueue}
use gomc_rest.Queue.Ops.{read_bits_as_word, read_word_bits, read_words, read_bits}

abbrev pub max_read_count : ℕ
max_read_count = 1024

-- The operation that a valid request asks for.
pub data ReadPlan : Type 0 where
  k_word : (device : Text) (addr nibbles : ℕ) (sint : Bool) → ReadPlan
  word_bits : (device : Text) (addr bit count : ℕ) → ReadPlan
  words : (device : Text) (addr count : ℕ) (dword sint : Bool) → ReadPlan
  bits : (device : Text) (addr count : ℕ) → ReadPlan

unfoldable pub count_of : Option ℤ → Guard ℕ
count_of (some (pos n)) = if ltb n 1 then err (bad_request invalid_count) else ok n
count_of _ = err (bad_request invalid_count)

-- The count of the query, 1 if it is left out.
unfoldable pub parse_count : String → Guard ℕ
parse_count s = if text_eq (codes s) [] then ok 1 else count_of (parse_int 10 (codes s))

abbrev pub parsed : Result AddrError ParsedAddr → Guard ParsedAddr
parsed (ok da) = ok da
parsed (err e) = err (bad_request (bad_addr e))

-- The branches on the kind of address.
unfoldable pub plan_k : ParsedAddr → ℕ → Bool → Bool → Guard ReadPlan
plan_k da count dword sint = do
  fail_if dword (bad_request dword_with_k)
  fail_if (not (count == 1)) (bad_request count_with_k)
  ok (k_word da.device da.addr da.nibbles sint)

unfoldable pub plan_bit : ParsedAddr → ℕ → ℕ → Bool → Bool → Guard ReadPlan
plan_bit da bit count dword sint = do
  fail_if (dword || sint) (bad_request flags_with_bit)
  fail_if (ltb 16 (bit + count)) (bad_request (bit_overrun bit count))
  ok (word_bits da.device da.addr bit count)

unfoldable pub plan_plain : ParsedAddr → ℕ → Bool → Bool → Guard ReadPlan
plan_plain da count dword sint = do
  fail_if ((dword || sint) && not (is_word_device da.device))
      (bad_request (if dword then dword_word_only else sint_word_only))
  ok (
      if is_word_device da.device
      then words da.device da.addr count dword sint
      else bits da.device da.addr count)

unfoldable pub plan_addr : ParsedAddr → ℕ → Bool → Bool → Guard ReadPlan
plan_addr da count dword sint =
    if ltb 0 da.nibbles then plan_k da count dword sint else elim da.bit [
      | some bit ↦ plan_bit da bit count dword sint
      | none ↦ plan_plain da count dword sint
    ]

-- The checks of `handleRead`, in their order.
unfoldable pub plan_read : Request → Guard ReadPlan
plan_read r = do
  require_method r "GET"
  allow_params r ("addr" ∷ "count" ∷ "dword" ∷ "sint" ∷ [])
  fail_if (text_eq (codes (get r.query "addr")) []) (bad_request addr_required)
  count ← parse_count (get r.query "count")
  fail_if (ltb max_read_count count) (bad_request (count_at_most max_read_count))
  dword ← or_bad_request (parse_bool_param r.query "dword")
  fail_if (dword && ltb (max_read_count / 2) count)
      (bad_request (dword_count_at_most (max_read_count / 2)))
  da ← parsed (parse_addr (codes (get r.query "addr")))
  sint ← or_bad_request (parse_bool_param r.query "sint")
  plan_addr da count dword sint

-- The response to a result.
abbrev pub respond : {A : Type 0} → (A → Response) → Result Error A → Response
respond f (ok a) = f a
respond f (err e) = write_plc_err e

unfoldable pub k_response : Bool → ℕ → ℕ → Response
k_response sint nibbles packed =
    write_json 200
      (int_values ((if sint then sign_extend packed (nibbles * 4) else pos packed) ∷ []))

-- If the library returned fewer words than were asked for, the index panics.
abbrev pub dword_response : Option (List ℤ) → Response
dword_response (some vals) = write_json 200 (int_values vals)
dword_response none = internal_error

unfoldable pub words_response : ℕ → Bool → Bool → List ℕ → Response
words_response count dword sint ws =
    if dword
    then dword_response (dword_values sint count ws)
    else write_json 200 (int_values (map (word_value sint) ws))

module _ {C W : Type 0} (net : Net C W) (cfg : PlcConfig) where
  unfoldable pub run_read : Turn → ReadPlan → PlcQueue C W → Response × PlcQueue C W
  run_read turn (k_word device addr nibbles sint) q =
      let (r, q') = read_bits_as_word net cfg turn device addr nibbles q in
      (respond (k_response sint nibbles) r, q')
  run_read turn (word_bits device addr bit count) q =
      let (r, q') = read_word_bits net cfg turn device addr bit count q in
      (respond (λ vals. write_json 200 (bool_values vals)) r, q')
  run_read turn (words device addr count dword sint) q =
      let (r, q') = read_words net cfg turn device addr (if dword then count * 2 else count) q in
      (respond (words_response count dword sint) r, q')
  run_read turn (bits device addr count) q =
      let (r, q') = read_bits net cfg turn device addr count q in
      (respond (λ vals. write_json 200 (bool_values vals)) r, q')

  unfoldable pub handle_read : Request → Turn → PlcQueue C W → Response × PlcQueue C W
  handle_read r turn q = elim (plan_read r) [
    | err response ↦ (response, q)
    | ok plan ↦ run_read turn plan q
  ]
