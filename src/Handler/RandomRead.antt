-- ===== src/Handler/RandomRead.antt =====
-- handler.go: `handleRandomRead`.
pub mod Entries
pub mod Limits
pub mod Wiring
pub mod Answer
use gomc_rest.Common.{
  ℕ, zero, suc, ◌+◌, ◌≤◌, String, Bool, true, false, not, Option, none, some, List, [], ◌∷◌, ◌++◌,
  map, length, get_elem?, take, drop, ltb, leb, ◌==◌, ◌||◌, if◌then◌else◌, Result, ok, err, ◌>>=◌,
  ◌>>◌, fail_if,
}
use gomc_rest.Common.Text.{codes}
use gomc_rest.Word.{bit_at}
use gomc_rest.Device.{DeviceAddr, ParsedAddr, parse_addr, is_word_device}
use gomc_rest.Http.{
  Message, bit_suffix, word_only, k_only_read_write, bits_need_bit_device, native_at_most,
  all_empty, each_at_most, combined_at_most, random_values, Request, Response, internal_error,
  write_json, bad_request, write_plc_err,
}
use gomc_rest.Http.Guards.{Guard, require_method, allow_params}
use gomc_rest.Http.Json.{Decoded, decode_body}
use gomc_rest.Handler.Read.{parsed, respond}
use gomc_rest.Plc.{Net, PlcConfig}
use gomc_rest.Queue.Exec.{Turn, PlcQueue}
use gomc_rest.Queue.Ops.{max_random_count, max_random_bit_reads, random_read}

pub record RandomReadBody : Type 0 where
  pub words : List String
  pub dwords : List String
  pub bits : List String

-- `bitSrc`: the index of a native bit, or the index of a folded word and the bit in it.
pub data BitSrc : Type 0 where
  native : (idx : ℕ) → BitSrc
  folded : (idx offset : ℕ) → BitSrc

-- A check per address, which the first failure ends.
unfoldable pub each : {A B : Type 0} → (A → Guard B) → List A → Guard (List B)
each f [] = ok []
each f (x ∷ xs) = do b ← f x; bs ← each f xs; ok (b ∷ bs)

abbrev has_bit : ParsedAddr → Bool
has_bit pa = elim pa.bit [ none ↦ false | some bit ↦ true ]

-- `parseWordAddr`; the message differs between the endpoints.
unfoldable pub parse_word_addr : (String → Message) → String → Guard DeviceAddr
parse_word_addr msg s = do
  pa ← parsed (parse_addr (codes s))
  fail_if (has_bit pa) (bad_request (bit_suffix s))
  fail_if (not (is_word_device pa.device)) (bad_request (msg s))
  ok pa.device_addr

-- `bitSrcs`, `bitWordAddrs` and `nativeBits`.
pub record BitPlan : Type 0 where
  pub srcs : List BitSrc
  pub word_addrs : List DeviceAddr
  pub natives : List DeviceAddr

-- The `switch` of the loop over the bits.
unfoldable pub add_bit : String → ParsedAddr → BitPlan → Guard BitPlan
add_bit s pa p = elim pa.bit [
  | some offset ↦ ok (record {
    srcs = p.srcs ++ (folded (length p.word_addrs) offset ∷ []);
    word_addrs = p.word_addrs ++ (pa.device_addr ∷ []);
    natives = p.natives;
  })
  | none ↦
      if is_word_device pa.device
      then err (bad_request (bits_need_bit_device s))
      else if leb max_random_bit_reads (length p.natives)
      then err (bad_request (native_at_most max_random_bit_reads))
      else ok (record {
        srcs = p.srcs ++ (native (length p.natives) ∷ []);
        word_addrs = p.word_addrs;
        natives = p.natives ++ (pa.device_addr ∷ []);
      })
]

unfoldable pub plan_bits : List String → BitPlan → Guard BitPlan
plan_bits [] p = ok p
plan_bits (s ∷ ss) p = do
  pa ← parsed (parse_addr (codes s))
  fail_if (ltb 0 pa.nibbles) (bad_request (k_only_read_write s))
  p' ← add_bit s pa p
  plan_bits ss p'

pub record RandomReadPlan : Type 0 where
  pub word_addrs : List DeviceAddr
  pub dword_addrs : List DeviceAddr
  pub bit_plan : BitPlan

abbrev pub empty_bit_plan : BitPlan
empty_bit_plan = record { srcs = []; word_addrs = []; natives = [] }

-- `readAddrs`
abbrev pub read_addrs : RandomReadPlan → List DeviceAddr
read_addrs p = p.word_addrs ++ p.bit_plan.word_addrs

-- The checks of the three lists, which both random endpoints make.
unfoldable pub check_sizes : ℕ → ℕ → ℕ → Guard (Unit {0})
check_sizes words dwords bits = do
  fail_if (words + dwords + bits == 0) (bad_request all_empty)
  fail_if (ltb max_random_count words || ltb max_random_count dwords || ltb max_random_count bits)
      (bad_request (each_at_most max_random_count))

unfoldable pub plan_random_read : Request → Decoded RandomReadBody → Guard RandomReadPlan
plan_random_read r sent = do
  require_method r "POST"
  allow_params r []
  body ← decode_body sent
  check_sizes (length body.words) (length body.dwords) (length body.bits)
  words ← each (parse_word_addr word_only) body.words
  dwords ← each (parse_word_addr word_only) body.dwords
  bits ← plan_bits body.bits empty_bit_plan
  fail_if (ltb max_random_count (length (words ++ bits.word_addrs)))
      (bad_request (combined_at_most max_random_count (length (words ++ bits.word_addrs))))
  ok (record { word_addrs = words; dword_addrs = dwords; bit_plan = bits })

-- The loops that index the results; an index out of range panics.
unfoldable pub read_bit : ℕ → List ℕ → List Bool → BitSrc → Option Bool
read_bit words word_vals native_vals (native idx) = get_elem? native_vals idx
read_bit words word_vals native_vals (folded idx offset) =
    elim (get_elem? word_vals (words + idx)) [ none ↦ none | some w ↦ some (bit_at w offset) ]

unfoldable pub read_all_bits : ℕ → List ℕ → List Bool → List BitSrc → Option (List Bool)
read_all_bits words word_vals native_vals [] = some []
read_all_bits words word_vals native_vals (b ∷ bs) = elim (read_bit words word_vals native_vals b) [
  | none ↦ none
  | some v ↦ elim (read_all_bits words word_vals native_vals bs) [
    | none ↦ none
    | some vs ↦ some (v ∷ vs)
  ]
]

unfoldable pub first_words : ℕ → List ℕ → Option (List ℕ)
first_words zero ws = some []
first_words (suc n) [] = none
first_words (suc n) (w ∷ ws) = elim (first_words n ws) [ none ↦ none | some vs ↦ some (w ∷ vs) ]

unfoldable pub random_response : RandomReadPlan → List ℕ × List ℕ × List Bool → Response
random_response p (word_vals, dword_vals, native_vals) =
    elim (first_words (length p.word_addrs) word_vals) [
      | none ↦ internal_error
      | some words ↦
          elim (read_all_bits (length p.word_addrs) word_vals native_vals p.bit_plan.srcs) [
            | none ↦ internal_error
            | some bits ↦ write_json 200 (random_values words dword_vals bits)
          ]
    ]

module _ {C W : Type 0} (net : Net C W) (cfg : PlcConfig) where
  unfoldable pub run_random_read : Turn → RandomReadPlan → PlcQueue C W → Response × PlcQueue C W
  run_random_read turn p q =
      let (r, q') = random_read net cfg turn (read_addrs p) p.dword_addrs p.bit_plan.natives q in
      (respond (random_response p) r, q')

  unfoldable pub handle_random_read :
      Request → Decoded RandomReadBody → Turn → PlcQueue C W → Response × PlcQueue C W
  handle_random_read r sent turn q = elim (plan_random_read r sent) [
    | err response ↦ (response, q)
    | ok plan ↦ run_random_read turn plan q
  ]
