-- ===== src/Handler/RandomWrite.antt =====
-- handler.go: `handleRandomWrite`.
pub mod Entries
pub mod Limits
use gomc_rest.Common.{
  ℕ, ◌+◌, ◌<◌, ◌^◌, String, Bool, true, false, Option, none, some, List, [], ◌∷◌, ◌++◌, map, length,
  ltb, if◌then◌else◌, Result, ok, err, ◌>>=◌, ◌>>◌, fail_if,
}
use gomc_rest.Common.Text.{codes}
use gomc_rest.Device.{DeviceAddr, ParsedAddr, parse_addr, is_word_device}
use gomc_rest.Http.{
  Message, k_only_read_write, bits_need_bit, words_need_word, dwords_need_word, Request, Response,
  bad_request,
}
use gomc_rest.Http.Guards.{Guard, require_method, require_writable, allow_params}
use gomc_rest.Http.Json.{Decoded, decode_body}
use gomc_rest.Handler.Read.{parsed, respond}
use gomc_rest.Handler.Write.{ok_response}
use gomc_rest.Handler.RandomRead.{each, parse_word_addr, check_sizes}
use gomc_rest.Plc.{Net, PlcConfig}
use gomc_rest.Queue.Groups.{WordBitWrite}
use gomc_rest.Queue.Exec.{Turn, PlcQueue}
use gomc_rest.Queue.Ops.{random_write}

-- An entry of the body; the decoder checks the value against its type.
pub record Entry (V : Type 0) : Type 0 where
  pub addr : String
  pub value : V

pub record RandomWriteBody : Type 0 where
  pub words : List (Entry ℕ)
  pub dwords : List (Entry ℕ)
  pub bits : List (Entry Bool)

-- `bitAddrs` with `bitVals`, and `wordBits`.
pub record BitWrites : Type 0 where
  pub natives : List (DeviceAddr × Bool)
  pub word_bits : List WordBitWrite

abbrev pub no_bit_writes : BitWrites
no_bit_writes = record { natives = []; word_bits = [] }

abbrev pub word_bit : ParsedAddr → ℕ → Bool → WordBitWrite
word_bit pa bit value = record { device = pa.device; addr = pa.addr; bit = bit; value = value }

unfoldable pub add_bit_write : Entry Bool → ParsedAddr → BitWrites → Guard BitWrites
add_bit_write e pa p = elim pa.bit [
  | some bit ↦ ok (record p { word_bits = p.word_bits ++ (word_bit pa bit e.value ∷ []) })
  | none ↦
      if is_word_device pa.device
      then err (bad_request (bits_need_bit e.addr))
      else ok (record p { natives = p.natives ++ ((pa.device_addr, e.value) ∷ []) })
]

unfoldable pub plan_bit_writes : List (Entry Bool) → BitWrites → Guard BitWrites
plan_bit_writes [] p = ok p
plan_bit_writes (e ∷ es) p = do
  pa ← parsed (parse_addr (codes e.addr))
  fail_if (ltb 0 pa.nibbles) (bad_request (k_only_read_write e.addr))
  p' ← add_bit_write e pa p
  plan_bit_writes es p'

-- The address of an entry with its value.
unfoldable pub plan_entry : (String → Message) → Entry ℕ → Guard (DeviceAddr × ℕ)
plan_entry msg e = do a ← parse_word_addr msg e.addr; ok (a, e.value)

pub record RandomWritePlan : Type 0 where
  pub words : List (DeviceAddr × ℕ)
  pub dwords : List (DeviceAddr × ℕ)
  pub bit_writes : BitWrites

unfoldable pub plan_random_write : Bool → Request → Decoded RandomWriteBody → Guard RandomWritePlan
plan_random_write readonly r sent = do
  require_method r "POST"
  require_writable readonly
  allow_params r []
  body ← decode_body sent
  check_sizes (length body.words) (length body.dwords) (length body.bits)
  words ← each (plan_entry words_need_word) body.words
  dwords ← each (plan_entry dwords_need_word) body.dwords
  bits ← plan_bit_writes body.bits no_bit_writes
  ok (record { words = words; dwords = dwords; bit_writes = bits })

abbrev pub addrs_of : {V : Type 0} → List (DeviceAddr × V) → List DeviceAddr
addrs_of = map (λ p. p.0)

abbrev pub values_of : {V : Type 0} → List (DeviceAddr × V) → List V
values_of = map (λ p. p.1)

module _ {C W : Type 0} (net : Net C W) (cfg : PlcConfig) where
  unfoldable pub run_random_write : Turn → RandomWritePlan → PlcQueue C W → Response × PlcQueue C W
  run_random_write turn p q =
      let (r, q') =
        random_write net cfg turn (addrs_of p.words) (values_of p.words) (addrs_of p.dwords)
          (values_of p.dwords) (addrs_of p.bit_writes.natives) (values_of p.bit_writes.natives)
          p.bit_writes.word_bits q in
      (respond ok_response r, q')

  unfoldable pub handle_random_write :
      Bool → Request → Decoded RandomWriteBody → Turn → PlcQueue C W → Response × PlcQueue C W
  handle_random_write readonly r sent turn q = elim (plan_random_write readonly r sent) [
    | err response ↦ (response, q)
    | ok plan ↦ run_random_write turn plan q
  ]
