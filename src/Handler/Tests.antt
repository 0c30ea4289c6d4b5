-- ===== src/Handler/Tests.antt =====
-- The properties of the handlers on requests as a client may send them.
use gomc_rest.Plc.{Net}
use gomc_rest.Common.{
  ℕ, ◌*◌, ◌%◌, ◌^◌, ◌<◌, ◌≡◌, refl, arith, String, Bool, true, false, List, [], ◌∷◌, All, map,
  length, some, ok,
}
use gomc_rest.Common.Int.{ℤ, pos, negsuc}
use gomc_rest.Common.Text.{
  parse_uint, in_int64, codes, parse_int, to_upper, to_lower, trim_space, strip_prefix?,
  split_at_byte?, text_eq,
}
use gomc_rest.Device.{
  DeviceAddr, parse_number, parse_bit_index, split_bit, parse_rest, match_prefix, split_device,
  strip_nibbles, parse_normal, parse_addr, is_valid_device, is_hex_device, is_word_device, listed,
}
use gomc_rest.Http.{Request, Response, write_json, random_values}
use gomc_rest.Http.Params.{
  get, lookup, parse_bool_param, parse_bool_values, parse_bool_value, one_of, reject_unknown_params,
}
use gomc_rest.Http.Guards.{require_method, require_writable, allow_params}
use gomc_rest.Http.Json.{int, array, decoded, decode_body, unmarshal, all_items, as_int64}
use gomc_rest.Handler.Numbers.{
  words_of_sints, word_of_sint, words_of_dwords, dword_of, dword_values, fits_in_bits, to_unsigned,
}
use gomc_rest.Handler.Numbers.Laws.{words_of_dwords-values}
use gomc_rest.Handler.Numbers.Nibbles.{k_value, k_value-fits_in_bits}
use gomc_rest.Handler.Read.{
  ReadPlan, words, plan_read, plan_addr, plan_plain, parse_count, count_of,
}
use gomc_rest.Handler.Read.Limits.{IsWithinLimits, plan_read-IsWithinLimits}
use gomc_rest.Handler.Write.{
  WritePlan, WriteBody, k_word, plan_write, plan_write_addr, plan_write_k, raw_values,
}
use gomc_rest.Handler.RandomRead.{
  handle_random_read, RandomReadBody, BitPlan, RandomReadPlan, native, folded, plan_random_read,
  plan_bits, add_bit, each, parse_word_addr, check_sizes, empty_bit_plan,
}
use gomc_rest.Handler.RandomRead.Limits.{
  IsWithinRandomLimits, plan_random_read-IsWithinRandomLimits,
}
use gomc_rest.Handler.RandomRead.Answer.{values_at, handle_random_read-wiring}
use gomc_rest.Handler.RandomRead.Wiring.{bit_values}
use gomc_rest.Handler.RandomWrite.{
  RandomWriteBody, RandomWritePlan, plan_random_write, plan_entry, plan_bit_writes, add_bit_write,
}
use gomc_rest.Handler.RandomWrite.Limits.{
  IsWithinRandomWriteLimits, plan_random_write-IsWithinRandomWriteLimits,
}
use gomc_rest.Handler.Remote.{at_run, handle_remote}
use gomc_rest.Handler.Remote.Guarded.{refusal_status, handle_remote-locked}
use gomc_rest.Metrics.{empty_ring}
use gomc_rest.Plc.Simulator.{SimWorld, sim_net, sim_config, sim_client, device_at}
use gomc_rest.Queue.Exec.{Turn, served, PlcQueue}

abbrev request : String → List (String × List String) → Request
request method query = record { method = method; path = "/"; authorization = ""; query = query }

abbrev get_words : Request
get_words = request "GET" (("addr", "D100" ∷ []) ∷ ("count", "3" ∷ []) ∷ [])

abbrev planned_words : ReadPlan
planned_words = words (codes "D") 100 3 false false

get_words_plan : plan_read get_words ≡ ok planned_words
unfolding plan_read plan_addr plan_plain parse_count count_of require_method allow_params
    reject_unknown_params one_of get lookup parse_bool_param parse_bool_values parse_bool_value
    parse_addr parse_normal strip_nibbles split_device match_prefix parse_rest split_bit
    parse_bit_index parse_number is_valid_device is_hex_device is_word_device listed parse_int
    in_int64 parse_uint to_upper to_lower trim_space strip_prefix? split_at_byte? text_eq
get_words_plan = refl

plan_read-IsWithinLimits_example : IsWithinLimits planned_words
plan_read-IsWithinLimits_example = plan_read-IsWithinLimits get_words planned_words get_words_plan

-- A signed value over eight bit devices.
abbrev post_k : Request
post_k = request "POST" (("addr", "K2M100" ∷ []) ∷ ("sint", "true" ∷ []) ∷ [])

abbrev k_body : WriteBody
k_body = decoded (some (array (int (negsuc 99) ∷ [])))

abbrev planned_k : WritePlan
planned_k = k_word (codes "M") 100 2 4294967196

-- A word, a bit of another word, and a bit device.
abbrev asked : RandomReadBody
asked = record { words = "D100" ∷ []; dwords = []; bits = "D200.3" ∷ "M7" ∷ [] }

abbrev asked_bits : BitPlan
asked_bits = record {
  srcs = folded 0 3 ∷ native 0 ∷ [];
  word_addrs = device_at (codes "D") 200 ∷ [];
  natives = device_at (codes "M") 7 ∷ [];
}

abbrev planned_reads : RandomReadPlan
planned_reads = record {
  word_addrs = device_at (codes "D") 100 ∷ [];
  dword_addrs = [];
  bit_plan = asked_bits;
}

asked_plan :
    (plan_random_read (request "POST" []) (decoded asked) ≡ ok planned_reads)
    × (plan_bits asked.bits empty_bit_plan ≡ ok asked_bits)
unfolding plan_write plan_write_addr plan_write_k raw_values plan_random_read plan_bits add_bit each
    parse_word_addr check_sizes plan_random_write plan_entry plan_bit_writes add_bit_write
    require_method require_writable allow_params decode_body unmarshal all_items as_int64
    fits_in_bits to_unsigned reject_unknown_params one_of get lookup parse_bool_param
    parse_bool_values parse_bool_value parse_addr parse_normal strip_nibbles split_device
    match_prefix parse_rest split_bit parse_bit_index parse_number is_valid_device is_hex_device
    is_word_device listed parse_int in_int64 parse_uint to_upper to_lower trim_space strip_prefix?
    split_at_byte? text_eq
asked_plan = (refl, refl)

plan_random_read-IsWithinRandomLimits_example : IsWithinRandomLimits asked planned_reads
plan_random_read-IsWithinRandomLimits_example =
    plan_random_read-IsWithinRandomLimits (request "POST" []) asked planned_reads (asked_plan.0)

abbrev word_7 : DeviceAddr → ℕ
word_7 a = a.addr

abbrev bits_on : DeviceAddr → Bool
bits_on a = true

-- A word, and a bit of another word.
abbrev sent : RandomWriteBody
sent = record {
  words = record { addr = "D100"; value = 7 } ∷ [];
  dwords = [];
  bits = record { addr = "D200.3"; value = true } ∷ [];
}

abbrev planned_writes : RandomWritePlan
planned_writes = record {
  words = (device_at (codes "D") 100, 7) ∷ [];
  dwords = [];
  bit_writes = record {
    natives = [];
    word_bits = record { device = codes "D"; addr = 200; bit = 3; value = true } ∷ [];
  };
}

sent_plan : plan_random_write false (request "POST" []) (decoded sent) ≡ ok planned_writes
unfolding plan_write plan_write_addr plan_write_k raw_values plan_random_read plan_bits add_bit each
    parse_word_addr check_sizes plan_random_write plan_entry plan_bit_writes add_bit_write
    require_method require_writable allow_params decode_body unmarshal all_items as_int64
    fits_in_bits to_unsigned reject_unknown_params one_of get lookup parse_bool_param
    parse_bool_values parse_bool_value parse_addr parse_normal strip_nibbles split_device
    match_prefix parse_rest split_bit parse_bit_index parse_number is_valid_device is_hex_device
    is_word_device listed parse_int in_int64 parse_uint to_upper to_lower trim_space strip_prefix?
    split_at_byte? text_eq
sent_plan = refl

plan_random_write-IsWithinRandomWriteLimits_example : IsWithinRandomWriteLimits sent planned_writes
plan_random_write-IsWithinRandomWriteLimits_example =
    plan_random_write-IsWithinRandomWriteLimits false (request "POST" []) sent planned_writes
      sent_plan

abbrev signed_values : List ℤ
signed_values = pos 5 ∷ negsuc 0 ∷ []

signed_words :
    (words_of_sints signed_values ≡ some (5 ∷ 65535 ∷ []))
    × (words_of_dwords true signed_values ≡ some (5 ∷ 0 ∷ 65535 ∷ 65535 ∷ []))
unfolding words_of_sints word_of_sint words_of_dwords dword_of to_unsigned
signed_words = (refl, refl)

abbrev dword_halves : List ℕ
dword_halves = 5 ∷ 0 ∷ 65535 ∷ 65535 ∷ []

words_of_dwords-values_example :
    (dword_values true (length signed_values) dword_halves ≡ some signed_values)
    × (length dword_halves ≡ 2 * length signed_values)
    × All (λ w. w < 2 ^ 16) dword_halves
words_of_dwords-values_example =
    words_of_dwords-values true signed_values dword_halves (signed_words.1)

fitting : fits_in_bits (negsuc 99) (2 * 4) true ≡ true
unfolding fits_in_bits
fitting = refl

k_value-fits_in_bits_example :
    k_value true (to_unsigned 32 (negsuc 99) % 2 ^ (2 * 4)) (2 * 4) ≡ negsuc 99
k_value-fits_in_bits_example =
    k_value-fits_in_bits 2 (negsuc 99) true (omega arith) (omega arith) fitting

abbrev idle_queue : PlcQueue (Unit {0}) SimWorld
idle_queue = record {
  plc = sim_client;
  client = record { requests = 0; busy_count = 0; total_ns = 0; recent = empty_ring };
  ops = [];
}

abbrev at_once : Turn
at_once = record { fate = served; waited = 0 }

-- A PLC with bit devices and random access: each word holds its number, and all bits are on.
abbrev full_net : Net (Unit {0}) SimWorld
full_net = record (sim_net true) {
  random_read = λ c words dwords w. (ok (map word_7 words, map word_7 dwords), w);
  read_bits = λ c device start n w. (ok (true ∷ []), w);
}

abbrev open_queue : PlcQueue (Unit {0}) SimWorld
open_queue = record idle_queue { plc = record sim_client { conn = some tt } }

handle_random_read-wiring_example :
    (handle_random_read full_net sim_config
      (request "POST" [])
      (decoded asked)
      at_once
      open_queue).0
    ≡ write_json 200 (
        random_values
          (values_at word_7 asked.words)
          (values_at word_7 asked.dwords)
          (bit_values word_7 bits_on asked.bits))
handle_random_read-wiring_example =
    handle_random_read-wiring full_net sim_config word_7 word_7 bits_on
      (record { random = λ c words dwords w. (w, refl); bit = λ c a w. (w, refl) })
      (request "POST" []) asked planned_reads at_once open_queue tt (asked_plan.0) refl refl

handle_remote-locked_example :
    (response : Response) × (handle_remote
        (sim_net true)
        sim_config
        at_run
        false
        false
        post_k
        at_once
        idle_queue
      ≡ (response, idle_queue))
    × (response.status ≡ refusal_status post_k)
handle_remote-locked_example =
    handle_remote-locked (sim_net true) sim_config at_run false false post_k at_once idle_queue refl
