-- ===== src/Queue/Tests.antt =====
-- The properties of the bit operations, and of a random write on the simulated PLC.
use gomc_rest.Queue.Exec.Logged.{IsReported}
use gomc_rest.Queue.Ops.Reporting.{on_plc-IsReported}
use gomc_rest.Common.{
  ok, arith, Result, ℕ, ◌%◌, ◌^◌, ◌≡◌, refl, Bool, true, false, List, [], ◌∷◌, length,
  if◌then◌else◌,
}
use gomc_rest.Common.Text.{
  codes, text_eq, strip_prefix?, split_at_byte?, parse_int, parse_uint, parse_digits, digit_value,
  in_int64, trim_space, to_upper, upper_byte,
}
use gomc_rest.Common.Decimal.{itoa}
use gomc_rest.Device.{
  is_valid_device, is_word_device, is_hex_device, listed, parse_addr, parse_normal, strip_nibbles,
  split_device, match_prefix, parse_rest, split_bit, parse_number, DeviceAddr,
}
use gomc_rest.Device.Printing.{plain_addr}
use gomc_rest.Queue.Ops.Labels.{read_back, IsDecimal, parse_addr-op_label}
use gomc_rest.Queue.Labels.{Operation, k_word, range, op_label}
use gomc_rest.Failure.{Error, busy}
use gomc_rest.Metrics.{empty_ring}
use gomc_rest.Plc.{Client, Act}
use gomc_rest.Queue.Exec.{Turn, turned_down, PlcQueue}
use gomc_rest.Plc.Simulator.{sim_client, SimWorld, sim_net, sim_config, sim_world, store_word}
use gomc_rest.Queue.Bits.{bits_from, put_bits, pack_bits}
use gomc_rest.Queue.Bits.Pack.{value, pack_bits-value}
use gomc_rest.Queue.Groups.{WordBitWrite, apply_writes, same_word}
use gomc_rest.Queue.Groups.Laws.{writes_to}
use gomc_rest.Queue.Ops.ReadBack.{read_word_bits-write_word_bits}
use gomc_rest.Queue.Ops.{
  remote_reset, on_plc, read_word_bits_act, write_word_bits_act, write_word_bits_grouped,
}
use gomc_rest.Queue.Ops.InOrder.{Memory, write_word_bits_grouped-in_order}

abbrev three_bits : List Bool
three_bits = true ∷ false ∷ true ∷ []

pack_bits-value_example :
    (pack_bits three_bits ≡ value three_bits)
    × (bits_from (pack_bits three_bits) 0 (length three_bits) ≡ three_bits)
    × (pack_bits (bits_from 1234 0 8) ≡ 1234 % 2 ^ 8)
pack_bits-value_example = pack_bits-value three_bits 1234 8 (omega arith) (omega arith)

abbrev write_bit : ℕ → ℕ → Bool → WordBitWrite
write_bit addr bit v = record { device = codes "D"; addr = addr; bit = bit; value = v }

-- Two words, one of them twice, the second time against the first.
abbrev mixed_writes : List WordBitWrite
mixed_writes = write_bit 100 0 true ∷ write_bit 200 3 true ∷ write_bit 100 0 false ∷ []

abbrev sim_memory : Memory (sim_net true)
sim_memory = record {
  load = λ w a. w.words a;
  store = store_word;
  reads = λ c a w. refl;
  writes = λ c a v w. refl;
  load_store = λ w a v b. refl;
}

write_word_bits_grouped-in_order_example :
    (w' : SimWorld) × (write_word_bits_grouped (sim_net true) sim_config mixed_writes tt sim_world
      ≡ (ok tt, w'))
    × ((a : DeviceAddr)
        → sim_memory.load w' a
          ≡ apply_writes (writes_to a mixed_writes) (sim_memory.load sim_world a))
write_word_bits_grouped-in_order_example =
    write_word_bits_grouped-in_order (sim_net true) sim_config sim_memory mixed_writes tt sim_world

-- A read that comes back from the queue as busy.
abbrev turned_away : Turn
turned_away = record { fate = turned_down busy; waited = 250 }

abbrev idle : PlcQueue (Unit {0}) SimWorld
idle = record {
  plc = sim_client;
  client = record { requests = 0; busy_count = 0; total_ns = 0; recent = empty_ring };
  ops = [];
}

abbrev no_work : Client (Unit {0}) SimWorld → Result Error ℕ × Client (Unit {0}) SimWorld
no_work p = (ok 7, p)

abbrev d100 : DeviceAddr
d100 = record { device = codes "D"; addr = 100 }

read_word_bits-write_word_bits_example :
    (w' : SimWorld) × (write_word_bits_act
        (sim_net true)
        sim_config
        (codes "D")
        100
        4
        three_bits
        tt
        sim_world
      ≡ (ok tt, w'))
    × (read_word_bits_act (sim_net true) sim_config (codes "D") 100 4 (length three_bits) tt w'
        ≡ (ok three_bits, w'))
    × ((b : DeviceAddr)
        → sim_memory.load w' b ≡ (
            if same_word d100 b
            then put_bits 4 three_bits (sim_memory.load sim_world d100)
            else sim_memory.load sim_world b))
read_word_bits-write_word_bits_example =
    read_word_bits-write_word_bits (sim_net true) sim_config sim_memory d100 4 three_bits tt
      sim_world (omega arith) (omega arith)

-- A read of D100 over a connection that breaks.
abbrev broken_words : Unit {0} → Act SimWorld (List ℕ)
broken_words c = (sim_net false).read_words c (codes "D") 100 1

abbrev read_of_d100 : Operation
read_of_d100 = range (codes "D") 100

d100a : IsDecimal (Operation.word_bit (codes "D") 100 10)
d100a = (
  unfold is_valid_device listed text_eq in refl,
  unfold is_word_device listed text_eq in refl,
  unfold is_hex_device listed text_eq in refl,
  omega arith,
  omega arith,
)

parse_addr-op_label_example :
    parse_addr (op_label (Operation.word_bit (codes "D") 100 10))
    ≡ read_back (Operation.word_bit (codes "D") 100 10)
parse_addr-op_label_example = parse_addr-op_label (Operation.word_bit (codes "D") 100 10) d100a

k4m100 : op_label (k_word (codes "M") 100 4) ≡ codes "K4M100"
unfolding op_label itoa
k4m100 = refl

-- X4F, whose number is 79, is logged as X79, which is the address 121.
x4f_in_the_log : parse_addr (op_label (range (codes "X") 79)) ≡ ok (plain_addr 0 (codes "X") 121)
unfolding op_label itoa parse_addr parse_normal strip_nibbles split_device match_prefix
    strip_prefix? parse_rest is_valid_device is_word_device is_hex_device listed split_bit
    split_at_byte? parse_number parse_int parse_uint parse_digits digit_value in_int64 trim_space
    to_upper upper_byte text_eq
x4f_in_the_log = refl

-- D100.A, the bit 10 of D100, is logged as D100.10.
d100a_in_the_log : op_label (Operation.word_bit (codes "D") 100 10) ≡ codes "D100.10"
unfolding op_label itoa
d100a_in_the_log = refl

idle-IsReported : IsReported idle
idle-IsReported = record { requests = refl; busy = refl; timeouts = refl }

on_plc-IsReported_example :
    IsReported (on_plc (sim_net false) sim_config read_of_d100 turned_away broken_words idle).1
    × IsReported (remote_reset (sim_net false) sim_config turned_away idle).1
on_plc-IsReported_example =
    on_plc-IsReported (sim_net false) sim_config read_of_d100 turned_away broken_words idle
      idle-IsReported
