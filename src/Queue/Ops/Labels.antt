-- ===== src/Queue/Ops/Labels.antt =====
-- The names under which the operations are logged read back as addresses.
use gomc_rest.Device.Printing.Bits.{parse_addr-bit, bit_addr}
use gomc_rest.Queue.Labels.{
  random_write, random_read, remote_reset, remote_latch_clear, remote_pause, remote_stop,
  remote_run, op_label, k_word, word_bit, range, Operation,
}
use gomc_rest.Common.{if◌then◌else◌, ltb, err, Result, ◌≡◌, ◌≤◌, ◌<◌, ◌^◌, true, false, ok}
use gomc_rest.Device.{
  missing_number, bad_bit_index, AddrError, ParsedAddr, is_valid_device, is_hex_device,
  is_word_device, parse_addr,
}
use gomc_rest.Device.Printing.{plain_addr, parse_addr-plain, parse_addr-k}

-- An operation on the registers of a device whose addresses are decimal: on a range, on a bit of a
-- word device, or on a bit device with a nibble count that K notation has.
abbrev pub IsDecimal : Operation → Type 0
IsDecimal (range device start) =
    (is_valid_device device ≡ true) × (is_hex_device device ≡ false) × (start < 2 ^ 63)
IsDecimal (word_bit device addr bit) =
    (is_valid_device device ≡ true)
    × (is_word_device device ≡ true)
    × (is_hex_device device ≡ false)
    × (addr < 2 ^ 63)
    × (bit < 16)
IsDecimal (k_word device addr nibbles) =
    (is_valid_device device ≡ true)
    × (is_word_device device ≡ false)
    × (is_hex_device device ≡ false)
    × (1 ≤ nibbles)
    × (nibbles ≤ 8)
    × (addr < 2 ^ 63)
IsDecimal _ = ⊥

-- What the log of such an operation is to read back as: the address that it starts at, but for the
-- bits from 10 on, which the log shows with two digits.
abbrev pub read_back : Operation → Result AddrError ParsedAddr
read_back (range device start) = ok (plain_addr 0 device start)
read_back (k_word device addr nibbles) = ok (plain_addr nibbles device addr)
read_back (word_bit device addr bit) =
    if ltb bit 10
    then ok (bit_addr device addr bit)
    else err (bad_bit_index (op_label (word_bit device addr bit)))
read_back op = err (missing_number (op_label op))

-- The address that the log shows for an operation on the registers of a device with decimal addresses
-- reads back as the operation's own device, number, bit and nibble count, whether it is on a range, in
-- K notation, or on a bit from 0 to 9 of a word. For the bits from 10 to 15 it is no address:
-- `parseAddr` refuses it for its bit index, which the log shows in decimal.
pub parse_addr-op_label : (op : Operation) → IsDecimal op → parse_addr (op_label op) ≡ read_back op
unfolding op_label
parse_addr-op_label (range device start) (valid, decimal, small) =
    parse_addr-plain device start valid decimal small
parse_addr-op_label (k_word device addr nibbles) (valid, bits, decimal, least, most, small) =
    parse_addr-k device nibbles addr valid bits decimal least most small
parse_addr-op_label (word_bit device addr bit) (valid, word, decimal, small, fits) =
    parse_addr-bit device addr bit valid word decimal small fits
parse_addr-op_label remote_run printed = absurd printed
parse_addr-op_label remote_stop printed = absurd printed
parse_addr-op_label remote_pause printed = absurd printed
parse_addr-op_label remote_latch_clear printed = absurd printed
parse_addr-op_label remote_reset printed = absurd printed
parse_addr-op_label random_read printed = absurd printed
parse_addr-op_label random_write printed = absurd printed
