-- ===== src/Device/Tests.antt =====
-- Addresses as the API accepts them.
use gomc_rest.Device.Prefixes.{IsLongestFirst, split_device-order}
use gomc_rest.Common.{List, ◌∷◌, drop, arith, Bool-cases, inl, inr, ◌≡◌, refl, some, none, ok, err}
use gomc_rest.Common.Text.{
  Text, parse_uint, in_int64, codes, parse_int, to_upper, trim_space, strip_prefix?, split_at_byte?,
  text_eq,
}
use gomc_rest.Device.Bounds.{IsParsed, parse_addr-IsParsed}
use gomc_rest.Device.{
  multi_char_prefixes, parse_number, parse_bit_index, split_bit, parse_rest, match_prefix,
  split_device, strip_nibbles, parse_normal, parse_addr, is_valid_device, is_hex_device,
  is_word_device, listed, unknown_device, bad_nibble_count,
}

parse_tests :
    (parse_addr (codes " d100.a ")
      ≡ ok (record {
        device_addr = record { device = codes "D"; addr = 100 };
        bit = some 10;
        nibbles = 0;
      }))
    × (parse_addr (codes "K4M100")
        ≡ ok (record {
          device_addr = record { device = codes "M"; addr = 100 };
          bit = none;
          nibbles = 4;
        }))
    × (parse_addr (codes "W1F")
        ≡ ok (record {
          device_addr = record { device = codes "W"; addr = 31 };
          bit = none;
          nibbles = 0;
        }))
    × (parse_addr (codes "Q1") ≡ err (unknown_device (codes "Q")))
    × (parse_addr (codes "K9M100") ≡ err (bad_nibble_count (codes "K9M100")))
unfolding parse_addr parse_normal strip_nibbles split_device match_prefix parse_rest split_bit
    parse_bit_index parse_number is_valid_device is_hex_device is_word_device listed parse_int
    in_int64 parse_uint to_upper trim_space strip_prefix? split_at_byte? text_eq
parse_tests = (refl, refl, refl, refl, refl)

parse_addr-IsParsed_example :
    IsParsed (record {
      device_addr = record { device = codes "D"; addr = 100 };
      bit = some 10;
      nibbles = 0;
    })
parse_addr-IsParsed_example =
    parse_addr-IsParsed (codes " d100.a ")
      (record {
        device_addr = record { device = codes "D"; addr = 100 };
        bit = some 10;
        nibbles = 0;
      })
      (parse_tests.0)

-- The first two devices the other way round.
abbrev swapped_prefixes : List Text
swapped_prefixes = codes "STC" ∷ codes "STN" ∷ drop 2 multi_char_prefixes

swapped_same : (d : Text) → listed swapped_prefixes d ≡ listed multi_char_prefixes d
unfolding listed
swapped_same d = elim (Bool-cases (text_eq (codes "STC") d)) [
  | inl stc ↦ elim (Bool-cases (text_eq (codes "STN") d)) [
    | inl stn ↦ rw (stc, stn) refl
    | inr other ↦ rw (stc, other) refl
  ]
  | inr not_stc ↦ elim (Bool-cases (text_eq (codes "STN") d)) [
    | inl stn ↦ rw (not_stc, stn) refl
    | inr other ↦ rw (not_stc, other) refl
  ]
]

swapped_sorted : IsLongestFirst swapped_prefixes
swapped_sorted = ground arith

split_device-order_example :
    split_device swapped_prefixes (codes "STN5") (codes "STN5")
    ≡ split_device multi_char_prefixes (codes "STN5") (codes "STN5")
split_device-order_example =
    split_device-order swapped_prefixes (codes "STN5") (codes "STN5") swapped_sorted swapped_same
