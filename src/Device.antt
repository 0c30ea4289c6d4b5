-- ===== src/Device.antt =====
-- device.go: the device tables and `parseAddr`, which reads addresses such as D100, W1F, D100.A and
-- K4M100. Error texts are constructors that hold the values which the source formats.
pub mod Bounds
pub mod Prefixes
pub mod Names
pub mod Printing
mod Tests
use gomc_rest.Common.{
  ℕ, ◌-◌, ◌+◌, ◌<◌, ◌≡◌, refl, Bool, true, false, not, ◌&&◌, ◌||◌, Option, none, some, List, [],
  ◌∷◌, ltb, leb, ◌==◌, if◌then◌else◌, Result, ok, err, ◌>>=◌, ◌>>◌, fail_if, length,
}
use gomc_rest.Common.Int.{pos, negsuc}
use gomc_rest.Common.Text.{
  Text, codes, text_eq, to_upper, trim_space, strip_prefix?, split_at_byte?, parse_int,
}

abbrev pub word_devs : List Text
word_devs =
    codes "D"
    ∷ codes "W"
    ∷ codes "R"
    ∷ codes "ZR"
    ∷ codes "TN"
    ∷ codes "STN"
    ∷ codes "CN"
    ∷ codes "Z"
    ∷ codes "SW"
    ∷ codes "SD"
    ∷ []

abbrev pub bit_devs : List Text
bit_devs =
    codes "X"
    ∷ codes "Y"
    ∷ codes "M"
    ∷ codes "L"
    ∷ codes "B"
    ∷ codes "F"
    ∷ codes "V"
    ∷ codes "SB"
    ∷ codes "SM"
    ∷ codes "S"
    ∷ codes "DX"
    ∷ codes "DY"
    ∷ codes "TC"
    ∷ codes "TS"
    ∷ codes "STC"
    ∷ codes "STS"
    ∷ codes "CC"
    ∷ codes "CS"
    ∷ []

abbrev pub hex_addr_devs : List Text
hex_addr_devs =
    codes "X"
    ∷ codes "Y"
    ∷ codes "B"
    ∷ codes "SB"
    ∷ codes "W"
    ∷ codes "SW"
    ∷ codes "ZR"
    ∷ codes "DX"
    ∷ codes "DY"
    ∷ []

-- A look-up in a `map[string]bool` whose values are all true.
unfoldable pub listed : List Text → Text → Bool
listed [] dev = false
listed (d ∷ ds) dev = text_eq d dev || listed ds dev

unfoldable pub is_word_device : Text → Bool
is_word_device dev = listed word_devs dev

unfoldable pub is_valid_device : Text → Bool
unfolding is_word_device
is_valid_device dev = is_word_device dev || listed bit_devs dev

unfoldable pub is_hex_device : Text → Bool
is_hex_device dev = listed hex_addr_devs dev

-- The device names of more than one character, longest first. `sort.Slice` over a map leaves the
-- order of names of one length open; this is one such order.
abbrev pub multi_char_prefixes : List Text
multi_char_prefixes =
    codes "STN"
    ∷ codes "STC"
    ∷ codes "STS"
    ∷ codes "ZR"
    ∷ codes "TN"
    ∷ codes "CN"
    ∷ codes "SW"
    ∷ codes "SD"
    ∷ codes "SB"
    ∷ codes "SM"
    ∷ codes "DX"
    ∷ codes "DY"
    ∷ codes "TC"
    ∷ codes "TS"
    ∷ codes "CC"
    ∷ codes "CS"
    ∷ []

-- `mc.DeviceAddr`, and `ParsedAddr` over it: no bit is -1 in the source, no K notation is 0.
pub record DeviceAddr : Type 0 where
  pub device : Text
  pub addr : ℕ

pub record ParsedAddr : Type 0 where
  pub device_addr : DeviceAddr
  pub open device_addr use *
  pub bit : Option ℕ
  pub nibbles : ℕ

pub data AddrError : Type 0 where
  bad_nibble_count invalid_address missing_number bad_bit_index bad_hex_number bad_number :
      Text → AddrError
  unknown_device bit_on_bit_device nibbles_on_word_device : Text → AddrError

-- The K prefix: the nibble count and the rest of the address.
unfoldable pub strip_nibbles : Text → Result AddrError (ℕ × Text)
strip_nibbles (k ∷ d ∷ e ∷ s) =
    if (k == b'K') && (leb b'0' d && leb d b'9')
    then if ltb d b'1' || ltb b'8' d
      then err (bad_nibble_count (k ∷ d ∷ e ∷ s))
      else ok (d - b'0', e ∷ s)
    else ok (0, k ∷ d ∷ e ∷ s)
strip_nibbles s = ok (0, s)

-- The loop over the prefixes; `none` leaves `dev` empty.
unfoldable pub match_prefix : List Text → Text → Option (Text × Text)
match_prefix [] s = none
match_prefix (p ∷ ps) s = elim (strip_prefix? p s) [
  | some rest ↦ some (p, rest)
  | none ↦ match_prefix ps s
]

-- `dev` and `rest`; an address has two bytes at least.
unfoldable pub split_device : List Text → Text → Text → Result AddrError (Text × Text)
unfolding match_prefix
split_device prefixes full [] = err (invalid_address full)
split_device prefixes full (c ∷ []) = err (invalid_address full)
split_device prefixes full (c ∷ d ∷ s) = elim (match_prefix prefixes (c ∷ d ∷ s)) [
  | some found ↦ ok found
  | none ↦ ok (c ∷ [], d ∷ s)
]

-- The digit behind the dot. One digit is never negative.
unfoldable pub parse_bit_index : Text → Text → Result AddrError ℕ
parse_bit_index s (c ∷ []) = elim (parse_int 16 (c ∷ [])) [
  | some (pos n) ↦ ok n
  | some (negsuc n) ↦ err (bad_bit_index s)
  | none ↦ err (bad_bit_index s)
]
parse_bit_index s _ = err (bad_bit_index s)

-- The optional bit suffix: the bit and the part before it.
unfoldable pub split_bit : Text → Text → Text → Result AddrError (Option ℕ × Text)
split_bit s dev rest = elim (split_at_byte? b'.' rest) [
  | none ↦ ok (none, rest)
  | some (addr_part, bit_part) ↦ do
    fail_if (not (is_word_device dev)) (bit_on_bit_device dev)
    bit ← parse_bit_index s bit_part
    fail_if (text_eq addr_part []) (missing_number s)
    ok (some bit, addr_part)
]

unfoldable pub parse_number : Text → Text → Text → Result AddrError ℕ
parse_number s dev part =
    if is_hex_device dev
    then elim (parse_int 16 part) [
      | some (pos n) ↦ ok n
      | some (negsuc n) ↦ err (bad_hex_number s)
      | none ↦ err (bad_hex_number s)
    ]
    else elim (parse_int 10 part) [
      | some (pos n) ↦ ok n
      | some (negsuc n) ↦ err (bad_number s)
      | none ↦ err (bad_number s)
    ]

-- What follows once the device is known.
unfoldable pub parse_rest : Text → ℕ → Text → Text → Result AddrError ParsedAddr
parse_rest s nibbles dev rest = do
  fail_if (not (is_valid_device dev)) (unknown_device dev)
  fail_if (text_eq rest []) (missing_number s)
  (bit, addr_part) ← split_bit s dev rest
  fail_if (ltb 0 nibbles && is_word_device dev) (nibbles_on_word_device dev)
  n ← parse_number s dev addr_part
  ok (record { device_addr = record { device = dev; addr = n }; bit = bit; nibbles = nibbles })

unfoldable pub parse_normal : Text → Result AddrError ParsedAddr
parse_normal full = do
  (nibbles, s) ← strip_nibbles full
  (dev, rest) ← split_device multi_char_prefixes full s
  parse_rest s nibbles dev rest

unfoldable pub parse_addr : Text → Result AddrError ParsedAddr
parse_addr s = parse_normal (to_upper (trim_space s))
