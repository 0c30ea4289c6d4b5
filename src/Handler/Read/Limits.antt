-- ===== src/Handler/Read/Limits.antt =====
-- What a read that passes the checks asks of the PLC.
use gomc_rest.Common.{
  ℕ, ◌+◌, ◌*◌, ◌≤◌, ◌<◌, ◌^◌, ◌≡◌, arith, String, Bool, true, false, ◌&&◌, Option, some, none, ok,
  Result-cases, Option-cases, Bool-cases, inl, inr, ltb, if◌then◌else◌,
}
use gomc_rest.Common.Int.{ℤ, pos, negsuc}
use gomc_rest.Common.Text.{codes, parse_int}
use gomc_rest.Device.{ParsedAddr, parse_addr, is_word_device}
use gomc_rest.Device.Bounds.{IsParsed, parse_addr-IsParsed}
use gomc_rest.Http.{Request}
use gomc_rest.Http.Params.{get, parse_bool_param}
use gomc_rest.Handler.Read.{
  ReadPlan, k_word, word_bits, words, bits, parse_count, count_of, plan_k, plan_bit, plan_plain,
  plan_addr, plan_read,
}

-- The limits of a request, per kind of address.
abbrev pub IsWithinLimits : ReadPlan → Type 0
IsWithinLimits (k_word device addr nibbles sint) =
    (is_word_device device ≡ false) × (addr < 2 ^ 63) × (1 ≤ nibbles) × (nibbles ≤ 8)
IsWithinLimits (word_bits device addr bit count) =
    (is_word_device device ≡ true) × (addr < 2 ^ 63) × (1 ≤ count) × (bit + count ≤ 16)
IsWithinLimits (words device addr count dword sint) =
    (is_word_device device ≡ true)
    × (addr < 2 ^ 63)
    × (1 ≤ count)
    × ((if dword then count * 2 else count) ≤ 1024)
IsWithinLimits (bits device addr count) =
    (is_word_device device ≡ false) × (addr < 2 ^ 63) × (1 ≤ count) × (count ≤ 1024)

count_of-pos : (o : Option ℤ) (n : ℕ) → count_of o ≡ ok n → 1 ≤ n
unfolding count_of
count_of-pos none n e = cc
count_of-pos (some (pos m)) n e = ground arith
count_of-pos (some (negsuc m)) n e = cc

parse_count-pos : (s : String) (n : ℕ) → parse_count s ≡ ok n → 1 ≤ n
unfolding parse_count
parse_count-pos s n e = ground (arith, count_of-pos (parse_int 10 (codes s)) n)

plan_bit-IsWithinLimits :
    (da : ParsedAddr) (bit count : ℕ) (dword sint : Bool) (plan : ReadPlan)
    → is_word_device da.device ≡ true
    → da.addr < 2 ^ 63
    → 1 ≤ count
    → plan_bit da bit count dword sint ≡ ok plan
    → IsWithinLimits plan
unfolding plan_bit
plan_bit-IsWithinLimits da bit count dword sint plan w a c e = ground arith

plan_k-IsWithinLimits :
    (da : ParsedAddr) (count : ℕ) (dword sint : Bool) (plan : ReadPlan)
    → IsParsed da
    → 0 < da.nibbles
    → plan_k da count dword sint ≡ ok plan
    → IsWithinLimits plan
unfolding plan_k
plan_k-IsWithinLimits da count dword sint plan v n e = ground (arith, v.nibbles_bits n)

plan_plain-IsWithinLimits :
    (da : ParsedAddr) (count : ℕ) (dword sint : Bool) (plan : ReadPlan)
    → da.addr < 2 ^ 63
    → 1 ≤ count
    → count ≤ 1024
    → (dword && ltb 512 count) ≡ false
    → plan_plain da count dword sint ≡ ok plan
    → IsWithinLimits plan
unfolding plan_plain
plan_plain-IsWithinLimits da count dword sint plan a c m d e = ground arith

plan_addr-IsWithinLimits :
    (da : ParsedAddr) (count : ℕ) (dword sint : Bool) (plan : ReadPlan)
    → IsParsed da
    → 1 ≤ count
    → count ≤ 1024
    → (dword && ltb 512 count) ≡ false
    → plan_addr da count dword sint ≡ ok plan
    → IsWithinLimits plan
unfolding plan_addr
plan_addr-IsWithinLimits da count dword sint plan v c m d e = elim (Bool-cases (ltb 0 da.nibbles)) [
  | inl k ↦ plan_k-IsWithinLimits da count dword sint plan v (ground arith) (ground arith)
  | inr plain ↦ elim (Option-cases da.bit) [
    | inl no_bit ↦ plan_plain-IsWithinLimits da count dword sint plan v.range c m d (ground arith)
    | inr (bit, has_bit) ↦
        let fits = rw has_bit at v.bit_fits in
        plan_bit-IsWithinLimits da bit count dword sint plan fits.1 v.range c (ground arith)
  ]
]

-- A read that passes the checks of the handler asks for at least one item and at most 1024 words or
-- bits (so 512 double words); bits of a word stay inside the word; K notation is of 1 to 8 nibbles;
-- the number of the first device fits an int64; and words are asked of word devices, bits and K
-- notation of bit devices.
pub plan_read-IsWithinLimits :
    (r : Request) (plan : ReadPlan) → plan_read r ≡ ok plan → IsWithinLimits plan
unfolding plan_read
plan_read-IsWithinLimits r plan e = elim (Result-cases (parse_count (get r.query "count"))) [
  | inr (x, bad) ↦ absurd (ground arith)
  | inl (count, counted) ↦ elim (Result-cases (parse_addr (codes (get r.query "addr")))) [
    | inr (x, bad) ↦ absurd (ground arith)
    | inl (da, read) ↦ elim (Result-cases (parse_bool_param r.query "dword")) [
      | inr (x, bad) ↦ absurd (ground arith)
      | inl (dword, flag) ↦ elim (Result-cases (parse_bool_param r.query "sint")) [
        | inr (x, bad) ↦ absurd (ground arith)
        | inl (sint, sign) ↦
            plan_addr-IsWithinLimits da count dword sint plan
              (parse_addr-IsParsed (codes (get r.query "addr")) da read)
              (parse_count-pos (get r.query "count") count counted) (ground arith) (ground arith)
              (ground arith)
      ]
    ]
  ]
]
