-- ===== src/Handler/RandomWrite/Limits.antt =====
-- What a random write that passes the checks sends to the PLC.
use gomc_rest.Handler.RandomWrite.Entries.{
  Sent, natives_of, word_bits_of, each-Sent, plan_bit_writes-entries,
}
use gomc_rest.Common.{
  ℕ, suc, ◌+◌, ◌≤◌, ◌<◌, ◌≡◌, refl, arith, String, Bool, List, [], ◌∷◌, ◌++◌, All, length,
  length-append, ok, Result-cases, Option-cases, Bool-cases, inl, inr,
}
use gomc_rest.Common.Text.{codes}
use gomc_rest.Device.{DeviceAddr, ParsedAddr, parse_addr, is_word_device}
use gomc_rest.Device.Bounds.{IsParsed, parse_addr-IsParsed}
use gomc_rest.Http.{Message, Request, words_need_word, dwords_need_word}
use gomc_rest.Http.Json.{decoded, decode_body}
use gomc_rest.Handler.RandomRead.{each, parse_word_addr, check_sizes}
use gomc_rest.Handler.RandomRead.Limits.{
  each-All, All-append, IsWordAddr, IsBitAddr, parse_word_addr-IsWordAddr, check_sizes-le,
}
use gomc_rest.Queue.Groups.{WordBitWrite, word_of}
use gomc_rest.Handler.RandomWrite.{
  word_bit, Entry, RandomWriteBody, BitWrites, no_bit_writes, add_bit_write, plan_bit_writes,
  plan_entry, RandomWritePlan, plan_random_write,
}

abbrev pub IsEntryAt : DeviceAddr × ℕ → Type 0
IsEntryAt p = IsWordAddr (p.0)

abbrev pub IsNativeAt : DeviceAddr × Bool → Type 0
IsNativeAt p = IsBitAddr (p.0)

abbrev pub IsWordBit : WordBitWrite → Type 0
IsWordBit wb = IsWordAddr (word_of wb) × (wb.bit < 16)

pub record IsBitWrites (n : ℕ) (p : BitWrites) : Type 0 where
  pub natives_ok : All IsNativeAt p.natives
  pub word_bits_ok : All IsWordBit p.word_bits
  pub one_each : length p.natives + length p.word_bits ≡ n

plan_entry-IsEntryAt :
    (msg : String → Message) (e : Entry ℕ) (p : DeviceAddr × ℕ)
    → plan_entry msg e ≡ ok p
    → IsEntryAt p
unfolding plan_entry
plan_entry-IsEntryAt msg x p e = elim (Result-cases (parse_word_addr msg x.addr)) [
  | inr (y, bad) ↦ absurd (ground arith)
  | inl (a, got) ↦
      let same : p ≡ (a, x.value) = ground arith in
      rw same (parse_word_addr-IsWordAddr msg x.addr a got)
]

add_bit_write-IsBitWrites :
    (x : Entry Bool) (pa : ParsedAddr) (n : ℕ) (p p' : BitWrites)
    → IsParsed pa
    → IsBitWrites n p
    → add_bit_write x pa p ≡ ok p'
    → IsBitWrites (suc n) p'
unfolding add_bit_write
add_bit_write-IsBitWrites x pa n p p' v i e = elim (Option-cases pa.bit) [
  | inl no_bit ↦ elim (Bool-cases (is_word_device pa.device)) [
    | inl word ↦ absurd (ground arith)
    | inr bit_device ↦
        let made : p' ≡ record p { natives = p.natives ++ ((pa.device_addr, x.value) ∷ []) } =
          ground arith in
        let size = length-append p.natives ((pa.device_addr, x.value) ∷ []) in
        let total = i.one_each in
        rw made (record {
          natives_ok =
              All-append IsNativeAt p.natives ((pa.device_addr, x.value) ∷ []) i.natives_ok
                ((bit_device, v.range), tt);
          word_bits_ok = i.word_bits_ok;
          one_each = omega (arith, size, total);
        })
  ]
  | inr (bit, with_bit) ↦
      let wb = word_bit pa bit x.value in
      let made : p' ≡ record p { word_bits = p.word_bits ++ (wb ∷ []) } = ground arith in
      let fits = rw with_bit at v.bit_fits in
      let size = length-append p.word_bits (wb ∷ []) in
      let total = i.one_each in
      rw made (record {
        natives_ok = i.natives_ok;
        word_bits_ok =
            All-append IsWordBit p.word_bits (wb ∷ []) i.word_bits_ok
              (((fits.1, v.range), fits.0), tt);
        one_each = omega (arith, size, total);
      })
]

plan_bit_writes-IsBitWrites :
    (xs : List (Entry Bool)) (n : ℕ) (p p' : BitWrites)
    → IsBitWrites n p
    → plan_bit_writes xs p ≡ ok p'
    → IsBitWrites (n + length xs) p'
unfolding plan_bit_writes
plan_bit_writes-IsBitWrites [] n p p' i e =
    let same : p' ≡ p = ground arith in
    let none_more : n + 0 ≡ n = omega arith in rw (same, none_more) i
plan_bit_writes-IsBitWrites (x ∷ xs) n p p' i e = elim (Result-cases (parse_addr (codes x.addr))) [
  | inr (y, bad) ↦ absurd (ground arith)
  | inl (pa, read) ↦ elim (Result-cases (add_bit_write x pa p)) [
    | inr (y, bad) ↦ absurd (ground arith)
    | inl (next, added) ↦
        let v = parse_addr-IsParsed (codes x.addr) pa read in
        let count : n + suc (length xs) ≡ suc n + length xs = omega arith in
        rw count (
          plan_bit_writes-IsBitWrites xs (suc n) next p'
            (add_bit_write-IsBitWrites x pa n p next v i added) (ground arith))
  ]
]

pub record IsWithinRandomWriteLimits (body : RandomWriteBody) (p : RandomWritePlan) : Type 0 where
  pub words_ok : All IsEntryAt p.words
  pub few_words : length p.words ≤ 255
  pub word_each : Sent body.words p.words
  pub dwords_ok : All IsEntryAt p.dwords
  pub few_dwords : length p.dwords ≤ 255
  pub dword_each : Sent body.dwords p.dwords
  pub bits_ok : IsBitWrites (length body.bits) p.bit_writes
  pub native_each : p.bit_writes.natives ≡ natives_of body.bits
  pub word_bit_each : p.bit_writes.word_bits ≡ word_bits_of body.bits
  pub few_bits : length body.bits ≤ 255

planned-IsWithinRandomWriteLimits :
    (body : RandomWriteBody) (words dwords : List (DeviceAddr × ℕ)) (bits : BitWrites)
    → (length body.words ≤ 255) × (length body.dwords ≤ 255) × (length body.bits ≤ 255)
    → each (plan_entry words_need_word) body.words ≡ ok words
    → each (plan_entry dwords_need_word) body.dwords ≡ ok dwords
    → plan_bit_writes body.bits no_bit_writes ≡ ok bits
    → IsWithinRandomWriteLimits body (record { words = words; dwords = dwords; bit_writes = bits })
planned-IsWithinRandomWriteLimits body words dwords bits (few_w, few_d, few_b) w d b =
    let (word_ok, word_size) =
      each-All IsEntryAt (plan_entry words_need_word) (plan_entry-IsEntryAt words_need_word)
        body.words words w in
    let (dword_ok, dword_size) =
      each-All IsEntryAt (plan_entry dwords_need_word) (plan_entry-IsEntryAt dwords_need_word)
        body.dwords dwords d in
    let start : IsBitWrites 0 no_bit_writes = record {
      natives_ok = tt;
      word_bits_ok = tt;
      one_each = refl;
    } in
    let all_bits = plan_bit_writes-IsBitWrites body.bits 0 no_bit_writes bits start b in
    let (natives, word_bits) = plan_bit_writes-entries body.bits no_bit_writes bits b in
    let from_zero : 0 + length body.bits ≡ length body.bits = omega arith in
    record {
      words_ok = word_ok;
      few_words = omega arith;
      word_each = each-Sent words_need_word body.words words w;
      dwords_ok = dword_ok;
      few_dwords = omega arith;
      dword_each = each-Sent dwords_need_word body.dwords dwords d;
      bits_ok = rw from_zero at all_bits;
      native_each = natives;
      word_bit_each = word_bits;
      few_bits = few_b;
    }

-- A random write that passes the checks sends the PLC at most 255 words, 255 double words and 255
-- bits. Every entry of the body is sent, with its own value and under its own address, in the order of
-- the body: words and double words to word devices, a bit with a bit suffix to that bit, from 0 to
-- 15, of a word of a word device, and any other bit to a bit device. Nothing else is sent. The device
-- numbers fit an int64.
pub plan_random_write-IsWithinRandomWriteLimits :
    (readonly : Bool) (r : Request) (body : RandomWriteBody) (p : RandomWritePlan)
    → plan_random_write readonly r (decoded body) ≡ ok p
    → IsWithinRandomWriteLimits body p
unfolding plan_random_write decode_body
plan_random_write-IsWithinRandomWriteLimits readonly r body p e =
    elim (Result-cases (check_sizes (length body.words) (length body.dwords) (length body.bits))) [
      | inr (x, bad) ↦ absurd (ground arith)
      | inl (u, sizes) ↦ elim (Result-cases (each (plan_entry words_need_word) body.words)) [
        | inr (x, bad) ↦ absurd (ground arith)
        | inl (words, w) ↦ elim (Result-cases (each (plan_entry dwords_need_word) body.dwords)) [
          | inr (x, bad) ↦ absurd (ground arith)
          | inl (dwords, d) ↦ elim (Result-cases (plan_bit_writes body.bits no_bit_writes)) [
            | inr (x, bad) ↦ absurd (ground arith)
            | inl (bits, b) ↦
                let (few_w, few_d, few_b, _) =
                  check_sizes-le (length body.words) (length body.dwords) (length body.bits) u
                    sizes in
                let made : p ≡ record { words = words; dwords = dwords; bit_writes = bits } =
                  ground arith in
                rw made (
                  planned-IsWithinRandomWriteLimits body words dwords bits (few_w, few_d, few_b) w d
                    b)
          ]
        ]
      ]
    ]
