-- ===== src/Handler/RandomRead/Limits.antt =====
-- What a random read that passes the checks asks of the PLC.
use gomc_rest.Handler.RandomRead.Entries.{Named, Sourced, each-Named, plan_bits-Sources}
use gomc_rest.Common.{
  ℕ, suc, ◌+◌, ◌≤◌, ◌<◌, ◌^◌, ◌≡◌, refl, ap, arith, String, true, false, List, [], ◌∷◌, ◌++◌, All,
  length, length-append, leb, ok, Result-cases, Option-cases, Bool-cases, inl, inr,
}
use gomc_rest.Common.Text.{codes}
use gomc_rest.Device.{DeviceAddr, ParsedAddr, parse_addr, is_word_device}
use gomc_rest.Device.Bounds.{IsParsed, parse_addr-IsParsed}
use gomc_rest.Http.{Message, Request, word_only}
use gomc_rest.Http.Guards.{Guard}
use gomc_rest.Http.Json.{decoded, decode_body}
use gomc_rest.Queue.Ops.{max_random_bit_reads}
use gomc_rest.Handler.RandomRead.{
  RandomReadBody, native, folded, BitPlan, RandomReadPlan, read_addrs, each, parse_word_addr,
  add_bit, plan_bits, empty_bit_plan, check_sizes, plan_random_read,
}

pub each-All :
    {A B : Type 0} (P : B → Type 0) (f : A → Guard B) (good : (x : A) (b : B) → f x ≡ ok b → P b)
    (xs : List A) (bs : List B)
    → each f xs ≡ ok bs
    → All P bs × (length bs ≡ length xs)
unfolding each
each-All P f good [] bs e = let same : bs ≡ [] = ground arith in rw same (tt, refl)
each-All P f good (x ∷ xs) bs e = elim (Result-cases (f x)) [
  | inr (y, bad) ↦ absurd (ground arith)
  | inl (b, got) ↦ elim (Result-cases (each f xs)) [
    | inr (y, bad) ↦ absurd (ground arith)
    | inl (rest, more) ↦
        let same : bs ≡ b ∷ rest = ground arith in
        let (all_good, size) = each-All P f good xs rest more in
        rw same ((good x b got, all_good), ap suc size)
  ]
]

pub All-append :
    {A : Type 0} (P : A → Type 0) (xs ys : List A) → All P xs → All P ys → All P (xs ++ ys)
All-append P [] ys p q = q
All-append P (x ∷ xs) ys (p, ps) q = (p, All-append P xs ys ps q)

-- An address of a word, and of a bit device.
abbrev pub IsWordAddr : DeviceAddr → Type 0
IsWordAddr a = (is_word_device a.device ≡ true) × (a.addr < 2 ^ 63)

abbrev pub IsBitAddr : DeviceAddr → Type 0
IsBitAddr a = (is_word_device a.device ≡ false) × (a.addr < 2 ^ 63)

pub parse_word_addr-IsWordAddr :
    (msg : String → Message) (s : String) (a : DeviceAddr)
    → parse_word_addr msg s ≡ ok a
    → IsWordAddr a
unfolding parse_word_addr
parse_word_addr-IsWordAddr msg s a e = elim (Result-cases (parse_addr (codes s))) [
  | inr (x, bad) ↦ absurd (ground arith)
  | inl (pa, read) ↦
      let v = parse_addr-IsParsed (codes s) pa read in
      let range = v.range in
      elim (Bool-cases (is_word_device pa.device)) [
        | inr bit ↦ absurd (ground arith)
        | inl word ↦ let same : a ≡ pa.device_addr = ground arith in rw same (word, range)
      ]
]

-- The limits of the bit plan: `n` bits were asked for.
pub record IsBitPlan (n : ℕ) (p : BitPlan) : Type 0 where
  pub words_ok : All IsWordAddr p.word_addrs
  pub natives_ok : All IsBitAddr p.natives
  pub few_natives : length p.natives ≤ 16
  pub one_each : length p.word_addrs + length p.natives ≡ n

add_bit-IsBitPlan :
    (s : String) (pa : ParsedAddr) (n : ℕ) (p p' : BitPlan)
    → IsParsed pa
    → IsBitPlan n p
    → add_bit s pa p ≡ ok p'
    → IsBitPlan (suc n) p'
unfolding add_bit
add_bit-IsBitPlan s pa n p p' v i e = elim (Option-cases pa.bit) [
  | inl no_bit ↦ elim (Bool-cases (is_word_device pa.device)) [
    | inl word ↦ absurd (ground arith)
    | inr bit_device ↦ elim (Bool-cases (leb max_random_bit_reads (length p.natives))) [
      | inl full ↦ absurd (ground arith)
      | inr room ↦
          let made : p' ≡ record p {
            srcs = p.srcs ++ (native (length p.natives) ∷ []);
            natives = p.natives ++ (pa.device_addr ∷ []);
          } =
            ground arith in
          let size = length-append p.natives (pa.device_addr ∷ []) in
          let below = i.few_natives in
          let total = i.one_each in
          rw made (record {
            words_ok = i.words_ok;
            natives_ok =
                All-append IsBitAddr p.natives (pa.device_addr ∷ []) i.natives_ok
                  ((bit_device, v.range), tt);
            few_natives = ground (arith, size);
            one_each = omega (arith, size, total);
          })
    ]
  ]
  | inr (bit, with_bit) ↦
      let made : p' ≡ record p {
        srcs = p.srcs ++ (folded (length p.word_addrs) bit ∷ []);
        word_addrs = p.word_addrs ++ (pa.device_addr ∷ []);
      } =
        ground arith in
      let fits = rw with_bit at v.bit_fits in
      let size = length-append p.word_addrs (pa.device_addr ∷ []) in
      let total = i.one_each in
      rw made (record {
        words_ok =
            All-append IsWordAddr p.word_addrs (pa.device_addr ∷ []) i.words_ok
              ((fits.1, v.range), tt);
        natives_ok = i.natives_ok;
        few_natives = i.few_natives;
        one_each = omega (arith, size, total);
      })
]

plan_bits-IsBitPlan :
    (ss : List String) (n : ℕ) (p p' : BitPlan)
    → IsBitPlan n p
    → plan_bits ss p ≡ ok p'
    → IsBitPlan (n + length ss) p'
unfolding plan_bits
plan_bits-IsBitPlan [] n p p' i e =
    let same : p' ≡ p = ground arith in
    let none_more : n + 0 ≡ n = omega arith in rw (same, none_more) i
plan_bits-IsBitPlan (s ∷ ss) n p p' i e = elim (Result-cases (parse_addr (codes s))) [
  | inr (x, bad) ↦ absurd (ground arith)
  | inl (pa, read) ↦ elim (Result-cases (add_bit s pa p)) [
    | inr (x, bad) ↦ absurd (ground arith)
    | inl (next, added) ↦
        let v = parse_addr-IsParsed (codes s) pa read in
        let count : n + suc (length ss) ≡ suc n + length ss = omega arith in
        rw count (
          plan_bits-IsBitPlan ss (suc n) next p' (add_bit-IsBitPlan s pa n p next v i added)
            (ground arith))
  ]
]

pub record IsWithinRandomLimits (body : RandomReadBody) (p : RandomReadPlan) : Type 0 where
  pub words_ok : All IsWordAddr (read_addrs p)
  pub few_words : length (read_addrs p) ≤ 255
  pub dwords_ok : All IsWordAddr p.dword_addrs
  pub few_dwords : length p.dword_addrs ≤ 255
  pub natives_ok : All IsBitAddr p.bit_plan.natives
  pub few_natives : length p.bit_plan.natives ≤ 16
  pub word_each : Named body.words p.word_addrs
  pub dword_each : Named body.dwords p.dword_addrs
  pub bit_each : Sourced p.bit_plan.word_addrs p.bit_plan.natives body.bits p.bit_plan.srcs
  pub no_more : length p.bit_plan.word_addrs + length p.bit_plan.natives ≡ length body.bits

pub check_sizes-le :
    (w d b : ℕ) (u : Unit {0})
    → check_sizes w d b ≡ ok u
    → (w ≤ 255) × (d ≤ 255) × (b ≤ 255) × (1 ≤ w + d + b)
unfolding check_sizes
check_sizes-le w d b u e = ground arith

empty-IsBitPlan : IsBitPlan 0 empty_bit_plan
empty-IsBitPlan = record {
  words_ok = tt;
  natives_ok = tt;
  few_natives = omega arith;
  one_each = refl;
}

planned-IsWithinRandomLimits :
    (body : RandomReadBody) (words dwords : List DeviceAddr) (bits : BitPlan)
    → length body.dwords ≤ 255
    → each (parse_word_addr word_only) body.words ≡ ok words
    → each (parse_word_addr word_only) body.dwords ≡ ok dwords
    → plan_bits body.bits empty_bit_plan ≡ ok bits
    → length (words ++ bits.word_addrs) ≤ 255
    → IsWithinRandomLimits body
        (record { word_addrs = words; dword_addrs = dwords; bit_plan = bits })
planned-IsWithinRandomLimits body words dwords bits few w d b combined =
    let good = parse_word_addr-IsWordAddr word_only in
    let (word_ok, word_size) =
      each-All IsWordAddr (parse_word_addr word_only) good body.words words w in
    let (dword_ok, dword_size) =
      each-All IsWordAddr (parse_word_addr word_only) good body.dwords dwords d in
    let i = plan_bits-IsBitPlan body.bits 0 empty_bit_plan bits empty-IsBitPlan b in
    let total = i.one_each in
    let sources = plan_bits-Sources body.bits empty_bit_plan bits b in
    record {
      words_ok = All-append IsWordAddr words bits.word_addrs word_ok i.words_ok;
      few_words = combined;
      dwords_ok = dword_ok;
      few_dwords = omega arith;
      natives_ok = i.natives_ok;
      few_natives = i.few_natives;
      word_each = each-Named word_only body.words words w;
      dword_each = each-Named word_only body.dwords dwords d;
      bit_each = rw sources.srcs sources.sourced;
      no_more = omega (arith, total);
    }

-- A random read that passes the checks asks the PLC, in one call, for at most 255 words and 255
-- double words, all of word devices, and reads at most 16 bit devices one by one. Every entry of the
-- body is asked for under its own address: the words and the double words are those that the texts
-- name, in their order, and each bit is to be found as the text says, as the bit of a folded word or
-- as a bit device. No more words and bits are read than were asked for. The device numbers fit an
-- int64.
pub plan_random_read-IsWithinRandomLimits :
    (r : Request) (body : RandomReadBody) (p : RandomReadPlan)
    → plan_random_read r (decoded body) ≡ ok p
    → IsWithinRandomLimits body p
unfolding plan_random_read decode_body
plan_random_read-IsWithinRandomLimits r body p e =
    elim (Result-cases (check_sizes (length body.words) (length body.dwords) (length body.bits))) [
      | inr (x, bad) ↦ absurd (ground arith)
      | inl (u, sizes) ↦ elim (Result-cases (each (parse_word_addr word_only) body.words)) [
        | inr (x, bad) ↦ absurd (ground arith)
        | inl (words, w) ↦ elim (Result-cases (each (parse_word_addr word_only) body.dwords)) [
          | inr (x, bad) ↦ absurd (ground arith)
          | inl (dwords, d) ↦ elim (Result-cases (plan_bits body.bits empty_bit_plan)) [
            | inr (x, bad) ↦ absurd (ground arith)
            | inl (bits, b) ↦
                let (_, few, _, _) =
                  check_sizes-le (length body.words) (length body.dwords) (length body.bits) u
                    sizes in
                let made : p
                    ≡ record { word_addrs = words; dword_addrs = dwords; bit_plan = bits } =
                  ground arith in
                rw made
                  (planned-IsWithinRandomLimits body words dwords bits few w d b (ground arith))
          ]
        ]
      ]
    ]
