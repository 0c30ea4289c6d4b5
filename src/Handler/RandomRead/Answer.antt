-- ===== src/Handler/RandomRead/Answer.antt =====
-- The answer of `handleRandomRead` over a PLC that holds values.
use gomc_rest.Common.{
  ℕ, suc, ◌+◌, ◌≡◌, refl, ◌∙◌, Bool, some, List, [], ◌∷◌, map, length, ok, ltb, arith, true,
  length-map, ap, String, ◌++◌, err, Result-cases, inl, inr,
}
use gomc_rest.Device.{DeviceAddr, parse_addr}
use gomc_rest.Http.{Request, write_json, random_values, word_only}
use gomc_rest.Http.Json.{decoded, decode_body}
use gomc_rest.Plc.{Net, PlcConfig}
use gomc_rest.Queue.Exec.{Turn, served, PlcQueue}
use gomc_rest.Queue.Ops.{
  read_each_bit, read_random_words, random_read_act, random_read, return, first_bit, ◌>>=◌,
}
use gomc_rest.Queue.Labels.{Operation}
use gomc_rest.Queue.Ops.InOrder.{after}
use gomc_rest.Queue.Ops.Serving.{on_plc-served}
use gomc_rest.Handler.RandomRead.{
  RandomReadBody, RandomReadPlan, plan_random_read, read_addrs, handle_random_read, run_random_read,
  parse_word_addr, each, BitPlan, plan_bits, read_all_bits, random_response, empty_bit_plan,
}
use gomc_rest.Handler.RandomRead.Wiring.{
  bit_values, plan_bits-Serves, first_words-append, random_response-eq,
}
use mathlib.Core.List.{map-append}
use gomc_rest.Common.Text.{codes}

-- What an address without a bit names; an address that cannot be read names nothing.
abbrev pub values_at : (DeviceAddr → ℕ) → List String → List ℕ
values_at value_at [] = []
values_at value_at (s ∷ ss) = elim (parse_addr (codes s)) [
  | ok pa ↦ value_at pa.device_addr ∷ values_at value_at ss
  | err e ↦ values_at value_at ss
]

each-values :
    (value_at : DeviceAddr → ℕ) (ss : List String) (addrs : List DeviceAddr)
    → each (parse_word_addr word_only) ss ≡ ok addrs
    → map value_at addrs ≡ values_at value_at ss
unfolding each parse_word_addr
each-values value_at [] addrs e = let none_yet : addrs ≡ [] = ground arith in rw none_yet refl
each-values value_at (s ∷ ss) addrs e = elim (Result-cases (parse_addr (codes s))) [
  | inr (x, bad) ↦ absurd (ground arith)
  | inl (pa, read) ↦ elim (Result-cases (each (parse_word_addr word_only) ss)) [
    | inr (x, bad) ↦ absurd (ground arith)
    | inl (rest, more) ↦
        let same : addrs ≡ pa.device_addr ∷ rest = ground arith in
        rw same (
          rw (read, values_at)
            (ap (λ vs. value_at pa.device_addr ∷ vs) (each-values value_at ss rest more)))
  ]
]

response-values :
    (word_at : DeviceAddr → ℕ) (native_at : DeviceAddr → Bool) (bits : List String)
    (words dwords : List DeviceAddr) (dword_vals : List ℕ) (p : BitPlan)
    → plan_bits bits empty_bit_plan ≡ ok p
    → random_response
        (record { word_addrs = words; dword_addrs = dwords; bit_plan = p })
        (map word_at (words ++ p.word_addrs), dword_vals, map native_at p.natives)
      ≡ write_json 200
          (random_values (map word_at words) dword_vals (bit_values word_at native_at bits))
response-values word_at native_at bits words dwords dword_vals p e =
    let size = length-map word_at words in
    let served =
      plan_bits-Serves word_at native_at (map word_at words) bits empty_bit_plan p []
        (unfold read_all_bits in refl) e in
    let first = first_words-append (map word_at words) (map word_at p.word_addrs) in
    rw (map-append word_at words p.word_addrs) (
      random_response-eq (record { word_addrs = words; dword_addrs = dwords; bit_plan = p })
        (map word_at words ++ map word_at p.word_addrs) dword_vals (map word_at words)
        (map native_at p.natives) (bit_values word_at native_at bits) (rw size at first)
        (rw size at served))

-- The plan of a body that passes the checks.
plan_random_read-parts :
    (r : Request) (body : RandomReadBody) (p : RandomReadPlan)
    → plan_random_read r (decoded body) ≡ ok p
    → (each (parse_word_addr word_only) body.words ≡ ok p.word_addrs)
      × (each (parse_word_addr word_only) body.dwords ≡ ok p.dword_addrs)
      × (plan_bits body.bits empty_bit_plan ≡ ok p.bit_plan)
unfolding plan_random_read decode_body
plan_random_read-parts r body p e =
    elim (Result-cases (each (parse_word_addr word_only) body.words)) [
      | inr (x, bad) ↦ absurd (ground arith)
      | inl (words, w) ↦ elim (Result-cases (each (parse_word_addr word_only) body.dwords)) [
        | inr (x, bad) ↦ absurd (ground arith)
        | inl (dwords, d) ↦ elim (Result-cases (plan_bits body.bits empty_bit_plan)) [
          | inr (x, bad) ↦ absurd (ground arith)
          | inl (bits, b) ↦
              let made : p ≡ record { word_addrs = words; dword_addrs = dwords; bit_plan = bits } =
                ground arith in
              rw made (w, d, b)
        ]
      ]
    ]

-- The answer, from what the operation ended with.
handle_random_read-answer :
    {C W : Type 0} (net : Net C W) (cfg : PlcConfig) (word_at dword_at : DeviceAddr → ℕ)
    (native_at : DeviceAddr → Bool) (r : Request) (body : RandomReadBody) (p : RandomReadPlan)
    (turn : Turn) (q : PlcQueue C W)
    → plan_random_read r (decoded body) ≡ ok p
    → (random_read net cfg turn (read_addrs p) p.dword_addrs p.bit_plan.natives q).0
      ≡ ok
          (map word_at (read_addrs p), map dword_at p.dword_addrs, map native_at p.bit_plan.natives)
    → (handle_random_read net cfg r (decoded body) turn q).0
      ≡ write_json 200 (
          random_values
            (values_at word_at body.words)
            (values_at dword_at body.dwords)
            (bit_values word_at native_at body.bits))
unfolding handle_random_read run_random_read
handle_random_read-answer net cfg word_at dword_at native_at r body p turn q planned held =
    let (w, d, b) = plan_random_read-parts r body p planned in
    let words = each-values word_at body.words p.word_addrs w in
    let dwords = each-values dword_at body.dwords p.dword_addrs d in
    rw (planned, handle_random_read)
      (rw (held, run_random_read)
        (response-values word_at native_at body.bits p.word_addrs p.dword_addrs
            (map dword_at p.dword_addrs) p.bit_plan b
          ∙ rw (words, dwords) refl))

-- A PLC that holds these values and answers each read with them.
pub record Holds {C W : Type 0} (net : Net C W) (word_at dword_at : DeviceAddr → ℕ)
    (native_at : DeviceAddr → Bool) : Type 0 where
  pub random :
      (c : C) (words dwords : List DeviceAddr) (w : W)
      → (w' : W) × (net.random_read c words dwords w
          ≡ (ok (map word_at words, map dword_at dwords), w'))
  pub bit :
      (c : C) (a : DeviceAddr) (w : W)
      → (w' : W) × (net.read_bits c a.device a.addr 1 w ≡ (ok (native_at a ∷ []), w'))

module _ {C W : Type 0} (net : Net C W) (cfg : PlcConfig) (word_at dword_at : DeviceAddr → ℕ)
    (native_at : DeviceAddr → Bool) (h : Holds net word_at dword_at native_at) where
  read_each_bit-held :
      (bs : List DeviceAddr) (c : C) (w : W)
      → (w' : W) × (read_each_bit net cfg bs c w ≡ (ok (map native_at bs), w'))
  unfolding read_each_bit
  read_each_bit-held [] c w = (w, refl)
  read_each_bit-held (b ∷ bs) c w =
      let (w1, first) = h.bit c b w in
      let (w2, more) = read_each_bit-held bs c w1 in
      (
        w2,
        after (net.read_bits c b.device b.addr 1)
              (λ vals. read_each_bit net cfg bs c >>= λ rest. return (first_bit vals ∷ rest)) first
            ∙ after (read_each_bit net cfg bs c)
                (λ rest. return (first_bit (native_at b ∷ []) ∷ rest)) more,
      )

  read_random_words-held :
      (words dwords : List DeviceAddr) (c : C) (w : W)
      → (w' : W) × (read_random_words net cfg words dwords c w
          ≡ (ok (map word_at words, map dword_at dwords), w'))
  unfolding read_random_words
  read_random_words-held [] [] c w = (w, refl)
  read_random_words-held [] (d ∷ dwords) c w =
      let some_asked : ltb 0 (0 + suc (length dwords)) ≡ true = ground arith in
      rw some_asked (h.random c [] (d ∷ dwords) w)
  read_random_words-held (a ∷ words) dwords c w =
      let some_asked : ltb 0 (suc (length words) + length dwords) ≡ true = ground arith in
      rw some_asked (h.random c (a ∷ words) dwords w)

  random_read_act-held :
      (words dwords bits : List DeviceAddr) (c : C) (w : W)
      → (w' : W) × (random_read_act net cfg words dwords bits c w
          ≡ (ok (map word_at words, map dword_at dwords, map native_at bits), w'))
  unfolding random_read_act
  random_read_act-held words dwords bits c w =
      let (w1, found) = read_random_words-held words dwords c w in
      let (w2, values) = read_each_bit-held bits c w1 in
      (
        w2,
        after (read_random_words net cfg words dwords c)
              (λ vs. read_each_bit net cfg bits c >>= λ bs. return (vs.0, vs.1, bs)) found
            ∙ after (read_each_bit net cfg bits c)
                (λ bs. return (map word_at words, map dword_at dwords, bs)) values,
      )

  random_read-held :
      (words dwords bits : List DeviceAddr) (turn : Turn) (q : PlcQueue C W) (c : C)
      → turn.fate ≡ served
      → q.plc.conn ≡ some c
      → (random_read net cfg turn words dwords bits q).0
        ≡ ok (map word_at words, map dword_at dwords, map native_at bits)
  unfolding random_read
  random_read-held words dwords bits turn q c waits live =
      let (w', done) = random_read_act-held words dwords bits c q.plc.env.world in
      on_plc-served net cfg Operation.random_read turn (random_read_act net cfg words dwords bits) q
        c waits live done

  -- `handleRandomRead` answers every entry of the body with what its own address names, in the order
  -- of the body: the word of each address of `words`, the double word of each of `dwords`, and for
  -- each of `bits` the bit of the word if it has a bit suffix, else the native bit. This is on a PLC
  -- that holds these values, over an open connection, for a body that passes the checks and a caller
  -- that waits for its result.
  pub handle_random_read-wiring :
      (r : Request) (body : RandomReadBody) (p : RandomReadPlan) (turn : Turn) (q : PlcQueue C W)
      (c : C)
      → plan_random_read r (decoded body) ≡ ok p
      → turn.fate ≡ served
      → q.plc.conn ≡ some c
      → (handle_random_read net cfg r (decoded body) turn q).0
        ≡ write_json 200 (
            random_values
              (values_at word_at body.words)
              (values_at dword_at body.dwords)
              (bit_values word_at native_at body.bits))
  handle_random_read-wiring r body p turn q c planned waits live =
      handle_random_read-answer net cfg word_at dword_at native_at r body p turn q planned
        (random_read-held (read_addrs p) p.dword_addrs p.bit_plan.natives turn q c waits live)
