-- ===== src/Handler/RandomRead/Wiring.antt =====
-- Every bit of a random read comes from the address that asked for it.
use mathlib.Core.List.{append_assoc, append-nil, map-append}
use gomc_rest.Common.{
  length-map, length-append, ℕ, zero, suc, ◌+◌, ◌≡◌, refl, sym, ap, ◌∙◌, arith, String, Bool, none,
  some, List, [], ◌∷◌, ◌++◌, map, length, get_elem?, leb, ok, err, Result-cases, Option-cases,
  Bool-cases, inl, inr,
}
use gomc_rest.Common.Text.{codes}
use gomc_rest.Word.{bit_at}
use gomc_rest.Device.{DeviceAddr, ParsedAddr, parse_addr, is_word_device}
use gomc_rest.Http.{random_values, write_json}
use gomc_rest.Handler.RandomRead.{
  BitSrc, native, folded, BitPlan, RandomReadPlan, add_bit, plan_bits, read_bit, read_all_bits,
  first_words, random_response,
}
use gomc_rest.Queue.Ops.{max_random_bit_reads}

get_elem?-append :
    {A : Type 0} (xs ys : List A) (i : ℕ) (v : A)
    → get_elem? xs i ≡ some v
    → get_elem? (xs ++ ys) i ≡ some v
get_elem?-append [] ys i v e = absurd (ground arith)
get_elem?-append (x ∷ xs) ys zero v e = e
get_elem?-append (x ∷ xs) ys (suc i) v e = get_elem?-append xs ys i v e

get_elem?-length :
    {A : Type 0} (xs : List A) (v : A) → get_elem? (xs ++ (v ∷ [])) (length xs) ≡ some v
get_elem?-length [] v = refl
get_elem?-length (x ∷ xs) v = get_elem?-length xs v

-- More results do not change what was found.
read_bit-grow :
    (n : ℕ) (ws ws' : List ℕ) (ns ns' : List Bool) (src : BitSrc) (v : Bool)
    → read_bit n ws ns src ≡ some v
    → read_bit n (ws ++ ws') (ns ++ ns') src ≡ some v
unfolding read_bit
read_bit-grow n ws ws' ns ns' (native i) v e = get_elem?-append ns ns' i v e
read_bit-grow n ws ws' ns ns' (folded i offset) v e = elim (Option-cases (get_elem? ws (n + i))) [
  | inl gone ↦ absurd (ground arith)
  | inr (w, found) ↦ let grown = get_elem?-append ws ws' (n + i) w found in ground arith
]

read_all_bits-grow :
    (n : ℕ) (ws ws' : List ℕ) (ns ns' : List Bool) (srcs : List BitSrc) (vs : List Bool)
    → read_all_bits n ws ns srcs ≡ some vs
    → read_all_bits n (ws ++ ws') (ns ++ ns') srcs ≡ some vs
unfolding read_all_bits
read_all_bits-grow n ws ws' ns ns' [] vs e = e
read_all_bits-grow n ws ws' ns ns' (src ∷ srcs) vs e = elim (Option-cases (read_bit n ws ns src)) [
  | inl gone ↦ absurd (ground arith)
  | inr (v, found) ↦ elim (Option-cases (read_all_bits n ws ns srcs)) [
    | inl gone ↦ absurd (ground arith)
    | inr (rest, more) ↦
        let first = read_bit-grow n ws ws' ns ns' src v found in
        let others = read_all_bits-grow n ws ws' ns ns' srcs rest more in ground arith
  ]
]

read_all_bits-append :
    (n : ℕ) (ws : List ℕ) (ns : List Bool) (srcs : List BitSrc) (src : BitSrc) (vs : List Bool)
    (v : Bool)
    → read_all_bits n ws ns srcs ≡ some vs
    → read_bit n ws ns src ≡ some v
    → read_all_bits n ws ns (srcs ++ (src ∷ [])) ≡ some (vs ++ (v ∷ []))
unfolding read_all_bits
read_all_bits-append n ws ns [] src vs v e found =
    let none_yet : vs ≡ [] = ground arith in rw none_yet (ground arith)
read_all_bits-append n ws ns (s ∷ srcs) src vs v e found =
    elim (Option-cases (read_bit n ws ns s)) [
      | inl gone ↦ absurd (ground arith)
      | inr (u, first) ↦ elim (Option-cases (read_all_bits n ws ns srcs)) [
        | inl gone ↦ absurd (ground arith)
        | inr (rest, more) ↦
            let same : vs ≡ u ∷ rest = ground arith in
            let others = read_all_bits-append n ws ns srcs src rest v more found in
            rw same (ground arith)
      ]
    ]

pub first_words-append : (xs ys : List ℕ) → first_words (length xs) (xs ++ ys) ≡ some xs
unfolding first_words
first_words-append [] ys = refl
first_words-append (x ∷ xs) ys = rw (first_words-append xs ys) refl

read_bit-folded :
    (n : ℕ) (ws : List ℕ) (ns : List Bool) (i offset w : ℕ)
    → get_elem? ws (n + i) ≡ some w
    → read_bit n ws ns (folded i offset) ≡ some (bit_at w offset)
unfolding read_bit
read_bit-folded n ws ns i offset w found = ground arith

-- What the PLC holds: its words and its native bits.
module _ (word_at : DeviceAddr → ℕ) (native_at : DeviceAddr → Bool) where
  -- The bit that an address names.
  abbrev pub bit_value : ParsedAddr → Bool
  bit_value pa = elim pa.bit [
    | some offset ↦ bit_at (word_at pa.device_addr) offset
    | none ↦ native_at pa.device_addr
  ]

  -- The bits that the addresses of a request name; an address that cannot be read names none.
  abbrev pub bit_values : List String → List Bool
  bit_values [] = []
  bit_values (s ∷ ss) = elim (parse_addr (codes s)) [
    | ok pa ↦ bit_value pa ∷ bit_values ss
    | err e ↦ bit_values ss
  ]

  -- The results that belong to a plan yield the values.
  abbrev pub Serves : List ℕ → BitPlan → List Bool → Type 0
  Serves words p vs =
      read_all_bits (length words) (words ++ map word_at p.word_addrs) (map native_at p.natives)
        p.srcs
      ≡ some vs

  Serves-folded :
      (words : List ℕ) (p : BitPlan) (vs : List Bool) (a : DeviceAddr) (offset : ℕ)
      → Serves words p vs
      → Serves words
          (record p {
            srcs = p.srcs ++ (folded (length p.word_addrs) offset ∷ []);
            word_addrs = p.word_addrs ++ (a ∷ []);
          })
          (vs ++ (bit_at (word_at a) offset ∷ []))
  Serves-folded words p vs a offset served =
      let before = words ++ map word_at p.word_addrs in
      let natives = map native_at p.natives in
      let layout : words ++ map word_at (p.word_addrs ++ (a ∷ [])) ≡ before ++ (word_at a ∷ []) =
        ap (λ t. words ++ t) (map-append word_at p.word_addrs (a ∷ []))
        ∙ sym (append_assoc words (map word_at p.word_addrs) (word_at a ∷ [])) in
      let size : length before ≡ length words + length p.word_addrs =
        omega (
          arith,
          length-append words (map word_at p.word_addrs),
          length-map word_at p.word_addrs,
        ) in
      let found = rw size at (get_elem?-length before (word_at a)) in
      let grown =
        read_all_bits-grow (length words) before (word_at a ∷ []) natives [] p.srcs vs served in
      rw layout (
        read_all_bits-append (length words) (before ++ (word_at a ∷ [])) natives p.srcs
          (folded (length p.word_addrs) offset) vs (bit_at (word_at a) offset)
          (rw (append-nil natives) at grown)
          (read_bit-folded (length words) (before ++ (word_at a ∷ [])) natives (length p.word_addrs)
            offset (word_at a) found))

  Serves-native :
      (words : List ℕ) (p : BitPlan) (vs : List Bool) (a : DeviceAddr)
      → Serves words p vs
      → Serves words
          (record p {
            srcs = p.srcs ++ (native (length p.natives) ∷ []);
            natives = p.natives ++ (a ∷ []);
          })
          (vs ++ (native_at a ∷ []))
  Serves-native words p vs a served =
      let before = words ++ map word_at p.word_addrs in
      let natives = map native_at p.natives in
      let found = rw (length-map native_at p.natives) at (get_elem?-length natives (native_at a)) in
      let grown =
        read_all_bits-grow (length words) before [] natives (native_at a ∷ []) p.srcs vs served in
      rw (map-append native_at p.natives (a ∷ [])) (
        read_all_bits-append (length words) before (natives ++ (native_at a ∷ [])) p.srcs
          (native (length p.natives)) vs (native_at a) (rw (append-nil before) at grown)
          (unfold read_bit in found))

  add_bit-Serves :
      (words : List ℕ) (s : String) (pa : ParsedAddr) (p p' : BitPlan) (vs : List Bool)
      → Serves words p vs
      → add_bit s pa p ≡ ok p'
      → Serves words p' (vs ++ (bit_value pa ∷ []))
  unfolding add_bit
  add_bit-Serves words s pa p p' vs served e = elim (Option-cases pa.bit) [
    | inl no_bit ↦ elim (Bool-cases (is_word_device pa.device)) [
      | inl word ↦ absurd (ground arith)
      | inr bit ↦ elim (Bool-cases (leb max_random_bit_reads (length p.natives))) [
        | inl full ↦ absurd (ground arith)
        | inr room ↦
            let made : p' ≡ record p {
              srcs = p.srcs ++ (native (length p.natives) ∷ []);
              natives = p.natives ++ (pa.device_addr ∷ []);
            } =
              ground arith in
            rw (made, no_bit) (Serves-native words p vs pa.device_addr served)
      ]
    ]
    | inr (offset, with_bit) ↦
        let made : p' ≡ record p {
          srcs = p.srcs ++ (folded (length p.word_addrs) offset ∷ []);
          word_addrs = p.word_addrs ++ (pa.device_addr ∷ []);
        } =
          ground arith in
        rw (made, with_bit) (Serves-folded words p vs pa.device_addr offset served)
  ]

  pub plan_bits-Serves :
      (words : List ℕ) (ss : List String) (p p' : BitPlan) (vs : List Bool)
      → Serves words p vs
      → plan_bits ss p ≡ ok p'
      → Serves words p' (vs ++ bit_values ss)
  unfolding plan_bits
  plan_bits-Serves words [] p p' vs served e =
      let same : p' ≡ p = ground arith in rw (same, append-nil vs) served
  plan_bits-Serves words (s ∷ ss) p p' vs served e = elim (Result-cases (parse_addr (codes s))) [
    | inr (x, bad) ↦ absurd (ground arith)
    | inl (pa, read) ↦ elim (Result-cases (add_bit s pa p)) [
      | inr (x, bad) ↦ absurd (ground arith)
      | inl (next, added) ↦
          let more =
            plan_bits-Serves words ss next p' (vs ++ (bit_value pa ∷ []))
              (add_bit-Serves words s pa p next vs served added) (ground arith) in
          rw (read, bit_values) (rw (append_assoc vs (bit_value pa ∷ []) (bit_values ss)) at more)
    ]
  ]

pub random_response-eq :
    (p : RandomReadPlan) (word_vals dword_vals ws : List ℕ) (native_vals bs : List Bool)
    → first_words (length p.word_addrs) word_vals ≡ some ws
    → read_all_bits (length p.word_addrs) word_vals native_vals p.bit_plan.srcs ≡ some bs
    → random_response p (word_vals, dword_vals, native_vals)
      ≡ write_json 200 (random_values ws dword_vals bs)
unfolding random_response
random_response-eq p word_vals dword_vals ws native_vals bs first others = ground arith
