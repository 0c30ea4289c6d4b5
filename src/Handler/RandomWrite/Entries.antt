-- ===== src/Handler/RandomWrite/Entries.antt =====
-- What a random write sends is the entries of its body, each with its own value.
use gomc_rest.Handler.RandomRead.Entries.{parse_word_addr-named}
use mathlib.Core.List.{append-nil, append_assoc}
use gomc_rest.Common.{
  ◌⊎◌, ◌∙◌, sym, some, none, err, ℕ, ◌≡◌, refl, arith, String, Bool, List, [], ◌∷◌, ◌++◌, ok,
  Result-cases, Option-cases, inl, inr,
}
use gomc_rest.Common.Text.{codes}
use gomc_rest.Device.{DeviceAddr, ParsedAddr, parse_addr}
use gomc_rest.Http.{Message}
use gomc_rest.Handler.RandomRead.{each, parse_word_addr}
use gomc_rest.Queue.Groups.{WordBitWrite}
use gomc_rest.Handler.RandomWrite.{
  word_bit, Entry, BitWrites, add_bit_write, plan_bit_writes, plan_entry,
}

-- Each entry is sent as its own value to the word that its own address names.
abbrev pub Sent : List (Entry ℕ) → List (DeviceAddr × ℕ) → Type 0
Sent [] [] = Unit
Sent (x ∷ xs) ((a, v) ∷ ps) =
    ((pa : ParsedAddr) × (parse_addr (codes x.addr) ≡ ok pa)
      × (pa.device_addr ≡ a)
      × (pa.bit ≡ none))
    × (x.value ≡ v)
    × Sent xs ps
Sent _ _ = ⊥

-- The bit devices that the entries name, each with its value.
abbrev pub natives_of : List (Entry Bool) → List (DeviceAddr × Bool)
natives_of [] = []
natives_of (x ∷ xs) = elim (parse_addr (codes x.addr)) [
  | err e ↦ natives_of xs
  | ok pa ↦ elim pa.bit [
    | none ↦ (pa.device_addr, x.value) ∷ natives_of xs
    | some bit ↦ natives_of xs
  ]
]

-- The bits of words that they name, each with its value.
abbrev pub word_bits_of : List (Entry Bool) → List WordBitWrite
word_bits_of [] = []
word_bits_of (x ∷ xs) = elim (parse_addr (codes x.addr)) [
  | err e ↦ word_bits_of xs
  | ok pa ↦ elim pa.bit [
    | none ↦ word_bits_of xs
    | some bit ↦
        (record { device = pa.device; addr = pa.addr; bit = bit; value = x.value })
        ∷ word_bits_of xs
  ]
]

pub each-Sent :
    (msg : String → Message) (xs : List (Entry ℕ)) (ps : List (DeviceAddr × ℕ))
    → each (plan_entry msg) xs ≡ ok ps
    → Sent xs ps
unfolding each plan_entry
each-Sent msg [] ps e = let none_yet : ps ≡ [] = ground arith in rw none_yet tt
each-Sent msg (x ∷ xs) ps e = elim (Result-cases (parse_word_addr msg x.addr)) [
  | inr (y, bad) ↦ absurd (ground arith)
  | inl (a, got) ↦ elim (Result-cases (each (plan_entry msg) xs)) [
    | inr (y, bad) ↦ absurd (ground arith)
    | inl (rest, more) ↦
        let same : ps ≡ (a, x.value) ∷ rest = ground arith in
        rw same (parse_word_addr-named msg x.addr a got, refl, each-Sent msg xs rest more)
  ]
]

-- The two ways to plan a bit.
add_bit_write_cases :
    (x : Entry Bool) (pa : ParsedAddr) (p p' : BitWrites)
    → add_bit_write x pa p ≡ ok p'
    → ((pa.bit ≡ none)
        × (p' ≡ record p { natives = p.natives ++ ((pa.device_addr, x.value) ∷ []) }))
      ⊎ ((bit : ℕ) × (pa.bit ≡ some bit)
          × (p' ≡ record p { word_bits = p.word_bits ++ (word_bit pa bit x.value ∷ []) }))
unfolding add_bit_write
add_bit_write_cases x pa p p' e = elim (Option-cases pa.bit) [
  | inl no_bit ↦ inl (no_bit, ground arith)
  | inr (bit, with_bit) ↦ inr (bit, with_bit, ground arith)
]

pub plan_bit_writes-entries :
    (xs : List (Entry Bool)) (p p' : BitWrites)
    → plan_bit_writes xs p ≡ ok p'
    → (p'.natives ≡ p.natives ++ natives_of xs) × (p'.word_bits ≡ p.word_bits ++ word_bits_of xs)
unfolding plan_bit_writes
plan_bit_writes-entries [] p p' e =
    let same : p' ≡ p = ground arith in
    rw same (sym (append-nil p.natives), sym (append-nil p.word_bits))
plan_bit_writes-entries (x ∷ xs) p p' e = elim (Result-cases (parse_addr (codes x.addr))) [
  | inr (y, bad) ↦ absurd (ground arith)
  | inl (pa, read) ↦ elim (Result-cases (add_bit_write x pa p)) [
    | inr (y, bad) ↦ absurd (ground arith)
    | inl (next, added) ↦
        let (natives, bits) = plan_bit_writes-entries xs next p' (ground arith) in
        elim (add_bit_write_cases x pa p next added) [
          | inl (no_bit, made) ↦
              rw (read, natives_of, word_bits_of)
                (rw no_bit (
                  (
                    natives
                        ∙ (rw made refl
                            ∙ append_assoc p.natives ((pa.device_addr, x.value) ∷ [])
                                (natives_of xs)),
                    bits ∙ rw made refl,
                  )))
          | inr (bit, with_bit, made) ↦
              rw (read, natives_of, word_bits_of)
                (rw with_bit (
                  (
                    natives ∙ rw made refl,
                    bits
                        ∙ (rw made refl
                            ∙ append_assoc p.word_bits (word_bit pa bit x.value ∷ [])
                                (word_bits_of xs)),
                  )))
        ]
  ]
]
