-- ===== src/Handler/RandomRead/Entries.antt =====
-- The addresses that a random read asks for are those of the entries of its body.
use gomc_rest.Queue.Work.Accepted.{get_elem-length, get_elem-append}
use mathlib.Core.List.{append-nil, append_assoc}
use gomc_rest.Common.{
  ◌⊎◌, ◌∙◌, sym, some, none, get_elem?, ℕ, ◌≡◌, refl, arith, String, List, [], ◌∷◌, ◌++◌, length,
  ok, Result-cases, Option-cases, inl, inr,
}
use gomc_rest.Common.Text.{codes}
use gomc_rest.Device.{DeviceAddr, ParsedAddr, parse_addr}
use gomc_rest.Http.{Message}
use gomc_rest.Handler.RandomRead.{
  BitSrc, native, folded, BitPlan, each, parse_word_addr, add_bit, plan_bits,
}

pub parse_word_addr-named :
    (msg : String → Message) (s : String) (a : DeviceAddr)
    → parse_word_addr msg s ≡ ok a
    → (pa : ParsedAddr) × (parse_addr (codes s) ≡ ok pa) × (pa.device_addr ≡ a) × (pa.bit ≡ none)
unfolding parse_word_addr
parse_word_addr-named msg s a e = elim (Result-cases (parse_addr (codes s))) [
  | inr (x, bad) ↦ absurd (ground arith)
  | inl (pa, read) ↦ elim (Option-cases pa.bit) [
    | inl no_bit ↦ (pa, read, ground arith, no_bit)
    | inr (bit, with_bit) ↦ absurd (ground arith)
  ]
]

-- The two ways to plan a bit.
add_bit_cases :
    (s : String) (pa : ParsedAddr) (p p' : BitPlan)
    → add_bit s pa p ≡ ok p'
    → ((pa.bit ≡ none)
        × (p' ≡ record p {
          srcs = p.srcs ++ (native (length p.natives) ∷ []);
          natives = p.natives ++ (pa.device_addr ∷ []);
        }))
      ⊎ ((bit : ℕ) × (pa.bit ≡ some bit)
          × (p' ≡ record p {
            srcs = p.srcs ++ (folded (length p.word_addrs) bit ∷ []);
            word_addrs = p.word_addrs ++ (pa.device_addr ∷ []);
          }))
unfolding add_bit
add_bit_cases s pa p p' e = elim (Option-cases pa.bit) [
  | inl no_bit ↦ inl (no_bit, ground arith)
  | inr (bit, with_bit) ↦ inr (bit, with_bit, ground arith)
]

-- The addresses are those of the texts, one for each, without a bit.
abbrev pub Named : List String → List DeviceAddr → Type 0
Named [] [] = Unit
Named (s ∷ ss) (a ∷ rest) =
    ((pa : ParsedAddr) × (parse_addr (codes s) ≡ ok pa) × (pa.device_addr ≡ a) × (pa.bit ≡ none))
    × Named ss rest
Named _ _ = ⊥

-- Where the bit that an address names is to be found: a native bit, or a bit of a folded word.
abbrev pub IsSource : List DeviceAddr → List DeviceAddr → ParsedAddr → BitSrc → Type 0
IsSource words natives pa (native i) = (get_elem? natives i ≡ some pa.device_addr) × (pa.bit ≡ none)
IsSource words natives pa (folded i offset) =
    (get_elem? words i ≡ some pa.device_addr) × (pa.bit ≡ some offset)

-- One source for each text, in the order of the texts.
abbrev pub Sourced : List DeviceAddr → List DeviceAddr → List String → List BitSrc → Type 0
Sourced words natives [] [] = Unit
Sourced words natives (s ∷ ss) (src ∷ srcs) =
    ((pa : ParsedAddr) × (parse_addr (codes s) ≡ ok pa) × IsSource words natives pa src)
    × Sourced words natives ss srcs
Sourced words natives _ _ = ⊥

pub each-Named :
    (msg : String → Message) (ss : List String) (addrs : List DeviceAddr)
    → each (parse_word_addr msg) ss ≡ ok addrs
    → Named ss addrs
unfolding each parse_word_addr
each-Named msg [] addrs e = let none_yet : addrs ≡ [] = ground arith in rw none_yet tt
each-Named msg (s ∷ ss) addrs e = elim (Result-cases (parse_word_addr msg s)) [
  | inr (x, bad) ↦ absurd (ground arith)
  | inl (a, got) ↦ elim (Result-cases (each (parse_word_addr msg) ss)) [
    | inr (x, bad) ↦ absurd (ground arith)
    | inl (rest, more) ↦
        let same : addrs ≡ a ∷ rest = ground arith in
        rw same (parse_word_addr-named msg s a got, each-Named msg ss rest more)
  ]
]

-- What planning some more bits makes of a plan: it keeps the addresses, and it appends the sources
-- of these bits.
pub record Sources (ss : List String) (p p' : BitPlan) : Type 0 where
  pub new : List BitSrc
  pub srcs : p'.srcs ≡ p.srcs ++ new
  pub sourced : Sourced p'.word_addrs p'.natives ss new
  more_words : List DeviceAddr
  words : p'.word_addrs ≡ p.word_addrs ++ more_words
  more_natives : List DeviceAddr
  natives : p'.natives ≡ p.natives ++ more_natives

get_elem-app :
    (xs ys zs : List DeviceAddr) (a : DeviceAddr)
    → zs ≡ (xs ++ a ∷ []) ++ ys
    → get_elem? zs (length xs) ≡ some a
get_elem-app xs ys zs a e =
    rw e (get_elem-append (xs ++ a ∷ []) ys (length xs) a (get_elem-length xs [] a))

pub plan_bits-Sources :
    (ss : List String) (p p' : BitPlan) → plan_bits ss p ≡ ok p' → Sources ss p p'
unfolding plan_bits
plan_bits-Sources [] p p' e =
    let same : p' ≡ p = ground arith in
    rw same (record {
      new = [];
      srcs = sym (append-nil p.srcs);
      sourced = tt;
      more_words = [];
      words = sym (append-nil p.word_addrs);
      more_natives = [];
      natives = sym (append-nil p.natives);
    })
plan_bits-Sources (s ∷ ss) p p' e = elim (Result-cases (parse_addr (codes s))) [
  | inr (x, bad) ↦ absurd (ground arith)
  | inl (pa, read) ↦ elim (Result-cases (add_bit s pa p)) [
    | inr (x, bad) ↦ absurd (ground arith)
    | inl (next, added) ↦
        let rest = plan_bits-Sources ss next p' (ground arith) in
        elim (add_bit_cases s pa p next added) [
          | inl (no_bit, made) ↦
              let natives = rest.natives ∙ rw made refl in
              record {
                new = native (length p.natives) ∷ rest.new;
                srcs =
                    rest.srcs
                    ∙ (rw made refl
                        ∙ append_assoc p.srcs (native (length p.natives) ∷ []) rest.new);
                sourced = (
                  (
                    pa,
                    read,
                    (
                      get_elem-app p.natives rest.more_natives p'.natives pa.device_addr natives,
                      no_bit,
                    ),
                  ),
                  rest.sourced,
                );
                more_words = rest.more_words;
                words = rest.words ∙ rw made refl;
                more_natives = pa.device_addr ∷ rest.more_natives;
                natives = natives ∙ append_assoc p.natives (pa.device_addr ∷ []) rest.more_natives;
              }
          | inr (bit, with_bit, made) ↦
              let words = rest.words ∙ rw made refl in
              record {
                new = folded (length p.word_addrs) bit ∷ rest.new;
                srcs =
                    rest.srcs
                    ∙ (rw made refl
                        ∙ append_assoc p.srcs (folded (length p.word_addrs) bit ∷ []) rest.new);
                sourced = (
                  (
                    pa,
                    read,
                    (
                      get_elem-app p.word_addrs rest.more_words p'.word_addrs pa.device_addr words,
                      with_bit,
                    ),
                  ),
                  rest.sourced,
                );
                more_words = pa.device_addr ∷ rest.more_words;
                words = words ∙ append_assoc p.word_addrs (pa.device_addr ∷ []) rest.more_words;
                more_natives = rest.more_natives;
                natives = rest.natives ∙ rw made refl;
              }
        ]
  ]
]
