-- ===== src/Queue/Ops/ReadBack.antt =====
-- Bits of a word that are written over the API come back over it.
use gomc_rest.Common.{
  ℕ, ◌+◌, ◌^◌, ◌<◌, ◌≤◌, ◌≡◌, refl, ◌∙◌, Bool, List, ◌∷◌, length, drop, if◌then◌else◌, ok,
}
use gomc_rest.Device.{DeviceAddr}
use gomc_rest.Plc.{Net, PlcConfig}
use gomc_rest.Queue.Bits.{bits_from, put_bits}
use gomc_rest.Queue.Bits.Laws.{bits_from-put_bits}
use gomc_rest.Queue.Groups.{same_word}
use gomc_rest.Queue.Groups.Laws.{same_word_refl}
use gomc_rest.Queue.Ops.{read_word_bits_act, write_word_bits_act, first_word, return, ◌>>=◌}
use gomc_rest.Queue.Ops.InOrder.{Memory, after}

-- On a PLC that keeps what is written to it, writing bits of a 16-bit word and then reading the same
-- range both succeed and give the bits back, and no other word changes. The range lies inside the
-- word.
pub read_word_bits-write_word_bits :
    {C W : Type 0} (net : Net C W) (cfg : PlcConfig) (m : Memory net) (a : DeviceAddr) (bit : ℕ)
    (values : List Bool) (c : C) (w : W)
    → bit + length values ≤ 16
    → m.load w a < 2 ^ 16
    → (w' : W) × (write_word_bits_act net cfg a.device a.addr bit values c w ≡ (ok tt, w'))
      × (read_word_bits_act net cfg a.device a.addr bit (length values) c w' ≡ (ok values, w'))
      × ((b : DeviceAddr)
          → m.load w' b ≡ (if same_word a b then put_bits bit values (m.load w a) else m.load w b))
unfolding write_word_bits_act read_word_bits_act
read_word_bits-write_word_bits net cfg m a bit values c w inside narrow =
    let v = put_bits bit values (m.load w a) in
    let w' = m.store w a v in
    let now : m.load w' a ≡ v = m.load_store w a v a ∙ rw (same_word_refl a) refl in
    let (back, _, _) = bits_from-put_bits values bit (m.load w a) 0 inside narrow in
    (
      w',
      after (net.read_words c a.device a.addr 1)
            (λ words. first_word words >>= λ x.
              net.write_words c a.device a.addr (put_bits bit values x ∷ drop 1 words))
            (m.reads c a w)
          ∙ m.writes c a v w,
      after (net.read_words c a.device a.addr 1)
            (λ words. first_word words >>= λ x. return (bits_from x bit (length values)))
            (m.reads c a w')
          ∙ rw (now, back) refl,
      m.load_store w a v,
    )
