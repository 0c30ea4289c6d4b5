-- ===== src/Queue/Ops/InOrder.antt =====
-- The bit writes of a random write, on a PLC that keeps what is written to it.
use gomc_rest.Common.{
  ℕ, ◌≡◌, refl, ◌∙◌, ap, List, [], ◌∷◌, drop, if◌then◌else◌, Bool-cases, inl, inr, Result, ok, err,
}
use gomc_rest.Failure.{Error}
use gomc_rest.Device.{DeviceAddr}
use gomc_rest.Plc.{Act, Net, PlcConfig}
use gomc_rest.Queue.Groups.{WordBitWrite, same_word, Groups, group_writes, apply_writes}
use gomc_rest.Queue.Groups.Laws.{
  writes_to, held, held-group_writes, apply_writes-append, same_word-≡,
}
use gomc_rest.Queue.Ops.{write_groups, write_word_bits_grouped, ◌>>=◌, ◌>>◌, first_word}

-- A PLC whose words can be read and written one by one: each access succeeds, a read changes nothing
-- and a write changes its word only.
pub record Memory {C W : Type 0} (net : Net C W) : Type 0 where
  pub load : W → DeviceAddr → ℕ
  pub store : W → DeviceAddr → ℕ → W
  pub reads :
      (c : C) (a : DeviceAddr) (w : W)
      → net.read_words c a.device a.addr 1 w ≡ (ok (load w a ∷ []), w)
  pub writes :
      (c : C) (a : DeviceAddr) (v : ℕ) (w : W)
      → net.write_words c a.device a.addr (v ∷ []) w ≡ (ok tt, store w a v)
  pub load_store :
      (w : W) (a : DeviceAddr) (v : ℕ) (b : DeviceAddr)
      → load (store w a v) b ≡ (if same_word a b then v else load w b)

-- What comes after an action.
abbrev pub carry : {W A B : Type 0} → (A → Act W B) → Result Error A × W → Result Error B × W
carry f p = elim (p.0) [ ok a ↦ f a (p.1) | err e ↦ (err e, p.1) ]

-- An action that succeeds hands over to the next.
pub after :
    {W A B : Type 0} (act : Act W A) (f : A → Act W B) {a : A} {w w' : W}
    → act w ≡ (ok a, w')
    → (act >>= f) w ≡ f a w'
after act f e = ap (carry f) e

module _ {C W : Type 0} (net : Net C W) (cfg : PlcConfig) (m : Memory net) where
  -- What `write_groups` does with the word that it read.
  abbrev write_group : DeviceAddr → List WordBitWrite → Groups → C → List ℕ → Act W (Unit {0})
  write_group k wbs gs c words = do
    w ← first_word words
    net.write_words c k.device k.addr (apply_writes wbs w ∷ drop 1 words)
    write_groups net cfg gs c

  write_groups-held :
      (gs : Groups) (c : C) (w : W)
      → (w' : W) × (write_groups net cfg gs c w ≡ (ok tt, w'))
        × ((a : DeviceAddr) → m.load w' a ≡ apply_writes (held a gs) (m.load w a))
  unfolding write_groups
  write_groups-held [] c w = (w, refl, λ a. unfold apply_writes in refl)
  write_groups-held ((k, wbs) ∷ gs) c w =
      let v = apply_writes wbs (m.load w k) in
      let (w', done, kept) = write_groups-held gs c (m.store w k v) in
      (
        w',
        after (net.read_words c k.device k.addr 1) (write_group k wbs gs c) (m.reads c k w)
            ∙ after (net.write_words c k.device k.addr (v ∷ [])) (λ _. write_groups net cfg gs c)
                (m.writes c k v w)
            ∙ done,
        λ a.
            kept a
            ∙ rw (m.load_store w k v a) (elim (Bool-cases (same_word k a)) [
              | inl hit ↦
                  rw (hit, apply_writes-append wbs (held a gs) (m.load w a))
                    (ap (λ t. apply_writes (held a gs) (apply_writes wbs (m.load w t)))
                      (same_word-≡ k a hit))
              | inr miss ↦ rw miss refl
            ]),
      )

-- Grouping the bit writes of a request by their words does what they would do one after the other,
-- in the order of the request: the writes succeed, and then every word holds what the request's
-- writes to it make of its old value; a word that none falls in is as it was. The PLC keeps what is
-- written to it.
pub write_word_bits_grouped-in_order :
    {C W : Type 0} (net : Net C W) (cfg : PlcConfig) (m : Memory net) (wbs : List WordBitWrite)
    (c : C) (w : W)
    → (w' : W) × (write_word_bits_grouped net cfg wbs c w ≡ (ok tt, w'))
      × ((a : DeviceAddr) → m.load w' a ≡ apply_writes (writes_to a wbs) (m.load w a))
unfolding write_word_bits_grouped
write_word_bits_grouped-in_order net cfg m wbs c w =
    let (w', done, kept) = write_groups-held net cfg m (group_writes wbs) c w in
    (w', done, λ a. kept a ∙ ap (λ t. apply_writes t (m.load w a)) (held-group_writes a wbs))
