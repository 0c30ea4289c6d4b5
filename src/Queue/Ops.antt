-- ===== src/Queue/Ops.antt =====
-- queue.go: the operations of `PLCQueue`. Each runs one job that acts on the connection, and leaves
-- the time of its PLC traffic in the request's latency cell and its name and error in the log.
pub mod InOrder
pub mod ReadBack
pub mod Serving
pub mod Labels
pub mod Reading
pub mod Reporting
pub mod Sound
use gomc_rest.Queue.Labels.{k_word, word_bit, range, Operation}
use gomc_rest.Common.{
  ℕ, ◌+◌, ◌-◌, ◌*◌, Bool, false, List, [], ◌∷◌, length, drop, ltb, if◌then◌else◌, Result, ok, err,
}
use gomc_rest.Common.Text.{Text}
use gomc_rest.Device.{DeviceAddr}
use gomc_rest.Failure.{Error, crash}
use gomc_rest.Plc.{
  Act, Net, PlcConfig, Env, write_plc_latency, do_plc, do_reset, initial_connect, is_connected,
  close_plc,
}
use gomc_rest.Queue.Bits.{bits_from, put_bits, pack_bits}
use gomc_rest.Queue.Groups.{WordBitWrite, Groups, group_writes, apply_writes}
use gomc_rest.Queue.Exec.{log_op, Turn, PlcQueue, exec}

abbrev pub max_random_count : ℕ
max_random_count = 255

abbrev pub max_random_bit_reads : ℕ
max_random_bit_reads = 16

-- Actions in a row: an error ends the rest.
infixl 5 ◌>>=◌ ◌>>◌
abbrev pub ◌>>=◌ : {W A B : Type 0} → Act W A → (A → Act W B) → Act W B
◌>>=◌ m f w = let (r, w') = m w in elim r [ ok a ↦ f a w' | err e ↦ (err e, w') ]

abbrev pub ◌>>◌ : {W B : Type 0} → Act W (Unit {0}) → Act W B → Act W B
m >> k = m >>= λ _. k

abbrev pub return : {W A : Type 0} → A → Act W A
return a w = (ok a, w)

-- `words[0]`: the library returned as many words as were asked for, or the index panics.
abbrev pub first_word : {W : Type 0} → List ℕ → Act W ℕ
first_word [] w = (err crash, w)
first_word (x ∷ xs) w = (ok x, w)

abbrev pub first_bit : List Bool → Bool
first_bit [] = false
first_bit (b ∷ bs) = b

module _ {C W : Type 0} (net : Net C W) (cfg : PlcConfig) where
  -- The action, with its time in the latency cell.
  timed : {A : Type 0} → (C → Act W A) → C → Env W → Result Error A × Env W
  unfolding write_plc_latency
  timed act c e =
      let (r, w) = act c e.world in
      (r, write_plc_latency (net.clock w - net.clock e.world) (record e { world = w }))

  -- `q.exec` of one job of `q.plc.do`, and its line in the log.
  unfoldable pub on_plc :
      {A : Type 0} → Operation → Turn → (C → Act W A) → PlcQueue C W → Result Error A × PlcQueue C W
  unfolding timed
  on_plc op turn act q = log_op op (exec turn (do_plc net cfg (timed act)) q)

  unfoldable pub initial_connect_queue : PlcQueue C W → PlcQueue C W
  initial_connect_queue q = record q { plc = initial_connect net cfg q.plc }

  unfoldable pub is_connected_queue : PlcQueue C W → Bool
  is_connected_queue q = is_connected net cfg q.plc

  unfoldable pub close_queue : PlcQueue C W → PlcQueue C W
  close_queue q = record q { plc = close_plc net cfg q.plc }

  unfoldable pub read_words :
      Turn → Text → ℕ → ℕ → PlcQueue C W → Result Error (List ℕ) × PlcQueue C W
  read_words turn device start count =
      on_plc (range device start) turn λ c. net.read_words c device start count

  unfoldable pub read_bits :
      Turn → Text → ℕ → ℕ → PlcQueue C W → Result Error (List Bool) × PlcQueue C W
  read_bits turn device start count =
      on_plc (range device start) turn λ c. net.read_bits c device start count

  unfoldable pub write_words :
      Turn → Text → ℕ → List ℕ → PlcQueue C W → Result Error (Unit {0}) × PlcQueue C W
  write_words turn device start values =
      on_plc (range device start) turn λ c. net.write_words c device start values

  unfoldable pub write_bits :
      Turn → Text → ℕ → List Bool → PlcQueue C W → Result Error (Unit {0}) × PlcQueue C W
  write_bits turn device start values =
      on_plc (range device start) turn λ c. net.write_bits c device start values

  unfoldable pub read_word_bits_act : Text → ℕ → ℕ → ℕ → C → Act W (List Bool)
  read_word_bits_act device addr bit count c = do
    words ← net.read_words c device addr 1
    w ← first_word words
    return (bits_from w bit count)

  unfoldable pub read_word_bits :
      Turn → Text → ℕ → ℕ → ℕ → PlcQueue C W → Result Error (List Bool) × PlcQueue C W
  unfolding read_word_bits_act
  read_word_bits turn device addr bit count =
      on_plc (word_bit device addr bit) turn (read_word_bits_act device addr bit count)

  -- The word that was read is changed in place, and the words go back. (There is a value at least.)
  unfoldable pub write_word_bits_act : Text → ℕ → ℕ → List Bool → C → Act W (Unit {0})
  write_word_bits_act device addr bit values c = do
    words ← net.read_words c device addr 1
    w ← first_word words
    net.write_words c device addr (put_bits bit values w ∷ drop 1 words)

  unfoldable pub write_word_bits :
      Turn → Text → ℕ → ℕ → List Bool → PlcQueue C W → Result Error (Unit {0}) × PlcQueue C W
  unfolding write_word_bits_act
  write_word_bits turn device addr bit values =
      on_plc (word_bit device addr bit) turn (write_word_bits_act device addr bit values)

  unfoldable pub read_bits_as_word_act : Text → ℕ → ℕ → C → Act W ℕ
  read_bits_as_word_act device addr nibbles c = do
    bits ← net.read_bits c device addr (nibbles * 4)
    return (pack_bits bits)

  unfoldable pub read_bits_as_word :
      Turn → Text → ℕ → ℕ → PlcQueue C W → Result Error ℕ × PlcQueue C W
  unfolding read_bits_as_word_act
  read_bits_as_word turn device addr nibbles =
      on_plc (k_word device addr nibbles) turn (read_bits_as_word_act device addr nibbles)

  unfoldable pub write_bits_as_word :
      Turn → Text → ℕ → ℕ → ℕ → PlcQueue C W → Result Error (Unit {0}) × PlcQueue C W
  write_bits_as_word turn device addr nibbles value =
      on_plc (k_word device addr nibbles) turn
        λ c. net.write_bits c device addr (bits_from value 0 (nibbles * 4))

  unfoldable pub remote_run :
      Turn → ℕ → Bool → PlcQueue C W → Result Error (Unit {0}) × PlcQueue C W
  remote_run turn clear force = on_plc Operation.remote_run turn λ c. net.remote_run c clear force

  unfoldable pub remote_stop : Turn → PlcQueue C W → Result Error (Unit {0}) × PlcQueue C W
  remote_stop turn = on_plc Operation.remote_stop turn λ c. net.remote_stop c

  unfoldable pub remote_pause : Turn → Bool → PlcQueue C W → Result Error (Unit {0}) × PlcQueue C W
  remote_pause turn force = on_plc Operation.remote_pause turn λ c. net.remote_pause c force

  unfoldable pub remote_latch_clear : Turn → PlcQueue C W → Result Error (Unit {0}) × PlcQueue C W
  remote_latch_clear turn = on_plc Operation.remote_latch_clear turn λ c. net.remote_latch_clear c

  unfoldable pub remote_reset : Turn → PlcQueue C W → Result Error (Unit {0}) × PlcQueue C W
  remote_reset turn q = log_op Operation.remote_reset (exec turn (do_reset net cfg) q)

  -- The loop over the native bit devices.
  unfoldable pub read_each_bit : List DeviceAddr → C → Act W (List Bool)
  read_each_bit [] c = return []
  read_each_bit (b ∷ bs) c = do
    vals ← net.read_bits c b.device b.addr 1
    rest ← read_each_bit bs c
    return (first_bit vals ∷ rest)

  -- No word or dword is asked for: the results stay nil.
  unfoldable pub read_random_words : List DeviceAddr → List DeviceAddr → C → Act W (List ℕ × List ℕ)
  read_random_words words dwords c =
      if ltb 0 (length words + length dwords)
      then net.random_read c words dwords
      else return ([], [])

  unfoldable pub random_read_act :
      List DeviceAddr → List DeviceAddr → List DeviceAddr → C → Act W (List ℕ × List ℕ × List Bool)
  unfolding read_random_words
  random_read_act words dwords bits c = do
    found ← read_random_words words dwords c
    values ← read_each_bit bits c
    return (found.0, found.1, values)

  unfoldable pub random_read :
      Turn
      → List DeviceAddr
      → List DeviceAddr
      → List DeviceAddr
      → PlcQueue C W
      → Result Error (List ℕ × List ℕ × List Bool) × PlcQueue C W
  random_read turn words dwords bits =
      on_plc Operation.random_read turn (random_read_act words dwords bits)

  -- The loop of `writeWordBits` over the groups.
  unfoldable pub write_groups : Groups → C → Act W (Unit {0})
  write_groups [] c = return tt
  write_groups ((k, wbs) ∷ gs) c = do
    words ← net.read_words c k.device k.addr 1
    w ← first_word words
    net.write_words c k.device k.addr (apply_writes wbs w ∷ drop 1 words)
    write_groups gs c

  unfoldable pub write_word_bits_grouped : List WordBitWrite → C → Act W (Unit {0})
  unfolding write_groups
  write_word_bits_grouped wbs c = write_groups (group_writes wbs) c

  abbrev unless_empty : ℕ → Act W (Unit {0}) → Act W (Unit {0})
  unless_empty n act = if ltb 0 n then act else return tt

  unfoldable pub random_write_act :
      List DeviceAddr
      → List ℕ
      → List DeviceAddr
      → List ℕ
      → List DeviceAddr
      → List Bool
      → List WordBitWrite
      → C
      → Act W (Unit {0})
  unfolding write_word_bits_grouped
  random_write_act words word_vals dwords dword_vals bits bit_vals word_bits c = do
    unless_empty (length words + length dwords)
        (net.random_write c words word_vals dwords dword_vals)
    unless_empty (length bits) (net.random_write_bits c bits bit_vals)
    write_word_bits_grouped word_bits c

  unfoldable pub random_write :
      Turn
      → List DeviceAddr
      → List ℕ
      → List DeviceAddr
      → List ℕ
      → List DeviceAddr
      → List Bool
      → List WordBitWrite
      → PlcQueue C W
      → Result Error (Unit {0}) × PlcQueue C W
  random_write turn words word_vals dwords dword_vals bits bit_vals word_bits =
      on_plc Operation.random_write turn
        (random_write_act words word_vals dwords dword_vals bits bit_vals word_bits)
