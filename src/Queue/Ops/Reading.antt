-- ===== src/Queue/Ops/Reading.antt =====
-- queue.go: the operations that read use none of the methods that change a PLC.
use gomc_rest.Queue.Labels.{Operation}
use gomc_rest.Common.{◌∷◌, ℕ, ◌≡◌, refl, ap, ◌∙◌, List, []}
use gomc_rest.Common.Text.{Text}
use gomc_rest.Device.{DeviceAddr}
use gomc_rest.Plc.{Act, Net, PlcConfig}
use gomc_rest.Plc.Reading.{
  initial_connect-with_writes, close_plc-with_writes, is_connected-with_writes, with_writes,
  do_plc-with_writes,
}
use gomc_rest.Queue.Exec.{log_op, Turn, PlcQueue, exec}
use gomc_rest.Queue.Ops.{
  initial_connect_queue, close_queue, is_connected_queue, random_read, random_read_act,
  read_random_words, timed, on_plc, read_words, read_bits, read_word_bits, read_word_bits_act,
  read_bits_as_word, read_bits_as_word_act, read_each_bit,
}

module _ {C W : Type 0} (net other : Net C W) (cfg : PlcConfig) where
  on_plc-with_writes :
      {A : Type 0} (op : Operation) (turn : Turn) (act : C → Act W A) (q : PlcQueue C W)
      → on_plc (with_writes net other) cfg op turn act q ≡ on_plc net cfg op turn act q
  unfolding on_plc timed
  on_plc-with_writes op turn act q =
      ap (λ job. log_op op (exec turn job q))
        (λ i p. do_plc-with_writes net other cfg (timed net cfg act) p i)

  pub read_words-with_writes :
      (turn : Turn) (device : Text) (start count : ℕ) (q : PlcQueue C W)
      → read_words (with_writes net other) cfg turn device start count q
        ≡ read_words net cfg turn device start count q
  unfolding read_words
  read_words-with_writes turn device start count q = on_plc-with_writes _ turn _ q

  pub read_bits-with_writes :
      (turn : Turn) (device : Text) (start count : ℕ) (q : PlcQueue C W)
      → read_bits (with_writes net other) cfg turn device start count q
        ≡ read_bits net cfg turn device start count q
  unfolding read_bits
  read_bits-with_writes turn device start count q = on_plc-with_writes _ turn _ q

  pub read_word_bits-with_writes :
      (turn : Turn) (device : Text) (addr bit count : ℕ) (q : PlcQueue C W)
      → read_word_bits (with_writes net other) cfg turn device addr bit count q
        ≡ read_word_bits net cfg turn device addr bit count q
  unfolding read_word_bits read_word_bits_act
  read_word_bits-with_writes turn device addr bit count q = on_plc-with_writes _ turn _ q

  pub read_bits_as_word-with_writes :
      (turn : Turn) (device : Text) (addr nibbles : ℕ) (q : PlcQueue C W)
      → read_bits_as_word (with_writes net other) cfg turn device addr nibbles q
        ≡ read_bits_as_word net cfg turn device addr nibbles q
  unfolding read_bits_as_word read_bits_as_word_act
  read_bits_as_word-with_writes turn device addr nibbles q = on_plc-with_writes _ turn _ q

  read_each_bit-with_writes :
      (bs : List DeviceAddr) (c : C)
      → read_each_bit (with_writes net other) cfg bs c ≡ read_each_bit net cfg bs c
  unfolding read_each_bit
  read_each_bit-with_writes [] c = refl
  read_each_bit-with_writes (b ∷ bs) c = rw (read_each_bit-with_writes bs c) refl

  random_read_act-with_writes :
      (words dwords bits : List DeviceAddr) (c : C)
      → random_read_act (with_writes net other) cfg words dwords bits c
        ≡ random_read_act net cfg words dwords bits c
  unfolding random_read_act read_random_words
  random_read_act-with_writes words dwords bits c = rw (read_each_bit-with_writes bits c) refl

  pub random_read-with_writes :
      (turn : Turn) (words dwords bits : List DeviceAddr) (q : PlcQueue C W)
      → random_read (with_writes net other) cfg turn words dwords bits q
        ≡ random_read net cfg turn words dwords bits q
  unfolding random_read
  random_read-with_writes turn words dwords bits q =
      on_plc-with_writes _ turn (random_read_act (with_writes net other) cfg words dwords bits) q
      ∙ ap (λ act. on_plc net cfg Operation.random_read turn act q)
          (λ i c. random_read_act-with_writes words dwords bits c i)

  pub is_connected_queue-with_writes :
      (q : PlcQueue C W)
      → is_connected_queue (with_writes net other) cfg q ≡ is_connected_queue net cfg q
  unfolding is_connected_queue
  is_connected_queue-with_writes q = is_connected-with_writes net other cfg q.plc

  pub initial_connect_queue-with_writes :
      (q : PlcQueue C W)
      → initial_connect_queue (with_writes net other) cfg q ≡ initial_connect_queue net cfg q
  unfolding initial_connect_queue
  initial_connect_queue-with_writes q = rw (initial_connect-with_writes net other cfg q.plc) refl

  pub close_queue-with_writes :
      (q : PlcQueue C W) → close_queue (with_writes net other) cfg q ≡ close_queue net cfg q
  unfolding close_queue
  close_queue-with_writes q = rw (close_plc-with_writes net other cfg q.plc) refl
