-- ===== src/Queue/Labels.antt =====
-- queue.go: the names under which the operations are logged.
use gomc_rest.Common.{ℕ, ◌∷◌, ◌++◌}
use gomc_rest.Common.Text.{Text, codes}
use gomc_rest.Common.Decimal.{itoa}

-- The operations, with what their names show: `range` is ReadWords, ReadBits, WriteWords and
-- WriteBits, `word_bit` is ReadWordBits and WriteWordBits, and `k_word` is ReadBitsAsWord and
-- WriteBitsAsWord.
pub data Operation : Type 0 where
  range : (device : Text) (start : ℕ) → Operation
  word_bit : (device : Text) (addr bit : ℕ) → Operation
  k_word : (device : Text) (addr nibbles : ℕ) → Operation
  remote_run remote_stop remote_pause remote_latch_clear remote_reset : Operation
  random_read random_write : Operation

unfoldable pub op_label : Operation → Text
op_label (range device start) = device ++ itoa start
op_label (word_bit device addr bit) = device ++ (itoa addr ++ (b'.' ∷ itoa bit))
op_label (k_word device addr nibbles) = b'K' ∷ (itoa nibbles ++ (device ++ itoa addr))
op_label remote_run = codes "remote_run"
op_label remote_stop = codes "remote_stop"
op_label remote_pause = codes "remote_pause"
op_label remote_latch_clear = codes "remote_latch_clear"
op_label remote_reset = codes "remote_reset"
op_label random_read = codes "random_read"
op_label random_write = codes "random_write"
