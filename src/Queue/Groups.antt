-- ===== src/Queue/Groups.antt =====
-- queue.go: how `writeWordBits` groups bit writes by the word that they fall in.
pub mod Laws
use gomc_rest.Common.{ℕ, Bool, List, [], ◌∷◌, ◌++◌, ◌&&◌, ◌==◌, if◌then◌else◌}
use gomc_rest.Common.Text.{Text, text_eq}
use gomc_rest.Device.{DeviceAddr}
use gomc_rest.Word.{put_bit}

pub record WordBitWrite : Type 0 where
  pub device : Text
  pub addr : ℕ
  pub bit : ℕ
  pub value : Bool

-- The key of a write: its word.
abbrev pub word_of : WordBitWrite → DeviceAddr
word_of wb = record { device = wb.device; addr = wb.addr }

unfoldable pub same_word : DeviceAddr → DeviceAddr → Bool
same_word a b = text_eq a.device b.device && (a.addr == b.addr)

abbrev pub Groups : Type 0
Groups = List (DeviceAddr × List WordBitWrite)

-- `groups` and `order` as one list: the keys in the order of their first write.
unfoldable pub add_write : WordBitWrite → Groups → Groups
unfolding same_word
add_write wb [] = (word_of wb, wb ∷ []) ∷ []
add_write wb ((k, wbs) ∷ gs) =
    if same_word k (word_of wb) then (k, wbs ++ wb ∷ []) ∷ gs else (k, wbs) ∷ add_write wb gs

group_from : Groups → List WordBitWrite → Groups
group_from gs [] = gs
group_from gs (wb ∷ wbs) = group_from (add_write wb gs) wbs

unfoldable pub group_writes : List WordBitWrite → Groups
unfolding group_from
group_writes wbs = group_from [] wbs

-- The inner loop: the writes of a group, on the word that was read.
unfoldable pub apply_writes : List WordBitWrite → ℕ → ℕ
apply_writes [] w = w
apply_writes (wb ∷ wbs) w = apply_writes wbs (put_bit 16 wb.bit wb.value w)
