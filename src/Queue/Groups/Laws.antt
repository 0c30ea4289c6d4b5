-- ===== src/Queue/Groups/Laws.antt =====
-- Grouping keeps, for every word, the writes that fall in it, in their order.
use mathlib.Core.List.{append_assoc, append-nil}
use gomc_rest.Common.{
  ℕ, ◌≡◌, refl, sym, ap, ap₂, ap₂, ◌∙◌, arith, Bool, true, false, ◌||◌, List, [], ◌∷◌, ◌++◌,
  if◌then◌else◌, Bool-cases, inl, inr,
}
use gomc_rest.Common.Text.{Text, text_eq, text_eq_iff}
use gomc_rest.Word.{put_bit}
use gomc_rest.Device.{DeviceAddr}
use gomc_rest.Queue.Groups.{
  WordBitWrite, word_of, same_word, Groups, add_write, group_from, group_writes, apply_writes,
}

-- The writes to one word.
abbrev pub writes_to : DeviceAddr → List WordBitWrite → List WordBitWrite
writes_to a [] = []
writes_to a (wb ∷ wbs) = if same_word (word_of wb) a then wb ∷ writes_to a wbs else writes_to a wbs

-- The writes that the groups of one word hold.
abbrev pub held : DeviceAddr → Groups → List WordBitWrite
held a [] = []
held a ((k, wbs) ∷ gs) = if same_word k a then wbs ++ held a gs else held a gs

abbrev has_key : DeviceAddr → Groups → Bool
has_key a [] = false
has_key a ((k, wbs) ∷ gs) = same_word k a || has_key a gs

-- No word has two groups.
abbrev IsDistinct : Groups → Type 0
IsDistinct [] = Unit
IsDistinct ((k, wbs) ∷ gs) = (has_key k gs ≡ false) × IsDistinct gs

pub same_word_refl : (a : DeviceAddr) → same_word a a ≡ true
unfolding same_word
same_word_refl a = let same = (text_eq_iff a.device a.device).1 refl in ground arith

abbrev made : Text → ℕ → DeviceAddr
made d n = record { device = d; addr = n }

pub same_word-≡ : (a b : DeviceAddr) → same_word a b ≡ true → a ≡ b
unfolding same_word
same_word-≡ a b e = elim (Bool-cases (text_eq a.device b.device)) [
  | inr other ↦ absurd (ground arith)
  | inl same ↦
      let device = (text_eq_iff a.device b.device).0 same in
      let addr : a.addr ≡ b.addr = ground arith in ap₂ made device addr
]

same_word-other : (a b : DeviceAddr) → same_word a b ≡ false → same_word b a ≡ false
same_word-other a b e = elim (Bool-cases (same_word b a)) [
  | inr other ↦ other
  | inl same ↦
      let both : same_word a b ≡ true =
        ap (λ t. same_word a t) (same_word-≡ b a same) ∙ same_word_refl a in
      absurd (ground arith)
]

held-none : (a : DeviceAddr) (gs : Groups) → has_key a gs ≡ false → held a gs ≡ []
held-none a [] e = refl
held-none a ((k, wbs) ∷ gs) e = let rest = held-none a gs in ground arith

has_key-add_write :
    (a : DeviceAddr) (wb : WordBitWrite) (gs : Groups)
    → has_key a (add_write wb gs) ≡ (has_key a gs || same_word (word_of wb) a)
unfolding add_write
has_key-add_write a wb [] = ground arith
has_key-add_write a wb ((k, wbs) ∷ gs) = elim (Bool-cases (same_word k (word_of wb))) [
  | inl same ↦
      let key = same_word-≡ k (word_of wb) same in
      let at_key : same_word k a ≡ same_word (word_of wb) a = ap (λ t. same_word t a) key in
      ground arith
  | inr other ↦ let rest = has_key-add_write a wb gs in ground arith
]

add_write-IsDistinct :
    (wb : WordBitWrite) (gs : Groups) → IsDistinct gs → IsDistinct (add_write wb gs)
unfolding add_write
add_write-IsDistinct wb [] d = (refl, tt)
add_write-IsDistinct wb ((k, wbs) ∷ gs) (fresh, d) = elim (Bool-cases (same_word k (word_of wb))) [
  | inl same ↦ rw same (fresh, d)
  | inr other ↦
      let unlike = same_word-other k (word_of wb) other in
      let still : has_key k (add_write wb gs) ≡ false =
        has_key-add_write k wb gs ∙ rw (fresh, unlike) refl in
      rw other (still, add_write-IsDistinct wb gs d)
]

held-add_write :
    (a : DeviceAddr) (wb : WordBitWrite) (gs : Groups)
    → IsDistinct gs
    → held a (add_write wb gs) ≡ held a gs ++ writes_to a (wb ∷ [])
unfolding add_write
held-add_write a wb [] d = ground arith
held-add_write a wb ((k, wbs) ∷ gs) (fresh, d) = elim (Bool-cases (same_word k (word_of wb))) [
  | inl same ↦
      let key = same_word-≡ k (word_of wb) same in
      let at_key : same_word k a ≡ same_word (word_of wb) a = ap (λ t. same_word t a) key in
      elim (Bool-cases (same_word k a)) [
        | inl hit ↦
            let alike = same_word-≡ k a hit in
            let none_left = held-none a gs (rw alike at fresh) in
            let lone : same_word (word_of wb) a ≡ true = ground arith in
            rw (same, hit, lone, none_left) (append-nil (wbs ++ wb ∷ []) ∙ rw (append-nil wbs) refl)
        | inr miss ↦
            let apart : same_word (word_of wb) a ≡ false = ground arith in
            rw (same, miss, apart) (sym (append-nil (held a gs)))
      ]
  | inr other ↦
      let rest = held-add_write a wb gs d in
      elim (Bool-cases (same_word k a)) [
        | inl hit ↦
            rw (other, hit, rest) (sym (append_assoc wbs (held a gs) (writes_to a (wb ∷ []))))
        | inr miss ↦ rw (other, miss) rest
      ]
]

held-group_from :
    (a : DeviceAddr) (wbs : List WordBitWrite) (gs : Groups)
    → IsDistinct gs
    → held a (group_from gs wbs) ≡ held a gs ++ writes_to a wbs
unfolding group_from
held-group_from a [] gs d = sym (append-nil (held a gs))
held-group_from a (wb ∷ wbs) gs d =
    held-group_from a wbs (add_write wb gs) (add_write-IsDistinct wb gs d)
    ∙ elim (Bool-cases (same_word (word_of wb) a)) [
      | inl hit ↦
          rw (held-add_write a wb gs d, hit) (append_assoc (held a gs) (wb ∷ []) (writes_to a wbs))
      | inr miss ↦ rw (held-add_write a wb gs d, miss, append-nil (held a gs)) refl
    ]

-- Grouping loses no write and keeps the order of the writes to a word.
pub held-group_writes :
    (a : DeviceAddr) (wbs : List WordBitWrite) → held a (group_writes wbs) ≡ writes_to a wbs
unfolding group_writes
held-group_writes a wbs = held-group_from a wbs [] tt

pub apply_writes-append :
    (xs ys : List WordBitWrite) (w : ℕ)
    → apply_writes (xs ++ ys) w ≡ apply_writes ys (apply_writes xs w)
unfolding apply_writes
apply_writes-append [] ys w = refl
apply_writes-append (x ∷ xs) ys w = apply_writes-append xs ys (put_bit 16 x.bit x.value w)
