-- ===== src/Shell/Words.antt =====
-- A3/CSE_21CS30009.c: the array of arguments is large enough.
use os_lab_sp.Prelude.{
  ℕ, ◌+◌, ◌*◌, ◌≤◌, ◌<◌, ◌≡◌, refl, false, [], ◌∷◌, ◌++◌, ◌==◌, if◌then◌else◌, arith, length, some,
  Option-cases, Bool-cases, inl, inr,
}
use os_lab_sp.Shell.{Bytes, command_size, max_args, is_empty, text_of, words_from, split_words}

append-not_empty : (word : Bytes) (b : ℕ) → is_empty (word ++ b ∷ []) ≡ false
append-not_empty [] b = refl
append-not_empty (c ∷ word) b = refl

text_of-lt : (array s : Bytes) → text_of array ≡ some s → length s < length array
unfolding text_of
text_of-lt [] s h = cc
text_of-lt (b ∷ array) s h = elim (Option-cases (text_of array)) [
  | inl e ↦ let empty : s ≡ [] = ground (arith, h, e) in rw empty (omega arith)
  | inr (t, e) ↦ ground (arith, h, e, text_of-lt array t e)
]

-- Two bytes for each word but one, of which one is the space.
words_from-le :
    (word s : Bytes) → 2 * length (words_from word s) ≤ length s + (if is_empty word then 1 else 2)
unfolding words_from
words_from-le [] [] = omega arith
words_from-le (c ∷ word) [] = omega arith
words_from-le word (b ∷ s) =
    let fresh = words_from-le [] s in
    let longer = words_from-le (word ++ b ∷ []) s in
    let filled = append-not_empty word b in
    elim (Bool-cases (b == 32)) [
      | inl space ↦ rw space (elim (Bool-cases (is_empty word)) [
        | inl none_yet ↦ rw none_yet (omega (arith, fresh))
        | inr some_yet ↦ rw some_yet (omega (arith, fresh))
      ])
      | inr other ↦ rw other (ground (arith, longer, filled))
    ]

-- The text in an array of 100 bytes has so few words that they fit into the array of arguments with the
-- NULL after them.
pub split_words-le :
    (array s : Bytes)
    → length array ≡ command_size
    → text_of array ≡ some s
    → length (split_words s) + 1 ≤ max_args
unfolding split_words
split_words-le array s size text =
    let most = words_from-le [] s in
    let short = text_of-lt array s text in omega (arith, most, short, size)
