-- ===== src/Shell/Buffer.antt =====
-- A3/CSE_21CS30009.c: what an array holds after the calls that store into it.
use os_lab_sp.Prelude.{
  ℕ, zero, suc, ◌-◌, ◌≤◌, ◌<◌, ◌≡◌, refl, false, [], ◌∷◌, ◌++◌, some, ◌==◌, arith, ap, ◌∙◌, length,
  length-append,
}
use mathlib.Core.List.{append_assoc}
use os_lab_sp.Shell.{
  Bytes, take, drop, text_of, overwrite, zeros, remove_newline, fgets, command_size,
}

-- Without 0 and newline.
abbrev pub IsPlain : Bytes → Type 0
IsPlain [] = Unit
IsPlain (b ∷ s) = ((b == 0) ≡ false) × ((b == 10) ≡ false) × IsPlain s

pub take_short : (n : ℕ) (s : Bytes) → length s ≤ n → take n s ≡ s
unfolding take
take_short zero [] h = refl
take_short zero (b ∷ s) h = absurd (omega arith)
take_short (suc n) [] h = refl
take_short (suc n) (b ∷ s) h = ap (b ∷◌) (take_short n s (omega arith))

pub drop_short : (n : ℕ) (s : Bytes) → length s ≤ n → drop n s ≡ []
unfolding drop
drop_short zero [] h = refl
drop_short zero (b ∷ s) h = absurd (omega arith)
drop_short (suc n) [] h = refl
drop_short (suc n) (b ∷ s) h = drop_short n s (omega arith)

pub length-overwrite : (s array : Bytes) → length (overwrite s array) ≡ length array
unfolding overwrite
length-overwrite [] array = refl
length-overwrite (b ∷ s) [] = refl
length-overwrite (b ∷ s) (c ∷ array) = ap suc (length-overwrite s array)

pub length-remove_newline : (s : Bytes) → length (remove_newline s) ≡ length s
unfolding remove_newline
length-remove_newline [] = refl
length-remove_newline (b ∷ s) = ground (arith, length-remove_newline s)

pub length-zeros : (n : ℕ) → length (zeros n) ≡ n
unfolding zeros
length-zeros zero = refl
length-zeros (suc n) = ap suc (length-zeros n)

-- A line that was read, without its newline.
text_of-line :
    (s rest array : Bytes)
    → IsPlain s
    → length s < length array
    → text_of (remove_newline (overwrite (s ++ 10 ∷ rest) array)) ≡ some s
unfolding text_of remove_newline overwrite
text_of-line s rest [] plain h = absurd (omega arith)
text_of-line [] rest (c ∷ array) plain h = refl
text_of-line (b ∷ s) rest (c ∷ array) plain h =
    rw (plain.1, plain.0, text_of-line s rest array plain.2 (omega arith)) refl

-- A text that was received into an array of zeros.
pub text_of-zeros :
    (s : Bytes) (n : ℕ) → IsPlain s → length s < n → text_of (overwrite s (zeros n)) ≡ some s
unfolding text_of overwrite zeros
text_of-zeros s zero plain h = absurd (omega arith)
text_of-zeros [] (suc n) plain h = refl
text_of-zeros (b ∷ s) (suc n) plain h = rw (plain.0, text_of-zeros s n plain.2 (omega arith)) refl

-- A line of at most 98 bytes and a newline is read as a whole.
pub text_of-fgets :
    (s array : Bytes)
    → IsPlain s
    → length s < command_size - 1
    → length array ≡ command_size
    → text_of (remove_newline (fgets (some (s ++ 10 ∷ [])) array)) ≡ some s
unfolding fgets
text_of-fgets s array plain h size =
    let fits : length (s ++ 10 ∷ []) ≤ command_size - 1 =
      omega (arith, length-append s (10 ∷ [])) in
    ap (λ t. text_of (remove_newline (overwrite (t ++ 0 ∷ []) array)))
      (take_short (command_size - 1) (s ++ 10 ∷ []) fits)
    ∙ ap (λ t. text_of (remove_newline (overwrite t array))) (append_assoc s (10 ∷ []) (0 ∷ []))
    ∙ text_of-line s (0 ∷ []) array plain (omega (arith, size))
