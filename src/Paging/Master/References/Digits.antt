-- ===== src/Paging/Master/References/Digits.antt =====
-- A8/master.c and A8/process.c: a number is printed and read.
use os_lab_sp.Prelude.{
  ℕ, zero, suc, ◌+◌, ◌-◌, ◌*◌, ◌/◌, ◌%◌, ◌<◌, ◌≤◌, ◌≡◌, refl, true, false, List, [], ◌∷◌, ◌++◌, ltb,
  leb, ◌==◌, arith, Bool-cases, inl, inr, length, length-append, ap, sym, ◌∙◌,
}
use mathlib.Core.List.{append_assoc, append-nil}
use os_lab_sp.Paging.Master.References.{Text, colon, digit, digits, tokens, atoi_from, atoi_all}

abbrev pub ten_to : ℕ → ℕ
ten_to zero = 1
ten_to (suc k) = 10 * ten_to k

atoi-digit :
    (v d : ℕ) (rest : Text) → d < 10 → atoi_from v (digit d ∷ rest) ≡ atoi_from (v * 10 + d) rest
unfolding atoi_from
atoi-digit v d rest h =
    let low : leb b'0' (digit d) ≡ true = ground arith in
    let high : leb (digit d) b'9' ≡ true = ground (arith, h) in
    let same : digit d - b'0' ≡ d = omega arith in
    rw low (rw high (ap (λ x. atoi_from (v * 10 + x) rest) same))

pub atoi-digits :
    (k v : ℕ) (rest : Text)
    → v < ten_to (suc k)
    → atoi_from 0 (digits k v ++ rest) ≡ atoi_from v rest
unfolding digits
atoi-digits zero v rest h =
    let small : v % 10 < 10 = omega arith in
    let same : 0 * 10 + v % 10 ≡ v = omega (arith, h) in
    atoi-digit 0 (v % 10) rest small ∙ ap (λ x. atoi_from x rest) same
atoi-digits (suc k) v rest h = elim (Bool-cases (ltb v 10)) [
  | inl small ↦
      rw small
        (atoi-digit 0 v rest (ground (arith, small)) ∙ ap (λ x. atoi_from x rest) (omega arith))
  | inr large ↦
      let front : v / 10 < ten_to (suc k) = omega (arith, h) in
      let last : v % 10 < 10 = omega arith in
      let same : v / 10 * 10 + v % 10 ≡ v = omega arith in
      rw large (
        ap (atoi_from 0) (append_assoc (digits k (v / 10)) (digit (v % 10) ∷ []) rest)
        ∙ atoi-digits k (v / 10) (digit (v % 10) ∷ rest) front
        ∙ atoi-digit (v / 10) (v % 10) rest last
        ∙ ap (λ x. atoi_from x rest) same)
]

-- Bytes that are no colons.
abbrev pub HasNoColon : Text → Type 0
HasNoColon [] = Unit
HasNoColon (b ∷ s) = ((b == colon) ≡ false) × HasNoColon s

HasNoColon-append : (s t : Text) → HasNoColon s → HasNoColon t → HasNoColon (s ++ t)
HasNoColon-append [] t v w = w
HasNoColon-append (b ∷ s) t v w = (v.0, HasNoColon-append s t v.1 w)

digit_plain : (d : ℕ) → d < 10 → (digit d == colon) ≡ false
digit_plain d h = ground (arith, h)

digits-HasNoColon : (k v : ℕ) → HasNoColon (digits k v)
unfolding digits
digits-HasNoColon zero v = (digit_plain (v % 10) (omega arith), tt)
digits-HasNoColon (suc k) v = elim (Bool-cases (ltb v 10)) [
  | inl small ↦ rw small (digit_plain v (ground (arith, small)), tt)
  | inr large ↦ rw large (
      HasNoColon-append (digits k (v / 10)) (digit (v % 10) ∷ []) (digits-HasNoColon k (v / 10))
        (digit_plain (v % 10) (omega arith), tt))
]

-- How many digits a number has.
pub digits-le : (n k v : ℕ) → v < ten_to (suc n) → length (digits k v) ≤ suc n
unfolding digits
digits-le n zero v h = omega arith
digits-le zero (suc k) v h =
    let small : ltb v 10 ≡ true = ground (arith, h) in rw small (omega arith)
digits-le (suc n) (suc k) v h = elim (Bool-cases (ltb v 10)) [
  | inl small ↦ rw small (omega arith)
  | inr large ↦
      let front = digits-le n k (v / 10) (omega (arith, h)) in
      let whole = length-append (digits k (v / 10)) (digit (v % 10) ∷ []) in
      rw large (omega (arith, front, whole))
]

token_going : (a : ℕ) (read t : Text) → HasNoColon t → tokens (a ∷ read) t ≡ (a ∷ read ++ t) ∷ []
unfolding tokens
token_going a read [] v = ap (λ u. (a ∷ u) ∷ []) (sym (append-nil read))
token_going a read (b ∷ t) v =
    let plain = v.0 in
    rw plain
      (token_going a (read ++ b ∷ []) t v.1 ∙ ap (λ u. (a ∷ u) ∷ []) (append_assoc read (b ∷ []) t))

token_whole : (b : ℕ) (t : Text) → HasNoColon (b ∷ t) → tokens [] (b ∷ t) ≡ (b ∷ t) ∷ []
unfolding tokens
token_whole b t v = let plain = v.0 in rw plain (token_going b [] t v.1)

digits-pos : (k v : ℕ) → 0 < length (digits k v)
unfolding digits
digits-pos zero v = omega arith
digits-pos (suc k) v = elim (Bool-cases (ltb v 10)) [
  | inl small ↦ rw small (omega arith)
  | inr large ↦
      let whole = length-append (digits k (v / 10)) (digit (v % 10) ∷ []) in
      rw large (omega (arith, whole))
]

digits_token : (k v : ℕ) → tokens [] (digits k v) ≡ digits k v ∷ []
digits_token k v = go (digits k v) (digits-HasNoColon k v) (digits-pos k v)
  where
    go : (t : Text) → HasNoColon t → 0 < length t → tokens [] t ≡ t ∷ []
    go [] w pos = absurd (omega (arith, pos))
    go (b ∷ t) w pos = token_whole b t w

-- strtok on both sides of a colon.
tokens-colon : (read t s : Text) → tokens read (t ++ colon ∷ s) ≡ tokens read t ++ tokens [] s
unfolding tokens
tokens-colon [] [] s = refl
tokens-colon (a ∷ read) [] s = refl
tokens-colon [] (b ∷ t) s = elim (Bool-cases (b == colon)) [
  | inl there ↦ rw there (tokens-colon [] t s)
  | inr other ↦ rw other (tokens-colon (b ∷ []) t s)
]
tokens-colon (a ∷ read) (b ∷ t) s = elim (Bool-cases (b == colon)) [
  | inl there ↦ rw there (ap (λ l. (a ∷ read) ∷ l) (tokens-colon [] t s))
  | inr other ↦ rw other (tokens-colon (a ∷ read ++ b ∷ []) t s)
]

atoi_all-append : (l r : List Text) → atoi_all (l ++ r) ≡ atoi_all l ++ atoi_all r
atoi_all-append [] r = refl
atoi_all-append (t ∷ l) r = ap (λ u. atoi_from 0 t ∷ u) (atoi_all-append l r)

abbrev pub token_numbers : Text → List ℕ
token_numbers t = atoi_all (tokens [] t)

-- What the process reads of a number alone, and of one behind a colon.
pub token_numbers-digits : (k v : ℕ) → v < ten_to (suc k) → token_numbers (digits k v) ≡ v ∷ []
unfolding atoi_from
token_numbers-digits k v h =
    ap atoi_all (digits_token k v)
    ∙ ap (λ t. atoi_from 0 t ∷ []) (sym (append-nil (digits k v)))
    ∙ ap (λ x. x ∷ []) (atoi-digits k v [] h)

pub token_numbers-colon :
    (t : Text) (k v : ℕ)
    → v < ten_to (suc k)
    → token_numbers (t ++ colon ∷ digits k v) ≡ token_numbers t ++ v ∷ []
token_numbers-colon t k v h =
    ap atoi_all (tokens-colon [] t (digits k v))
    ∙ atoi_all-append (tokens [] t) (tokens [] (digits k v))
    ∙ ap (λ l. atoi_all (tokens [] t) ++ l) (token_numbers-digits k v h)
