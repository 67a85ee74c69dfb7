-- ===== src/Treesum/Counting.antt =====
-- A7/computesum.c: numbers of nodes and of threads.
use os_lab_sp.Prelude.{
  ℕ, zero, suc, ◌+◌, ◌<◌, ◌≤◌, ◌≡◌, refl, sym, ◌∙◌, Bool, true, false, Option, none, some, ◌&&◌,
  arith, ℕ_discrete,
}
use os_lab_sp.Prelude.Family.{update}

-- What holds of a result.
abbrev pub After {ℓ} : {A : Type ℓ} → (A → Type 0) → Option A → Type 0
After P none = Unit
After P (some a) = P a

abbrev pub bit : Bool → ℕ
bit true = 1
bit false = 0

-- How many of the first `n` nodes have the property.
unfoldable pub count : (ℕ → Bool) → ℕ → ℕ
count p zero = 0
count p (suc n) = bit (p n) + count p n

module _ {ℓ} {A : Type ℓ} (p : ℕ → A → Bool) (f : ℕ → A) (i : ℕ) (a : A) where
  count-update_outside :
      (n : ℕ) → n ≤ i → count (λ j. p j (update f i a j)) n ≡ count (λ j. p j (f j)) n
  unfolding count
  count-update_outside zero h = refl
  count-update_outside (suc n) h = ground (arith, count-update_outside n (omega arith))

  -- One entry is replaced.
  pub count-update :
      (n : ℕ)
      → i < n
      → bit (p i (f i)) + count (λ j. p j (update f i a j)) n
        ≡ bit (p i a) + count (λ j. p j (f j)) n
  unfolding count
  count-update zero h = absurd (omega arith)
  count-update (suc n) h = elim (ℕ_discrete n i) [
    | yes last ↦ ground (arith, count-update_outside n (omega arith), last)
    | no inside ↦ ground (arith, count-update n (omega arith), inside)
  ]

pub count-le :
    (p q : ℕ → Bool) (n : ℕ) → ((j : ℕ) → j < n → p j ≡ true → q j ≡ true) → count p n ≤ count q n
unfolding count
count-le p q zero h = omega arith
count-le p q (suc n) h =
    let one = h n (omega arith) in
    let rest = count-le p q n (λ j hj e. h j (omega arith) e) in ground (arith, rest, one)

-- A part that is as large as the whole is the whole.
pub count_whole :
    (p q : ℕ → Bool) (n : ℕ)
    → ((j : ℕ) → j < n → p j ≡ true → q j ≡ true)
    → count q n ≤ count p n
    → (j : ℕ) → j < n
    → q j ≡ true
    → p j ≡ true
unfolding count
count_whole p q zero h all j hj e = absurd (omega arith)
count_whole p q (suc n) h all j hj e =
    let one = h n (omega arith) in
    let below = λ (k : ℕ) (hk : k < n) (f : p k ≡ true). h k (omega (arith, hk)) f in
    let rest = count-le p q n below in
    elim (ℕ_discrete j n) [
      | yes last ↦ ground (arith, all, rest, one, last, e)
      | no inside ↦ count_whole p q n below (ground (arith, all, rest, one)) j (omega arith) e
    ]

-- A property that holds of one more number.
pub count_more :
    (p q : ℕ → Bool) (n i : ℕ)
    → i < n
    → p i ≡ false
    → ((j : ℕ) → q j ≡ update p i true j)
    → count q n ≡ count p n + 1
count_more p q n i hi new same =
    let change = count-update (λ j b. b) p i true n hi in
    let most = count-le q (update p i true) n (λ j hj e. sym (same j) ∙ e) in
    let least = count-le (update p i true) q n (λ j hj e. same j ∙ e) in
    ground (arith, change, most, least, new)

pub count-none : (n : ℕ) → count (λ j. false) n ≡ 0
unfolding count
count-none zero = refl
count-none (suc n) = ground (arith, count-none n)

pub count_nobody : (p : ℕ → Bool) (n : ℕ) → count (λ j. p j && false) n ≡ 0
unfolding count
count_nobody p zero = refl
count_nobody p (suc n) = ground (arith, count_nobody p n)
