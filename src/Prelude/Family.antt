-- ===== src/Prelude/Family.antt =====
-- Families over the native numbers, such as a C array: one entry replaced, and a weight summed up.
use Prim.Native.Nat.{ℕ, zero, suc, ◌+◌, ◌<◌, ◌≤◌}
use mathlib.Core.Path.{◌≡◌, refl}
use native.Mathlib.Decide.{ℕ_discrete}
use native.Mathlib.Omega.{arith}
use os_lab_sp.Prelude.Tests.{◌==◌, if◌then◌else◌}

abbrev pub update {ℓ} : {A : Type ℓ} → (ℕ → A) → ℕ → A → ℕ → A
update f i a j = if j == i then a else f j

module _ {ℓ} {A : Type ℓ} (weight : A → ℕ) where
  -- The weights of the first `n` entries together.
  unfoldable pub sum_below : ℕ → (ℕ → A) → ℕ
  sum_below zero f = 0
  sum_below (suc n) f = weight (f n) + sum_below n f

  sum_below-update_outside :
      (n i : ℕ) (f : ℕ → A) (a : A) → n ≤ i → sum_below n (update f i a) ≡ sum_below n f
  unfolding sum_below
  sum_below-update_outside zero i f a h = refl
  sum_below-update_outside (suc n) i f a h =
      ground (arith, sum_below-update_outside n i f a (omega arith))

  pub sum_below-update :
      (n i : ℕ) (f : ℕ → A) (a : A)
      → i < n
      → weight (f i) + sum_below n (update f i a) ≡ weight a + sum_below n f
  unfolding sum_below
  sum_below-update zero i f a h = absurd (omega arith)
  sum_below-update (suc n) i f a h = elim (ℕ_discrete n i) [
    | yes last ↦ ground (arith, sum_below-update_outside n i f a (omega arith))
    | no inside ↦ ground (arith, sum_below-update n i f a (omega arith))
  ]
