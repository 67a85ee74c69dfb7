-- ===== src/Generate/Shuffle.antt =====
-- A7/gentree.c and A5/gengraph.c: the shuffled array holds every number below its length once.
use os_lab_sp.Prelude.{ℕ, zero, suc, ◌+◌, ◌-◌, ◌%◌, ◌<◌, ◌≤◌, ◌≡◌, refl, arith, ℕ_discrete}
use os_lab_sp.Generate.{swap_places, shuffled}

-- The entries are the numbers below `n`, each at one place.
pub record IsShuffle (n : ℕ) (perm : ℕ → ℕ) : Type 0 where
  pub inside : (i : ℕ) → i < n → perm i < n
  pub once : (i j : ℕ) → i < n → j < n → perm i ≡ perm j → i ≡ j
  pub place_of : (v : ℕ) → v < n → (i : ℕ) × (i < n) × (perm i ≡ v)

module _ (n : ℕ) (perm : ℕ → ℕ) (v : IsShuffle n perm) (a b : ℕ) (ha : a < n) (hb : b < n) where
  swap_places-IsShuffle : IsShuffle n (swap_places perm a b)
  swap_places-IsShuffle = record {
    inside = λ i hi. ground (arith, v.inside i hi, v.inside a ha, v.inside b hb);
    once = λ i j hi hj e. ground (
      arith,
      e,
      v.once i j hi hj,
      v.once i a hi ha,
      v.once i b hi hb,
      v.once a j ha hj,
      v.once b j hb hj,
      v.once a b ha hb,
    );
    place_of = λ w hw.
        let (i, hi, e) = v.place_of w hw in
        elim (ℕ_discrete i a) [
          | yes first ↦ (b, hb, ground (arith, e, first))
          | no other ↦ elim (ℕ_discrete i b) [
            | yes second ↦ (a, ha, ground (arith, e, second, other))
            | no third ↦ (i, hi, ground (arith, e, other, third))
          ]
        ];
  }

mod_small : (r m : ℕ) → 0 < m → r % m < m
mod_small r m h = omega (arith, h)

-- After any number of rounds.
pub shuffled-IsShuffle : (rand : ℕ → ℕ) (n k : ℕ) → k ≤ n → IsShuffle n (shuffled rand n k)
unfolding shuffled
shuffled-IsShuffle rand n zero h = record {
  inside = λ i hi. hi;
  once = λ i j hi hj e. e;
  place_of = λ w hw. (w, hw, refl);
}
shuffled-IsShuffle rand n (suc k) h =
    swap_places-IsShuffle n (shuffled rand n k) (shuffled-IsShuffle rand n k (omega (arith, h))) k
      (k + rand k % (n - k)) (omega (arith, h))
      (omega (arith, h, mod_small (rand k) (n - k) (omega (arith, h))))
