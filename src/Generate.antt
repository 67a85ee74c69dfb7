-- ===== src/Generate.antt =====
-- A7/gentree.c, A5/gengraph.c and A6/arrival.c: the programs that write random input for the others. The
-- values of rand() are a parameter: `rand k` is what call number k returns.
pub mod Shuffle
pub mod Gentree
pub mod Gengraph
pub mod Arrival
use os_lab_sp.Prelude.{ℕ, zero, suc, ◌+◌, ◌-◌, ◌%◌, ◌==◌, if◌then◌else◌}
use os_lab_sp.Prelude.Family.{update}

-- t = PERM[i]; PERM[i] = PERM[j]; PERM[j] = t;
abbrev pub swap_places : (ℕ → ℕ) → ℕ → ℕ → ℕ → ℕ
swap_places perm i j = update (update perm i (perm j)) j (perm i)

-- PERM after `k` rounds of the second loop.
unfoldable pub shuffled : (ℕ → ℕ) → ℕ → ℕ → ℕ → ℕ
shuffled rand n zero = λ i. i
shuffled rand n (suc k) = let perm = shuffled rand n k in swap_places perm k (k + rand k % (n - k))
