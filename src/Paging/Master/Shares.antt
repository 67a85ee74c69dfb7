-- ===== src/Paging/Master/Shares.antt =====
-- A8/master.c: the shares of all processes together are at most the frames of the machine.
use os_lab_sp.Prelude.{ℕ, zero, suc, ◌+◌, ◌*◌, ◌/◌, ◌<◌, ◌≤◌, ◌≡◌, arith}
use os_lab_sp.Paging.{Memory}
use os_lab_sp.Paging.Master.{sum_sizes}

-- The sizes of `n` processes from `i` on, and their shares of `f` frames.
unfoldable pub sizes : ℕ → ℕ → (ℕ → ℕ) → ℕ
sizes zero i m = 0
sizes (suc n) i m = m i + sizes n (i + 1) m

unfoldable pub shares : ℕ → ℕ → (ℕ → ℕ) → ℕ → ℕ → ℕ
shares zero i m f c = 0
shares (suc n) i m f c = (m i * f) / c + shares n (i + 1) m f c

pub sum_sizes-eq :
    (n i : ℕ) (s : Memory) (acc : ℕ) → sum_sizes n i s acc ≡ acc + sizes n i (λ p. (s.table p).m_i)
unfolding sum_sizes sizes
sum_sizes-eq zero i s acc = omega arith
sum_sizes-eq (suc n) i s acc = omega (arith, sum_sizes-eq n (i + 1) s (acc + (s.table i).m_i))

shares-bound : (n i : ℕ) (m : ℕ → ℕ) (f c : ℕ) → 0 < c → shares n i m f c * c ≤ sizes n i m * f
unfolding shares sizes
shares-bound zero i m f c h = omega arith
shares-bound (suc n) i m f c h =
    let rest = shares-bound n (i + 1) m f c h in
    let one : (m i * f) / c * c ≤ m i * f = omega arith in omega arith

pub shares-le : (n i : ℕ) (m : ℕ → ℕ) (f : ℕ) → 0 < sizes n i m → shares n i m f (sizes n i m) ≤ f
shares-le n i m f h = let bound = shares-bound n i m f (sizes n i m) h in grind arith
