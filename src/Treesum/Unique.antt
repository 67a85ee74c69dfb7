-- ===== src/Treesum/Unique.antt =====
-- A7/computesum.c: the sum of the numbers at the leaves is a function of the node.
use os_lab_sp.Prelude.{ℕ, ◌≡◌, refl, arith}
use os_lab_sp.Treesum.{NodeTree}
use os_lab_sp.Treesum.Sums.{Total, Added, leaf, inner, nothing, child, other}

-- There is one sum below a node.
mutual
  pub Total-unique :
      (t : NodeTree) (input : ℕ → ℕ) (i v w : ℕ) → Total t input i v → Total t input i w → v ≡ w
  Total-unique t input i v w (leaf e) (leaf f) = refl
  Total-unique t input i v w (leaf e) (inner f added) = absurd (f e)
  Total-unique t input i v w (inner e added) (leaf f) = absurd (e f)
  Total-unique t input i v w (inner e added) (inner f more) =
      Added-unique t input i t.n v w added more

  Added-unique :
      (t : NodeTree) (input : ℕ → ℕ) (i k v w : ℕ)
      → Added t input i k v
      → Added t input i k w
      → v ≡ w
  Added-unique t input i m x y nothing nothing = refl
  Added-unique t input i m x y (child {k} {v = a} {w = b} e total added)
        (child {v = c} {w = d} f whole more) =
      omega (arith, Added-unique t input i k a c added more, Total-unique t input k b d total whole)
  Added-unique t input i m x y (child e total added) (other f more) = absurd (ground (arith, e, f))
  Added-unique t input i m x y (other e added) (child f total more) = absurd (ground (arith, e, f))
  Added-unique t input i m x y (other {k} e added) (other f more) =
      Added-unique t input i k x y added more
