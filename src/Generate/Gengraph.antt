-- ===== src/Generate/Gengraph.antt =====
-- A5/gengraph.c: a random graph, written as the file that A5/boss.c reads. `coin i j` tells whether the value
-- of rand() that is drawn for i and j stays below the probability.
pub mod Filling
pub mod Sortable
mod Tests
use os_lab_sp.Prelude.{
  ℕ, zero, suc, ◌+◌, ◌-◌, ◌*◌, Bool, List, [], ◌∷◌, ◌++◌, Option, none, some, get_elem?, true,
  false, ◌==◌, ◌&&◌, if◌then◌else◌,
}
use os_lab_sp.Generate.{shuffled}

-- The rows of the array.
abbrev pub Matrix : Type 0
Matrix = ℕ → ℕ → ℕ

abbrev pub store : ℕ → ℕ → ℕ → Matrix → Matrix
store a b x m i j = if (i == a) && (j == b) then x else m i j

module _ (n : ℕ) (perm : ℕ → ℕ) (coin : ℕ → ℕ → Bool) where
  -- for (j=i+1; j<n; ++j), with `k` rounds left
  unfoldable pub fill_row : ℕ → ℕ → ℕ → Matrix → Matrix
  fill_row zero i j m = m
  fill_row (suc k) i j m =
      fill_row k i (j + 1)
        (store (perm j) (perm i) 0 (store (perm i) (perm j) (if coin i j then 1 else 0) m))

  -- for (i=0; i<n; ++i), with `k` rounds left
  unfoldable pub fill : ℕ → ℕ → Matrix → Matrix
  unfolding fill_row
  fill zero i m = m
  fill (suc k) i m = fill k (i + 1) (fill_row (n - (i + 1)) i (i + 1) (store i i 0 m))

-- The graph of `n` vertices, from what the memory held before.
unfoldable pub gengraph : (ℕ → ℕ) → (ℕ → ℕ → Bool) → Matrix → ℕ → Matrix
unfolding fill shuffled
gengraph rand coin garbage n = fill n (shuffled rand n n) coin n 0 garbage

-- The numbers of row `i` from column `j` on, with `k` columns left, and those of the rows from `i` on.
unfoldable pub row_text : ℕ → ℕ → ℕ → Matrix → List ℕ
row_text zero i j m = []
row_text (suc k) i j m = m i j ∷ row_text k i (j + 1) m

unfoldable pub graph_text : ℕ → ℕ → ℕ → Matrix → List ℕ
unfolding row_text
graph_text n zero i m = []
graph_text n (suc k) i m = row_text n i 0 m ++ graph_text n k (i + 1) m

-- A[i*n+j] == 1, in the array that A5/boss.c reads
abbrev pub is_one : Option ℕ → Bool
is_one none = false
is_one (some x) = x == 1

unfoldable pub read_edge : ℕ → List ℕ → ℕ → ℕ → Bool
read_edge n text i j = is_one (get_elem? text (i * n + j))
