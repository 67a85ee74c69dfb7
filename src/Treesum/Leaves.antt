-- ===== src/Treesum/Leaves.antt =====
-- A7/computesum.c: the sum at the root of a tree is that of all of its leaves.
use os_lab_sp.Prelude.{
  ℕ, zero, suc, ◌+◌, ◌<◌, ◌≤◌, ◌≡◌, refl, Bool, some, ◌==◌, if◌then◌else◌, arith, ap, sym, ◌∙◌, ltb,
}
use os_lab_sp.Treesum.{NodeTree, is_child}
use os_lab_sp.Treesum.Counting.{count}
use os_lab_sp.Treesum.Reading.{IsCounted}
use os_lab_sp.Treesum.Sums.{Total, Added, leaf, inner, nothing, child, other}
use os_lab_sp.Treesum.Unique.{Total-unique}

-- The first `n` values together.
unfoldable pub sum_of : (ℕ → ℕ) → ℕ → ℕ
sum_of f zero = 0
sum_of f (suc n) = sum_of f n + f n

sum_of-congr : (f g : ℕ → ℕ) (n : ℕ) → ((j : ℕ) → j < n → f j ≡ g j) → sum_of f n ≡ sum_of g n
unfolding sum_of
sum_of-congr f g zero h = refl
sum_of-congr f g (suc n) h =
    let rest = sum_of-congr f g n (λ j hj. h j (omega (arith, hj))) in
    omega (arith, rest, h n (omega arith))

sum_of-add : (f g : ℕ → ℕ) (n : ℕ) → sum_of (λ j. f j + g j) n ≡ sum_of f n + sum_of g n
unfolding sum_of
sum_of-add f g zero = omega arith
sum_of-add f g (suc n) = omega (arith, sum_of-add f g n)

sum_of-zero : (n : ℕ) → sum_of (λ j. 0) n ≡ 0
unfolding sum_of
sum_of-zero zero = refl
sum_of-zero (suc n) = omega (arith, sum_of-zero n)

-- The order of two sums.
sum_of-swap :
    (g : ℕ → ℕ → ℕ) (m n : ℕ)
    → sum_of (λ j. sum_of (g j) n) m ≡ sum_of (λ k. sum_of (λ j. g j k) m) n
unfolding sum_of
sum_of-swap g zero n = sym (sum_of-zero n)
sum_of-swap g (suc m) n =
    ap (λ x. x + sum_of (g m) n) (sum_of-swap g m n)
    ∙ sym (sum_of-add (λ k. sum_of (λ j. g j k) m) (g m) n)

-- One value.
sum_of-one : (a x n : ℕ) → sum_of (λ j. if a == j then x else 0) n ≡ (if ltb a n then x else 0)
unfolding sum_of
sum_of-one a x zero = ground arith
sum_of-one a x (suc n) = ground (arith, sum_of-one a x n)

sum_of-nothing :
    (p : ℕ → Bool) (f : ℕ → ℕ) (n : ℕ) → count p n ≡ 0 → sum_of (λ j. if p j then f j else 0) n ≡ 0
unfolding sum_of count
sum_of-nothing p f zero h = refl
sum_of-nothing p f (suc n) h = ground (arith, h, sum_of-nothing p f n)

-- The number that a leaf reads.
abbrev pub at_leaf : NodeTree → (ℕ → ℕ) → ℕ → ℕ
at_leaf t input j = if t.num_children j == 0 then input j else 0

-- A tree whose nodes have the parents `par` and the sums `f` below them.
pub record IsTree (t : NodeTree) (par : ℕ → ℕ) : Type 0 where
  pub counted : IsCounted t
  pub parents : (j : ℕ) → j < t.n → t.parent j ≡ some (par j)
  pub inside : (j : ℕ) → j < t.n → par j < t.n
  pub own : par t.root_node ≡ t.root_node
  pub only : (j : ℕ) → j < t.n → par j ≡ j → j ≡ t.root_node

module _ (t : NodeTree) (input par f : ℕ → ℕ) (w : IsTree t par)
    (totals : (j : ℕ) → j < t.n → Total t input j (f j)) where
  abbrev kid : ℕ → ℕ → ℕ
  kid j k = if is_child t j k then f k else 0

  Added-kid : (i k v : ℕ) → k ≤ t.n → Added t input i k v → v ≡ sum_of (kid i) k
  unfolding sum_of
  Added-kid i m x h nothing = refl
  Added-kid i m x h (child {k} {v} {w = b} e total added) =
      let rest = Added-kid i k v (omega (arith, h)) added in
      let same = Total-unique t input k b (f k) total (totals k (omega (arith, h))) in
      ground (arith, e, rest, same)
  Added-kid i m x h (other {k} e added) =
      ground (arith, e, Added-kid i k x (omega (arith, h)) added)

  Total-kid : (i v : ℕ) → Total t input i v → v ≡ at_leaf t input i + sum_of (kid i) t.n
  Total-kid i v (leaf e) =
      let none_there = sum_of-nothing (is_child t i) f t.n (sym (w.counted i) ∙ e) in
      ground (arith, e, none_there)
  Total-kid i v (inner some_there added) =
      ground (arith, some_there, Added-kid i t.n v (omega arith) added)

  -- Each node but the root is a child of one node.
  column : (k : ℕ) → k < t.n → sum_of (λ j. kid j k) t.n ≡ (if k == t.root_node then 0 else f k)
  column k hk =
      let x = if par k == k then 0 else f k in
      let one = sum_of-one (par k) x t.n in
      let same =
        sum_of-congr (λ j. kid j k) (λ j. if par k == j then x else 0) t.n
          (λ j hj. rw (w.parents k hk) (ground arith)) in
      ground (arith, one, same, w.inside k hk, w.only k hk, w.own)

  -- The sum at the root.
  pub root-leaves : t.root_node < t.n → f t.root_node ≡ sum_of (at_leaf t input) t.n
  root-leaves hr =
      let rows =
        sum_of-congr f (λ j. at_leaf t input j + sum_of (kid j) t.n) t.n
          (λ j hj. Total-kid j (f j) (totals j hj))
        ∙ sum_of-add (at_leaf t input) (λ j. sum_of (kid j) t.n) t.n in
      let columns =
        sum_of-swap kid t.n t.n
        ∙ sum_of-congr (λ k. sum_of (λ j. kid j k) t.n) (λ k. if k == t.root_node then 0 else f k)
            t.n column in
      let parts =
        sum_of-congr f
          (λ k.
            (if t.root_node == k then f t.root_node else 0) + (if k == t.root_node then 0 else f k))
          t.n (λ k hk. ground arith)
        ∙ sum_of-add (λ k. if t.root_node == k then f t.root_node else 0)
            (λ k. if k == t.root_node then 0 else f k) t.n in
      let one = sum_of-one t.root_node (f t.root_node) t.n in
      ground (arith, rows, columns, parts, one, hr)
