-- ===== src/Generate/Gentree/Tests.antt =====
-- A7/gentree.c: a small tree.
use os_lab_sp.Prelude.{ℕ, ◌+◌, ◌%◌, ◌<◌, ◌≡◌, refl, List, [], ◌∷◌, Option, none, some, arith}
use os_lab_sp.Generate.{shuffled}
use os_lab_sp.Generate.Gentree.{gentree, tree_lines, grow, grow_once, attach, children_count}
use os_lab_sp.Generate.Gentree.Summed.{generated_sum}
use os_lab_sp.Treesum.{NodeTree, empty_tree, read_nodes, int_range, Nodes, exiting}
use os_lab_sp.Treesum.Reached.{Reached}
use os_lab_sp.Treesum.Leaves.{sum_of, at_leaf}

-- The values of rand().
abbrev dice : ℕ → ℕ
dice k = k + 3

abbrev lines_of : Option (ℕ → ℕ) → List (ℕ × ℕ)
lines_of none = []
lines_of (some parent) = tree_lines 4 0 parent

four_nodes : lines_of (gentree dice (λ i. 77) 4) ≡ (0, 3) ∷ (1, 0) ∷ (2, 3) ∷ (3, 3) ∷ []
unfolding gentree grow grow_once attach children_count shuffled tree_lines
four_nodes = refl

generated_sum_example :
    (parent : ℕ → ℕ) × (t : NodeTree) × (gentree dice (λ i. 77) 4 ≡ some parent)
    × (read_nodes (tree_lines 4 0 parent) (empty_tree 4) ≡ some t)
    × ((s : Nodes) (x : ℕ)
        → Reached t (λ i. i) s
        → s.printed ≡ some x
        → x ≡ sum_of (at_leaf t (λ i. i)) 4 % int_range)
    × (1 < 4 → (s : Nodes) → Reached t (λ i. i) s → ¬ ((i : ℕ) → i < 4 → s.stage i ≡ exiting))
generated_sum_example = generated_sum dice (λ i. 77) (λ i. i) 4 (omega arith) (omega arith)
