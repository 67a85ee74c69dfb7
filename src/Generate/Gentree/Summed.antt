-- ===== src/Generate/Gentree/Summed.antt =====
-- A7/gentree.c and A7/computesum.c: the sum over a tree that was generated.
use os_lab_sp.Prelude.{
  ℕ, zero, suc, ◌+◌, ◌-◌, ◌%◌, ◌<◌, ◌≤◌, ◌≡◌, refl, Bool, true, false, some, ◌==◌, arith, ap, sym,
  ◌∙◌, subst, ℕ_discrete, dec_lt, Bool-cases, inl, inr,
}
use os_lab_sp.Generate.{shuffled}
use os_lab_sp.Generate.Shuffle.{IsShuffle, shuffled-IsShuffle}
use os_lab_sp.Generate.Gentree.{gentree, tree_lines}
use os_lab_sp.Generate.Gentree.Growing.{Placed, gentree-Placed}
use os_lab_sp.Generate.Gentree.Reading.{Placed-HasRoot, read_nodes-IsRead, tree_lines-AreNodes}
use os_lab_sp.Treesum.{
  NodeTree, empty_tree, read_nodes, is_child, array_size, int_range, exiting, Nodes,
}
use os_lab_sp.Treesum.Counting.{count}
use os_lab_sp.Treesum.Reading.{read-IsCounted}
use os_lab_sp.Treesum.Reached.{Reached}
use os_lab_sp.Treesum.Sums.{Total, Added, leaf, inner, nothing, child, other}
use os_lab_sp.Treesum.Leaves.{IsTree, sum_of, at_leaf, root-leaves}
use os_lab_sp.Treesum.Printed.{printed-Total}
use os_lab_sp.Treesum.Stuck.{never_all_exiting}

Added-exists :
    (t : NodeTree) (input : ℕ → ℕ) (i k : ℕ)
    → ((j : ℕ) → j < k → is_child t i j ≡ true → (v : ℕ) × Total t input j v)
    → (v : ℕ) × Added t input i k v
Added-exists t input i zero h = (0, nothing)
Added-exists t input i (suc k) h =
    let (v, added) = Added-exists t input i k (λ j hj e. h j (omega (arith, hj)) e) in
    elim (Bool-cases (is_child t i k)) [
      | inl e ↦ let (x, total) = h k (omega arith) e in (v + x, child e total added)
      | inr e ↦ (v, other e added)
    ]

module _ (t : NodeTree) (input par perm : ℕ → ℕ) (w : IsTree t par) (v : IsShuffle t.n perm)
    (p : Placed t.n perm par (t.n - 1)) where
  -- A child stands behind its parent in PERM.
  child_later :
      (c j : ℕ)
      → c < t.n
      → j < t.n
      → is_child t (perm c) j ≡ true
      → (i : ℕ) × (i < t.n) × (perm i ≡ j) × (c < i)
  child_later c j hc hj e =
      let (i, hi, at) = v.place_of j hj in
      let parent : (par j == perm c) ≡ true = let q = w.parents j hj in ground (arith, e, q) in
      let apart : (perm c == j) ≡ false = ground (arith, e) in
      let joined : par (perm i) ≡ par j = ap par at in
      elim (ℕ_discrete i 0) [
        | yes first ↦
            let own : par (perm i) ≡ perm i = rw first p.root in
            absurd (ground (arith, own, joined, at, parent, apart))
        | no later ↦
            let (q, hq, there) = p.before i (omega (arith, later)) (omega (arith, hi)) in
            let same =
              v.once q c (omega (arith, hq, hi)) hc (ground (arith, there, joined, parent)) in
            (i, hi, at, omega (arith, same, hq))
      ]

  Total-exists : (d c : ℕ) → c < t.n → t.n ≤ c + d → (x : ℕ) × Total t input (perm c) x
  Total-exists zero c hc enough = absurd (omega (arith, hc, enough))
  Total-exists (suc d) c hc enough = elim (ℕ_discrete (t.num_children (perm c)) 0) [
    | yes leafy ↦ (input (perm c), leaf leafy)
    | no some_there ↦
        let (x, added) = Added-exists t input (perm c) t.n (λ j hj e.
          let (i, hi, at, later) = child_later c j hc hj e in
          let (y, total) = Total-exists d i hi (omega (arith, later, enough)) in
          (y, subst (λ k. Total t input k y) at total)) in
        (x, inner some_there added)
  ]

  node-Total : (j : ℕ) → j < t.n → (x : ℕ) × Total t input j x
  node-Total j hj =
      let (i, hi, at) = v.place_of j hj in
      let (x, total) = Total-exists t.n i hi (omega arith) in
      (x, subst (λ k. Total t input k x) at total)

  -- The sums below the nodes, as a function.
  Total-below : (j : ℕ) → (x : ℕ) × (j < t.n → Total t input j x)
  Total-below j = elim (dec_lt j t.n) [
    | yes h ↦ let (x, total) = node-Total j h in (x, λ g. total)
    | no h ↦ (0, λ g. absurd (h g))
  ]

  root-sum : t.root_node < t.n → Total t input t.root_node (sum_of (at_leaf t input) t.n)
  root-sum hr =
      subst (Total t input t.root_node)
        (root-leaves t input par (λ j. (Total-below j).0) w (λ j hj. (Total-below j).1 hj) hr)
        ((Total-below t.root_node).1 hr)

count-pos : (p : ℕ → Bool) (n j : ℕ) → j < n → p j ≡ true → 0 < count p n
unfolding count
count-pos p zero j h e = absurd (omega (arith, h))
count-pos p (suc n) j h e = elim (ℕ_discrete j n) [
  | yes last ↦ ground (arith, e, last)
  | no inside ↦ omega (arith, count-pos p n j (omega (arith, h, inside)) e)
]

-- For every tree that the generator writes, of at least one node and at most as many as the arrays hold, and
-- every order of the threads: the generator ends, its file is read, the number that the root prints is the sum
-- of the numbers that all leaves read, modulo the range of an int, and if there are two nodes or more, there
-- is never a state in which all threads are past their barriers.
pub generated_sum :
    (rand garbage input : ℕ → ℕ) (n : ℕ)
    → 0 < n
    → n ≤ array_size
    → (parent : ℕ → ℕ) × (t : NodeTree) × (gentree rand garbage n ≡ some parent)
      × (read_nodes (tree_lines n 0 parent) (empty_tree n) ≡ some t)
      × ((s : Nodes) (x : ℕ)
          → Reached t input s
          → s.printed ≡ some x
          → x ≡ sum_of (at_leaf t input) n % int_range)
      × (1 < n → (s : Nodes) → Reached t input s → ¬ ((i : ℕ) → i < n → s.stage i ≡ exiting))
unfolding empty_tree
generated_sum rand garbage input n pos small =
    let perm = shuffled rand n n in
    let v = shuffled-IsShuffle rand n n (omega arith) in
    let (parent, made, p) = gentree-Placed rand garbage n pos in
    let r = Placed-HasRoot n perm parent pos v p in
    let lines = tree_lines n 0 parent in
    let nodes = tree_lines-AreNodes n 0 n parent (omega arith) in
    let (t, e, read) =
      read_nodes-IsRead n parent (perm 0) r small n 0 (empty_tree n) (omega arith) record {
        size = refl;
        parents = λ j hj. absurd (omega (arith, hj));
        root_read = λ h. absurd (omega (arith, h));
      } in
    let (size, counted) = read-IsCounted n lines t nodes e in
    let below = v.inside 0 pos in
    let root = read.root_read below in
    let w : IsTree t parent = record {
      counted = counted;
      parents = λ j hj. read.parents j (omega (arith, hj, size));
      inside = λ j hj. let q = r.inside j (omega (arith, hj, size)) in omega (arith, q, size);
      own = rw root r.own;
      only = λ j hj f. r.only j (omega (arith, hj, size)) f ∙ sym root;
    } in
    let hr : t.root_node < t.n = omega (arith, root, size, below) in
    let total =
      root-sum t input parent perm w (subst (λ m. IsShuffle m perm) (sym size) v)
        (subst (λ m. Placed m perm parent (m - 1)) (sym size) p) hr in
    (
      parent,
      t,
      made,
      e,
      (λ s x reached shown.
          let (y, there, equal, unique) = printed-Total n lines t input s x nodes e reached shown in
          let same = unique (sum_of (at_leaf t input) t.n) total in
          equal ∙ ap (λ m. m % int_range) (sym same ∙ ap (sum_of (at_leaf t input)) size)),
      λ two s reached all.
          let (q, hq, there) = p.before 1 (omega arith) (omega (arith, two)) in
          let first : q ≡ 0 = omega (arith, hq) in
          let up : parent (perm 1) ≡ t.root_node = there ∙ ap perm first ∙ sym root in
          let held = v.inside 1 two in
          let apart = v.once 0 1 pos two in
          let read_up = read.parents (perm 1) held in
          let kid : is_child t t.root_node (perm 1) ≡ true =
            ground (arith, read_up, up, root, apart) in
          let many =
            count-pos (is_child t t.root_node) t.n (perm 1) (omega (arith, held, size)) kid in
          let own : t.parent t.root_node ≡ some t.root_node =
            read.parents t.root_node (omega (arith, hr, size)) ∙ ap some w.own in
          never_all_exiting n lines t input s nodes e hr own
            (omega (arith, many, counted t.root_node)) reached
            (λ i hi. all i (omega (arith, hi, size))),
    )
