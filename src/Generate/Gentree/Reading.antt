-- ===== src/Generate/Gentree/Reading.antt =====
-- A7/gentree.c and A7/computesum.c: the tree that is written is the tree that is read.
use os_lab_sp.Prelude.{
  ℕ, zero, suc, ◌+◌, ◌-◌, ◌<◌, ◌≤◌, ◌≡◌, refl, true, some, ◌==◌, ltb, ◌&&◌, arith, ap, sym, ◌∙◌,
  subst, ℕ_discrete, Bool-cases, inl, inr,
}
use os_lab_sp.Prelude.Family.{update}
use os_lab_sp.Generate.Shuffle.{IsShuffle}
use os_lab_sp.Generate.Gentree.{tree_lines}
use os_lab_sp.Generate.Gentree.Growing.{Placed}
use os_lab_sp.Treesum.{NodeTree, read_node, read_nodes, array_size}
use os_lab_sp.Treesum.Reading.{NotListed, AreNodes}

-- An array of parents in which only `root` is its own parent.
pub record HasRoot (n : ℕ) (parent : ℕ → ℕ) (root : ℕ) : Type 0 where
  pub inside : (j : ℕ) → j < n → parent j < n
  pub own : parent root ≡ root
  pub only : (j : ℕ) → j < n → parent j ≡ j → j ≡ root

pub Placed-HasRoot :
    (n : ℕ) (perm parent : ℕ → ℕ)
    → 0 < n
    → IsShuffle n perm
    → Placed n perm parent (n - 1)
    → HasRoot n parent (perm 0)
Placed-HasRoot n perm parent h v w = record {
  inside = λ j hj.
      let (i, hi, e) = v.place_of j hj in
      elim (ℕ_discrete i 0) [
        | yes first ↦
            let at : j ≡ perm 0 = sym e ∙ ap perm first in
            let r = v.inside 0 h in omega (arith, r, ap parent at, w.root)
        | no later ↦
            let (p, hp, there) = w.before i (omega (arith, later)) (omega (arith, hi)) in
            let r = v.inside p (omega (arith, hp, hi)) in omega (arith, r, ap parent e, there)
      ];
  own = w.root;
  only = λ j hj same.
      let (i, hi, e) = v.place_of j hj in
      elim (ℕ_discrete i 0) [
        | yes first ↦ sym e ∙ ap perm first
        | no later ↦
            let (p, hp, there) = w.before i (omega (arith, later)) (omega (arith, hi)) in
            let r =
              v.once p i (omega (arith, hp, hi)) hi (sym there ∙ ap parent e ∙ same ∙ sym e) in
            absurd (omega (arith, r, hp))
      ];
}

NotListed-tree_lines : (k i a : ℕ) (parent : ℕ → ℕ) → a < i → NotListed a (tree_lines k i parent)
unfolding tree_lines
NotListed-tree_lines zero i a parent h = tt
NotListed-tree_lines (suc k) i a parent h =
    ((λ e. omega (arith, e, h)), NotListed-tree_lines k (i + 1) a parent (omega (arith, h)))

pub tree_lines-AreNodes :
    (k i n : ℕ) (parent : ℕ → ℕ) → i + k ≤ n → AreNodes n (tree_lines k i parent)
unfolding tree_lines
tree_lines-AreNodes zero i n parent h = tt
tree_lines-AreNodes (suc k) i n parent h = (
  omega (arith, h),
  NotListed-tree_lines k (i + 1) i parent (omega arith),
  tree_lines-AreNodes k (i + 1) n parent (omega (arith, h)),
)

-- The first `i` lines of the file were read.
pub record IsRead (n i : ℕ) (parent : ℕ → ℕ) (root : ℕ) (t : NodeTree) : Type 0 where
  pub size : t.n ≡ n
  pub parents : (j : ℕ) → j < i → t.parent j ≡ some (parent j)
  pub root_read : root < i → t.root_node ≡ root

module _ (n : ℕ) (parent : ℕ → ℕ) (root : ℕ) (r : HasRoot n parent root)
    (small : n ≤ array_size) where
  read_node-IsRead :
      (i : ℕ) (t : NodeTree)
      → i < n
      → IsRead n i parent root t
      → (u : NodeTree) × (read_node (i, parent i) t ≡ some u) × IsRead n (i + 1) parent root u
  unfolding read_node
  read_node-IsRead i t hi v =
      let below = r.inside i hi in
      let inside : (ltb i array_size && ltb (parent i) array_size) ≡ true =
        ground (arith, hi, below, small) in
      let parents : (j : ℕ) → j < i + 1 → update t.parent i (some (parent i)) j ≡ some (parent j) =
        λ (j : ℕ) (hj : j < i + 1). elim (ℕ_discrete j i) [
          | yes e ↦ ground (arith, e)
          | no e ↦ let old = v.parents j (omega (arith, hj, e)) in ground (arith, old, e)
        ] in
      let w = record t { parent = update t.parent i (some (parent i)) } in
      elim (Bool-cases (i == parent i)) [
        | inl own ↦ (
          record w { root_node = i },
          rw (inside, own) refl,
          record {
            size = v.size;
            parents = parents;
            root_read = λ h. r.only i hi (ground (arith, own));
          },
        )
        | inr inner ↦ (
          record w {
            num_children = update t.num_children (parent i) (t.num_children (parent i) + 1);
          },
          rw (inside, inner) refl,
          record {
            size = v.size;
            parents = parents;
            root_read = λ h. v.root_read (ground (arith, h, inner, r.own));
          },
        )
      ]

  pub read_nodes-IsRead :
      (k i : ℕ) (t : NodeTree)
      → i + k ≡ n
      → IsRead n i parent root t
      → (u : NodeTree) × (read_nodes (tree_lines k i parent) t ≡ some u) × IsRead n n parent root u
  unfolding read_nodes tree_lines
  read_nodes-IsRead zero i t h v =
      let last : i ≡ n = omega (arith, h) in (t, refl, subst (λ m. IsRead n m parent root t) last v)
  read_nodes-IsRead (suc k) i t h v =
      let (u, e, w) = read_node-IsRead i t (omega (arith, h)) v in
      let (x, f, y) = read_nodes-IsRead k (i + 1) u (omega (arith, h)) w in (x, rw e f, y)
