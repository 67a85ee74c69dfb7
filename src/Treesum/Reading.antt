-- ===== src/Treesum/Reading.antt =====
-- A7/computesum.c: the tree that main reads.
use os_lab_sp.Prelude.{
  ℕ, ◌+◌, ◌<◌, ◌≡◌, ◌≢◌, refl, List, [], ◌∷◌, Option, none, some, ◌==◌, ◌&&◌, not, ltb, arith, ap,
  sym, subst, Bool-cases, Option-cases, inl, inr,
}
use os_lab_sp.Prelude.Family.{update}
use os_lab_sp.Treesum.{NodeTree, empty_tree, read_node, read_nodes, is_parent, is_child, array_size}
use os_lab_sp.Treesum.Counting.{After, bit, count, count-update, count-none}

abbrev pub NotListed : ℕ → List (ℕ × ℕ) → Type 0
NotListed a [] = Unit
NotListed a (line ∷ lines) = (line.0 ≢ a) × NotListed a lines

-- The lines name different nodes below `n`.
abbrev pub AreNodes : ℕ → List (ℕ × ℕ) → Type 0
AreNodes n [] = Unit
AreNodes n (line ∷ lines) = (line.0 < n) × NotListed line.0 lines × AreNodes n lines

-- The number of children is the number of the nodes that have the node as their parent.
abbrev pub IsCounted : NodeTree → Type 0
IsCounted t = (b : ℕ) → t.num_children b ≡ count (is_child t b) t.n

-- The nodes of the lines have no parent yet.
abbrev AreNew : (ℕ → Option ℕ) → List (ℕ × ℕ) → Type 0
AreNew parent [] = Unit
AreNew parent (line ∷ lines) = (parent line.0 ≡ none) × AreNew parent lines

AreNew-update :
    (parent : ℕ → Option ℕ) (a : ℕ) (p : Option ℕ) (lines : List (ℕ × ℕ))
    → NotListed a lines
    → AreNew parent lines
    → AreNew (update parent a p) lines
AreNew-update parent a p [] other new = tt
AreNew-update parent a p (line ∷ lines) other new =
    (ground (arith, other.0, new.0), AreNew-update parent a p lines other.1 new.1)

-- One more node counts for its parent only.
count-read :
    (t : NodeTree) (a b c : ℕ)
    → a < t.n
    → t.parent a ≡ none
    → count (λ j. is_parent (update t.parent a (some b) j) c && not (c == j)) t.n
      ≡ bit ((b == c) && not (c == a)) + count (is_child t c) t.n
count-read t a b c ha new =
    let change = count-update (λ j p. is_parent p c && not (c == j)) t.parent a (some b) t.n ha in
    let before : bit (is_parent (t.parent a) c && not (c == a)) ≡ 0 =
      ap (λ p. bit (is_parent p c && not (c == a))) new in
    omega (arith, change, before)

-- A node that is read keeps the counts right.
abbrev Reads : NodeTree → ℕ → ℕ → NodeTree → Type 0
Reads t a b u = (u.n ≡ t.n) × (u.parent ≡ update t.parent a (some b)) × IsCounted u

read_node-Reads :
    (a b : ℕ) (t : NodeTree)
    → a < t.n
    → t.parent a ≡ none
    → IsCounted t
    → After (Reads t a b) (read_node (a, b) t)
unfolding read_node
read_node-Reads a b t ha new v = elim (Bool-cases (ltb a array_size && ltb b array_size)) [
  | inl inside ↦ rw inside (elim (Bool-cases (a == b)) [
    | inl root ↦ rw root (refl, refl, λ c. ground (arith, count-read t a b c ha new, v c, root))
    | inr inner ↦ rw inner (refl, refl, λ c. ground (arith, count-read t a b c ha new, v c, inner))
  ])
  | inr outside ↦ rw outside tt
]

read_nodes-IsCounted :
    (lines : List (ℕ × ℕ)) (t : NodeTree)
    → AreNodes t.n lines
    → AreNew t.parent lines
    → IsCounted t
    → After (λ u. (u.n ≡ t.n) × IsCounted u) (read_nodes lines t)
unfolding read_nodes
read_nodes-IsCounted [] t nodes new v = (refl, v)
read_nodes-IsCounted ((a, b) ∷ lines) t nodes new v = elim (Option-cases (read_node (a, b) t)) [
  | inl e ↦ rw e tt
  | inr (u, e) ↦
      let (same_n, parents, counted) =
        subst (After (Reads t a b)) e (read_node-Reads a b t nodes.0 new.0 v) in
      let rest =
        read_nodes-IsCounted lines u (subst (λ n. AreNodes n lines) (sym same_n) nodes.2)
          (subst (λ p. AreNew p lines) (sym parents)
            (AreNew-update t.parent a (some b) lines nodes.1 new.1))
          counted in
      rw e (subst (λ n. After (λ w. (w.n ≡ n) × IsCounted w) (read_nodes lines u)) same_n rest)
]

AreNew-none : (lines : List (ℕ × ℕ)) → AreNew (λ i. none) lines
AreNew-none [] = tt
AreNew-none (line ∷ lines) = (refl, AreNew-none lines)

-- The tree that is read from lines with different nodes.
pub read-IsCounted :
    (n : ℕ) (lines : List (ℕ × ℕ)) (t : NodeTree)
    → AreNodes n lines
    → read_nodes lines (empty_tree n) ≡ some t
    → (t.n ≡ n) × IsCounted t
unfolding empty_tree
read-IsCounted n lines t nodes h =
    subst (After (λ u. (u.n ≡ n) × IsCounted u)) h (
      read_nodes-IsCounted lines (empty_tree n) nodes (AreNew-none lines) (λ b. sym (count-none n)))
