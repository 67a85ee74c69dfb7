-- ===== src/Treesum/Tests.antt =====
-- A7/computesum.c: a tree with two leaves.
use os_lab_sp.Prelude.{
  ℕ, ◌%◌, ◌<◌, ◌≡◌, refl, List, [], ◌∷◌, Option, none, some, ◌>>=◌, ◌==◌, if◌then◌else◌, arith,
  Option-cases, inl, inr, subst, ap, sym, ◌∙◌,
}
use os_lab_sp.Threads.{barrier_init}
use os_lab_sp.Treesum.{
  NodeTree, empty_tree, read_nodes, exiting, second_wait, Nodes, node_step, created, int_range,
}
use os_lab_sp.Treesum.Reached.{Reached, at_start, after_step}
use os_lab_sp.Treesum.Sums.{Total}
use os_lab_sp.Treesum.Printed.{printed-Total}
use os_lab_sp.Treesum.Stuck.{never_all_exiting}

abbrev small_lines : List (ℕ × ℕ)
small_lines = (1, 0) ∷ (0, 0) ∷ (2, 0) ∷ []

abbrev tree_of : Option NodeTree → NodeTree
tree_of none = empty_tree 0
tree_of (some t) = t

abbrev small : NodeTree
small = tree_of (read_nodes small_lines (empty_tree 3))

abbrev input : ℕ → ℕ
input i = if i == 1 then 5 else 7

-- The threads run in an order.
abbrev run : List ℕ → Nodes → Option Nodes
run [] s = some s
run (i ∷ order) s = node_step small input i s >>= run order

run-Reached :
    (order : List ℕ) (s u : Nodes)
    → Reached small input s
    → run order s ≡ some u
    → Reached small input u
run-Reached [] s u r e = subst (Reached small input) (ground (arith, e)) r
run-Reached (i ∷ order) s u r e = elim (Option-cases (node_step small input i s)) [
  | inl f ↦ absurd (
      let blocked : none ≡ some u = sym (ap (λ o. o >>= run order) f) ∙ e in
      ground (arith, blocked))
  | inr (w, f) ↦ run-Reached order w u (after_step i r f) (sym (ap (λ o. o >>= run order) f) ∙ e)
]

abbrev nodes_of : Option Nodes → Nodes
nodes_of none = created small
nodes_of (some s) = s

abbrev order : List ℕ
order = 1 ∷ 1 ∷ 0 ∷ 2 ∷ 1 ∷ 2 ∷ 2 ∷ 0 ∷ 0 ∷ []

abbrev after : Nodes
after = nodes_of (run order (created small))

root_prints : after.printed ≡ some 12
unfolding read_nodes empty_tree created node_step barrier_init
root_prints = refl

-- One of the threads never gets past the barrier of the root.
abbrev at_end : Nodes
at_end = nodes_of (run (1 ∷ 0 ∷ []) after)

root_waits : (at_end.stage 0 ≡ second_wait) × (node_step small input 0 at_end ≡ none)
unfolding read_nodes empty_tree created node_step barrier_init
root_waits = (refl, refl)

order_runs : run order (created small) ≡ some after
unfolding read_nodes empty_tree created node_step barrier_init
order_runs = refl

printed-Total_example :
    (v : ℕ) × Total small input small.root_node v
    × (12 ≡ v % int_range)
    × ((w : ℕ) → Total small input small.root_node w → w ≡ v)
unfolding read_nodes empty_tree created node_step barrier_init
printed-Total_example =
    printed-Total 3 small_lines small input after 12
      (
        omega arith,
        ((λ e. omega (arith, e)), ((λ e. omega (arith, e)), tt)),
        (omega arith, ((λ e. omega (arith, e)), tt), (omega arith, tt, tt)),
      )
      refl (run-Reached order (created small) after at_start order_runs) refl

root_holds_all : ¬ ((i : ℕ) → i < small.n → after.stage i ≡ exiting)
unfolding read_nodes empty_tree created node_step barrier_init
root_holds_all =
    never_all_exiting 3 small_lines small input after
      (
        omega arith,
        ((λ e. omega (arith, e)), ((λ e. omega (arith, e)), tt)),
        (omega arith, ((λ e. omega (arith, e)), tt), (omega arith, tt, tt)),
      )
      refl (omega arith) refl (omega arith)
      (run-Reached order (created small) after at_start order_runs)
