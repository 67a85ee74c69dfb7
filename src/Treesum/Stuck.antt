-- ===== src/Treesum/Stuck.antt =====
-- A7/computesum.c: the root calls foothread_barrier_wait twice for the same barrier.
use os_lab_sp.Prelude.{
  ℕ, zero, suc, ◌+◌, ◌*◌, ◌<◌, ◌≡◌, ◌≢◌, false, List, some, ◌&&◌, arith, ap, ◌∙◌, ℕ_discrete,
}
use os_lab_sp.Threads.Barrier.{Visited-InRounds, next_multiple}
use os_lab_sp.Treesum.{NodeTree, empty_tree, read_nodes, is_parent, is_child, exiting, Nodes}
use os_lab_sp.Treesum.Counting.{count, count-le, count_more, count-none}
use os_lab_sp.Treesum.Reading.{AreNodes, read-IsCounted}
use os_lab_sp.Treesum.Barriers.{arrived_up, waits_up, entered, waits, tally}
use os_lab_sp.Treesum.Reached.{Reached, Reached-AtBarriers}

one_too_many : (n r : ℕ) → 1 < n → n * r ≢ n + 1
one_too_many n zero h e = omega (arith, h, e)
one_too_many n (suc zero) h e = omega (arith, h, e)
one_too_many n (suc (suc r)) h e = omega (arith, h, e, next_multiple n (r + 1), next_multiple n r)

-- The root is the only parent of itself.
count-root :
    (t : NodeTree) (i : ℕ)
    → i < t.n
    → t.parent i ≡ some i
    → count (λ j. is_parent (t.parent j) i) t.n ≡ count (is_child t i) t.n + 1
count-root t i hi own =
    count_more (is_child t i) (λ j. is_parent (t.parent j) i) t.n i hi (ground arith)
      (λ j. elim (ℕ_discrete j i) [
        | yes e ↦
            let parent : t.parent j ≡ some i = ap t.parent e ∙ own in rw parent (ground (arith, e))
        | no e ↦ ground (arith, e)
      ])

-- When all threads are past their barriers, those that the root is at count one call too many.
module _ (t : NodeTree) (s : Nodes) (all : (i : ℕ) → i < t.n → s.stage i ≡ exiting) where
  all_arrived :
      (b : ℕ)
      → b < t.n
      → tally arrived_up entered t b s.stage ≡ count (λ j. is_parent (t.parent j) b) t.n + 1
  all_arrived b hb =
      let most =
        count-le (λ j. is_parent (t.parent j) b)
          (λ j. is_parent (t.parent j) b && arrived_up (s.stage j)) t.n
          (λ j hj e. let up = ap arrived_up (all j hj) in ground (arith, e, up)) in
      let least =
        count-le (λ j. is_parent (t.parent j) b && arrived_up (s.stage j))
          (λ j. is_parent (t.parent j) b) t.n (λ j hj e. ground (arith, e)) in
      let in_it = ap entered (all b hb) in ground (arith, most, least, in_it)

  nobody_waits : (b : ℕ) → b < t.n → tally waits_up waits t b s.stage ≡ 0
  nobody_waits b hb =
      let most =
        count-le (λ j. is_parent (t.parent j) b && waits_up (s.stage j)) (λ j. false) t.n
          (λ j hj e. let up = ap waits_up (all j hj) in ground (arith, e, up)) in
      let out = ap waits (all b hb) in ground (arith, most, out, count-none t.n)

-- Whatever the order of the threads, for a tree that is read from lines with different nodes below `n`, in
-- which the root is its own parent and has a child: there is never a state in which all of the threads are
-- past their barriers.
pub never_all_exiting :
    (n : ℕ) (lines : List (ℕ × ℕ)) (t : NodeTree) (input : ℕ → ℕ) (s : Nodes)
    → AreNodes n lines
    → read_nodes lines (empty_tree n) ≡ some t
    → t.root_node < t.n
    → t.parent t.root_node ≡ some t.root_node
    → 0 < t.num_children t.root_node
    → Reached t input s
    → ¬ ((i : ℕ) → i < t.n → s.stage i ≡ exiting)
never_all_exiting n lines t input s nodes read hr own kids r all =
    let root = t.root_node in
    let at = Reached-AtBarriers t input s r in
    let size = t.num_children root + 1 in
    let v = Visited-InRounds size (s.barrier root) (omega arith) (at.visited root) in
    let counted = (read-IsCounted n lines t nodes read).1 root in
    let calls = at.arrived root ∙ all_arrived t s all root hr in
    let silent = at.waiting root ∙ nobody_waits t s all root hr in
    one_too_many size v.rounds (omega (arith, kids))
      (omega (arith, v.calls, v.queue, calls, silent, counted, count-root t root hr own))
