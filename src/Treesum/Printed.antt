-- ===== src/Treesum/Printed.antt =====
-- A7/computesum.c: what the root prints.
use os_lab_sp.Prelude.{
  ℕ, ◌%◌, ◌≡◌, refl, List, some, ◌==◌, ltb, ap, subst, Bool-cases, Option-cases, inl, inr,
}
use os_lab_sp.Threads.{barrier_step, arrive_at, pass}
use os_lab_sp.Treesum.{
  NodeTree, empty_tree, read_nodes, Stage, first_call, first_wait, working, second_call,
  second_wait, exiting, Nodes, call_barrier, pass_barrier, step_at, node_step, created, int_range,
}
use os_lab_sp.Treesum.Counting.{After}
use os_lab_sp.Treesum.Reading.{AreNodes, IsCounted, read-IsCounted}
use os_lab_sp.Treesum.Waiting.{AtBarriers}
use os_lab_sp.Treesum.Reached.{Reached, at_start, after_step, Reached-AtBarriers}
use os_lab_sp.Treesum.Unique.{Total-unique}
use os_lab_sp.Treesum.Sums.{Total, AreSums, worked, go-AreSums, node_work-AreSums}

call_barrier-AreSums :
    (t : NodeTree) (input : ℕ → ℕ) (s : Nodes) (i b : ℕ) (waiting after : Stage)
    → worked (s.stage i) ≡ worked waiting
    → worked (s.stage i) ≡ worked after
    → AreSums t input s
    → After (AreSums t input) (call_barrier b i waiting after s)
unfolding call_barrier
call_barrier-AreSums t input s i b waiting after now later v =
    elim (Option-cases (barrier_step arrive_at (s.barrier b))) [
      | inl e ↦ rw e tt
      | inr (x, e) ↦ rw e (elim (Bool-cases (x.count == 0)) [
        | inl last ↦ rw last (go-AreSums t input s i b after x later v)
        | inr other ↦ rw other (go-AreSums t input s i b waiting x now v)
      ])
    ]

pass_barrier-AreSums :
    (t : NodeTree) (input : ℕ → ℕ) (s : Nodes) (i b : ℕ) (after : Stage)
    → worked (s.stage i) ≡ worked after
    → AreSums t input s
    → After (AreSums t input) (pass_barrier b i after s)
unfolding pass_barrier
pass_barrier-AreSums t input s i b after same v =
    elim (Option-cases (barrier_step pass (s.barrier b))) [
      | inl e ↦ rw e tt
      | inr (x, e) ↦ rw e (go-AreSums t input s i b after x same v)
    ]

step_at-AreSums :
    (p : Stage) (t : NodeTree) (input : ℕ → ℕ) (s : Nodes) (i : ℕ)
    → IsCounted t
    → AtBarriers t s
    → s.stage i ≡ p
    → AreSums t input s
    → After (AreSums t input) (step_at p t input i s)
unfolding step_at
step_at-AreSums first_call t input s i counted at here v =
    call_barrier-AreSums t input s i i first_wait working (ap worked here) (ap worked here) v
step_at-AreSums first_wait t input s i counted at here v =
    pass_barrier-AreSums t input s i i working (ap worked here) v
step_at-AreSums working t input s i counted at here v =
    node_work-AreSums t input s i counted at here v
step_at-AreSums second_call t input s i counted at here v = elim (Option-cases (t.parent i)) [
  | inl e ↦ rw e tt
  | inr (p, e) ↦
      rw e
        (call_barrier-AreSums t input s i p second_wait exiting (ap worked here) (ap worked here) v)
]
step_at-AreSums second_wait t input s i counted at here v = elim (Option-cases (t.parent i)) [
  | inl e ↦ rw e tt
  | inr (p, e) ↦ rw e (pass_barrier-AreSums t input s i p exiting (ap worked here) v)
]
step_at-AreSums exiting t input s i counted at here v = tt

node_step-AreSums :
    (t : NodeTree) (input : ℕ → ℕ) (s : Nodes) (i : ℕ)
    → IsCounted t
    → AtBarriers t s
    → AreSums t input s
    → After (AreSums t input) (node_step t input i s)
unfolding node_step
node_step-AreSums t input s i counted at v = elim (Bool-cases (ltb i t.n)) [
  | inl h ↦ rw h (step_at-AreSums (s.stage i) t input s i counted at refl v)
  | inr h ↦ rw h tt
]

Reached-AreSums :
    (t : NodeTree) (input : ℕ → ℕ) (s : Nodes) → IsCounted t → Reached t input s → AreSums t input s
unfolding created
Reached-AreSums t input s counted at_start = record {
  blank = λ i h. refl;
  sums = λ i h. cc;
  shown = λ v h. cc;
}
Reached-AreSums t input u counted (after_step {s} i r e) = subst (After (AreSums t input)) e (
    node_step-AreSums t input s i counted (Reached-AtBarriers t input s r)
      (Reached-AreSums t input s counted r))

-- Whatever the order of the threads, for a tree that is read from lines with different nodes below `n`:
-- when the root has printed a number, it is the sum of the numbers at the leaves below the root, of which
-- there is exactly one, modulo the range of an int.
pub printed-Total :
    (n : ℕ) (lines : List (ℕ × ℕ)) (t : NodeTree) (input : ℕ → ℕ) (s : Nodes) (x : ℕ)
    → AreNodes n lines
    → read_nodes lines (empty_tree n) ≡ some t
    → Reached t input s
    → s.printed ≡ some x
    → (v : ℕ) × Total t input t.root_node v
      × (x ≡ v % int_range)
      × ((w : ℕ) → Total t input t.root_node w → w ≡ v)
printed-Total n lines t input s x nodes read r shown =
    let (v, total, equal) =
      (Reached-AreSums t input s (read-IsCounted n lines t nodes read).1 r).shown x shown in
    (v, total, equal, λ w other. Total-unique t input t.root_node w v other total)
