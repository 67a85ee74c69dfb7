-- ===== src/Treesum/Reached.antt =====
-- A7/computesum.c: the threads in any order.
use os_lab_sp.Prelude.{ℕ, ◌≡◌, refl, some, ltb, arith, subst, Bool-cases, inl, inr}
use os_lab_sp.Threads.Barrier.{fresh}
use os_lab_sp.Treesum.{NodeTree, is_parent, Nodes, node_step, created}
use os_lab_sp.Treesum.Counting.{After, count_nobody}
use os_lab_sp.Treesum.Waiting.{AtBarriers}
use os_lab_sp.Treesum.Steps.{step_at-AtBarriers}

-- The states of the threads.
pub data Reached (t : NodeTree) (input : ℕ → ℕ) : Nodes → Type 0 where
  at_start : Reached t input (created t)
  after_step :
      {s u : Nodes} (i : ℕ) → Reached t input s → node_step t input i s ≡ some u → Reached t input u

created-AtBarriers : (t : NodeTree) → AtBarriers t (created t)
unfolding created
created-AtBarriers t = record {
  visited = λ b. fresh;
  arrived = λ b. ground (arith, count_nobody (λ j. is_parent (t.parent j) b) t.n);
  waiting = λ b. ground (arith, count_nobody (λ j. is_parent (t.parent j) b) t.n);
  through = λ b past. cc;
}

node_step-AtBarriers :
    (t : NodeTree) (input : ℕ → ℕ) (s : Nodes) (i : ℕ)
    → AtBarriers t s
    → After (AtBarriers t) (node_step t input i s)
unfolding node_step
node_step-AtBarriers t input s i v = elim (Bool-cases (ltb i t.n)) [
  | inl h ↦ rw h (step_at-AtBarriers (s.stage i) t input s i (ground (arith, h)) refl v)
  | inr h ↦ rw h tt
]

pub Reached-AtBarriers :
    (t : NodeTree) (input : ℕ → ℕ) (s : Nodes) → Reached t input s → AtBarriers t s
Reached-AtBarriers t input s at_start = created-AtBarriers t
Reached-AtBarriers t input u (after_step {s} i r e) =
    subst (After (AtBarriers t)) e
      (node_step-AtBarriers t input s i (Reached-AtBarriers t input s r))
