-- ===== src/Treesum.antt =====
-- A7/computesum.c: a thread for each node of a tree computes the sum of its children, after a barrier
-- (A7/foothread.c) at which they all have arrived. A call of foothread_barrier_wait is a step to arrive
-- and, for a thread that waits, a step to pass; the part under csmtx is one step. A number of type int is
-- its 32-bit pattern.
pub mod Counting
pub mod Reading
pub mod Barriers
pub mod Waiting
pub mod Moves
pub mod Steps
pub mod Reached
pub mod Sums
pub mod Unique
pub mod Leaves
pub mod Printed
pub mod Stuck
mod Tests
use os_lab_sp.Prelude.{
  ℕ, zero, suc, ◌+◌, ◌-◌, ◌%◌, ◌^◌, ◌<◌, ◌≤◌, ◌≡◌, Bool, true, false, List, [], ◌∷◌, Option, none,
  some, ◌==◌, ◌&&◌, not, ltb, if◌then◌else◌, ◌>>=◌,
}
use os_lab_sp.Prelude.Family.{update}
use os_lab_sp.Threads.{BarrierState, barrier_init, barrier_step, arrive_at, pass}

-- The length of the arrays.
abbrev pub array_size : ℕ
array_size = 100

abbrev pub int_range : ℕ
int_range = 2 ^ 32

-- The global variables that main fills. A parent is `none` for -1.
pub record NodeTree : Type 0 where
  pub n : ℕ
  pub parent : ℕ → Option ℕ
  pub num_children : ℕ → ℕ
  pub root_node : ℕ

unfoldable pub empty_tree : ℕ → NodeTree
empty_tree n = record { n = n; parent = λ i. none; num_children = λ i. 0; root_node = 0 }

-- A line of the file: a node and its parent.
unfoldable pub read_node : ℕ × ℕ → NodeTree → Option NodeTree
read_node (a, b) t =
    let u = record t { parent = update t.parent a (some b) } in
    if not (ltb a array_size && ltb b array_size)
    then none
    else if a == b
    then some (record u { root_node = a })
    else some (record u { num_children = update t.num_children b (t.num_children b + 1) })

unfoldable pub read_nodes : List (ℕ × ℕ) → NodeTree → Option NodeTree
unfolding read_node
read_nodes [] t = some t
read_nodes (line ∷ lines) t = read_node line t >>= read_nodes lines

abbrev pub is_parent : Option ℕ → ℕ → Bool
is_parent none b = false
is_parent (some p) b = p == b

-- P[j] == i && i != j
abbrev pub is_child : NodeTree → ℕ → ℕ → Bool
is_child t i j = is_parent (t.parent j) i && not (i == j)

-- Where a thread is: before its own barrier; in it; past it; before the barrier of the parent; in it; past it.
pub data Stage : Type 0 where
  first_call first_wait working second_call second_wait exiting : Stage

pub record Nodes : Type 0 where
  pub stage : ℕ → Stage
  pub sum : ℕ → ℕ
  pub barrier : ℕ → BarrierState
  pub printed : Option ℕ  -- the sum at the root

unfoldable pub created : NodeTree → Nodes
unfolding barrier_init
created t = record {
  stage = λ i. first_call;
  sum = λ i. 0;
  barrier = λ i. barrier_init (t.num_children i + 1);
  printed = none;
}

abbrev pub go : ℕ → Stage → ℕ → BarrierState → Nodes → Nodes
go i stage b x s = record s { stage = update s.stage i stage; barrier = update s.barrier b x }

-- foothread_barrier_wait on the barrier of `b` by thread `i`: the last caller goes on.
unfoldable pub call_barrier : ℕ → ℕ → Stage → Stage → Nodes → Option Nodes
unfolding barrier_step
call_barrier b i waiting after s = barrier_step arrive_at (s.barrier b) >>= λ x.
    some (go i (if x.count == 0 then after else waiting) b x s)

unfoldable pub pass_barrier : ℕ → ℕ → Stage → Nodes → Option Nodes
unfolding barrier_step
pass_barrier b i after s = barrier_step pass (s.barrier b) >>= λ x. some (go i after b x s)

-- The loop over the first `k` nodes.
unfoldable pub add_children : NodeTree → ℕ → (ℕ → ℕ) → ℕ → ℕ
add_children t i sum zero = sum i
add_children t i sum (suc k) =
    let before = add_children t i sum k in
    if is_child t i k then (before + sum k) % int_range else before

-- What thread `i` does between its two barriers; `input` has the numbers that are entered.
unfoldable pub node_work : NodeTree → (ℕ → ℕ) → ℕ → Nodes → Nodes
unfolding add_children
node_work t input i s =
    let total = add_children t i s.sum t.n in
    if t.num_children i == 0
    then record s {
      stage = update s.stage i second_call;
      sum = update s.sum i (input i % int_range);
    }
    else record s {
      stage = update s.stage i second_call;
      sum = update s.sum i total;
      printed = if i == t.root_node then some total else s.printed;
    }

unfoldable pub step_at : Stage → NodeTree → (ℕ → ℕ) → ℕ → Nodes → Option Nodes
unfolding call_barrier pass_barrier node_work
step_at first_call t input i s = call_barrier i i first_wait working s
step_at first_wait t input i s = pass_barrier i i working s
step_at working t input i s = some (node_work t input i s)
step_at second_call t input i s = t.parent i >>= λ p. call_barrier p i second_wait exiting s
step_at second_wait t input i s = t.parent i >>= λ p. pass_barrier p i exiting s
step_at exiting t input i s = none

-- The next step of the thread of node `i`.
unfoldable pub node_step : NodeTree → (ℕ → ℕ) → ℕ → Nodes → Option Nodes
unfolding step_at
node_step t input i s =
    let next = step_at (s.stage i) t input i s in if ltb i t.n then next else none
